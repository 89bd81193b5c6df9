-- ===== src/Liby/Links/Ring.antt =====
-- The rings of liby/src/list.h: a head whose entries form a sequence.
pub mod Update
pub mod Walk
use old_tools.Common.{
  Avoids, Distinct, ℕ, zero, suc, ◌+◌, ◌<◌, ◌≡◌, refl, sym, ap, ◌∙◌, Bool, true, false, Option,
  none, some, List, [], ◌∷◌, ◌++◌, append_assoc, ◌==◌, ==_self, if◌then◌else◌, arith, length,
  Bool-cases, inl, inr,
}
use old_tools.Common.Run.{Run, done, fault, ◌>>=◌, >>=-done}
use old_tools.Liby.Links.{
  Field, Memory, load, set, save, list_add, list_add_tail, list_poison1, list_poison2, list_unlink,
  list_del, list_empty, list_for_each,
}

abbrev pub Edge : Memory → ℕ → ℕ → Type 0
Edge m a b = (m.next a ≡ some b) × (m.prev b ≡ some a)

-- From `a` on the entries are linked in both directions.
abbrev pub Linked : Memory → ℕ → List ℕ → Type 0
Linked m a [] = Unit {0}
Linked m a (x ∷ xs) = Edge m a x × Linked m x xs

-- The entries of the head, in order
pub record Ring (m : Memory) (head : ℕ) (entries : List ℕ) : Type 0 where
  pub path : Linked m head (entries ++ (head ∷ []))
  pub distinct : Distinct (head ∷ entries)

abbrev pub last : ℕ → List ℕ → ℕ
last a [] = a
last a (x ∷ xs) = last x xs

-- The entries that a path leaves by `next`
abbrev pub sources : ℕ → List ℕ → List ℕ
sources a [] = []
sources a (x ∷ xs) = a ∷ sources x xs

abbrev pub Mapped : Field → ℕ → Type 0
Mapped f a = (v : ℕ) × (f a ≡ some v)

pub set_self : (f : Field) (a v : ℕ) → set f a v a ≡ some v
set_self f a v = rw (==_self a)

pub set_other : (f : Field) (a v c : ℕ) → (c == a) ≡ false → set f a v c ≡ f c
set_other f a v c h = rw h

pub set-Mapped : (f : Field) (a v b : ℕ) → Mapped f b → Mapped (set f a v) b
set-Mapped f a v b (w, e) = elim (Bool-cases (b == a)) [ inl s ↦ (v, rw s) | inr o ↦ (w, rw o e) ]

pub load-Mapped : (f : Field) (a v : ℕ) → f a ≡ some v → load f a ≡ done v
unfolding load
load-Mapped f a v e = rw (e, load) refl

pub save-Mapped : (f : Field) (a v : ℕ) → Mapped f a → save f a v ≡ done (set f a v)
unfolding save
save-Mapped f a v (w, e) = rw (e, save) refl

pub Avoids-append : (c : ℕ) (xs ys : List ℕ) → Avoids c xs → Avoids c ys → Avoids c (xs ++ ys)
Avoids-append c [] ys h k = k
Avoids-append c (x ∷ xs) ys (p, h) k = (p, Avoids-append c xs ys h k)

pub Avoids-left : (c : ℕ) (xs ys : List ℕ) → Avoids c (xs ++ ys) → Avoids c xs
Avoids-left c [] ys h = tt
Avoids-left c (x ∷ xs) ys (p, h) = (p, Avoids-left c xs ys h)

pub Avoids-right : (c : ℕ) (xs ys : List ℕ) → Avoids c (xs ++ ys) → Avoids c ys
Avoids-right c [] ys h = h
Avoids-right c (x ∷ xs) ys (p, h) = Avoids-right c xs ys h

-- Writing a field leaves a path alone that does not use it
pub Linked-set_next :
    (m : Memory) (a c v : ℕ) (xs : List ℕ)
    → Avoids c (sources a xs)
    → Linked m a xs
    → Linked (record m { next = set m.next c v }) a xs
Linked-set_next m a c v [] h p = tt
Linked-set_next m a c v (x ∷ xs) (n, h) ((e, b), p) =
    ((set_other m.next c v a n ∙ e, b), Linked-set_next m x c v xs h p)

pub Linked-set_prev :
    (m : Memory) (a c v : ℕ) (xs : List ℕ)
    → Avoids c xs
    → Linked m a xs
    → Linked (record m { prev = set m.prev c v }) a xs
Linked-set_prev m a c v [] h p = tt
Linked-set_prev m a c v (x ∷ xs) (n, h) ((e, b), p) =
    ((e, set_other m.prev c v x n ∙ b), Linked-set_prev m x c v xs h p)

pub Linked-append :
    (m : Memory) (a : ℕ) (xs ys : List ℕ)
    → Linked m a xs
    → Linked m (last a xs) ys
    → Linked m a (xs ++ ys)
Linked-append m a [] ys p q = q
Linked-append m a (x ∷ xs) ys (e, p) q = (e, Linked-append m x xs ys p q)

pub Linked-split :
    (m : Memory) (a : ℕ) (xs ys : List ℕ)
    → Linked m a (xs ++ ys)
    → Linked m a xs × Linked m (last a xs) ys
Linked-split m a [] ys q = (tt, q)
Linked-split m a (x ∷ xs) ys (e, p) = let (q, r) = Linked-split m x xs ys p in ((e, q), r)

pub ==_false_sym : (a b : ℕ) → (a == b) ≡ false → (b == a) ≡ false
==_false_sym a b h = ground arith

pub Avoids-last : (c a : ℕ) (xs : List ℕ) → Avoids c (a ∷ xs) → (last a xs == c) ≡ false
Avoids-last c a [] h = h.0
Avoids-last c a (x ∷ xs) h = Avoids-last c x xs h.1

pub Avoids-sources : (c a : ℕ) (xs : List ℕ) → Avoids c (a ∷ xs) → Avoids c (sources a xs)
Avoids-sources c a [] h = tt
Avoids-sources c a (x ∷ xs) h = (h.0, Avoids-sources c x xs h.1)

-- The last entry is no source.
pub last-Avoids : (a : ℕ) (xs : List ℕ) → Distinct (a ∷ xs) → Avoids (last a xs) (sources a xs)
last-Avoids a [] d = tt
last-Avoids a (x ∷ xs) (h, d) =
    (==_false_sym (last x xs) a (Avoids-last a x xs h), last-Avoids x xs d)

pub sources_snoc : (y : ℕ) (ys : List ℕ) (h : ℕ) → sources y (ys ++ (h ∷ [])) ≡ y ∷ ys
sources_snoc y [] h = refl
sources_snoc y (z ∷ ys) h = ap (λ r. y ∷ r) (sources_snoc z ys h)

-- No address is in both lists.
abbrev pub Apart : List ℕ → List ℕ → Type 0
Apart [] ys = Unit {0}
Apart (x ∷ xs) ys = Avoids x ys × Apart xs ys

pub Distinct-split :
    (xs ys : List ℕ) → Distinct (xs ++ ys) → Distinct xs × Distinct ys × Apart xs ys
Distinct-split [] ys d = (tt, d, tt)
Distinct-split (x ∷ xs) ys (h, d) =
    let (p, q, r) = Distinct-split xs ys d in
    ((Avoids-left x xs ys h, p), q, (Avoids-right x xs ys h, r))

pub Distinct-append :
    (xs ys : List ℕ) → Distinct xs → Distinct ys → Apart xs ys → Distinct (xs ++ ys)
Distinct-append [] ys p q r = q
Distinct-append (x ∷ xs) ys (h, p) q (k, r) =
    (Avoids-append x xs ys h k, Distinct-append xs ys p q r)

pub Apart-last : (a : ℕ) (xs ys : List ℕ) → Apart (a ∷ xs) ys → Avoids (last a xs) ys
Apart-last a [] ys h = h.0
Apart-last a (x ∷ xs) ys h = Apart-last x xs ys h.1

pub Apart-uncons :
    (xs : List ℕ) (y : ℕ) (ys : List ℕ) → Apart xs (y ∷ ys) → Avoids y xs × Apart xs ys
Apart-uncons [] y ys h = (tt, tt)
Apart-uncons (x ∷ xs) y ys ((e, h), r) =
    let (p, q) = Apart-uncons xs y ys r in ((==_false_sym y x e, p), (h, q))

pub Apart-cons : (xs : List ℕ) (y : ℕ) → Avoids y xs → Apart xs (y ∷ [])
Apart-cons [] y h = tt
Apart-cons (x ∷ xs) y (e, h) = ((==_false_sym x y e, tt), Apart-cons xs y h)

-- The two memories agree on every other address.
abbrev pub Frame : Memory → Memory → List ℕ → Type 0
Frame m m' xs = (c : ℕ) → Avoids c xs → (m'.next c ≡ m.next c) × (m'.prev c ≡ m.prev c)

Linked-Frame :
    (m m' : Memory) (ys : List ℕ) (a : ℕ) (xs : List ℕ)
    → Frame m m' ys
    → Apart (a ∷ xs) ys
    → Linked m a xs
    → Linked m' a xs
Linked-Frame m m' ys a [] f d p = tt
Linked-Frame m m' ys a (x ∷ xs) f (d, e) ((n, b), p) =
    (((f a d).0 ∙ n, (f x e.0).1 ∙ b), Linked-Frame m m' ys x xs f e p)

pub Apart-snoc :
    (xs : List ℕ) (x : ℕ) (ys : List ℕ) → Avoids x ys → Apart xs ys → Apart (xs ++ (x ∷ [])) ys
Apart-snoc [] x ys h d = (h, tt)
Apart-snoc (a ∷ xs) x ys h (k, d) = (k, Apart-snoc xs x ys h d)

-- The right list may gain an entry, or lose its second.
pub Apart-push : (xs : List ℕ) (y : ℕ) (ys : List ℕ) → Avoids y xs → Apart xs ys → Apart xs (y ∷ ys)
Apart-push [] y ys h d = tt
Apart-push (x ∷ xs) y ys (e, h) (k, d) = ((==_false_sym x y e, k), Apart-push xs y ys h d)

pub Apart-append : (xs ys : List ℕ) (z : ℕ) → Avoids z xs → Apart xs ys → Apart xs (ys ++ (z ∷ []))
Apart-append [] ys z h d = tt
Apart-append (x ∷ xs) ys z (e, h) (k, d) =
    (Avoids-append x ys (z ∷ []) k (==_false_sym x z e, tt), Apart-append xs ys z h d)

pub Apart-drop : (xs : List ℕ) (y z : ℕ) (ys : List ℕ) → Apart xs (y ∷ z ∷ ys) → Apart xs (y ∷ ys)
Apart-drop [] y z ys d = tt
Apart-drop (x ∷ xs) y z ys ((a, (b, h)), d) = ((a, h), Apart-drop xs y z ys d)

-- A ring elsewhere stays as it is.
pub Ring-Frame :
    (m m' : Memory) (ys : List ℕ) (head : ℕ) (xs : List ℕ)
    → Frame m m' ys
    → Apart (head ∷ xs) ys
    → Ring m head xs
    → Ring m' head xs
Ring-Frame m m' ys head xs f (h, d) r = record {
  path = Linked-Frame m m' ys head (xs ++ (head ∷ [])) f (h, Apart-snoc xs head ys h d) r.path;
  distinct = r.distinct;
}

-- The entry behind the head, which is the head itself in an empty ring
abbrev pub front : ℕ → List ℕ → ℕ
front head [] = head
front head (x ∷ xs) = x
