-- ===== src/Splitter/Laws.antt =====
-- ysplit at joined strings, with a single separator, and at the end of a string
-- (splitter/ysplit.c).
use old_tools.Common.{
  ℕ, zero, suc, ◌+◌, ◌-◌, ◌*◌, ◌≤◌, ◌<◌, ◌≡◌, refl, sym, ap, ap₂, ◌∙◌, true, Option, none, some,
  List, [], ◌∷◌, ◌++◌, append_assoc, arith, ◌==◌, lt→ltb, le→ltb_false, length, length-append, drop,
  CString, strsep, contains, FreeOf, strsep-none, strsep-append, ==→eq, ==_self, Bool-cases, inl,
  inr,
}
use old_tools.Common.Run.{Run, done, fault, ◌>>=◌, >>=-done}
use old_tools.Splitter.{Slots, grow, store, advance, split_loop, finish, ysplit1, ysplit}

-- The array holds what was stored, and has room for one more string and the null pointer.
pub record IsRoomy (s : Slots) : Type 0 where
  pub room : s.i + 2 ≤ s.n
  pub capacity : 8 ≤ s.n

-- Storing a string after growing never passes the capacity.
store-grow :
    (token : CString) (s : Slots)
    → IsRoomy s
    → (s' : Slots) × (store token (grow s) ≡ done s')
      × (s'.ret ≡ s.ret ++ (token ∷ []))
      × IsRoomy s'
unfolding store grow
store-grow token s v = elim (Bool-cases (s.i == s.n - 2)) [
  | inl e ↦ (
    record { n = s.n * 2; i = s.i + 1; ret = s.ret ++ (token ∷ []) },
    rw e (rw (lt→ltb s.i (s.n * 2) (omega arith))),
    refl,
    omega arith,
  )
  | inr e ↦ (
    record { n = s.n; i = s.i + 1; ret = s.ret ++ (token ∷ []) },
    rw e (rw (lt→ltb s.i s.n (omega arith))),
    refl,
    ground arith,
  )
]

-- The strings of the list with `sp` between them
unfoldable pub join : CString → CString → List CString → CString
join sp part [] = part
join sp part (next ∷ parts) = part ++ (sp ++ join sp next parts)

abbrev pub AllFree : CString → List CString → Type 0
AllFree sp [] = Unit {0}
AllFree sp (part ∷ parts) = FreeOf sp part × AllFree sp parts

advance-append :
    (n : ℕ) (sp rest : CString) → n ≡ length sp → advance n (some (sp ++ rest)) ≡ done (some rest)
unfolding advance
advance-append n sp rest e = rw e (
    rw (le→ltb_false (length (sp ++ rest)) (length sp) (omega (arith, length-append sp rest)))
      (ap (λ r. done (some r)) (drop-append sp rest)))
  where
    drop-append : (xs ys : CString) → drop (length xs) (xs ++ ys) ≡ ys
    drop-append [] ys = refl
    drop-append (x ∷ xs) ys = drop-append xs ys

module _ (d : ℕ) (sp : CString) where
  -- The body of the loop, at what `strsep` returned
  abbrev body : ℕ → Slots → CString × Option CString → Run Slots
  body fuel s p = do
    s1' ← advance (length (d ∷ sp) - 1) p.1
    s' ← store p.0 (grow s)
    split_loop fuel (d ∷ sp) s1' s'

  round :
      (fuel : ℕ) (src token : CString) (next s1' : Option CString) (s : Slots)
      → strsep (d ∷ sp) src ≡ (token, next)
      → advance (length (d ∷ sp) - 1) next ≡ done s1'
      → IsRoomy s
      → (s' : Slots) × (split_loop (suc fuel) (d ∷ sp) (some src) s
          ≡ split_loop fuel (d ∷ sp) s1' s')
        × (s'.ret ≡ s.ret ++ (token ∷ []))
        × IsRoomy s'
  unfolding split_loop
  round fuel src token next s1' s e a v =
      let (s', p, q, r) = store-grow token s v in
      (
        s',
        ap (body fuel s) e
            ∙ >>=-done (advance (length (d ∷ sp) - 1) next) _ a
                (>>=-done (store token (grow s)) _ p refl),
        q,
        r,
      )

  strsep-part :
      (part rest : CString)
      → FreeOf (d ∷ sp) part
      → strsep (d ∷ sp) (part ++ (d ∷ (sp ++ rest))) ≡ (part, some (sp ++ rest))
  strsep-part part rest free = strsep-append (d ∷ sp) part d (sp ++ rest) free (rw (==_self d))

  split_loop-none : (fuel : ℕ) (s : Slots) → split_loop fuel (d ∷ sp) none s ≡ done s
  unfolding split_loop
  split_loop-none zero s = refl
  split_loop-none (suc fuel) s = refl

  split_loop-join :
      (parts : List CString) (part : CString) (fuel : ℕ) (s : Slots)
      → AllFree (d ∷ sp) (part ∷ parts)
      → length parts < fuel
      → IsRoomy s
      → (s' : Slots) × (split_loop fuel (d ∷ sp) (some (join (d ∷ sp) part parts)) s ≡ done s')
        × (s'.ret ≡ s.ret ++ (part ∷ parts))
        × IsRoomy s'
  unfolding join advance
  split_loop-join parts part zero s free h v = absurd (omega arith)
  split_loop-join [] part (suc fuel) s free h v =
      let (s', p, q, r) =
        round fuel part part none none s (strsep-none (d ∷ sp) part free.0) refl v in
      (s', p ∙ split_loop-none fuel s', q, r)
  split_loop-join (next ∷ parts) part (suc fuel) s free h v =
      let rest = join (d ∷ sp) next parts in
      let (s1, p, q, r) =
        round fuel (part ++ ((d ∷ sp) ++ rest)) part (some (sp ++ rest)) (some rest) s
          (strsep-part part rest free.0)
          (advance-append (length (d ∷ sp) - 1) sp rest (omega arith)) v in
      let (s2, p', q', r') = split_loop-join parts next fuel s1 free.1 (omega arith) r in
      (
        s2,
        p ∙ p',
        q' ∙ ap (λ xs. xs ++ (next ∷ parts)) q ∙ append_assoc s.ret (part ∷ []) (next ∷ parts),
        r',
      )

  length-join :
      (parts : List CString) (part : CString) → length parts ≤ length (join (d ∷ sp) part parts)
  unfolding join
  length-join [] part = omega arith
  length-join (next ∷ parts) part = omega (
    arith,
    length-append part ((d ∷ sp) ++ join (d ∷ sp) next parts),
    length-append (d ∷ sp) (join (d ∷ sp) next parts),
    length-join parts next,
  )

  -- For a separator with a first byte and parts with no byte of the separator, ysplit of the
  -- joined parts ends without a fault and gives the parts in order, whatever their number.
  pub ysplit-join :
      (part : CString) (parts : List CString)
      → AllFree (d ∷ sp) (part ∷ parts)
      → ysplit (join (d ∷ sp) part parts) (d ∷ sp) ≡ done (part ∷ parts)
  unfolding ysplit ysplit1 finish
  ysplit-join part parts free =
      let src = join (d ∷ sp) part parts in
      let (s, p, q, r) =
        split_loop-join parts part (length src + 1) (record { n = 8; i = 0; ret = [] }) free
          (omega (arith, length-join parts part)) (omega arith) in
      >>=-done (split_loop (length src + 1) (d ∷ sp) (some src) (record { n = 8; i = 0; ret = [] }))
        finish p (rw (lt→ltb s.i s.n (omega arith)) (ap done q))

  -- If the first byte of the string that occurs in the separator is followed by fewer bytes
  -- than the separator has after its first, ysplit reads past the end of the string.
  pub ysplit_past_end :
      (part : CString) (e : ℕ) (rest : CString)
      → FreeOf (d ∷ sp) part
      → contains (d ∷ sp) e ≡ true
      → length rest < length sp
      → ysplit (part ++ (e ∷ rest)) (d ∷ sp) ≡ fault
  unfolding ysplit ysplit1 split_loop advance
  ysplit_past_end part e rest free c h =
      let src = part ++ (e ∷ rest) in
      let start : Slots = record { n = 8; i = 0; ret = [] } in
      let past : advance (length (d ∷ sp) - 1) (some rest) ≡ fault =
        rw (lt→ltb (length rest) (length (d ∷ sp) - 1) (omega arith)) in
      ap (λ fuel. split_loop fuel (d ∷ sp) (some src) start >>= finish) {x = length src + 1}
        {y = suc (length src)} (omega arith)
      ∙ ap (λ p. body (length src) start p >>= finish) (strsep-append (d ∷ sp) part e rest free c)
      ∙ ap
          (λ m.
            m
            >>= (λ s1'. store part (grow start) >>= λ s'. split_loop (length src) (d ∷ sp) s1' s')
            >>= finish)
          past

join-cons :
    (sp : CString) (x : ℕ) (part : CString) (parts : List CString)
    → join sp (x ∷ part) parts ≡ x ∷ join sp part parts
unfolding join
join-cons sp x part [] = refl
join-cons sp x part (next ∷ parts) = refl

-- The parts of a string between the occurrences of a character
pieces :
    (c : ℕ) (src : CString)
    → (part : CString) × (parts : List CString) × (src ≡ join (c ∷ []) part parts)
      × AllFree (c ∷ []) (part ∷ parts)
unfolding join
pieces c [] = ([], [], refl, (tt, tt))
pieces c (x ∷ src) =
    let (part, parts, e, free) = pieces c src in
    elim (Bool-cases (x == c)) [
      | inl same ↦ ([], part ∷ parts, ap₂ ◌∷◌ (==→eq x c same) e, (tt, free))
      | inr other ↦ (
        x ∷ part,
        parts,
        ap (λ r. x ∷ r) e ∙ sym (join-cons (c ∷ []) x part parts),
        ((rw other, free.0), free.1),
      )
    ]

-- With a separator of one byte ysplit ends without a fault on every string, and gives parts
-- without that byte which, joined by it, are the string.
pub ysplit_char :
    (c : ℕ) (src : CString)
    → (part : CString) × (parts : List CString) × (src ≡ join (c ∷ []) part parts)
      × AllFree (c ∷ []) (part ∷ parts)
      × (ysplit src (c ∷ []) ≡ done (part ∷ parts))
ysplit_char c src =
    let (part, parts, e, free) = pieces c src in
    (part, parts, e, free, ap (λ s. ysplit s (c ∷ [])) e ∙ ysplit-join c [] part parts free)
