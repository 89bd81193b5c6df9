-- ===== src/Liby/Links/Ring/Update.antt =====
-- Adding and deleting entries of a ring (liby/src/list.h).
use old_tools.Common.{
  Avoids, Distinct, ℕ, ◌≡◌, refl, sym, ap, ◌∙◌, subst, false, some, List, [], ◌∷◌, ◌++◌,
  append_assoc, ◌==◌,
}
use old_tools.Common.Run.{done, >>=-done}
use old_tools.Liby.Links.{
  Memory, load, set, save, list_add, list_add_tail, list_poison1, list_poison2, list_unlink,
  list_del,
}
use old_tools.Liby.Links.Ring.{
  Edge, Linked, Ring, last, sources, Mapped, set_self, set_other, set-Mapped, load-Mapped,
  save-Mapped, Avoids-append, Avoids-left, Avoids-right, Linked-set_next, Linked-set_prev,
  Linked-append, Linked-split, ==_false_sym, Avoids-last, Avoids-sources, last-Avoids, sources_snoc,
  Apart, Distinct-split, Distinct-append, Apart-last, Apart-uncons, Apart-cons, Frame, front,
}

-- On a ring list_add_tail of an allocated entry that is not in it ends without a fault and
-- makes the ring with that entry behind the others; no other entry is changed.
pub list_add_tail-Ring :
    (m : Memory) (new head : ℕ) (entries : List ℕ)
    → Ring m head entries
    → Mapped m.next new
    → Mapped m.prev new
    → Avoids new (head ∷ entries)
    → (m' : Memory) × (list_add_tail new head m ≡ done m')
      × Ring m' head (entries ++ (new ∷ []))
      × Frame m m' (new ∷ head ∷ entries)
unfolding list_add_tail list_add
list_add_tail-Ring m new head entries r mn mp h =
    let p = last head entries in
    let m1 = record m { prev = set m.prev head new } in
    let m2 = record m1 { next = set m1.next new head } in
    let m3 = record m2 { prev = set m2.prev new p } in
    let m4 = record m3 { next = set m3.next p new } in
    let (before, (edge, u)) = Linked-split m head entries (head ∷ []) r.path in
    let s1 = Linked-set_prev m head head new entries r.distinct.0 before in
    let s2 = Linked-set_next m1 head new head entries (Avoids-sources new head entries h) s1 in
    let s3 = Linked-set_prev m2 head new p entries h.1 s2 in
    let s4 = Linked-set_next m3 head p new entries (last-Avoids head entries r.distinct) s3 in
    let run : list_add_tail new head m ≡ done m4 =
      >>=-done (load m.prev head) _ (load-Mapped m.prev head p edge.1) (
        >>=-done (save m.prev head new) _ (save-Mapped m.prev head new (p, edge.1)) (
          >>=-done (save m.next new head) _ (save-Mapped m.next new head mn) (
            >>=-done (save m1.prev new p) _
              (save-Mapped m1.prev new p (set-Mapped m.prev head new new mp))
              (>>=-done (save m2.next p new) _
                (save-Mapped m2.next p new (set-Mapped m.next new head p (head, edge.0)))
                refl)))) in
    (
      m4,
      run,
      record {
        path =
            subst (λ xs. Linked m4 head xs) (sym (append_assoc entries (new ∷ []) (head ∷ [])))
              (Linked-append m4 head entries (new ∷ head ∷ []) s4 (
                (set_self m3.next p new, set_self m2.prev new p),
                (
                  (
                    set_other m3.next p new new
                          (==_false_sym p new (Avoids-last new head entries h))
                        ∙ set_self m.next new head,
                    set_other m1.prev new p head h.0 ∙ set_self m.prev head new,
                  ),
                  tt,
                ),
              ));
        distinct =
            Distinct-append (head ∷ entries) (new ∷ []) r.distinct (tt, tt)
              (Apart-cons (head ∷ entries) new h);
      },
      λ c a.
          let e = ==_false_sym p c (Avoids-last c head entries a.1) in
          let n = ==_false_sym new c a.0 in
          (
            set_other m3.next p new c e ∙ set_other m.next new head c n,
            set_other m1.prev new p c n ∙ set_other m.prev head new c (==_false_sym head c a.1.0),
          ),
    )

front-Edge :
    (m : Memory) (x head : ℕ) (ys : List ℕ)
    → Linked m x (ys ++ (head ∷ []))
    → Edge m x (front head ys)
front-Edge m x head [] p = p.0
front-Edge m x head (y ∷ ys) p = p.0

front-Avoids :
    (c head : ℕ) (ys : List ℕ) → (head == c) ≡ false → Avoids c ys → (front head ys == c) ≡ false
front-Avoids c head [] h k = h
front-Avoids c head (y ∷ ys) h k = k.0

Avoids-front :
    (head : ℕ) (xs ys : List ℕ) → Avoids head xs → Apart xs ys → Avoids (front head ys) xs
Avoids-front head xs [] h k = h
Avoids-front head xs (y ∷ ys) h k = (Apart-uncons xs y ys k).0

module _ (m : Memory) (p x head : ℕ) (ys : List ℕ) where
  -- The memory after list_del, `p` and `front head ys` standing around `x`
  abbrev deleted : Memory
  deleted = record {
    next = set (set m.next p (front head ys)) x list_poison1;
    prev = set (set m.prev (front head ys) p) x list_poison2;
  }

  Linked-deleted :
      (a : ℕ) (zs : List ℕ)
      → Avoids p (sources a zs)
      → Avoids x (sources a zs)
      → Avoids (front head ys) zs
      → Avoids x zs
      → Linked m a zs
      → Linked deleted a zs
  Linked-deleted a zs p1 x1 n2 x2 path =
      let n = front head ys in
      let m1 = record m { prev = set m.prev n p } in
      let m2 = record m1 { next = set m1.next p n } in
      let m3 = record m2 { next = set m2.next x list_poison1 } in
      Linked-set_prev m3 a x list_poison2 zs x2 (
        Linked-set_next m2 a x list_poison1 zs x1
          (Linked-set_next m1 a p n zs p1 (Linked-set_prev m a n p zs n2 path)))

  list_del-deleted : Edge m p x → Edge m x (front head ys) → list_del x m ≡ done deleted
  unfolding list_del list_unlink
  list_del-deleted e f =
      let n = front head ys in
      >>=-done (load m.prev x) _ (load-Mapped m.prev x p e.1) (
        >>=-done (load m.next x) _ (load-Mapped m.next x n f.0) (
          >>=-done (list_unlink p n m) _
            (>>=-done (save m.prev n p) _ (save-Mapped m.prev n p (x, f.1))
              (>>=-done (save m.next p n) _ (save-Mapped m.next p n (x, e.0)) refl))
            (>>=-done (save (set m.next p n) x list_poison1) _
              (save-Mapped (set m.next p n) x list_poison1 (set-Mapped m.next p n x (n, f.0)))
              (>>=-done (save (set m.prev n p) x list_poison2) _
                (save-Mapped (set m.prev n p) x list_poison2 (set-Mapped m.prev n p x (p, e.1)))
                refl))))

module _ (m : Memory) (p x head : ℕ) where
  -- The entries behind the deleted one hang on the one in front of it.
  Linked-behind :
      (ys : List ℕ)
      → (p == x) ≡ false
      → (head == x) ≡ false
      → Avoids x ys
      → Avoids p ys
      → Avoids head ys
      → Distinct ys
      → Linked m x (ys ++ (head ∷ []))
      → Linked (deleted m p x head ys) p (ys ++ (head ∷ []))
  Linked-behind [] px hx ax ap ah d path = (
    (
      set_other (set m.next p head) x list_poison1 p px ∙ set_self m.next p head,
      set_other (set m.prev head p) x list_poison2 head hx ∙ set_self m.prev head p,
    ),
    tt,
  )
  Linked-behind (y ∷ ys) px hx ax ap ah d path =
      let whole = sym (sources_snoc y ys head) in
      (
        (
          set_other (set m.next p y) x list_poison1 p px ∙ set_self m.next p y,
          set_other (set m.prev y p) x list_poison2 y ax.0 ∙ set_self m.prev y p,
        ),
        Linked-deleted m p x head (y ∷ ys) y (ys ++ (head ∷ [])) (subst (Avoids p) whole ap)
            (subst (Avoids x) whole ax)
            (Avoids-append y ys (head ∷ []) d.0 (==_false_sym y head ah.0, tt))
            (Avoids-append x ys (head ∷ []) ax.1 (hx, tt)) path.1,
      )

-- On a ring of entries list_del of one of them ends without a fault and leaves the ring of the
-- others in their order; the deleted entry holds the two poison values, and no entry outside
-- of the ring is changed.
pub list_del-Ring :
    (m : Memory) (x head : ℕ) (xs ys : List ℕ)
    → Ring m head (xs ++ (x ∷ ys))
    → (m' : Memory) × (list_del x m ≡ done m')
      × Ring m' head (xs ++ ys)
      × (m'.next x ≡ some list_poison1)
      × (m'.prev x ≡ some list_poison2)
      × Frame m m' (head ∷ (xs ++ (x ∷ ys)))
list_del-Ring m x head xs ys r =
    let p = last head xs in
    let n = front head ys in
    let (dxs, dys, apart) = Distinct-split (head ∷ xs) (x ∷ ys) r.distinct in
    let (ax, apart') = Apart-uncons (head ∷ xs) x ys apart in
    let whole = subst (Linked m head) (append_assoc xs (x ∷ ys) (head ∷ [])) r.path in
    let (before, (edge, behind)) = Linked-split m head xs (x ∷ (ys ++ (head ∷ []))) whole in
    let m' = deleted m p x head ys in
    let ahead =
      Linked-deleted m p x head ys head xs (last-Avoids head xs dxs) (Avoids-sources x head xs ax)
        (Avoids-front head xs ys dxs.0 apart'.1) ax.1 before in
    let back =
      Linked-behind m p x head ys (Avoids-last x head xs ax) ax.0 dys.0
        (Apart-last head xs ys apart') apart'.0 dys.1 behind in
    (
      m',
      list_del-deleted m p x head ys edge (front-Edge m x head ys behind),
      record {
        path =
            subst (Linked m' head) (sym (append_assoc xs ys (head ∷ [])))
              (Linked-append m' head xs (ys ++ (head ∷ [])) ahead back);
        distinct = Distinct-append (head ∷ xs) ys dxs dys.1 apart';
      },
      set_self (set m.next p n) x list_poison1,
      set_self (set m.prev n p) x list_poison2,
      λ c a.
          let ahead = Avoids-left c (head ∷ xs) (x ∷ ys) a in
          let back = Avoids-right c (head ∷ xs) (x ∷ ys) a in
          let e = ==_false_sym x c back.0 in
          (
            set_other (set m.next p n) x list_poison1 c e
                ∙ set_other m.next p n c (==_false_sym p c (Avoids-last c head xs ahead)),
            set_other (set m.prev n p) x list_poison2 c e
                ∙ set_other m.prev n p c (==_false_sym n c (front-Avoids c head ys a.0 back.1)),
          ),
    )
