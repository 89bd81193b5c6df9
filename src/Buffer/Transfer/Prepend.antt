-- ===== src/Buffer/Transfer/Prepend.antt =====
-- The bytes behind a prepend (liby_cpp/Buffer.cpp).
use old_tools.Common.{
  ℕ, suc, ◌+◌, ◌-◌, ◌≤◌, ◌<◌, ◌≡◌, inl, inr, refl, ap, ap₂, sym, ◌∙◌, some, List, [], ◌∷◌, ◌++◌,
  append-nil, append_assoc, leb, if◌then◌else◌, length, length-append, length-drop, length-take_le,
  take, drop, take-append-drop, Bool-cases, leb→le, le→leb, leb→lt, arith,
}
use old_tools.Common.Run.{done, fault, ◌>>=◌, >>=-done}
use old_tools.Buffer.{
  with_capacity, reindexed, assert_data, Buffer, write_at, size, move_cells, moved,
}
use old_tools.Buffer.Holds.{
  assert_data-Holds, move_cells-Holds, length-zero, Holds, write_at-append, Holds-length,
  size-Holds, length-cells,
}
use old_tools.Buffer.Space.{backward}
use old_tools.Buffer.Transfer.{safe_prepend, make_room_before, append_buffer, prepend_bytes}

-- safePreappend of bytes for which there is room
safe_prepend-Holds :
    (b : Buffer) (bytes new : List ℕ)
    → Holds b bytes
    → length new ≤ b.left
    → (b' : Buffer) × (safe_prepend b new ≡ done b') × Holds b' (new ++ bytes)
unfolding safe_prepend
safe_prepend-Holds b bytes new h le =
    let cells = h.before ++ (bytes ++ h.after) in
    let i = b.left - length new in
    let kept = take i h.before in
    let old = drop i h.before in
    let kept_long : length kept ≡ i = length-take_le i h.before (omega (arith, h.before_left)) in
    let old_long : length old ≡ length new =
      length-drop i h.before ∙ omega (arith, h.before_left) in
    let same : cells ≡ kept ++ (old ++ (bytes ++ h.after)) =
      ap (λ r. r ++ (bytes ++ h.after)) (sym (take-append-drop i h.before))
      ∙ append_assoc kept old (bytes ++ h.after) in
    let written : write_at cells i new ≡ done (kept ++ ((new ++ bytes) ++ h.after)) =
      ap₂ (λ c k. write_at c k new) same (sym kept_long)
      ∙ write_at-append kept old (bytes ++ h.after) new old_long
      ∙ ap (λ r. done (kept ++ r)) (sym (append_assoc new bytes h.after)) in
    (
      moved b (kept ++ ((new ++ bytes) ++ h.after)) i b.right,
      >>=-done (assert_data b)
          (λ c. (if leb (length new) b.left then write_at c i new else fault) >>= λ c'.
            done (moved b c' i b.right))
          (assert_data-Holds b bytes h)
          (rw (le→leb (length new) b.left le)
            (>>=-done (write_at cells i new) (λ c'. done (moved b c' i b.right)) written refl)),
      record {
        before = kept;
        after = h.after;
        memory = refl;
        before_left = kept_long;
        up_to_right = omega (arith, length-append new bytes, h.up_to_right);
        up_to_capacity = h.up_to_capacity;
      },
    )

-- Moving the bytes back, for which there is room
backward-Holds :
    (b : Buffer) (bytes : List ℕ) (len : ℕ)
    → Holds b bytes
    → b.left < len
    → len + length bytes ≤ b.capacity
    → (b' : Buffer) × (backward b (len - b.left) ≡ done b') × Holds b' bytes × (len ≤ b'.left)
unfolding backward
backward-Holds b bytes len h lt room =
    let offset = len - b.left - 1 in
    let e : len - b.left ≡ suc offset = omega arith in
    let cells = h.before ++ (bytes ++ h.after) in
    elim (Bool-cases (leb (b.capacity - b.left) (suc offset))) [
      | inl f ↦
          let none_held : length bytes ≡ 0 =
            omega (arith, leb→le (b.capacity - b.left) (suc offset) f) in
          (
            reindexed b b.capacity b.capacity,
            ap (backward b) e ∙ rw (f) refl,
            record {
              before = h.before ++ (bytes ++ h.after);
              after = [];
              memory =
                  h.memory
                  ∙ ap some (
                      sym (
                        ap (λ r. cells ++ (r ++ [])) (length-zero bytes none_held)
                        ∙ append-nil cells));
              before_left = length-cells b bytes h;
              up_to_right = omega arith;
              up_to_capacity = omega arith;
            },
            omega arith,
          )
      | inr f ↦
          let (first, last, run, first_long, last_long) =
            move_cells-Holds b bytes h (b.left + suc offset) (b.right - b.left)
              (Holds-length b bytes h) (omega (arith, h.up_to_right)) in
          (
            moved b (first ++ (bytes ++ last)) (b.left + suc offset) (b.right + suc offset),
            ap (backward b) e
                ∙ rw (f, le→leb (suc offset) (b.capacity - b.right) (omega (arith, h.up_to_right)))
                    (>>=-done (move_cells b (b.left + suc offset) b.left (b.right - b.left))
                      (λ c. done (moved b c (b.left + suc offset) (b.right + suc offset))) run
                      refl),
            record {
              before = first;
              after = last;
              memory = refl;
              before_left = first_long;
              up_to_right = omega (arith, h.up_to_right);
              up_to_capacity = omega (arith, h.up_to_right, last_long);
            },
            omega arith,
          )
    ]

make_room_before-Holds :
    (fuel : ℕ) (fresh : ℕ → ℕ) (b : Buffer) (bytes : List ℕ) (len : ℕ)
    → Holds b bytes
    → len + length bytes ≤ b.capacity
    → (b' : Buffer) × (make_room_before fuel fresh b len ≡ done (some b'))
      × Holds b' bytes
      × (len ≤ b'.left)
unfolding make_room_before
make_room_before-Holds fuel fresh b bytes len h room = elim (Bool-cases (leb len b.left)) [
  | inl e ↦ (b, rw (e) refl, h, leb→le len b.left e)
  | inr e ↦
      let (b', run, h', le) = backward-Holds b bytes len h (leb→lt len b.left e) room in
      (
        b',
        rw (e) (
            >>=-done (size b)
              (λ n.
                if leb (len + n) b.capacity
                then (backward b (len - b.left) >>= λ r. done (some r))
                else append_buffer fuel fresh (with_capacity fresh (len + n)) b)
              (size-Holds b bytes h)
              (rw (le→leb (len + length bytes) b.capacity room)
                (>>=-done (backward b (len - b.left)) (λ r. done (some r)) run refl))),
        h',
        le,
      )
]

-- If the capacity has room for the bytes that a buffer holds and at least one new one, prepend
-- ends without a fault, and the buffer then holds the new bytes in front of the others.
pub prepend_bytes-Holds :
    (fuel : ℕ) (fresh : ℕ → ℕ) (b : Buffer) (bytes new : List ℕ)
    → Holds b bytes
    → 0 < length new
    → length new + length bytes ≤ b.capacity
    → (b' : Buffer) × (prepend_bytes fuel fresh b new ≡ done (some b')) × Holds b' (new ++ bytes)
unfolding prepend_bytes
prepend_bytes-Holds fuel fresh b bytes [] h p room = absurd (omega arith)
prepend_bytes-Holds fuel fresh b bytes (c ∷ new) h p room =
    let (b', run, h', le) = make_room_before-Holds fuel fresh b bytes (length (c ∷ new)) h room in
    let (b'', prepended, h'') = safe_prepend-Holds b' bytes (c ∷ new) h' le in
    (b'', rw (run) (>>=-done (safe_prepend b' (c ∷ new)) (λ r. done (some r)) prepended refl), h'')
