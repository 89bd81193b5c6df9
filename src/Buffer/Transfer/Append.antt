-- ===== src/Buffer/Transfer/Append.antt =====
-- The bytes behind an append (liby_cpp/Buffer.cpp).
use old_tools.Common.{
  ℕ, zero, suc, ◌+◌, ◌-◌, ◌≤◌, ◌<◌, ◌≡◌, inl, inr, refl, ap, ap₂, sym, ◌∙◌, none, some, List, [],
  ◌∷◌, ◌++◌, append_assoc, leb, if◌then◌else◌, length, length-append, length-drop, length-take_le,
  take, drop, take-append-drop, Bool-cases, leb→le, leb→lt, lt→leb_false, arith,
}
use old_tools.Common.Run.{done, ◌>>=◌, >>=-done}
use old_tools.Buffer.{Buffer, no_buffer, assert, write_at, cells_of, size, safe_append, moved}
use old_tools.Buffer.Holds.{Holds, write_at-append, size-Holds, cells_of-Holds}
use old_tools.Buffer.Space.{forward, reserve}
use old_tools.Buffer.Transfer.{make_room, append_bytes}
use old_tools.Buffer.Space.Room.{forward-Holds, reserve-Holds, reserve-no_buffer}

regroup : (xs ys zs ws : List ℕ) → (xs ++ ys) ++ (zs ++ ws) ≡ xs ++ ((ys ++ zs) ++ ws)
regroup xs ys zs ws = simp append_assoc refl

-- safeAppend of bytes for which there is room
pub safe_append-Holds :
    (b : Buffer) (bytes new : List ℕ)
    → Holds b bytes
    → b.right + length new ≤ b.capacity
    → (b' : Buffer) × (safe_append b new ≡ done b') × Holds b' (bytes ++ new) × (b'.left ≡ b.left)
unfolding safe_append
safe_append-Holds b bytes new h le =
    let cells = h.before ++ (bytes ++ h.after) in
    let old = take (length new) h.after in
    let last = drop (length new) h.after in
    let old_long : length old ≡ length new =
      length-take_le (length new) h.after (omega (arith, h.up_to_capacity)) in
    let last_long = length-drop (length new) h.after in
    let front : length (h.before ++ bytes) ≡ b.right =
      length-append h.before bytes ∙ omega (arith, h.before_left, h.up_to_right) in
    let same : cells ≡ (h.before ++ bytes) ++ (old ++ last) =
      ap (λ r. h.before ++ (bytes ++ r)) (sym (take-append-drop (length new) h.after))
      ∙ sym (append_assoc h.before bytes (old ++ last)) in
    let written : write_at cells b.right new ≡ done (h.before ++ ((bytes ++ new) ++ last)) =
      ap₂ (λ c i. write_at c i new) same (sym front)
      ∙ write_at-append (h.before ++ bytes) old last new old_long
      ∙ ap done (regroup h.before bytes new last) in
    (
      moved b (h.before ++ ((bytes ++ new) ++ last)) b.left (b.right + length new),
      >>=-done (cells_of b)
          (λ c. write_at c b.right new >>= λ c'. done (moved b c' b.left (b.right + length new)))
          (cells_of-Holds b bytes h)
          (>>=-done (write_at cells b.right new)
            (λ c'. done (moved b c' b.left (b.right + length new))) written refl),
      record {
        before = h.before;
        after = last;
        memory = refl;
        before_left = h.before_left;
        up_to_right = omega (arith, length-append bytes new, h.up_to_right);
        up_to_capacity = omega (arith, last_long, h.up_to_capacity);
      },
      refl,
    )

-- Whichever way append makes room, the bytes stay.
make_room-Holds :
    (fuel : ℕ) (fresh : ℕ → ℕ) (b : Buffer) (bytes : List ℕ) (len : ℕ)
    → Holds b bytes
    → 0 < b.capacity
    → len ≤ suc fuel
    → (b' : Buffer) × (make_room (suc fuel) fresh b len ≡ done (some b'))
      × Holds b' bytes
      × (b'.right + len ≤ b'.capacity)
unfolding make_room
make_room-Holds fuel fresh b bytes len h p le =
    let fits : b.right ≤ b.capacity = omega (arith, h.up_to_capacity) in
    elim (Bool-cases (leb len (b.capacity - b.right))) [
      | inl e ↦ (b, rw (e) refl, h, omega (arith, leb→le len (b.capacity - b.right) e))
      | inr e ↦ elim (Bool-cases (leb (len + length bytes) b.capacity)) [
        | inl f ↦
            let (b', run, h', right, capacity) = forward-Holds b bytes h in
            (
              b',
              rw (e) (
                  >>=-done (size b)
                    (λ n.
                      if leb (len + n) b.capacity
                      then (forward b 0 >>= λ r. done (some r))
                      else reserve (suc fuel) fresh b (n + len + b.left))
                    (size-Holds b bytes h)
                    (rw (f) (>>=-done (forward b 0) (λ r. done (some r)) run refl))),
              h',
              omega (arith, right, capacity, leb→le (len + length bytes) b.capacity f),
            )
        | inr f ↦
            let more = leb→lt (len + length bytes) b.capacity f in
            let (b', run, h', right, enough) =
              reserve-Holds fuel fresh b bytes (length bytes + len + b.left) h p (omega arith)
                (omega (arith, h.up_to_right)) in
            (
              b',
              rw (e) (
                  >>=-done (size b)
                    (λ n.
                      if leb (len + n) b.capacity
                      then (forward b 0 >>= λ r. done (some r))
                      else reserve (suc fuel) fresh b (n + len + b.left))
                    (size-Holds b bytes h) (rw (f) run)),
              h',
              omega (arith, right, enough, h.up_to_right),
            )
      ]
    ]

-- For a buffer with a capacity that holds some bytes, and new bytes that are at least one and
-- at most as many as the rounds, append ends without a fault, whichever way it makes room, and
-- the buffer then holds the new bytes behind the others.
pub append_bytes-Holds :
    (fuel : ℕ) (fresh : ℕ → ℕ) (b : Buffer) (bytes new : List ℕ)
    → Holds b bytes
    → 0 < b.capacity
    → 0 < length new
    → length new ≤ fuel
    → (b' : Buffer) × (append_bytes fuel fresh b new ≡ done (some b')) × Holds b' (bytes ++ new)
unfolding append_bytes
append_bytes-Holds fuel fresh b bytes [] h p q le = absurd (omega arith)
append_bytes-Holds zero fresh b bytes (c ∷ new) h p q le = absurd (omega arith)
append_bytes-Holds (suc fuel) fresh b bytes (c ∷ new) h p q le =
    let (b', run, h', room) = make_room-Holds fuel fresh b bytes (length (c ∷ new)) h p le in
    let (b'', appended, h'', same) = safe_append-Holds b' bytes (c ∷ new) h' room in
    (b'', rw (run) (>>=-done (safe_append b' (c ∷ new)) (λ r. done (some r)) appended refl), h'')

make_room-no_buffer :
    (fuel : ℕ) (fresh : ℕ → ℕ) (len : ℕ) → 0 < len → make_room fuel fresh no_buffer len ≡ done none
unfolding make_room size assert no_buffer
make_room-no_buffer fuel fresh len p =
    rw (lt→leb_false 0 len p, lt→leb_false 0 (len + 0) (omega arith))
      (reserve-no_buffer fuel fresh (0 + len + 0) (omega arith))

-- On a buffer made by the default constructor, however many rounds its loop gets, append of at
-- least one byte has not ended.
pub append_bytes-no_buffer :
    (fuel : ℕ) (fresh : ℕ → ℕ) (new : List ℕ)
    → 0 < length new
    → append_bytes fuel fresh no_buffer new ≡ done none
unfolding append_bytes
append_bytes-no_buffer fuel fresh [] p = absurd (omega arith)
append_bytes-no_buffer fuel fresh (c ∷ new) p =
    rw (make_room-no_buffer fuel fresh (length (c ∷ new)) p) refl
