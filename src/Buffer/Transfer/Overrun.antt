-- ===== src/Buffer/Transfer/Overrun.antt =====
-- A prepend that changes to a new buffer (liby_cpp/Buffer.cpp).
use old_tools.Common.{
  ℕ, ◌+◌, ◌-◌, ◌≤◌, ◌<◌, ◌≡◌, refl, some, List, [], ◌∷◌, leb, if◌then◌else◌, length, le→leb,
  lt→leb_false, arith,
}
use old_tools.Common.Run.{done, fault, ◌>>=◌, >>=-done}
use old_tools.Buffer.{
  data_of, with_capacity, assert_data, Buffer, new_cells, write_at, size, safe_append, moved,
}
use old_tools.Buffer.Holds.{assert_data-Holds, data_of-Holds, Holds, size-Holds}
use old_tools.Buffer.Space.{backward}
use old_tools.Buffer.Space.Room.{length-new_cells}
use old_tools.Buffer.Transfer.Append.{safe_append-Holds}
use old_tools.Buffer.Transfer.{
  make_room, append_bytes, safe_prepend, make_room_before, append_buffer, prepend_bytes,
}

with_capacity-Holds : (fresh : ℕ → ℕ) (n : ℕ) → Holds (with_capacity fresh n) []
unfolding with_capacity
with_capacity-Holds fresh n = record {
  before = [];
  after = new_cells fresh 0 n;
  memory = refl;
  before_left = refl;
  up_to_right = refl;
  up_to_capacity = omega (arith, length-new_cells fresh 0 n);
}

-- The new buffer has its bytes at the very front.
append_buffer-front :
    (fuel : ℕ) (fresh : ℕ → ℕ) (b : Buffer) (bytes : List ℕ) (n : ℕ)
    → Holds b bytes
    → 0 < length bytes
    → length bytes ≤ n
    → (b' : Buffer) × (append_buffer fuel fresh (with_capacity fresh n) b ≡ done (some b'))
      × Holds b' bytes
      × (b'.left ≡ 0)
unfolding append_buffer append_bytes make_room with_capacity
append_buffer-front fuel fresh b [] n h p le = absurd (omega arith)
append_buffer-front fuel fresh b (c ∷ bytes) n h p le =
    let (b', run, h', left) =
      safe_append-Holds (with_capacity fresh n) [] (c ∷ bytes) (with_capacity-Holds fresh n)
        (omega arith) in
    (
      b',
      >>=-done (data_of b) (append_bytes fuel fresh (with_capacity fresh n))
          (data_of-Holds b (c ∷ bytes) h)
          (rw (le→leb (length (c ∷ bytes)) (n - 0) (omega arith)) (
            >>=-done (safe_append (with_capacity fresh n) (c ∷ bytes)) (λ r. done (some r)) run
              refl)),
      h',
      left,
    )

safe_prepend-front :
    (b : Buffer) (bytes new : List ℕ)
    → Holds b bytes
    → b.left ≡ 0
    → 0 < length new
    → safe_prepend b new ≡ fault
unfolding safe_prepend
safe_prepend-front b bytes new h e p =
    >>=-done (assert_data b)
      (λ c.
        (if leb (length new) b.left then write_at c (b.left - length new) new else fault) >>= λ c'.
        done (moved b c' (b.left - length new) b.right))
      (assert_data-Holds b bytes h) (rw (lt→leb_false b.left (length new) (omega (arith, e))) refl)

-- If a buffer holds at least one byte and its capacity has no room for these and the new ones,
-- prepend writes in front of its memory.
pub prepend_bytes_full :
    (fuel : ℕ) (fresh : ℕ → ℕ) (b : Buffer) (bytes new : List ℕ)
    → Holds b bytes
    → 0 < length bytes
    → b.capacity < length new + length bytes
    → prepend_bytes fuel fresh b new ≡ fault
unfolding prepend_bytes make_room_before
prepend_bytes_full fuel fresh b bytes [] h p full =
    absurd (omega (arith, h.up_to_right, h.up_to_capacity))
prepend_bytes_full fuel fresh b bytes (c ∷ new) h p full =
    let len = length (c ∷ new) in
    let (b', run, h', left) =
      append_buffer-front fuel fresh b bytes (len + length bytes) h p (omega arith) in
    let room : make_room_before fuel fresh b len ≡ done (some b') =
      rw (lt→leb_false b.left len (omega (arith, h.up_to_right, h.up_to_capacity))) (
        >>=-done (size b)
          (λ n.
            if leb (len + n) b.capacity
            then (backward b (len - b.left) >>= λ r. done (some r))
            else append_buffer fuel fresh (with_capacity fresh (len + n)) b)
          (size-Holds b bytes h) (rw (lt→leb_false b.capacity (len + length bytes) full) run)) in
    rw (room, safe_prepend-front b' bytes (c ∷ new) h' left (omega arith)) refl
