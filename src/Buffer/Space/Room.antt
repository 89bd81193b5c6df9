-- ===== src/Buffer/Space/Room.antt =====
-- The bytes of a Buffer that makes room (liby_cpp/Buffer.cpp).
use old_tools.Common.{
  ℕ, zero, suc, ◌+◌, ◌-◌, ◌*◌, ◌≤◌, ◌<◌, ◌≡◌, inl, inr, refl, ap, none, some, List, ◌++◌, ltb, ◌==◌,
  ==→eq, length, Bool-cases, le→ltb_false, lt→ltb, ltb_false→le, arith,
}
use old_tools.Common.Run.{done, ◌>>=◌, >>=-done}
use old_tools.Buffer.{
  Buffer, no_buffer, new_cells, read_at, write_at, cells_of, size, move_cells, moved,
}
use old_tools.Buffer.Holds.{
  move_cells-Holds, Holds, write_at-parts, Holds-length, size-Holds, cells_of-Holds, read_at-Holds,
}
use old_tools.Buffer.Space.{forward, copied, resize_buffer, double_until, reserve}

-- Moving the bytes to the front
pub forward-Holds :
    (b : Buffer) (bytes : List ℕ)
    → Holds b bytes
    → (b' : Buffer) × (forward b 0 ≡ done b')
      × Holds b' bytes
      × (b'.right ≡ length bytes)
      × (b'.capacity ≡ b.capacity)
unfolding forward
forward-Holds b bytes h = elim (Bool-cases (b.left == 0)) [
  | inl e ↦ (b, rw (e) refl, h, omega (arith, h.up_to_right, ==→eq b.left 0 e), refl)
  | inr e ↦
      let (first, last, run, first_long, last_long) =
        move_cells-Holds b bytes h 0 (length bytes) refl
          (omega (arith, h.up_to_right, h.up_to_capacity)) in
      (
        moved b (first ++ (bytes ++ last)) 0 (b.right - b.left),
        rw (e) (
            >>=-done (size b)
              (λ n. move_cells b 0 b.left n >>= λ c. done (moved b c 0 (b.right - b.left)))
              (size-Holds b bytes h)
              (>>=-done (move_cells b 0 b.left (length bytes))
                (λ c. done (moved b c 0 (b.right - b.left))) run refl)),
        record {
          before = first;
          after = last;
          memory = refl;
          before_left = first_long;
          up_to_right = omega (arith, Holds-length b bytes h);
          up_to_capacity = omega (arith, Holds-length b bytes h, last_long);
        },
        Holds-length b bytes h,
        refl,
      )
]

-- The doubling reaches every size from one that is not zero.
double_until-Enough :
    (fuel new_size min_size : ℕ)
    → 0 < new_size
    → min_size ≤ new_size + fuel
    → (n : ℕ) × (double_until (suc fuel) new_size min_size ≡ some n)
      × (new_size ≤ n)
      × (min_size ≤ n)
unfolding double_until
double_until-Enough zero new_size min_size p le =
    (new_size, rw (le→ltb_false new_size min_size (omega arith)) refl, omega arith, omega arith)
double_until-Enough (suc fuel) new_size min_size p le = elim (Bool-cases (ltb new_size min_size)) [
  | inl e ↦
      let (n, run, grown, enough) =
        double_until-Enough fuel (new_size * 2) min_size (omega arith) (omega arith) in
      (n, rw (e) run, omega arith, enough)
  | inr e ↦ (new_size, rw (e) refl, omega arith, ltb_false→le new_size min_size e)
]

pub length-new_cells : (fresh : ℕ → ℕ) (i n : ℕ) → length (new_cells fresh i n) ≡ n
unfolding new_cells
length-new_cells fresh i zero = refl
length-new_cells fresh i (suc n) = ap suc (length-new_cells fresh (i + 1) n)

-- A larger buffer with the same bytes at the same place
resize_buffer-Holds :
    (fresh : ℕ → ℕ) (b : Buffer) (bytes : List ℕ) (n : ℕ)
    → Holds b bytes
    → b.capacity ≤ n
    → (b' : Buffer) × (resize_buffer fresh b n ≡ done b')
      × Holds b' bytes
      × (b'.right ≡ b.right)
      × (b'.capacity ≡ n)
unfolding resize_buffer copied
resize_buffer-Holds fresh b bytes n h grown =
    let cells = h.before ++ (bytes ++ h.after) in
    let long = length-new_cells fresh 0 n in
    let (first, last, run, first_long, last_long) =
      write_at-parts (new_cells fresh 0 n) b.left bytes
        (omega (arith, h.up_to_right, h.up_to_capacity)) in
    let copy : copied fresh b n ≡ done (first ++ (bytes ++ last)) =
      >>=-done (size b)
        (λ len. cells_of b >>= λ c.
          read_at c b.left len >>= λ bs. write_at (new_cells fresh 0 n) b.left bs)
        (size-Holds b bytes h)
        (>>=-done (cells_of b)
          (λ c. read_at c b.left (length bytes) >>= λ bs. write_at (new_cells fresh 0 n) b.left bs)
          (cells_of-Holds b bytes h)
          (>>=-done (read_at cells b.left (length bytes))
            (λ bs. write_at (new_cells fresh 0 n) b.left bs) (read_at-Holds b bytes h) run)) in
    (
      record {
        cells = some (first ++ (bytes ++ last));
        left = b.left;
        right = b.right;
        capacity = n;
      },
      rw (le→ltb_false n b.capacity grown) (
          >>=-done (copied fresh b n)
            (λ c. done (record { cells = some c; left = b.left; right = b.right; capacity = n }))
            copy refl),
      record {
        before = first;
        after = last;
        memory = refl;
        before_left = first_long;
        up_to_right = h.up_to_right;
        up_to_capacity = omega (arith, h.up_to_right, last_long, long);
      },
      refl,
      refl,
    )

pub reserve-Holds :
    (fuel : ℕ) (fresh : ℕ → ℕ) (b : Buffer) (bytes : List ℕ) (min_size : ℕ)
    → Holds b bytes
    → 0 < b.capacity
    → b.capacity ≤ min_size
    → min_size ≤ b.capacity * 2 + fuel
    → (b' : Buffer) × (reserve (suc fuel) fresh b min_size ≡ done (some b'))
      × Holds b' bytes
      × (b'.right ≡ b.right)
      × (min_size ≤ b'.capacity)
unfolding reserve
reserve-Holds fuel fresh b bytes min_size h p small le =
    let (n, doubled, grown, enough) =
      double_until-Enough fuel (b.capacity * 2) min_size (omega arith) le in
    let (b', run, h', right, capacity) = resize_buffer-Holds fresh b bytes n h (omega arith) in
    (
      b',
      rw (le→ltb_false min_size b.capacity small, doubled)
          (>>=-done (resize_buffer fresh b n) (λ r. done (some r)) run refl),
      h',
      right,
      omega (arith, capacity),
    )

-- Without capacity the doubling stays at zero.
double_until-zero : (fuel min_size : ℕ) → 0 < min_size → double_until fuel 0 min_size ≡ none
unfolding double_until
double_until-zero zero min_size p = refl
double_until-zero (suc fuel) min_size p =
    rw (lt→ltb 0 min_size p) (double_until-zero fuel min_size p)

pub reserve-no_buffer :
    (fuel : ℕ) (fresh : ℕ → ℕ) (min_size : ℕ)
    → 0 < min_size
    → reserve fuel fresh no_buffer min_size ≡ done none
unfolding reserve no_buffer
reserve-no_buffer fuel fresh min_size p =
    rw (le→ltb_false min_size 0 (omega arith), double_until-zero fuel min_size p) refl
