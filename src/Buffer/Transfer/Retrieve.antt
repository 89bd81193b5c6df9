-- ===== src/Buffer/Transfer/Retrieve.antt =====
-- The bytes behind a retrieve, and what retriveveAsString returns (liby_cpp/Buffer.cpp).
use old_tools.Common.{
  ◌||◌, ◌≢◌, ne→==_false, ℕ, zero, suc, ◌+◌, ◌≤◌, ◌<◌, ◌≡◌, inl, inr, refl, ap, ap₂, sym, ◌∙◌, true,
  false, none, some, List, [], ◌++◌, append_assoc, ltb, ◌==◌, if◌then◌else◌, length, length-append,
  length-drop, length-take_le, take, drop, take-append-drop, Bool-cases, le→ltb_false, arith,
}
use old_tools.Common.Run.{done, ◌>>=◌, >>=-done}
use old_tools.Buffer.{Buffer, read_at, assert_data, size, reindexed}
use old_tools.Buffer.Holds.{Holds, size-Holds, assert_data-Holds, read_at-append}
use old_tools.Buffer.Transfer.{retrieve, take_now, take_string}

lt→ne : {n : ℕ} → 0 < n → n ≢ 0
lt→ne p = omega arith

three : (ws xs ys zs : List ℕ) → ws ++ ((xs ++ ys) ++ zs) ≡ (ws ++ xs) ++ (ys ++ zs)
three ws xs ys zs = simp append_assoc refl

-- `len` bytes fewer at the front
retrieve-Holds :
    (b : Buffer) (bytes : List ℕ) (len : ℕ)
    → Holds b bytes
    → len ≤ length bytes
    → 0 < length bytes
    → (b' : Buffer) × (retrieve b len ≡ done b') × Holds b' (drop len bytes)
unfolding retrieve
retrieve-Holds b bytes len h le p =
    let front = take len bytes in
    let rest = drop len bytes in
    let front_long : length front ≡ len = length-take_le len bytes le in
    let rest_long = length-drop len bytes in
    (
      reindexed b (b.left + len) b.right,
      >>=-done (size b)
          (λ n. done (
            if n == 0
            then b
            else (if ltb n len then reindexed b 0 0 else reindexed b (b.left + len) b.right)))
          (size-Holds b bytes h)
          (rw (ne→==_false (length bytes) 0 (lt→ne p), le→ltb_false (length bytes) len le) refl),
      record {
        before = h.before ++ front;
        after = h.after;
        memory =
            h.memory
            ∙ ap (λ r. some (h.before ++ (r ++ h.after))) (sym (take-append-drop len bytes))
            ∙ ap some (three h.before front rest h.after);
        before_left = length-append h.before front ∙ omega (arith, h.before_left);
        up_to_right = omega (arith, h.up_to_right, rest_long);
        up_to_capacity = h.up_to_capacity;
      },
    )

take_now-Holds :
    (b : Buffer) (bytes : List ℕ) (len : ℕ)
    → Holds b bytes
    → len ≤ length bytes
    → 0 < length bytes
    → (b' : Buffer) × (take_now b len ≡ done (some (take len bytes, b')))
      × Holds b' (drop len bytes)
unfolding take_now
take_now-Holds b bytes len h le p =
    let (b', run, h') = retrieve-Holds b bytes len h le p in
    let front = take len bytes in
    let cells = h.before ++ (bytes ++ h.after) in
    let split : cells ≡ h.before ++ (front ++ (drop len bytes ++ h.after)) =
      ap (λ r. h.before ++ (r ++ h.after)) (sym (take-append-drop len bytes))
      ∙ ap (λ r. h.before ++ r) (append_assoc front (drop len bytes) h.after) in
    let i : b.left ≡ length h.before = sym h.before_left in
    let k : len ≡ length front = sym (length-take_le len bytes le) in
    let read : read_at cells b.left len ≡ done front =
      ap₂ (λ c j. read_at c j len) split i
      ∙ ap (λ n. read_at (h.before ++ (front ++ (drop len bytes ++ h.after))) (length h.before) n) k
      ∙ read_at-append h.before front (drop len bytes ++ h.after) in
    (
      b',
      >>=-done (assert_data b)
          (λ c. read_at c b.left len >>= λ bs. retrieve b len >>= λ r. done (some (bs, r)))
          (assert_data-Holds b bytes h)
          (>>=-done (read_at cells b.left len) (λ bs. retrieve b len >>= λ r. done (some (bs, r)))
            read (>>=-done (retrieve b len) (λ r. done (some (front, r))) run refl)),
      h',
    )

-- One call of retriveveAsString
call :
    (fuel : ℕ) (b : Buffer) (bytes : List ℕ) (len : ℕ)
    → Holds b bytes
    → take_string (suc fuel) b len ≡ (
        if (len == 0) || ltb (length bytes) len
        then take_string fuel b (length bytes)
        else take_now b len)
unfolding take_string
call fuel b bytes len h =
    >>=-done (size b)
      (λ n. if (len == 0) || ltb n len then take_string fuel b n else take_now b len)
      (size-Holds b bytes h) refl

whole : (n : ℕ) → 0 < n → ((n == 0) || ltb n n) ≡ false
whole n p = ground arith

part : (n len : ℕ) → ((len == 0) || ltb n len) ≡ false → len ≤ n
part n len e = ground arith

-- Of a buffer that holds at least one byte retriveveAsString returns the first `len` bytes, or
-- all of them if `len` is 0 or greater than their number, calling itself once at most, and
-- leaves the buffer with the others.
pub take_string-Holds :
    (fuel : ℕ) (b : Buffer) (bytes : List ℕ) (len : ℕ)
    → Holds b bytes
    → 0 < length bytes
    → (n : ℕ) × (n ≡ (if (len == 0) || ltb (length bytes) len then length bytes else len))
      × (b' : Buffer) × (take_string (suc (suc fuel)) b len ≡ done (some (take n bytes, b')))
      × Holds b' (drop n bytes)
take_string-Holds fuel b bytes len h p = elim (Bool-cases ((len == 0) || ltb (length bytes) len)) [
  | inl e ↦
      let (b', run, h') = take_now-Holds b bytes (length bytes) h (omega arith) p in
      (
        length bytes,
        rw (e) refl,
        b',
        call (suc fuel) b bytes len h
            ∙ rw (e) (call fuel b bytes (length bytes) h ∙ rw (whole (length bytes) p) run),
        h',
      )
  | inr e ↦
      let (b', run, h') = take_now-Holds b bytes len h (part (length bytes) len e) p in
      (len, rw (e) refl, b', call (suc fuel) b bytes len h ∙ rw (e) run, h')
]

none_left : (len : ℕ) → ((len == 0) || ltb 0 len) ≡ true
none_left len = ground arith

-- On a buffer that holds no bytes, however often retriveveAsString calls itself, it has not
-- ended.
pub take_string_empty :
    (fuel : ℕ) (b : Buffer) (len : ℕ) → Holds b [] → take_string fuel b len ≡ done none
unfolding take_string
take_string_empty zero b len h = refl
take_string_empty (suc fuel) b len h =
    call fuel b [] len h ∙ rw (none_left len) (take_string_empty fuel b 0 h)
