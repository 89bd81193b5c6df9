-- ===== src/Huffman/Compress/Codes/Laws.antt =====
-- The key bytes of a code, and the keys and codes of a tree (do_huffman in
-- HuffmanCompress/HuffmanCompress.c).
use old_tools.Common.{
  ℕ, zero, suc, ◌+◌, ◌-◌, ◌*◌, ◌/◌, ◌^◌, ◌≤◌, ◌≡◌, refl, ap, ap₂, ◌∙◌, Bool, true, false, Option,
  none, some, List, [], ◌∷◌, ◌++◌, append_assoc, arith, length, length-append, get_elem?,
  if◌then◌else◌, ◌==◌, le→ltb_false,
}
use old_tools.Common.Run.{done}
use Prim.Native.Nat.{max}
use old_tools.Huffman.Bits.{Bits}
use old_tools.Huffman.Compress.Item.{Item, leaf, node}
use old_tools.Huffman.Compress.Codes.{result_byte, result_bytes, Keys, put_key, do_huffman}
use old_tools.Huffman.Decompress.Build.Laws.{Spells, stop, step, next, symbol}

-- Byte `i + 1` of a code is byte `i` of what follows its first four characters.
result_byte_shift :
    (rounds j i : ℕ) (a b c d : Bool) (r : Bits) (byte : ℕ)
    → result_byte rounds j (a ∷ b ∷ c ∷ d ∷ r) (suc i) byte ≡ result_byte rounds j r i byte
unfolding result_byte
result_byte_shift zero j i a b c d r byte = refl
result_byte_shift (suc rounds) j i a b c d r byte =
    let e : suc i * 4 + j / 2 ≡ suc (suc (suc (suc (i * 4 + j / 2)))) = omega arith in
    rw (e, result_byte)
      (go (get_elem? r (i * 4 + j / 2)) (result_byte_shift rounds (j + 2) i a b c d r))
  where
    Same : (ℕ → ℕ) → (ℕ → ℕ) → Type 0
    Same f g = (x : ℕ) → f x ≡ g x

    go :
        {f g : ℕ → ℕ} (o : Option Bool)
        → Same f g
        → elim o [ none ↦ byte | some x ↦ f (byte + (if x then 1 else 2) * 2 ^ (6 - j)) ]
          ≡ elim o [ none ↦ byte | some x ↦ g (byte + (if x then 1 else 2) * 2 ^ (6 - j)) ]
    go none same = refl
    go (some x) same = same (byte + (if x then 1 else 2) * 2 ^ (6 - j))

result_bytes_shift :
    (rounds i : ℕ) (a b c d : Bool) (r : Bits)
    → result_bytes rounds (suc i) (a ∷ b ∷ c ∷ d ∷ r) ≡ result_bytes rounds i r
unfolding result_bytes
result_bytes_shift zero i a b c d r = refl
result_bytes_shift (suc rounds) i a b c d r = ap₂ ◌∷◌ (result_byte_shift 4 0 i a b c d r 0) (
    ap (λ k. result_bytes rounds k (a ∷ b ∷ c ∷ d ∷ r)) {x = suc i + 1} {y = suc (i + 1)}
      (omega arith)
    ∙ result_bytes_shift rounds (i + 1) a b c d r)

-- The bytes of a key, in the number that do_huffman computes
abbrev pub key_of : Bits → List ℕ
key_of string = result_bytes (length string / 4 + 1) 0 string

pub data SpellsKey (rest : List ℕ) (code : Bits) : List ℕ → Type 0 where
  spells : {v : ℕ} {key : List ℕ} → Spells rest 4 v key code → SpellsKey rest code (v ∷ key)

symbol_bounds : (b : Bool) → (1 ≤ symbol b) × (symbol b ≤ 2)
symbol_bounds true = omega arith
symbol_bounds false = omega arith

key_of-cons₄ :
    (a b c d : Bool) (r : Bits)
    → key_of (a ∷ b ∷ c ∷ d ∷ r)
      ≡ (0 + symbol a * 64 + symbol b * 16 + symbol c * 4 + symbol d * 1) ∷ key_of r
unfolding result_bytes result_byte
key_of-cons₄ a b c d r =
    ap (λ n. result_bytes n 0 (a ∷ b ∷ c ∷ d ∷ r)) {x = suc (suc (suc (suc (length r)))) / 4 + 1}
      {y = suc (length r / 4 + 1)} (omega arith)
    ∙ ap (λ bytes. (0 + symbol a * 64 + symbol b * 16 + symbol c * 4 + symbol d * 1) ∷ bytes)
        (result_bytes_shift (length r / 4 + 1) 0 a b c d r)

add_byte :
    {rest : List ℕ} {bytes : List ℕ} {r : Bits} (a b c d : Bool)
    → SpellsKey rest r bytes
    → SpellsKey rest
        (a ∷ b ∷ c ∷ d ∷ r)
        ((0 + symbol a * 64 + symbol b * 16 + symbol c * 4 + symbol d * 1) ∷ bytes)
add_byte a b c d (spells s) =
    let la = symbol_bounds a in
    let lb = symbol_bounds b in
    let lc = symbol_bounds c in
    let ld = symbol_bounds d in
    spells (
      step a (omega arith)
        (step b (omega arith) (step c (omega arith) (step d (omega arith) (next s)))))

-- The key of a code spells the code, whatever follows it.
pub key_of-SpellsKey : (code : Bits) (rest : List ℕ) → SpellsKey rest code (key_of code ++ rest)
unfolding result_bytes result_byte
key_of-SpellsKey [] rest = spells (stop refl)
key_of-SpellsKey (a ∷ []) rest =
    let la = symbol_bounds a in spells (step a (omega arith) (stop (omega arith)))
key_of-SpellsKey (a ∷ b ∷ []) rest =
    let la = symbol_bounds a in
    let lb = symbol_bounds b in
    spells (step a (omega arith) (step b (omega arith) (stop (omega arith))))
key_of-SpellsKey (a ∷ b ∷ c ∷ []) rest =
    let la = symbol_bounds a in
    let lb = symbol_bounds b in
    let lc = symbol_bounds c in
    spells (step a (omega arith) (step b (omega arith) (step c (omega arith) (stop (omega arith)))))
key_of-SpellsKey (a ∷ b ∷ c ∷ d ∷ r) rest =
    rw key_of-cons₄ (add_byte a b c d (key_of-SpellsKey r rest))

-- The keys of a tree's leaves in the order of the traversal, `string` being the path so far
unfoldable pub keys_of : Item → Bits → List ℕ
keys_of (leaf num n) string = num ∷ key_of string
keys_of (node n left right) string =
    keys_of left (string ++ (true ∷ [])) ++ keys_of right (string ++ (false ∷ []))

-- The table of codes after the traversal
unfoldable pub codes_of : Item → Bits → (ℕ → Bits) → ℕ → Bits
codes_of (leaf num n) string codes = λ b. if b == num then string else codes b
codes_of (node n left right) string codes =
    codes_of right (string ++ (false ∷ [])) (codes_of left (string ++ (true ∷ [])) codes)

unfoldable pub leaves : Item → ℕ
leaves (leaf num n) = 1
leaves (node n left right) = leaves left + leaves right

unfoldable pub height : Item → ℕ
height (leaf num n) = 0
height (node n left right) = suc (max (height left) (height right))

-- A tree whose codes are of at most 15 characters is traversed without a fault.
pub do_huffman_lem :
    (t : Item) (string : Bits) (k : Keys)
    → length string + height t ≤ 15
    → do_huffman t string k
      ≡ done (record {
        key_buf = k.key_buf ++ keys_of t string;
        codes = codes_of t string k.codes;
        non_zero_nums = k.non_zero_nums + leaves t;
      })
unfolding do_huffman put_key keys_of codes_of leaves height
do_huffman_lem (leaf num n) string k h = rw (le→ltb_false 4 (length string / 4 + 1) (omega arith))
do_huffman_lem (node n left right) string k h =
    rw
      (do_huffman_lem left (string ++ (true ∷ [])) k
        (omega (arith, length-append string (true ∷ []))))
      (rw
        (do_huffman_lem right (string ++ (false ∷ [])) _
          (omega (arith, length-append string (false ∷ []))))
        (ap₂
          (λ bytes n. done (record {
            key_buf = bytes;
            codes =
                codes_of right (string ++ (false ∷ []))
                  (codes_of left (string ++ (true ∷ [])) k.codes);
            non_zero_nums = n;
          }))
          (append_assoc k.key_buf (keys_of left (string ++ (true ∷ [])))
            (keys_of right (string ++ (false ∷ []))))
          (omega arith)))
