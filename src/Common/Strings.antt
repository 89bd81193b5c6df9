-- ===== src/Common/Strings.antt =====
-- C strings as the lists of the bytes in front of their terminator, and the C library's functions
-- on them that the programs call.
use Prim.Native.Nat.{ℕ}
use mathlib.Core.Path.{◌≡◌, refl}
use mathlib.Core.Bool.{Bool, true, false, ◌||◌}
use mathlib.Core.List.{List, [], ◌∷◌, ◌++◌}
use mathlib.Core.Option.{Option, none, some}
use old_tools.Common.Tests.{◌==◌, if◌then◌else◌}

abbrev pub CString : Type 0
CString = List ℕ

abbrev pub contains : CString → ℕ → Bool
contains [] c = false
contains (d ∷ ds) c = (c == d) || contains ds c

-- `strsep(&s, delim)` at a string: the token, and the new value of `s`
unfoldable pub strsep : CString → CString → CString × Option CString
strsep delim [] = ([], none)
strsep delim (c ∷ s) =
    let (token, rest) = strsep delim s in
    if contains delim c then ([], some s) else (c ∷ token, rest)

-- None of the characters is in the string.
abbrev pub FreeOf : CString → CString → Type 0
FreeOf delim [] = Unit {0}
FreeOf delim (c ∷ s) = (contains delim c ≡ false) × FreeOf delim s

pub strsep-none : (delim s : CString) → FreeOf delim s → strsep delim s ≡ (s, none)
unfolding strsep
strsep-none delim [] h = refl
strsep-none delim (c ∷ s) (p, h) = rw (p, strsep-none delim s h)

pub strsep-append :
    (delim s : CString) (d : ℕ) (t : CString)
    → FreeOf delim s
    → contains delim d ≡ true
    → strsep delim (s ++ (d ∷ t)) ≡ (s, some t)
unfolding strsep
strsep-append delim [] d t h e = rw e
strsep-append delim (c ∷ s) d t (p, h) e = rw (p, strsep-append delim s d t h e)
