-- ===== src/Common/Addresses.antt =====
-- Lists of addresses in which none occurs twice.
use Prim.Native.Nat.{ℕ}
use mathlib.Core.Path.{◌≡◌}
use mathlib.Core.Bool.{false}
use mathlib.Core.List.{List, [], ◌∷◌}
use old_tools.Common.Tests.{◌==◌}

-- The address is none of the list's.
abbrev pub Avoids : ℕ → List ℕ → Type 0
Avoids c [] = Unit {0}
Avoids c (x ∷ xs) = ((x == c) ≡ false) × Avoids c xs

abbrev pub Distinct : List ℕ → Type 0
Distinct [] = Unit {0}
Distinct (x ∷ xs) = Avoids x xs × Distinct xs
