-- ===== src/Prelude/Counting.antt =====
-- How often a number stands in a list.
use openclaw_serial_adapter.Prelude.Tests.{◌==◌, if◌then◌else◌}
use Prim.Native.Nat.{ℕ, ◌+◌}
use mathlib.Core.Path.{◌≡◌}
use mathlib.Core.List.{List, [], ◌∷◌, ◌++◌}
use native.Mathlib.Omega.{arith}

abbrev pub count : ℕ → List ℕ → ℕ
count a [] = 0
count a (x ∷ xs) = (if a == x then 1 else 0) + count a xs

pub count-append :
    (t : ℕ) (before after : List ℕ) → count t (before ++ after) ≡ count t before + count t after
count-append t [] after = omega arith
count-append t (b ∷ before) after = omega (arith, count-append t before after)
