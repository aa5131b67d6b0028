-- ===== src/Intent/Ranges.antt =====
-- The ranges of the numbers that index.ts reads from an instruction.
use openclaw_serial_adapter.Prelude.{
  ℕ, ◌≤◌, Option, none, some, arith, Bool, true, false, or_some, if◌then◌else◌,
}
use openclaw_serial_adapter.Prelude.Int.{ℤ, pos, abs, clamp_ℕ}
use mathlib.Core.Option
use openclaw_serial_adapter.Number.{Number}
use openclaw_serial_adapter.Text.{Text}
use openclaw_serial_adapter.Intent.{
  parse_delta_override, parse_absolute_angle, finite_argument, match_number, includes_any,
  absolute_hints,
}

-- What holds of the value, where there is one.
abbrev pub OnSome : {A : Type 0} → (A → Type 0) → Option A → Type 0
OnSome P none = Unit
OnSome P (some a) = P a

pub clamp_ℕ-bounds : (lo hi : ℕ) (x : ℤ) → lo ≤ hi → lo ≤ clamp_ℕ lo hi x × clamp_ℕ lo hi x ≤ hi
clamp_ℕ-bounds lo hi x h = (ground arith, ground arith)

pub OnSome-map :
    {A B : Type 0} (f : A → B) (P : B → Type 0) (o : Option A)
    → ((a : A) → P (f a))
    → OnSome P (Option.map f o)
OnSome-map f P none h = tt
OnSome-map f P (some a) h = h a

OnSome-or_some :
    {A : Type 0} (P : A → Type 0) (o r : Option A)
    → OnSome P o
    → OnSome P r
    → OnSome P (or_some o r)
OnSome-or_some P none r p q = q
OnSome-or_some P (some a) r p q = p

OnSome-if :
    {A : Type 0} (P : A → Type 0) (b : Bool) (o : Option A)
    → OnSome P o
    → OnSome P (if b then o else none)
OnSome-if P true o p = p
OnSome-if P false o p = tt

module _ (N : Number) where
  open N use {F}

  -- A step that an instruction asks for lies between 1 and 60 degrees.
  pub parse_delta_override-bounds :
      (text : Text) (explicit : Option F)
      → OnSome (λ d. 1 ≤ d × d ≤ 60) (parse_delta_override N text explicit)
  unfolding parse_delta_override
  parse_delta_override-bounds text explicit =
      let P : ℕ → Type 0 = λ d. 1 ≤ d × d ≤ 60 in
      OnSome-or_some P _ _
        (OnSome-map _ P (finite_argument N explicit)
          (λ x. clamp_ℕ-bounds 1 60 (N.floor (N.abs x)) (omega arith)))
        (OnSome-map _ P (match_number text) (λ x. clamp_ℕ-bounds 1 60 (pos (abs x)) (omega arith)))

  -- An angle that an instruction asks for lies between 0 and 180 degrees.
  pub parse_absolute_angle-bounds :
      (text : Text) (explicit : Option F)
      → OnSome (λ a. a ≤ 180) (parse_absolute_angle N text explicit)
  unfolding parse_absolute_angle
  parse_absolute_angle-bounds text explicit =
      let P : ℕ → Type 0 = λ a. a ≤ 180 in
      OnSome-or_some P _
        (if includes_any text absolute_hints
          then Option.map (clamp_ℕ 0 180) (match_number text)
          else none)
        (OnSome-map _ P (finite_argument N explicit)
          (λ x. (clamp_ℕ-bounds 0 180 (N.round x) (omega arith)).1))
        (OnSome-if P (includes_any text absolute_hints) _
          (OnSome-map _ P (match_number text) (λ x. (clamp_ℕ-bounds 0 180 x (omega arith)).1)))
