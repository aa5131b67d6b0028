-- ===== src/Intent.antt =====
-- The reading of an instruction in index.ts: `normalizeIntentText`, `detectSemanticIntent`,
-- `parseSemanticIntensity`, `parseDeltaOverride` and `parseAbsoluteAngle`. `toLowerCase`, which
-- follows the tables of Unicode, is a parameter.
pub mod Ranges
mod Tests
use openclaw_serial_adapter.Prelude.{
  ℕ, zero, suc, ◌+◌, ◌*◌, ◌-◌, Bool, true, false, ◌&&◌, ◌||◌, Option, none, some, List, [], ◌∷◌,
  leb, ◌==◌, if◌then◌else◌, or_some,
}
use openclaw_serial_adapter.Prelude.Int.{ℤ, pos, negsuc, abs, clamp_ℕ, sub_ℕ}
use mathlib.Core.Option
use openclaw_serial_adapter.Number.{Number}
use openclaw_serial_adapter.Text.{Text, codes, trim, is_space, is_empty, includes}

pub data SemanticIntensity : Type 0 where
  small medium large : SemanticIntensity

pub data SemanticIntent : Type 0 where
  status stop center nudge_left nudge_right nod shake unknown : SemanticIntent

abbrev pub intensity_to_delta : SemanticIntensity → ℕ
intensity_to_delta small = 8
intensity_to_delta medium = 15
intensity_to_delta large = 25

-- `s.replace(/\s+/g, " ")`; the test tells whether white space has been replaced just before
pub collapse_spaces : Bool → Text → Text
unfolding is_space
collapse_spaces in_space [] = []
collapse_spaces in_space (c ∷ s) =
    let after_space = collapse_spaces true s in
    let after_other = collapse_spaces false s in
    if is_space c then (if in_space then after_space else 32 ∷ after_space) else c ∷ after_other

unfoldable pub normalize_intent_text : (Text → Text) → Text → Text
unfolding collapse_spaces trim
normalize_intent_text to_lower_case input = to_lower_case (trim (collapse_spaces false input))

unfoldable pub includes_any : Text → List Text → Bool
unfolding includes
includes_any text [] = false
includes_any text (keyword ∷ keywords) = includes text keyword || includes_any text keywords

abbrev pub small_keywords : List Text
small_keywords =
    codes "一點"
    ∷ codes "一點點"
    ∷ codes "微"
    ∷ codes "稍微"
    ∷ codes "小"
    ∷ codes "slight"
    ∷ codes "little"
    ∷ []

abbrev pub large_keywords : List Text
large_keywords =
    codes "很多"
    ∷ codes "大幅"
    ∷ codes "大一點"
    ∷ codes "強"
    ∷ codes "快一點"
    ∷ codes "more"
    ∷ codes "larger"
    ∷ codes "faster"
    ∷ []

abbrev pub absolute_hints : List Text
absolute_hints =
    codes "到"
    ∷ codes "設"
    ∷ codes "set"
    ∷ codes "angle"
    ∷ codes "角度"
    ∷ codes "position"
    ∷ codes "pos"
    ∷ []

-- the keywords of each intent, in the order in which `detectSemanticIntent` tries them
abbrev pub intent_keywords : List (SemanticIntent × List Text)
intent_keywords =
    (
      status,
      codes "狀態"
          ∷ codes "觀測"
          ∷ codes "觀察"
          ∷ codes "summary"
          ∷ codes "status"
          ∷ codes "imu"
          ∷ codes "偵測"
          ∷ codes "check"
          ∷ [],
    )
    ∷ (stop, codes "停" ∷ codes "停止" ∷ codes "stop" ∷ codes "靜止" ∷ codes "別動" ∷ codes "hold" ∷ [])
    ∷ (center, codes "回中" ∷ codes "置中" ∷ codes "center" ∷ codes "中間" ∷ [])
    ∷ (nod, codes "點頭" ∷ codes "nod" ∷ [])
    ∷ (shake, codes "搖頭" ∷ codes "shake" ∷ [])
    ∷ (nudge_left, codes "往左" ∷ codes "左轉" ∷ codes "向左" ∷ codes "left" ∷ [])
    ∷ (nudge_right, codes "往右" ∷ codes "右轉" ∷ codes "向右" ∷ codes "right" ∷ [])
    ∷ []

unfoldable pub first_intent : Text → List (SemanticIntent × List Text) → SemanticIntent
unfolding includes_any
first_intent text [] = unknown
first_intent text ((intent, keywords) ∷ r) =
    let later = first_intent text r in if includes_any text keywords then intent else later

unfoldable pub detect_semantic_intent : (Text → Text) → Text → SemanticIntent
unfolding normalize_intent_text first_intent
detect_semantic_intent to_lower_case input =
    let text = normalize_intent_text to_lower_case input in
    if is_empty text then unknown else first_intent text intent_keywords

unfoldable pub parse_semantic_intensity : Text → Option SemanticIntensity → SemanticIntensity
unfolding includes_any
parse_semantic_intensity text (some intensity) = intensity
parse_semantic_intensity text none =
    let smaller_or_medium = (if includes_any text large_keywords then large else medium) in
    if includes_any text small_keywords then small else smaller_or_medium

abbrev pub is_digit : ℕ → Bool
is_digit c = leb 48 c && leb c 57

-- the number that at most `k` digits at the head of the text spell, after `n`
pub take_digits : ℕ → ℕ → Text → ℕ
take_digits zero n s = n
take_digits (suc k) n [] = n
take_digits (suc k) n (c ∷ s) =
    let longer = take_digits k (n * 10 + (c - 48)) s in if is_digit c then longer else n

abbrev pub starts_with_digit : Text → Bool
starts_with_digit [] = false
starts_with_digit (c ∷ s) = is_digit c

-- `Number(match[1])` of the leftmost match of `/(-?\d{1,3})\s*(?:deg|degree|度)?/i`
unfoldable pub match_number : Text → Option ℤ
unfolding take_digits
match_number [] = none
match_number (c ∷ s) =
    let later = match_number s in
    if c == 45 && starts_with_digit s
    then some (sub_ℕ 0 (take_digits 3 0 s))
    else (if is_digit c then some (pos (take_digits 3 0 (c ∷ s))) else later)

module _ (N : Number) where
  open N use {F, is_finite}

  -- the number of an optional argument, where it is finite
  abbrev pub finite_argument : Option F → Option F
  finite_argument none = none
  finite_argument (some x) = if is_finite x then some x else none

  unfoldable pub parse_delta_override : Text → Option F → Option ℕ
  unfolding match_number
  parse_delta_override text explicit_delta =
      let explicit =
        Option.map (λ x. clamp_ℕ 1 60 (N.floor (N.abs x))) (finite_argument explicit_delta) in
      let matched = Option.map (λ parsed. clamp_ℕ 1 60 (pos (abs parsed))) (match_number text) in
      or_some explicit matched

  unfoldable pub parse_absolute_angle : Text → Option F → Option ℕ
  unfolding match_number includes_any
  parse_absolute_angle text explicit_angle =
      let explicit = Option.map (λ x. clamp_ℕ 0 180 (N.round x)) (finite_argument explicit_angle) in
      let matched = Option.map (clamp_ℕ 0 180) (match_number text) in
      or_some explicit (if includes_any text absolute_hints then matched else none)
