-- ===== src/Ports.antt =====
-- The choice of a serial port in src/launcher.ts: `normalizePortInfo`, `scorePort` and
-- `chooseBestSerialPort`. `toLowerCase`, which follows the tables of Unicode, is a parameter.
pub mod Choice
mod Tests
use openclaw_serial_adapter.Prelude.{
  ℕ, ◌+◌, Bool, true, false, ◌&&◌, ◌||◌, not, Option, none, some, List, [], ◌∷◌, ◌++◌, leb, ◌==◌,
  if◌then◌else◌,
}
use openclaw_serial_adapter.Prelude.Int.{ℤ, pos, negsuc, ltb_ℤ}
use openclaw_serial_adapter.Number.{Number}
use openclaw_serial_adapter.Text.{Text, codes, trim, is_empty, includes}
use openclaw_serial_adapter.Json.{Json, num, str, obj, arr, entries, Entries}
use openclaw_serial_adapter.Frame.{get_field}

pub record SerialPortInfo (F : Type 0) : Type 0 where
  pub device : Text
  pub name : Option Text
  pub description : Option Text
  pub hwid : Option Text
  pub vid : Option F
  pub pid : Option F
  pub manufacturer : Option Text
  pub product : Option Text
  pub serial_number : Option Text
  pub interface : Option Text

abbrev pub default_port_hints : List Text
default_port_hints =
    codes "arduino"
    ∷ codes "uno"
    ∷ codes "ch340"
    ∷ codes "cp210"
    ∷ codes "ftdi"
    ∷ codes "usb serial"
    ∷ codes "ttyusb"
    ∷ codes "ttyacm"
    ∷ codes "com"
    ∷ []

abbrev pub weighted : List (Text × ℕ)
weighted =
    (codes "arduino", 180)
    ∷ (codes "uno", 170)
    ∷ (codes "ch340", 150)
    ∷ (codes "cp210", 150)
    ∷ (codes "ftdi", 140)
    ∷ (codes "usb serial", 130)
    ∷ (codes "ttyacm", 90)
    ∷ (codes "ttyusb", 90)
    ∷ []

-- `.filter(Boolean).join(" ")`
pub join_present : List (Option Text) → Text
join_present [] = []
join_present (none ∷ ts) = join_present ts
join_present (some [] ∷ ts) = join_present ts
join_present (some (c ∷ s) ∷ ts) =
    let rest = join_present ts in if is_empty rest then c ∷ s else (c ∷ s) ++ 32 ∷ rest

pub all_digits : Text → Bool
all_digits [] = true
all_digits (c ∷ s) = leb 48 c && leb c 57 && all_digits s

-- `/^com\d+$/i.test(s)`
pub is_com_port : Text → Bool
unfolding all_digits
is_com_port (c ∷ (o ∷ (m ∷ digits))) =
    (c == 99 || c == 67)
    && (o == 111 || o == 79)
    && (m == 109 || m == 77)
    && not (is_empty digits)
    && all_digits digits
is_com_port _ = false

-- the loop over the weighted keywords
pub keyword_score : Text → List (Text × ℕ) → ℕ
unfolding includes
keyword_score haystack [] = 0
keyword_score haystack ((keyword, weight) ∷ ks) =
    (if includes haystack keyword then weight else 0) + keyword_score haystack ks

abbrev pub used_hints : Option (List Text) → List Text
used_hints (some (hint ∷ hints)) = hint ∷ hints
used_hints _ = default_port_hints

module _ (to_lower_case : Text → Text) where
  -- the loop over the hints
  pub hint_score : Text → List Text → ℕ
  unfolding includes trim
  hint_score haystack [] = 0
  hint_score haystack (hint ∷ hints) =
      let normalized = to_lower_case (trim hint) in
      (if not (is_empty normalized) && includes haystack normalized then 50 else 0)
      + hint_score haystack hints

module _ {F : Type 0} (to_lower_case : Text → Text) where
  pub haystack_of : SerialPortInfo F → Text
  unfolding join_present
  haystack_of port = to_lower_case (
      join_present (
        some port.device
        ∷ port.name
        ∷ port.description
        ∷ port.hwid
        ∷ port.manufacturer
        ∷ port.product
        ∷ port.serial_number
        ∷ port.interface
        ∷ []))

  unfoldable pub score_port : SerialPortInfo F → List Text → ℕ
  unfolding haystack_of keyword_score hint_score is_com_port
  score_port port hints =
      let haystack = haystack_of port in
      keyword_score haystack weighted
      + hint_score to_lower_case haystack hints
      + (if is_com_port port.device then 5 else 0)

  -- the loop of `chooseBestSerialPort`, on `best` and `bestScore`
  unfoldable pub best_of :
      List Text
      → List (SerialPortInfo F)
      → Option (SerialPortInfo F)
      → ℤ
      → Option (SerialPortInfo F) × ℤ
  unfolding score_port
  best_of hints [] best best_score = (best, best_score)
  best_of hints (port ∷ ports) best best_score =
      let score = pos (score_port port hints) in
      if ltb_ℤ best_score score
      then best_of hints ports (some port) score
      else best_of hints ports best best_score

  unfoldable pub choose_best_serial_port :
      List (SerialPortInfo F) → Option (List Text) → Option (SerialPortInfo F)
  unfolding best_of
  choose_best_serial_port [] hints = none
  choose_best_serial_port (port ∷ []) hints = some port
  choose_best_serial_port (port ∷ (other ∷ ports)) hints =
      let (best, best_score) =
        best_of (used_hints hints) (port ∷ (other ∷ ports)) none (negsuc 0) in
      if ltb_ℤ (pos 0) best_score then best else none

module _ (N : Number) where
  open N use {F, is_finite}

  -- `toText` and `toNumber`
  abbrev pub to_text : Option (Json F) → Option Text
  to_text (some (str s)) = if is_empty (trim s) then none else some s
  to_text _ = none

  abbrev pub to_number : Option (Json F) → Option F
  to_number (some (num x)) = if is_finite x then some x else none
  to_number _ = none

  abbrev pub trimmed_or_empty : Option (Json F) → Text
  trimmed_or_empty (some (str s)) = trim s
  trimmed_or_empty _ = []

  pub port_of_entries : Entries F → Option (SerialPortInfo F)
  unfolding get_field trim
  port_of_entries o =
      let device = trimmed_or_empty (get_field (codes "device") o) in
      let port : SerialPortInfo F = record {
        device = device;
        name = to_text (get_field (codes "name") o);
        description = to_text (get_field (codes "description") o);
        hwid = to_text (get_field (codes "hwid") o);
        vid = to_number (get_field (codes "vid") o);
        pid = to_number (get_field (codes "pid") o);
        manufacturer = to_text (get_field (codes "manufacturer") o);
        product = to_text (get_field (codes "product") o);
        serial_number = to_text (get_field (codes "serial_number") o);
        interface = to_text (get_field (codes "interface") o);
      } in
      if is_empty device then none else some port

  -- An array, whose entries have no key "device", has no device.
  pub normalize_port_info : Json F → Option (SerialPortInfo F)
  unfolding port_of_entries
  normalize_port_info (obj o) = port_of_entries (entries o)
  normalize_port_info (arr xs) = none
  normalize_port_info _ = none
