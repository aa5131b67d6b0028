-- ===== src/Summary/Keys.antt =====
-- The keys that the summary of index.ts lists: which they are, and in what order.
use openclaw_serial_adapter.Prelude.{
  ℕ, Bool, true, false, ◌&&◌, ◌||◌, some, List, [], ◌∷◌, ◌++◌, ◌≡◌, refl, ap, ap₂, subst, ◌∙◌,
  arith, is_some, if◌then◌else◌, Bool-cases, inl, inr,
}
use openclaw_serial_adapter.Number.{Number}
use openclaw_serial_adapter.Text.{Text, same_text}
use openclaw_serial_adapter.Text.Laws.{same_text_sound}
use openclaw_serial_adapter.Json.{Json, Entries}
use openclaw_serial_adapter.Verify.{TelemetryFrame, as_finite_number, get_parsed_record}
use openclaw_serial_adapter.Summary.{
  has, add, text_less, insert_sorted, sort, add_numeric, Seen, new_seen, see, see_all,
  summarize_telemetry_frames,
}

has-append :
    (k : Text) (xs : List Text) (y : Text) → has k (xs ++ y ∷ []) ≡ (has k xs || same_text y k)
unfolding has
has-append k [] y = ground arith
has-append k (x ∷ xs) y = ground (arith, has-append k xs y)

has-add : (k y : Text) (xs : List Text) → has k (add y xs) ≡ (has k xs || same_text y k)
unfolding add
has-add k y xs = elim (Bool-cases (has y xs)) [
  | inl e ↦ elim (Bool-cases (same_text y k)) [
    | inl f ↦
        let g : has k xs ≡ true = subst (λ z. has z xs ≡ true) (same_text_sound y k f) e in
        ground (arith, e, f, g)
    | inr f ↦ ground (arith, e, f)
  ]
  | inr e ↦ ground (arith, e, has-append k xs y)
]

pub has-if_add :
    (k : Text) (b : Bool) (y : Text) (xs : List Text)
    → has k (if b then add y xs else xs) ≡ (has k xs || (b && same_text y k))
has-if_add k true y xs = has-add k y xs
has-if_add k false y xs = ground arith

pub or_assoc : (a b c : Bool) → ((a || b) || c) ≡ (a || (b || c))
or_assoc a b c = ground arith

has-insert_sorted :
    (k y : Text) (xs : List Text) → has k (insert_sorted y xs) ≡ (same_text y k || has k xs)
unfolding insert_sorted has
has-insert_sorted k y [] = refl
has-insert_sorted k y (x ∷ xs) = ground (arith, has-insert_sorted k y xs)

has-sort : (k : Text) (xs : List Text) → has k (sort xs) ≡ has k xs
unfolding sort has
has-sort k [] = refl
has-sort k (x ∷ xs) = has-insert_sorted k x (sort xs) ∙ ap (◌||◌ (same_text x k)) (has-sort k xs)

text_less-total :
    (s t : Text) → text_less s t ≡ false → same_text s t ≡ false → text_less t s ≡ true
unfolding text_less same_text
text_less-total [] [] h e = ground arith
text_less-total [] (d ∷ t) h e = ground arith
text_less-total (c ∷ s) [] h e = refl
text_less-total (c ∷ s) (d ∷ t) h e = ground (arith, text_less-total s t)

-- Each text is less than the next.
abbrev pub IsAscending : List Text → Type 0
IsAscending [] = Unit
IsAscending (x ∷ []) = Unit
IsAscending (x ∷ (y ∷ ys)) = (text_less x y ≡ true) × IsAscending (y ∷ ys)

-- No text stands twice.
abbrev pub IsDistinct : List Text → Type 0
IsDistinct [] = Unit
IsDistinct (x ∷ xs) = (has x xs ≡ false) × IsDistinct xs

if-IsAscending :
    (x : Text) (b : Bool) (ys zs : List Text)
    → (b ≡ true → IsAscending (x ∷ ys))
    → (b ≡ false → IsAscending (x ∷ zs))
    → IsAscending (x ∷ (if b then ys else zs))
if-IsAscending x true ys zs p q = p refl
if-IsAscending x false ys zs p q = q refl

or-left : (a b : Bool) → (a || b) ≡ false → (a ≡ false) × (b ≡ false)
or-left a b h = ground (arith, h)

after-insert_sorted :
    (x y : Text) (xs : List Text)
    → text_less x y ≡ true
    → has y xs ≡ false
    → IsAscending (x ∷ xs)
    → IsAscending (x ∷ insert_sorted y xs)
unfolding insert_sorted has
after-insert_sorted x y [] l h v = (l, tt)
after-insert_sorted x y (z ∷ zs) l h v =
    let (other, rest) = or-left (same_text z y) (has y zs) h in
    if-IsAscending x (text_less z y) (z ∷ insert_sorted y zs) (y ∷ (z ∷ zs))
      (λ e. (v.0, after-insert_sorted z y zs e rest v.1))
      (λ e. (l, (text_less-total z y e other, v.1)))

choose-IsAscending :
    (b : Bool) (ys zs : List Text)
    → (b ≡ true → IsAscending ys)
    → (b ≡ false → IsAscending zs)
    → IsAscending (if b then ys else zs)
choose-IsAscending true ys zs p q = p refl
choose-IsAscending false ys zs p q = q refl

insert_sorted-IsAscending :
    (y : Text) (xs : List Text)
    → has y xs ≡ false
    → IsAscending xs
    → IsAscending (insert_sorted y xs)
unfolding insert_sorted has
insert_sorted-IsAscending y [] h v = tt
insert_sorted-IsAscending y (z ∷ zs) h v =
    let (other, rest) = or-left (same_text z y) (has y zs) h in
    choose-IsAscending (text_less z y) (z ∷ insert_sorted y zs) (y ∷ (z ∷ zs))
      (λ e. after-insert_sorted z y zs e rest v) (λ e. (text_less-total z y e other, v))

sort-IsAscending : (xs : List Text) → IsDistinct xs → IsAscending (sort xs)
unfolding sort
sort-IsAscending [] d = tt
sort-IsAscending (x ∷ xs) d =
    insert_sorted-IsAscending x (sort xs) (has-sort x xs ∙ d.0) (sort-IsAscending xs d.1)

same_text_sym : (s t : Text) → same_text s t ≡ same_text t s
unfolding same_text
same_text_sym [] [] = refl
same_text_sym [] (d ∷ t) = refl
same_text_sym (c ∷ s) [] = refl
same_text_sym (c ∷ s) (d ∷ t) = ground (arith, same_text_sym s t)

append-IsDistinct :
    (xs : List Text) (y : Text) → has y xs ≡ false → IsDistinct xs → IsDistinct (xs ++ y ∷ [])
unfolding has
append-IsDistinct [] y h d = (refl, tt)
append-IsDistinct (x ∷ xs) y h d =
    let (other, rest) = or-left (same_text x y) (has y xs) h in
    let there : has x (xs ++ y ∷ []) ≡ false =
      has-append x xs y ∙ ap₂ ◌||◌ d.0 (same_text_sym y x ∙ other) in
    (there, append-IsDistinct xs y rest d.1)

if-IsDistinct :
    (b : Bool) (xs ys : List Text)
    → IsDistinct xs
    → (b ≡ false → IsDistinct ys)
    → IsDistinct (if b then xs else ys)
if-IsDistinct true xs ys v w = v
if-IsDistinct false xs ys v w = w refl

both-IsDistinct :
    (b : Bool) (xs ys : List Text)
    → IsDistinct xs
    → IsDistinct ys
    → IsDistinct (if b then xs else ys)
both-IsDistinct true xs ys v w = v
both-IsDistinct false xs ys v w = w

add-IsDistinct : (y : Text) (xs : List Text) → IsDistinct xs → IsDistinct (add y xs)
unfolding add
add-IsDistinct y xs d = if-IsDistinct (has y xs) xs _ d (λ h. append-IsDistinct xs y h d)

module _ (N : Number) (number_of : Text → N.F) (to_lower_case : Text → Text)
    (string_of : Json (N.F) → Text) where
  open N use {F}

  -- A field of the parsed ones has a finite number and this key, in lower case.
  unfoldable pub lists : Text → Entries F → Bool
  unfolding same_text
  lists k [] = false
  lists k ((key, value) ∷ fields) =
      (is_some (as_finite_number N number_of (some value)) && same_text (to_lower_case key) k)
      || lists k fields

  -- A frame has such a field.
  unfoldable pub any_lists : Text → List (TelemetryFrame F) → Bool
  unfolding lists
  any_lists k [] = false
  any_lists k (frame ∷ frames) = lists k (get_parsed_record N number_of frame) || any_lists k frames

  has-add_numeric :
      (k : Text) (fields : Entries F) (keys : List Text)
      → has k (add_numeric N number_of to_lower_case string_of fields keys)
        ≡ (has k keys || lists k fields)
  unfolding add_numeric lists
  has-add_numeric k [] keys = ground arith
  has-add_numeric k ((key, value) ∷ fields) keys =
      let numeric = is_some (as_finite_number N number_of (some value)) in
      has-add_numeric k fields (if numeric then add (to_lower_case key) keys else keys)
      ∙ ap (λ b. b || lists k fields) (has-if_add k numeric (to_lower_case key) keys)
      ∙ or_assoc (has k keys) (numeric && same_text (to_lower_case key) k) (lists k fields)

  add_numeric-IsDistinct :
      (fields : Entries F) (keys : List Text)
      → IsDistinct keys
      → IsDistinct (add_numeric N number_of to_lower_case string_of fields keys)
  unfolding add_numeric
  add_numeric-IsDistinct [] keys d = d
  add_numeric-IsDistinct ((key, value) ∷ fields) keys d =
      let numeric = is_some (as_finite_number N number_of (some value)) in
      add_numeric-IsDistinct fields _
        (both-IsDistinct numeric _ _ (add-IsDistinct (to_lower_case key) keys d) d)

  has-see_all :
      (k : Text) (frames : List (TelemetryFrame F)) (seen : Seen F)
      → has k (see_all N number_of to_lower_case string_of frames seen).numeric_keys
        ≡ (has k seen.numeric_keys || any_lists k frames)
  unfolding see_all see any_lists
  has-see_all k [] seen = ground arith
  has-see_all k (frame ∷ frames) seen =
      let fields = get_parsed_record N number_of frame in
      has-see_all k frames (see N number_of to_lower_case string_of seen frame)
      ∙ ap (λ b. b || any_lists k frames) (has-add_numeric k fields seen.numeric_keys)
      ∙ or_assoc (has k seen.numeric_keys) (lists k fields) (any_lists k frames)

  see_all-IsDistinct :
      (frames : List (TelemetryFrame F)) (seen : Seen F)
      → IsDistinct seen.numeric_keys
      → IsDistinct (see_all N number_of to_lower_case string_of frames seen).numeric_keys
  unfolding see_all see
  see_all-IsDistinct [] seen d = d
  see_all-IsDistinct (frame ∷ frames) seen d =
      see_all-IsDistinct frames (see N number_of to_lower_case string_of seen frame)
        (add_numeric-IsDistinct (get_parsed_record N number_of frame) seen.numeric_keys d)

  pub summarize_telemetry_frames-keys :
      (frames : List (TelemetryFrame F)) (buffered : ℕ)
      → let summary =
          summarize_telemetry_frames N number_of to_lower_case string_of frames buffered in
        IsAscending summary.observed_numeric_keys
        × ((k : Text) → has k summary.observed_numeric_keys ≡ any_lists k frames)
  unfolding summarize_telemetry_frames
  summarize_telemetry_frames-keys frames buffered =
      let seen = see_all N number_of to_lower_case string_of frames new_seen in
      (
        sort-IsAscending seen.numeric_keys (see_all-IsDistinct frames new_seen tt),
        λ k. has-sort k seen.numeric_keys ∙ has-see_all k frames new_seen,
      )
