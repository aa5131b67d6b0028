-- ===== src/Observe/Window.antt =====
-- The loop of `collectTelemetryFrames` in index.ts ends, and what it gives then.
use openclaw_serial_adapter.Prelude.{
  ℕ, zero, suc, ◌+◌, ◌-◌, ◌*◌, ◌≤◌, ◌≡◌, refl, ap, sym, subst, ◌∙◌, Bool, true, false, Option, none,
  some, Bool-cases, ◌⊎◌, inl, inr, List, [], ◌∷◌, ◌++◌, length, take, drop, ltb, leb, if◌then◌else◌,
  append-nil, append_assoc, length-append, length-take, arith,
}
use mathlib.Core.Option.{none-ne-some}
use openclaw_serial_adapter.Prelude.Int.{ℤ, clamp_ℕ}
use openclaw_serial_adapter.Json.{Json}
use openclaw_serial_adapter.Telemetry.{Client, poll_frames}
use openclaw_serial_adapter.Observe.{
  Gathered, gathered, threw, collect_from, cut, collect_telemetry_frames,
}

module _ {F : Type 0} (clock : ℕ → ℕ) (meanwhile : ℕ → Option (Client F) → Option (Client F)) where
  -- Some sleep leaves a client null that was there when it began.
  abbrev pub Nulls : Type 0
  Nulls = (i : ℕ) × ((d : Client F) × (meanwhile i (some d) ≡ none))

  -- It has ended with frames that begin with those given, and that are at most `n`; or it has thrown,
  -- and some sleep leaves the client null.
  abbrev pub Ends : ℕ → List (Json F) → Option (Gathered F) → Type 0
  Ends n collected o =
      ((c : Option (Client F)) × (frames : List (Json F)) × (o ≡ some (gathered c frames))
        × (length frames ≤ n)
        × ((rest : List (Json F)) × (frames ≡ collected ++ rest)))
      ⊎ ((o ≡ some threw) × Nulls)

  if-Ends :
      (n : ℕ) (xs : List (Json F)) (b : Bool) (o p : Option (Gathered F))
      → (b ≡ true → Ends n xs o)
      → (b ≡ false → Ends n xs p)
      → Ends n xs (if b then o else p)
  if-Ends n xs true o p v w = v refl
  if-Ends n xs false o p v w = w refl

  -- the frames added to those given
  extend-Ends :
      (n : ℕ) (xs batch : List (Json F)) (o : Option (Gathered F))
      → Ends n (xs ++ batch) o
      → Ends n xs o
  extend-Ends n xs batch o (inl (c, frames, e, l, (rest, f))) =
      inl (c, frames, e, l, (batch ++ rest, f ∙ append_assoc xs batch rest))
  extend-Ends n xs batch o (inr thrown) = inr thrown

  -- what a poll hands out in a round
  abbrev batch_of : ℕ → List (Json F) → Client F → List (Json F)
  batch_of n collected c = take (n - length collected) c.frames

  gathered_le :
      (n : ℕ) (collected : List (Json F)) (c : Client F)
      → length collected ≤ n
      → length (collected ++ batch_of n collected c) ≤ n
  gathered_le n collected c l = omega (
    arith,
    length-append collected (batch_of n collected c),
    length-take (n - length collected) c.frames,
    l,
  )

  batch_of-full :
      (n : ℕ) (collected : List (Json F)) (c : Client F)
      → ltb (length collected) n ≡ false
      → collected ≡ (collected ++ batch_of n collected c) ++ []
  batch_of-full n collected c e =
      let none_left : 0 ≡ n - length collected = ground (arith, e) in
      subst (λ m. collected ≡ (collected ++ take m c.frames) ++ []) none_left
        (sym (append-nil (collected ++ []) ∙ append-nil collected))

  -- the frames given and those that the next poll adds
  abbrev polled_of : ℕ → List (Json F) → Option (Client F) → List (Json F)
  polled_of n collected none = collected
  polled_of n collected (some c) = collected ++ batch_of n collected c

  shrink-Ends :
      (n : ℕ) (collected : List (Json F)) (c : Option (Client F)) (o : Option (Gathered F))
      → Ends n (polled_of n collected c) o
      → Ends n collected o
  shrink-Ends n collected none o h = h
  shrink-Ends n collected (some c) o h = extend-Ends n collected (batch_of n collected c) o h

  -- one round, by what the later ones come to where it is not the last
  round-Ends :
      (fuel round n deadline : ℕ) (collected : List (Json F)) (c : Client F)
      → length collected ≤ n
      → let polled : Client F = record c { frames = drop (n - length collected) c.frames } in
        let extended = collected ++ batch_of n collected c in
        (leb deadline (clock round) ≡ false
          → length extended ≤ n
          → Ends n extended (
              collect_from clock meanwhile fuel
                (suc round)
                n
                deadline
                extended
                (meanwhile round (some polled))))
        → Ends n extended
            (collect_from clock meanwhile (suc fuel) round n deadline collected (some c))
  unfolding collect_from poll_frames
  round-Ends fuel round n deadline collected c l later =
      let polled : Client F = record c { frames = drop (n - length collected) c.frames } in
      let extended = collected ++ batch_of n collected c in
      let short = gathered_le n collected c l in
      let stops : Ends n extended (some (gathered (some polled) extended)) =
        inl (some polled, extended, refl, short, ([], sym (append-nil extended))) in
      if-Ends n extended (ltb (length collected) n) _ _
        (λ e.
          if-Ends n extended (leb n (length extended)) _ _ (λ f. stops)
            (λ f.
              if-Ends n extended (leb deadline (clock round)) _ _ (λ g. stops)
                (λ g. later g short)))
        (λ e. inl (some c, collected, refl, l, ([], batch_of-full n collected c e)))

  -- without a client
  null-Ends :
      (fuel round n deadline : ℕ) (collected : List (Json F))
      → Nulls
      → length collected ≤ n
      → Ends n collected (collect_from clock meanwhile (suc fuel) round n deadline collected none)
  unfolding collect_from
  null-Ends fuel round n deadline collected nulls l = elim (Bool-cases (ltb (length collected) n)) [
    | inl e ↦ inr (ap (λ b. some (if b then threw else gathered none collected)) e, nulls)
    | inr e ↦ inl (
      none,
      collected,
      ap (λ b. some (if b then threw else gathered none collected)) e,
      l,
      ([], sym (append-nil collected)),
    )
  ]

  collect_from-Ends :
      ((i : ℕ) → clock i + 40 ≤ clock (suc i))
      → (fuel round n deadline : ℕ) (collected : List (Json F)) (c : Option (Client F))
      → (c ≡ none → Nulls)
      → deadline ≤ clock round + 40 * fuel
      → length collected ≤ n
      → Ends n
          (polled_of n collected c)
          (collect_from clock meanwhile (suc fuel) round n deadline collected c)
  collect_from-Ends rises fuel round n deadline collected none nulls h l =
      null-Ends fuel round n deadline collected (nulls refl) l
  collect_from-Ends rises zero round n deadline collected (some c) nulls h l =
      round-Ends zero round n deadline collected c l (λ g short. absurd (ground (arith, g, h)))
  collect_from-Ends rises (suc fuel) round n deadline collected (some c) nulls h l =
      let polled : Client F = record c { frames = drop (n - length collected) c.frames } in
      let extended = collected ++ batch_of n collected c in
      round-Ends (suc fuel) round n deadline collected c l (λ g short.
        shrink-Ends n extended (meanwhile round (some polled)) _ (
          collect_from-Ends rises fuel (suc round) n deadline extended
            (meanwhile round (some polled)) (λ e. (round, (polled, e)))
            (omega (arith, h, rises round)) short))

  take_all : (n : ℕ) (xs : List (Json F)) → length xs ≤ n → take n xs ≡ xs
  take_all zero [] l = refl
  take_all zero (x ∷ xs) l = absurd (omega arith)
  take_all (suc n) [] l = refl
  take_all (suc n) (x ∷ xs) l = ap (◌∷◌ x) (take_all n xs (omega arith))

  cut-Ends :
      (n : ℕ) (xs : List (Json F)) (o : Option (Gathered F))
      → Ends n xs o
      → Ends n xs (cut clock meanwhile n o)
  cut-Ends n xs o (inl (c, frames, e, l, p)) = inl (
    c,
    frames,
    ap (cut clock meanwhile n) e ∙ ap (λ f. some (gathered c f)) (take_all n frames l),
    l,
    p,
  )
  cut-Ends n xs o (inr (e, nulls)) = inr (ap (cut clock meanwhile n) e, nulls)

  clamp-duration : (x : ℤ) → clamp_ℕ 0 8000 x ≤ 8000
  clamp-duration x = ground arith

  minus_zero : (n : ℕ) → n - 0 ≡ n
  minus_zero n = omega arith

  -- If each sleep of 40 ms takes its time, whatever happens to the client meanwhile, the loop of
  -- `collectTelemetryFrames` ends within 201 rounds: with at most as many frames as were asked for,
  -- that number taken into 1 to 400, and first of them the oldest that were buffered when it began;
  -- or by throwing, and then some sleep leaves the client null. Without a client it gives no frames.
  pub collect_telemetry_frames-Ends :
      (fuel start : ℕ) (duration_ms max_frames : ℤ) (c : Client F)
      → 201 ≤ fuel
      → start ≤ clock 0
      → ((i : ℕ) → clock i + 40 ≤ clock (suc i))
      → Ends
          (clamp_ℕ 1 400 max_frames)
          (take (clamp_ℕ 1 400 max_frames) c.frames)
          (collect_telemetry_frames clock meanwhile fuel start duration_ms max_frames (some c))
        × (collect_telemetry_frames clock meanwhile fuel start duration_ms max_frames none
            ≡ some (gathered none []))
  unfolding collect_telemetry_frames
  collect_telemetry_frames-Ends zero start duration_ms max_frames c f h rises =
      absurd (omega (arith, f))
  collect_telemetry_frames-Ends (suc fuel) start duration_ms max_frames c f h rises =
      let n = clamp_ℕ 1 400 max_frames in
      let collects =
        collect_from clock meanwhile (suc fuel) 0 n (start + clamp_ℕ 0 8000 duration_ms) []
          (some c) in
      (
        cut-Ends n (take n c.frames) collects (
            subst (λ m. Ends n (take m c.frames) collects) (minus_zero n)
              (collect_from-Ends rises fuel 0 n (start + clamp_ℕ 0 8000 duration_ms) [] (some c)
                (λ e. absurd (none-ne-some _ (sym e)))
                (omega (arith, f, h, clamp-duration duration_ms)) (omega arith))),
        refl,
      )
