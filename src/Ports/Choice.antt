-- ===== src/Ports/Choice.antt =====
-- `chooseBestSerialPort` of src/launcher.ts chooses the first of the ports with the greatest score.
use openclaw_serial_adapter.Prelude.{
  ℕ, ◌≡◌, refl, ap, ◌∙◌, sym, ◌<◌, ◌≤◌, subst, ◌⊎◌, inl, inr, Option, none, some, List, [], ◌∷◌,
  ◌++◌, All, arith, Bool-cases, ltb, if◌then◌else◌,
}
use openclaw_serial_adapter.Prelude.Int.{pos, negsuc, ltb_ℤ}
use openclaw_serial_adapter.Text.{Text}
use openclaw_serial_adapter.Ports.{
  SerialPortInfo, score_port, best_of, choose_best_serial_port, used_hints,
}

module _ {F : Type 0} (to_lower_case : Text → Text) (hints : List Text) where
  abbrev score : SerialPortInfo F → ℕ
  score p = score_port to_lower_case p hints

  -- What the loop makes of the ports after the best so far.
  abbrev FoundIn : SerialPortInfo F → List (SerialPortInfo F) → SerialPortInfo F → Type 0
  FoundIn b ports r =
      (r ≡ b × All (λ q. score q ≤ score b) ports)
      ⊎ ((before : List (SerialPortInfo F)) × (after : List (SerialPortInfo F)) × (ports
            ≡ before ++ r ∷ after)
          × score b < score r
          × All (λ q. score q < score r) before
          × All (λ q. score q ≤ score r) after)

  abbrev Found : SerialPortInfo F → List (SerialPortInfo F) → Type 0
  Found b ports =
      (r : SerialPortInfo F) × (best_of to_lower_case hints ports (some b) (pos (score b))
        ≡ (some r, pos (score r)))
      × FoundIn b ports r

  best_of-Found : (b : SerialPortInfo F) (ports : List (SerialPortInfo F)) → Found b ports
  unfolding best_of
  best_of-Found b [] = (b, refl, inl (refl, tt))
  best_of-Found b (p ∷ ports) = elim (Bool-cases (ltb_ℤ (pos (score b)) (pos (score p)))) [
    | inl more ↦
        let (r, e, found) = best_of-Found p ports in
        let less : score b < score p = ground arith in
        (
          r,
          ap
                (λ t.
                  if t
                  then best_of to_lower_case hints ports (some p) (pos (score p))
                  else best_of to_lower_case hints ports (some b) (pos (score b)))
                more
              ∙ e,
          elim found [
            | inl (r_is_p, bounded) ↦
                inr ([], ports, ap (◌∷ ports) (sym r_is_p), rw r_is_p less, tt, rw r_is_p bounded)
            | inr (before, after, split, above, below, bounded) ↦
                inr (p ∷ before, after, ap (p ∷◌) split, omega arith, (above, below), bounded)
          ],
        )
    | inr other ↦
        let (r, e, found) = best_of-Found b ports in
        let no_more : score p ≤ score b = ground arith in
        (
          r,
          ap
                (λ t.
                  if t
                  then best_of to_lower_case hints ports (some p) (pos (score p))
                  else best_of to_lower_case hints ports (some b) (pos (score b)))
                other
              ∙ e,
          elim found [
            | inl (r_is_b, bounded) ↦ inl (r_is_b, (no_more, bounded))
            | inr (before, after, split, above, below, bounded) ↦
                inr (p ∷ before, after, ap (p ∷◌) split, above, (omega arith, below), bounded)
          ],
        )
  ]

  All-zero :
      (b : SerialPortInfo F) (ports : List (SerialPortInfo F))
      → score b ≡ 0
      → All (λ q. score q ≤ score b) ports
      → All (λ q. score q ≡ 0) ports
  All-zero b [] z h = tt
  All-zero b (p ∷ ports) z h = (omega (arith, h.0), All-zero b ports z h.1)

module _ {F : Type 0} (to_lower_case : Text → Text) where
  abbrev pub score_with : Option (List Text) → SerialPortInfo F → ℕ
  score_with hints p = score_port to_lower_case p (used_hints hints)

  -- `p` is the first port with the greatest score, which is not 0.
  abbrev pub IsFirstBest : Option (List Text) → List (SerialPortInfo F) → SerialPortInfo F → Type 0
  IsFirstBest hints ports p =
      (0 < score_with hints p)
      × ((before : List (SerialPortInfo F)) × (after : List (SerialPortInfo F)) × (ports
            ≡ before ++ p ∷ after)
          × All (λ q. score_with hints q < score_with hints p) before
          × All (λ q. score_with hints q ≤ score_with hints p) after)

  best_of-first :
      (hints : List Text) (a : SerialPortInfo F) (ports : List (SerialPortInfo F))
      → best_of to_lower_case hints (a ∷ ports) none (negsuc 0)
        ≡ best_of to_lower_case hints ports (some a) (pos (score to_lower_case hints a))
  unfolding best_of
  best_of-first hints a ports = ground arith

  chosen_is :
      (hints : Option (List Text)) (a b : SerialPortInfo F) (ports : List (SerialPortInfo F))
      (r : SerialPortInfo F)
      → best_of to_lower_case (used_hints hints) (b ∷ ports) (some a) (pos (score_with hints a))
        ≡ (some r, pos (score_with hints r))
      → choose_best_serial_port to_lower_case (a ∷ (b ∷ ports)) hints
        ≡ (if ltb 0 (score_with hints r) then some r else none)
  unfolding choose_best_serial_port
  chosen_is hints a b ports r e =
      ap (λ o. if ltb_ℤ (pos 0) o.1 then o.0 else none)
        (best_of-first (used_hints hints) a (b ∷ ports) ∙ e)
      ∙ ground arith

  -- Of two or more ports either every one has score 0 and none is chosen, or the first of those
  -- with the greatest score is chosen and that score is above 0. The scores are taken with the
  -- hints given, or with the default hints where none are given.
  pub choose_best_serial_port_lem :
      (hints : Option (List Text)) (a b : SerialPortInfo F) (ports : List (SerialPortInfo F))
      → ((choose_best_serial_port to_lower_case (a ∷ (b ∷ ports)) hints ≡ none)
          × All (λ q. score_with hints q ≡ 0) (a ∷ (b ∷ ports)))
        ⊎ ((p : SerialPortInfo F) × (choose_best_serial_port to_lower_case (a ∷ (b ∷ ports)) hints
              ≡ some p)
            × IsFirstBest hints (a ∷ (b ∷ ports)) p)
  choose_best_serial_port_lem hints a b ports =
      let (r, e, found) = best_of-Found to_lower_case (used_hints hints) a (b ∷ ports) in
      let chosen = chosen_is hints a b ports r e in
      elim (Bool-cases (ltb 0 (score_with hints r))) [
        | inl scored ↦
            let above : 0 < score_with hints r = ground arith in
            inr (
              r,
              chosen ∙ ap (λ t. if t then some r else none) scored,
              (
                above,
                elim found [
                  | inl (r_is_a, bounded) ↦ (
                    [],
                    b ∷ ports,
                    ap (◌∷ (b ∷ ports)) (sym r_is_a),
                    tt,
                    subst (λ x. All (λ q. score_with hints q ≤ score_with hints x) (b ∷ ports))
                        (sym r_is_a) bounded,
                  )
                  | inr (before, after, split, more, below, bounded) ↦
                      (a ∷ before, after, ap (a ∷◌) split, (more, below), bounded)
                ],
              ),
            )
        | inr unscored ↦
            let nothing : score_with hints r ≡ 0 = ground arith in
            inl (
              chosen ∙ ap (λ t. if t then some r else none) unscored,
              elim found [
                | inl (r_is_a, bounded) ↦
                    let zero_a : score_with hints a ≡ 0 =
                      ap (score_with hints) (sym r_is_a) ∙ nothing in
                    (zero_a, All-zero to_lower_case (used_hints hints) a (b ∷ ports) zero_a bounded)
                | inr (before, after, split, more, below, bounded) ↦ absurd (omega arith)
              ],
            )
      ]
