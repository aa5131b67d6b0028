-- ===== src/ControlPlane/Chunks.antt =====
-- The line protocol of plugins/openclaw_ts_bridge/control_plane.js does not depend on how its input
-- is cut into chunks.
use openclaw_serial_adapter.Prelude.{
  ℕ, ◌+◌, ◌≡◌, refl, ap, ◌∙◌, sym, Bool, true, false, Option, none, some, List, [], ◌∷◌, ◌++◌,
  append_assoc, ◌==◌, if◌then◌else◌, Bool-cases, inl, inr, length, length-append, arith,
}
use openclaw_serial_adapter.Number.{Number}
use openclaw_serial_adapter.Text.{Text, trim, is_empty}
use openclaw_serial_adapter.Json.{Json}
use openclaw_serial_adapter.ControlPlane.{
  Tried, done, threw, Plane, take_lines, put_unit, on_line, on_lines, on_data, on_parsed,
  validate_command, answer, write_result, CommandError,
}

-- The lines of a text that is read on after its last line end.
abbrev then_lines : List Text × Text → Text → List Text × Text
then_lines (lines, rest) more =
    let (later, last) = take_lines (rest ++ more) in (lines ++ later, last)

put_unit-then_lines :
    (b : Bool) (c : ℕ) (found : List Text × Text) (t : Text)
    → (c == 10) ≡ b
    → put_unit b c (then_lines found t) ≡ then_lines (put_unit b c found) t
unfolding take_lines
put_unit-then_lines true c (lines, rest) t e = refl
put_unit-then_lines false c ([], rest) t e = ap (λ b. put_unit b c (take_lines (rest ++ t))) (sym e)
put_unit-then_lines false c (line ∷ lines, rest) t e = refl

take_lines-append : (s t : Text) → take_lines (s ++ t) ≡ then_lines (take_lines s) t
unfolding take_lines
take_lines-append [] t = refl
take_lines-append (c ∷ s) t =
    ap (put_unit (c == 10) c) (take_lines-append s t)
    ∙ put_unit-then_lines (c == 10) c (take_lines s) t refl

-- How many of the lines are not blank.
abbrev pub filled_lines : List Text → ℕ
filled_lines [] = 0
filled_lines (line ∷ lines) = (if is_empty (trim line) then 0 else 1) + filled_lines lines

length-snoc : {A : Type 0} (xs : List A) (x : A) → length (xs ++ x ∷ []) ≡ 1 + length xs
length-snoc xs x = omega (arith, length-append xs (x ∷ []))

module _ (N : Number) {S : Type 0} (parse : Text → Tried (Json N.F))
    (apply_command : Json N.F → S → S × Tried (Json N.F)) (get_state : S → Json N.F) where
  open N use {F}

  on_lines-append :
      (first later : List Text) (p : Plane F S)
      → on_lines N parse apply_command get_state (first ++ later) p
        ≡ on_lines N parse apply_command get_state later
            (on_lines N parse apply_command get_state first p)
  unfolding on_lines
  on_lines-append [] later p = refl
  on_lines-append (line ∷ first) later p =
      on_lines-append first later (on_line N parse apply_command get_state line p)

  -- Handling a line leaves the buffer alone and does not look at it.
  on_line-buffer :
      (line buffer : Text) (p : Plane F S)
      → on_line N parse apply_command get_state line (record p { buffer = buffer })
        ≡ record (on_line N parse apply_command get_state line p) { buffer = buffer }
  unfolding on_line on_parsed
  on_line-buffer line buffer p = ground arith

  on_lines-buffer :
      (lines : List Text) (buffer : Text) (p : Plane F S)
      → on_lines N parse apply_command get_state lines (record p { buffer = buffer })
        ≡ record (on_lines N parse apply_command get_state lines p) { buffer = buffer }
  unfolding on_lines
  on_lines-buffer [] buffer p = refl
  on_lines-buffer (line ∷ lines) buffer p =
      ap (on_lines N parse apply_command get_state lines) (on_line-buffer line buffer p)
      ∙ on_lines-buffer lines buffer (on_line N parse apply_command get_state line p)

  -- Two chunks of input have the effect of one chunk that holds both: the same commands are
  -- applied, the same acknowledgements are written in the same order, and the same text waits for
  -- the rest of its line. So no cut into chunks matters, be it in the middle of a command.
  pub on_data-append :
      (first later : Text) (p : Plane F S)
      → on_data N parse apply_command get_state later
          (on_data N parse apply_command get_state first p)
        ≡ on_data N parse apply_command get_state (first ++ later) p
  unfolding on_data
  on_data-append first later p =
      let (lines, rest) = take_lines (p.buffer ++ first) in
      let (more, last) = take_lines (rest ++ later) in
      let handled = on_lines N parse apply_command get_state lines p in
      let whole : take_lines (p.buffer ++ (first ++ later)) ≡ (lines ++ more, last) =
        ap take_lines (sym (append_assoc p.buffer first later))
        ∙ take_lines-append (p.buffer ++ first) later in
      let with_buffer : Text → Plane F S → Plane F S = λ text q. record q { buffer = text } in
      ap (with_buffer last) (
        on_lines-buffer more rest handled
        ∙ ap (with_buffer rest) (sym (on_lines-append lines more p)))
      ∙ ap (λ w. with_buffer w.1 (on_lines N parse apply_command get_state w.0 p)) (sym whole)

  write_result-acks :
      (parsed : Json F) (result : S × Tried (Json F)) (p : Plane F S)
      → length (write_result N parse apply_command get_state parsed result p).acks
        ≡ 1 + length p.acks
  write_result-acks parsed (app, done value) p = length-snoc p.acks _
  write_result-acks parsed (app, threw detail) p = length-snoc p.acks _

  answer-acks :
      (o : Option CommandError) (parsed : Json F) (p : Plane F S)
      → length (answer N parse apply_command get_state o parsed p).acks ≡ 1 + length p.acks
  answer-acks (some error) parsed p = length-snoc p.acks _
  answer-acks none parsed p = write_result-acks parsed (apply_command parsed p.app) p

  on_parsed-acks :
      (t : Tried (Json F)) (p : Plane F S)
      → length (on_parsed N parse apply_command get_state t p).acks ≡ 1 + length p.acks
  unfolding on_parsed
  on_parsed-acks (threw detail) p = length-snoc p.acks _
  on_parsed-acks (done parsed) p = answer-acks (validate_command N parsed) parsed p

  on_line-acks :
      (line : Text) (p : Plane F S)
      → length (on_line N parse apply_command get_state line p).acks
        ≡ (if is_empty (trim line) then 0 else 1) + length p.acks
  unfolding on_line
  on_line-acks line p = elim (Bool-cases (is_empty (trim line))) [
    | inl blank ↦ rw (on_line, blank) (omega arith)
    | inr filled ↦ rw (on_line, filled) (on_parsed-acks (parse (trim line)) p)
  ]

  on_lines-acks :
      (lines : List Text) (p : Plane F S)
      → length (on_lines N parse apply_command get_state lines p).acks
        ≡ filled_lines lines + length p.acks
  unfolding on_lines
  on_lines-acks [] p = omega arith
  on_lines-acks (line ∷ lines) p = omega (
    arith,
    on_lines-acks lines (on_line N parse apply_command get_state line p),
    on_line-acks line p,
  )

  -- A chunk is answered by one acknowledgement for each line that it completes and that is not
  -- blank, whether the line is no JSON, no command, refused or applied.
  pub on_data-acks :
      (chunk : Text) (p : Plane F S)
      → length (on_data N parse apply_command get_state chunk p).acks
        ≡ filled_lines (take_lines (p.buffer ++ chunk)).0 + length p.acks
  unfolding on_data
  on_data-acks chunk p = on_lines-acks (take_lines (p.buffer ++ chunk)).0 p
