-- ===== src/Ports/Tests.antt =====
-- Runs of the choice of a port, on two ports.
use openclaw_serial_adapter.Prelude.{ℕ, ◌≡◌, refl, ◌⊎◌, none, some, [], ◌∷◌, All}
use openclaw_serial_adapter.Text.{Text, codes}
use openclaw_serial_adapter.Ports.{SerialPortInfo, choose_best_serial_port}
use openclaw_serial_adapter.Ports.Choice.{choose_best_serial_port_lem, score_with, IsFirstBest}

-- Names in lower case, so that lowering them changes nothing.
abbrev lower : Text → Text
lower s = s

abbrev described : Text → Text → SerialPortInfo ℕ
described device text = record {
  device = device;
  name = none;
  description = some text;
  hwid = none;
  vid = none;
  pid = none;
  manufacturer = none;
  product = none;
  serial_number = none;
  interface = none;
}

abbrev bluetooth : SerialPortInfo ℕ
bluetooth = described (codes "com3") (codes "bluetooth link")

abbrev board : SerialPortInfo ℕ
board = described (codes "com4") (codes "arduino uno")

-- `choose_best_serial_port_lem` at two ports.
choose_best_serial_port_lem_example :
    ((choose_best_serial_port lower (bluetooth ∷ (board ∷ [])) none ≡ none)
      × All (λ q. score_with lower none q ≡ 0) (bluetooth ∷ (board ∷ [])))
    ⊎ ((p : SerialPortInfo ℕ) × (choose_best_serial_port lower (bluetooth ∷ (board ∷ [])) none
          ≡ some p)
        × IsFirstBest lower none (bluetooth ∷ (board ∷ [])) p)
choose_best_serial_port_lem_example = choose_best_serial_port_lem lower none bluetooth board []

choose_best_serial_port_runs :
    choose_best_serial_port lower (bluetooth ∷ (board ∷ [])) none ≡ some board
unfolding choose_best_serial_port
choose_best_serial_port_runs = refl
