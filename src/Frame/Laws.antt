-- ===== src/Frame/Laws.antt =====
-- Reading back what was set in an object.
use openclaw_serial_adapter.Prelude.{◌≡◌, refl, some, List, [], ◌∷◌, if◌then◌else◌, arith}
use openclaw_serial_adapter.Text.{Text, same_text}
use openclaw_serial_adapter.Text.Laws.{same_text_iff}
use openclaw_serial_adapter.Frame.{get_field, put_field}

pub get_field-put_field :
    {A : Type 0} (k j : Text) (v : A) (o : List (Text × A))
    → get_field j (put_field k v o) ≡ (if same_text k j then some v else get_field j o)
unfolding get_field put_field
get_field-put_field k j v [] = refl
get_field-put_field k j v ((i, w) ∷ o) =
    ground
      (arith, same_text_iff k j, same_text_iff i k, same_text_iff i j, get_field-put_field k j v o)
