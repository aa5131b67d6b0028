-- ===== src/Json.antt =====
-- Values of JSON, over the type `F` of the numbers. An object lists its own properties in order.
use openclaw_serial_adapter.Prelude.{Bool, List, [], ◌∷◌}
use openclaw_serial_adapter.Text.{Text}

mutual
  pub data Json (F : Type 0) : Type 0 where
    null : Json F
    bool : Bool → Json F
    num : F → Json F
    str : Text → Json F
    arr : Items F → Json F
    obj : Fields F → Json F

  pub data Items (F : Type 0) : Type 0 where
    nil : Items F
    cons : Json F → Items F → Items F

  pub data Fields (F : Type 0) : Type 0 where
    end : Fields F
    field : Text → Json F → Fields F → Fields F

-- The entries of an object: `Record<string, unknown>`.
abbrev pub Entries : Type 0 → Type 0
Entries F = List (Text × Json F)

module _ {F : Type 0} where
  abbrev pub entries : Fields F → Entries F
  entries end = []
  entries (field k v r) = (k, v) ∷ entries r

  abbrev pub from_entries : Entries F → Fields F
  from_entries [] = end
  from_entries ((k, v) ∷ r) = field k v (from_entries r)
