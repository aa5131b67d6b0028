-- ===== src/Session/Alone.antt =====
-- A session of index.ts whose variables no other call changes while one waits.
use openclaw_serial_adapter.Prelude.{[], ◌≡◌, ap}
use openclaw_serial_adapter.Session.{World, Session, stretches, await}

-- No other call of the module does anything while a call waits.
abbrev pub IsAlone : {W F : Type 0} → World W F → Type 0
IsAlone {W} world = (w : W) → world.meanwhile w ≡ []

module _ {W F : Type 0} (world : World W F) where
  pub await-alone :
      IsAlone world → (w : W) (s : Session W) → await world w s ≡ record s { world = w }
  unfolding await stretches
  await-alone alone w s = ap (λ xs. stretches world xs (record s { world = w })) (alone w)
