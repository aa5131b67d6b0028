-- ===== src/Text/Laws.antt =====
-- Laws of the tests on texts.
use openclaw_serial_adapter.Prelude.{◌≡◌, refl, ◌↔◌, true, [], ◌∷◌, arith}
use openclaw_serial_adapter.Text.{Text, same_text}

pub same_text_refl : (s : Text) → same_text s s ≡ true
unfolding same_text
same_text_refl [] = refl
same_text_refl (c ∷ s) = ground (arith, same_text_refl s)

pub same_text_sound : (s t : Text) → same_text s t ≡ true → s ≡ t
unfolding same_text
same_text_sound [] [] h = refl
same_text_sound [] (d ∷ t) h = ground arith
same_text_sound (c ∷ s) [] h = ground arith
same_text_sound (c ∷ s) (d ∷ t) h = ground (arith, same_text_sound s t)

pub same_text_iff : (s t : Text) → (same_text s t ≡ true) ↔ (s ≡ t)
same_text_iff s t = (same_text_sound s t, λ e. rw e (same_text_refl t))
