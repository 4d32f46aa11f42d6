-- ===== src/Serial/Examples.antt =====
-- Runs of the serial port, and its theorems at concrete inputs.
use rust_gb_emulator.Base.{ℕ, ◌≡◌, refl, arith, [], ◌∷◌, List}
use rust_gb_emulator.Serial.{new}
use rust_gb_emulator.Serial.Capture.{send_all, drain, captured, drain-send_all}

-- "Hi", with the two bytes that are left out between them.
abbrev message : List ℕ
message = b'H' ∷ 0 ∷ 0x55 ∷ b'i' ∷ []

drain-send_all_example : drain 5 (send_all new message) ≡ b'H' ∷ b'i' ∷ []
unfolding captured new
drain-send_all_example = drain-send_all new message 5 refl (omega arith)
