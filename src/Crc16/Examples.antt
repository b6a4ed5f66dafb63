-- ===== src/Crc16/Examples.antt =====
-- The check value of CRC-16/CCITT-FALSE, and a frame that passes.
use akira_ccsds.Base.{ℕ, ◌+◌, ◌*◌}
use akira_ccsds.Base.{◌≡◌, refl, ◌↔◌, arith}
use akira_ccsds.Base.{true, List, [], ◌∷◌, ◌++◌}
use akira_ccsds.Base.{AllBytes, all_bytes_sound}
use akira_ccsds.Crc16.{crc16_table, crc16_init, update_byte, update, compute, check}
use akira_ccsds.Crc16.Serial.{serial, update-serial}
use akira_ccsds.Crc16.Check.{check_iff}

abbrev digits : List ℕ
digits = 0x31 ∷ 0x32 ∷ 0x33 ∷ 0x34 ∷ 0x35 ∷ 0x36 ∷ 0x37 ∷ 0x38 ∷ 0x39 ∷ []

digits-AllBytes : AllBytes digits
digits-AllBytes = all_bytes_sound digits refl

compute-digits : compute digits ≡ 0x29b1
unfolding compute update update_byte crc16_table
compute-digits = refl

update-serial_example : update crc16_init digits ≡ serial crc16_init digits
update-serial_example = update-serial crc16_init digits (omega arith) digits-AllBytes

check_iff_example :
    (check (digits ++ 0x29 ∷ 0xb1 ∷ []) ≡ true) ↔ (0x29 * 256 + 0xb1 ≡ compute digits)
check_iff_example = check_iff digits 0x29 0xb1 (omega arith) (omega arith)
