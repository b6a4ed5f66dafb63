-- ===== src/Cfdp/Pdu/Fields.antt =====
-- Length-value and type-length-value fields of connectivity/ccsds/ccsds_cfdp_pdu.c. A value's
-- pointer with its `uint8_t` length is the list of its bytes, so a length 0 goes with NULL; a
-- reader takes the buffer with the length it may read.
use akira_ccsds.Base.{ℕ, ◌+◌, ◌-◌, ◌≤◌}
use akira_ccsds.Base.{◌≡◌, arith}
use akira_ccsds.Base.{List, ◌∷◌, ◌++◌}
use akira_ccsds.Base.{ltb, if◌then◌else◌}
use akira_ccsds.Base.{length, take, drop, length-append, take-append}
use akira_ccsds.Base.{byte_at}
use akira_ccsds.Cfdp.{buffer_too_small, malformed_pdu}
use akira_ccsds.Cfdp.{Outcome, done}
use akira_ccsds.Cfdp.{fail}

unfoldable pub lv_read : List ℕ → ℕ → Outcome (List ℕ × ℕ)
lv_read buf len =
    let value_len = byte_at buf 0 in
    if ltb len 1
    then fail malformed_pdu
    else if ltb (len - 1) value_len
    then fail malformed_pdu
    else done (take value_len (drop 1 buf), 1 + value_len)

unfoldable pub lv_write : List ℕ → ℕ → Outcome (List ℕ)
lv_write value cap =
    if ltb cap (1 + length value) then fail buffer_too_small else done (length value ∷ value)

-- `struct ccsds_cfdp_tlv`
pub record Tlv : Type 0 where
  pub type : ℕ
  pub value : List ℕ

unfoldable pub tlv_read : List ℕ → ℕ → Outcome (Tlv × ℕ)
tlv_read buf len =
    let value_len = byte_at buf 1 in
    if ltb len 1
    then fail malformed_pdu
    else if ltb len 2
    then fail malformed_pdu
    else if ltb (len - 2) value_len
    then fail malformed_pdu
    else done (record { type = byte_at buf 0; value = take value_len (drop 2 buf) }, 2 + value_len)

unfoldable pub tlv_write : Tlv → ℕ → Outcome (List ℕ)
tlv_write tlv cap =
    if ltb cap (2 + length tlv.value)
    then fail buffer_too_small
    else done (tlv.type ∷ length tlv.value ∷ tlv.value)

pub lv_write_lem :
    (value : List ℕ) (cap : ℕ)
    → 1 + length value ≤ cap
    → lv_write value cap ≡ done (length value ∷ value)
unfolding lv_write
lv_write_lem value cap room = ground arith

-- A length-value field read where it stands, with as much or more to read.
pub lv_read_lem :
    (value rest : List ℕ) (len : ℕ)
    → 1 + length value ≤ len
    → lv_read (length value ∷ (value ++ rest)) len ≡ done (value, 1 + length value)
unfolding lv_read
lv_read_lem value rest len room = ground (arith, take-append value rest (length value))

-- A type-length-value field is read back as it was written, with any bytes behind it, and
-- `tlv_read` takes as many bytes as `tlv_write` stored.
pub tlv_read-tlv_write :
    (tlv : Tlv) (cap : ℕ) (rest : List ℕ)
    → 2 + length tlv.value ≤ cap
    → (stored : List ℕ) × (tlv_write tlv cap ≡ done stored)
      × (tlv_read (stored ++ rest) (length (stored ++ rest)) ≡ done (tlv, length stored))
unfolding tlv_write tlv_read
tlv_read-tlv_write tlv cap rest room = (
  tlv.type ∷ length tlv.value ∷ tlv.value,
  ground arith,
  ground (arith, length-append tlv.value rest, take-append tlv.value rest (length tlv.value)),
)
