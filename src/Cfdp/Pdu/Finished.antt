-- ===== src/Cfdp/Pdu/Finished.antt =====
-- Finished PDUs, which carry no filestore responses.
use akira_ccsds.Base.{ℕ, ◌+◌, ◌-◌, ◌*◌, ◌%◌, ◌≤◌, ◌<◌, bit_or}
use akira_ccsds.Base.{◌≡◌, refl, ◌∙◌, arith}
use akira_ccsds.Base.{false, ◌||◌, not, List, [], ◌∷◌, ◌++◌}
use akira_ccsds.Base.{ltb, ◌==◌, if◌then◌else◌}
use akira_ccsds.Base.{length}
use akira_ccsds.Base.{shr, shl, low_bits, test_bit, byte_at}
use akira_ccsds.Base.Fields.{bit_or_fields}
use akira_ccsds.Cfdp.{invalid_argument, malformed_pdu, unsupported}
use akira_ccsds.Cfdp.{Outcome, done}
use akira_ccsds.Cfdp.{fail}
use akira_ccsds.Cfdp.Pdu.{pdu_type_file_directive}
use akira_ccsds.Cfdp.Pdu.{file_size_small, PduHeader}
use akira_ccsds.Cfdp.Pdu.{header_encoded_len, header_bytes}
use akira_ccsds.Cfdp.Pdu.{condition_code_is_valid, with_data_len, put_pdu, on_data_field}
use akira_ccsds.Cfdp.Pdu.DataField.{CanCarry, put_pdu_lem, on_data_field_lem}

abbrev pub directive_finished : ℕ
directive_finished = 0x05

abbrev pub finished_data_len : ℕ
finished_data_len = 2

abbrev pub delivery_code_data_incomplete : ℕ
delivery_code_data_incomplete = 1

abbrev pub file_status_unreported : ℕ
file_status_unreported = 3

-- `struct ccsds_cfdp_finished_pdu`
pub record FinishedPdu : Type 0 where
  pub header : PduHeader
  pub condition_code : ℕ
  pub delivery_code : ℕ
  pub file_status : ℕ

unfoldable pub finished_status_byte : FinishedPdu → ℕ
finished_status_byte p =
    bit_or (shl (low_bits p.condition_code 4) 4)
      (bit_or (shl (low_bits p.delivery_code 1) 2) (low_bits p.file_status 2))

unfoldable pub encode_finished : FinishedPdu → ℕ → Outcome (List ℕ)
encode_finished p cap =
    if not (p.header.pdu_type == pdu_type_file_directive) || p.header.segment_metadata_present
    then fail invalid_argument
    else if not (p.header.file_size_mode == file_size_small)
    then fail unsupported
    else if not (condition_code_is_valid p.condition_code)
        || ltb delivery_code_data_incomplete p.delivery_code
        || ltb file_status_unreported p.file_status
    then fail invalid_argument
    else put_pdu p.header finished_data_len cap (directive_finished ∷ finished_status_byte p ∷ [])

-- What `ccsds_cfdp_decode_finished` does with the header, its length, and the buffer behind it.
unfoldable pub read_finished : PduHeader → ℕ → List ℕ → Outcome (FinishedPdu × ℕ)
read_finished h header_len field =
    let left = λ (offset : ℕ). header_len + h.pdu_data_field_len - (header_len + offset) in
    let status_byte = byte_at field 1 in
    if not (h.pdu_type == pdu_type_file_directive) || h.segment_metadata_present
    then fail malformed_pdu
    else if not (h.file_size_mode == file_size_small)
    then fail unsupported
    else if not (h.pdu_data_field_len == finished_data_len)
        || ltb (length field) h.pdu_data_field_len
    then fail malformed_pdu
    else if ltb (left 0) 1
    then fail malformed_pdu
    else if not (byte_at field 0 == directive_finished)
    then fail malformed_pdu
    else if ltb (left 1) 1
    then fail malformed_pdu
    else if test_bit status_byte 3
    then fail malformed_pdu
    else if not (condition_code_is_valid (shr status_byte 4))
    then fail malformed_pdu
    else done (
      record {
        header = h;
        condition_code = shr status_byte 4;
        delivery_code = low_bits (shr status_byte 2) 1;
        file_status = low_bits status_byte 2;
      },
      header_len + 2,
    )

unfoldable pub decode_finished : List ℕ → Outcome (FinishedPdu × ℕ)
decode_finished buf = on_data_field read_finished buf

-- A Finished PDU that `encode_finished` accepts, given room.
pub record IsFinished (p : FinishedPdu) : Type 0 where
  pub header_fits : CanCarry p.header finished_data_len
  pub type_is_directive : p.header.pdu_type ≡ pdu_type_file_directive
  pub no_metadata : p.header.segment_metadata_present ≡ false
  pub condition_fits : p.condition_code < 16
  pub delivery_fits : p.delivery_code < 2
  pub status_fits : p.file_status < 4

abbrev pub finished_header : FinishedPdu → PduHeader
finished_header p = with_data_len p.header finished_data_len

status_byte-sum :
    (p : FinishedPdu)
    → finished_status_byte p
      ≡ p.condition_code % 16 * 16 + (p.delivery_code % 2 * 4 + p.file_status % 4)
unfolding finished_status_byte
status_byte-sum p = ground (
  arith,
  bit_or_fields 2 (p.delivery_code % 2) (p.file_status % 4),
  bit_or_fields 4 (p.condition_code % 16) (p.delivery_code % 2 * 4 + p.file_status % 4),
)

-- Decoding what `encode_finished` stored, with any bytes behind it, gives the PDU, its header with
-- the derived data field length, and the number of bytes stored: for a PDU that fits, and a buffer
-- with room for it.
pub decode_finished-encode_finished :
    (p : FinishedPdu) (cap : ℕ) (rest : List ℕ)
    → IsFinished p
    → header_encoded_len (finished_header p) + finished_data_len ≤ cap
    → (stored : List ℕ) × (encode_finished p cap ≡ done stored)
      × (decode_finished (stored ++ rest)
          ≡ done (
            record p { header = finished_header p },
            header_encoded_len (finished_header p) + finished_data_len,
          ))
unfolding encode_finished decode_finished read_finished condition_code_is_valid
decode_finished-encode_finished p cap rest w room =
    let field = directive_finished ∷ finished_status_byte p ∷ [] in
    (
      header_bytes (finished_header p) ++ field,
      ground (
        arith,
        w,
        w.header_fits,
        put_pdu_lem p.header finished_data_len w.header_fits field cap refl,
      ),
      on_data_field_lem p.header finished_data_len w.header_fits field read_finished rest
          ∙ ground (arith, w, w.header_fits, status_byte-sum p),
    )
