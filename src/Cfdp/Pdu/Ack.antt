-- ===== src/Cfdp/Pdu/Ack.antt =====
-- ACK PDUs, which acknowledge an EOF or a Finished PDU.
use akira_ccsds.Base.{ℕ, ◌+◌, ◌*◌, ◌%◌, ◌≤◌, ◌<◌, bit_or}
use akira_ccsds.Base.{◌≡◌, refl, ◌∙◌, arith}
use akira_ccsds.Base.{Bool, true, false, ◌||◌, not, List, [], ◌∷◌, ◌++◌}
use akira_ccsds.Base.{ltb, ◌==◌, if◌then◌else◌}
use akira_ccsds.Base.{length}
use akira_ccsds.Base.{shr, shl, low_bits, byte_at}
use akira_ccsds.Base.Fields.{bit_or_fields}
use akira_ccsds.Cfdp.{invalid_argument, malformed_pdu, unsupported}
use akira_ccsds.Cfdp.{Outcome, done}
use akira_ccsds.Cfdp.{fail}
use akira_ccsds.Cfdp.Pdu.{pdu_type_file_directive}
use akira_ccsds.Cfdp.Pdu.{file_size_small, PduHeader}
use akira_ccsds.Cfdp.Pdu.{header_encoded_len, header_bytes}
use akira_ccsds.Cfdp.Pdu.{condition_code_is_valid, with_data_len, put_pdu, on_data_field}
use akira_ccsds.Cfdp.Pdu.DataField.{CanCarry, put_pdu_lem, on_data_field_lem}
use akira_ccsds.Cfdp.Pdu.Eof.{directive_eof}
use akira_ccsds.Cfdp.Pdu.Finished.{directive_finished}

abbrev pub directive_ack : ℕ
directive_ack = 0x06

abbrev pub ack_data_len : ℕ
ack_data_len = 3

abbrev pub ack_subtype_other : ℕ
ack_subtype_other = 0

abbrev pub ack_subtype_finished : ℕ
ack_subtype_finished = 1

abbrev pub transaction_status_unrecognized : ℕ
transaction_status_unrecognized = 3

-- `struct ccsds_cfdp_ack_pdu`
pub record AckPdu : Type 0 where
  pub header : PduHeader
  pub acknowledged_directive : ℕ
  pub directive_subtype : ℕ
  pub condition_code : ℕ
  pub transaction_status : ℕ

unfoldable pub ack_directive_is_supported : ℕ → Bool
ack_directive_is_supported directive =
    (directive == directive_eof) || (directive == directive_finished)

unfoldable pub ack_subtype_is_valid : ℕ → ℕ → Bool
ack_subtype_is_valid directive subtype =
    if directive == directive_finished
    then (subtype == ack_subtype_finished)
    else (subtype == ack_subtype_other)

unfoldable pub ack_directive_byte : AckPdu → ℕ
ack_directive_byte p =
    bit_or (shl (low_bits p.acknowledged_directive 4) 4) (low_bits p.directive_subtype 4)

unfoldable pub ack_status_byte : AckPdu → ℕ
ack_status_byte p = bit_or (shl (low_bits p.condition_code 4) 4) (low_bits p.transaction_status 2)

unfoldable pub encode_ack : AckPdu → ℕ → Outcome (List ℕ)
encode_ack p cap =
    if not (p.header.pdu_type == pdu_type_file_directive)
      || p.header.segment_metadata_present
      || not (ack_directive_is_supported p.acknowledged_directive)
      || not (ack_subtype_is_valid p.acknowledged_directive p.directive_subtype)
      || not (condition_code_is_valid p.condition_code)
      || ltb transaction_status_unrecognized p.transaction_status
    then fail invalid_argument
    else if not (p.header.file_size_mode == file_size_small)
    then fail unsupported
    else put_pdu p.header ack_data_len cap
        (directive_ack ∷ ack_directive_byte p ∷ ack_status_byte p ∷ [])

-- What `ccsds_cfdp_decode_ack` does with the header, its length, and the buffer behind it.
unfoldable pub read_ack : PduHeader → ℕ → List ℕ → Outcome (AckPdu × ℕ)
read_ack h header_len field =
    let acknowledged_directive = shr (byte_at field 1) 4 in
    let subtype = low_bits (byte_at field 1) 4 in
    let status_byte = byte_at field 2 in
    if not (h.pdu_type == pdu_type_file_directive) || h.segment_metadata_present
    then fail malformed_pdu
    else if not (h.file_size_mode == file_size_small)
    then fail unsupported
    else if not (h.pdu_data_field_len == ack_data_len) || ltb (length field) h.pdu_data_field_len
    then fail malformed_pdu
    else if not (byte_at field 0 == directive_ack)
    then fail malformed_pdu
    else if not (ack_directive_is_supported acknowledged_directive)
        || not (ack_subtype_is_valid acknowledged_directive subtype)
    then fail unsupported
    else if not (low_bits (shr status_byte 2) 2 == 0)
    then fail malformed_pdu
    else if not (condition_code_is_valid (shr status_byte 4))
    then fail malformed_pdu
    else done (
      record {
        header = h;
        acknowledged_directive = acknowledged_directive;
        directive_subtype = subtype;
        condition_code = shr status_byte 4;
        transaction_status = low_bits status_byte 2;
      },
      header_len + h.pdu_data_field_len,
    )

unfoldable pub decode_ack : List ℕ → Outcome (AckPdu × ℕ)
decode_ack buf = on_data_field read_ack buf

-- An ACK PDU that `encode_ack` accepts, given room.
pub record IsAck (p : AckPdu) : Type 0 where
  pub header_fits : CanCarry p.header ack_data_len
  pub type_is_directive : p.header.pdu_type ≡ pdu_type_file_directive
  pub no_metadata : p.header.segment_metadata_present ≡ false
  pub directive_supported : ack_directive_is_supported p.acknowledged_directive ≡ true
  pub subtype_valid : ack_subtype_is_valid p.acknowledged_directive p.directive_subtype ≡ true
  pub condition_fits : p.condition_code < 16
  pub status_fits : p.transaction_status < 4

abbrev pub ack_header : AckPdu → PduHeader
ack_header p = with_data_len p.header ack_data_len

ack_bytes-sum :
    (p : AckPdu)
    → (ack_directive_byte p ≡ p.acknowledged_directive % 16 * 16 + p.directive_subtype % 16)
      × (ack_status_byte p ≡ p.condition_code % 16 * 16 + p.transaction_status % 4)
unfolding ack_directive_byte ack_status_byte
ack_bytes-sum p = (
  ground (arith, bit_or_fields 4 (p.acknowledged_directive % 16) (p.directive_subtype % 16)),
  ground (arith, bit_or_fields 4 (p.condition_code % 16) (p.transaction_status % 4)),
)

-- Decoding what `encode_ack` stored, with any bytes behind it, gives the PDU, its header with the
-- derived data field length, and the number of bytes stored: for a PDU that fits, and a buffer
-- with room for it.
pub decode_ack-encode_ack :
    (p : AckPdu) (cap : ℕ) (rest : List ℕ)
    → IsAck p
    → header_encoded_len (ack_header p) + ack_data_len ≤ cap
    → (stored : List ℕ) × (encode_ack p cap ≡ done stored)
      × (decode_ack (stored ++ rest)
          ≡ done (
            record p { header = ack_header p },
            header_encoded_len (ack_header p) + ack_data_len,
          ))
unfolding encode_ack decode_ack read_ack condition_code_is_valid ack_directive_is_supported
    ack_subtype_is_valid
decode_ack-encode_ack p cap rest w room =
    let field = directive_ack ∷ ack_directive_byte p ∷ ack_status_byte p ∷ [] in
    (
      header_bytes (ack_header p) ++ field,
      ground
          (arith, w, w.header_fits, put_pdu_lem p.header ack_data_len w.header_fits field cap refl),
      on_data_field_lem p.header ack_data_len w.header_fits field read_ack rest
          ∙ ground (arith, w, w.header_fits, ack_bytes-sum p),
    )
