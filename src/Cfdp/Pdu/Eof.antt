-- ===== src/Cfdp/Pdu/Eof.antt =====
-- EOF PDUs. The decoder ignores the low four bits behind the condition code.
use akira_ccsds.Base.{ℕ, ◌+◌, ◌-◌, ◌^◌, ◌≤◌, ◌<◌}
use akira_ccsds.Base.{◌≡◌, refl, ◌∙◌, arith}
use akira_ccsds.Base.{false, ◌||◌, not, List, [], ◌∷◌, ◌++◌}
use akira_ccsds.Base.{ltb, ◌==◌, if◌then◌else◌}
use akira_ccsds.Base.{length}
use akira_ccsds.Base.{shr, shl, low_bits, byte_at, be32, get_be32}
use akira_ccsds.Cfdp.{invalid_argument, malformed_pdu, unsupported}
use akira_ccsds.Cfdp.{Outcome, done}
use akira_ccsds.Cfdp.{fail}
use akira_ccsds.Cfdp.Pdu.{pdu_type_file_directive}
use akira_ccsds.Cfdp.Pdu.{file_size_small, PduHeader}
use akira_ccsds.Cfdp.Pdu.{header_encoded_len, header_bytes}
use akira_ccsds.Cfdp.Pdu.{condition_code_is_valid, with_data_len, put_pdu, on_data_field}
use akira_ccsds.Cfdp.Pdu.DataField.{CanCarry, put_pdu_lem, on_data_field_lem}

abbrev pub directive_eof : ℕ
directive_eof = 0x04

abbrev pub eof_data_len : ℕ
eof_data_len = 10

-- `struct ccsds_cfdp_eof_pdu`
pub record EofPdu : Type 0 where
  pub header : PduHeader
  pub condition_code : ℕ
  pub file_checksum : ℕ
  pub file_size : ℕ

unfoldable pub encode_eof : EofPdu → ℕ → Outcome (List ℕ)
encode_eof p cap =
    if not (p.header.pdu_type == pdu_type_file_directive) || p.header.segment_metadata_present
    then fail invalid_argument
    else if not (p.header.file_size_mode == file_size_small)
    then fail unsupported
    else if not (condition_code_is_valid p.condition_code)
    then fail invalid_argument
    else put_pdu p.header eof_data_len cap (
        (directive_eof ∷ shl (low_bits p.condition_code 4) 4 ∷ [])
        ++ be32 p.file_checksum
        ++ be32 p.file_size)

-- What `ccsds_cfdp_decode_eof` does with the header, its length, and the buffer behind it.
unfoldable pub read_eof : PduHeader → ℕ → List ℕ → Outcome (EofPdu × ℕ)
read_eof h header_len field =
    let left = λ (offset : ℕ). header_len + h.pdu_data_field_len - (header_len + offset) in
    if not (h.pdu_type == pdu_type_file_directive) || h.segment_metadata_present
    then fail malformed_pdu
    else if not (h.file_size_mode == file_size_small)
    then fail unsupported
    else if not (h.pdu_data_field_len == eof_data_len) || ltb (length field) h.pdu_data_field_len
    then fail malformed_pdu
    else if ltb (left 0) 1
    then fail malformed_pdu
    else if not (byte_at field 0 == directive_eof)
    then fail malformed_pdu
    else if ltb (left 1) 1 || ltb (left 2) 4 || ltb (left 6) 4
    then fail malformed_pdu
    else done (
      record {
        header = h;
        condition_code = shr (byte_at field 1) 4;
        file_checksum = get_be32 field 2;
        file_size = get_be32 field 6;
      },
      header_len + 10,
    )

unfoldable pub decode_eof : List ℕ → Outcome (EofPdu × ℕ)
decode_eof buf = on_data_field read_eof buf

-- An EOF PDU that `encode_eof` accepts, given room.
pub record IsEof (p : EofPdu) : Type 0 where
  pub header_fits : CanCarry p.header eof_data_len
  pub type_is_directive : p.header.pdu_type ≡ pdu_type_file_directive
  pub no_metadata : p.header.segment_metadata_present ≡ false
  pub condition_fits : p.condition_code < 16
  pub checksum_fits : p.file_checksum < 2 ^ 32
  pub file_size_fits : p.file_size < 2 ^ 32

abbrev pub eof_header : EofPdu → PduHeader
eof_header p = with_data_len p.header eof_data_len

-- Decoding what `encode_eof` stored, with any bytes behind it, gives the PDU, its header with
-- the derived data field length, and the number of bytes stored: for a PDU that fits, and a buffer
-- with room for it.
pub decode_eof-encode_eof :
    (p : EofPdu) (cap : ℕ) (rest : List ℕ)
    → IsEof p
    → header_encoded_len (eof_header p) + eof_data_len ≤ cap
    → (stored : List ℕ) × (encode_eof p cap ≡ done stored)
      × (decode_eof (stored ++ rest)
          ≡ done (
            record p { header = eof_header p },
            header_encoded_len (eof_header p) + eof_data_len,
          ))
unfolding encode_eof decode_eof read_eof condition_code_is_valid
decode_eof-encode_eof p cap rest w room =
    let field =
      (directive_eof ∷ shl (low_bits p.condition_code 4) 4 ∷ [])
      ++ be32 p.file_checksum
      ++ be32 p.file_size in
    (
      header_bytes (eof_header p) ++ field,
      ground
          (arith, w, w.header_fits, put_pdu_lem p.header eof_data_len w.header_fits field cap refl),
      on_data_field_lem p.header eof_data_len w.header_fits field read_eof rest
          ∙ ground (arith, w, w.header_fits),
    )
