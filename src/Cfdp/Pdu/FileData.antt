-- ===== src/Cfdp/Pdu/FileData.antt =====
-- File Data PDUs. The payload pointer with its length is the list of the payload's bytes.
use akira_ccsds.Base.{ℕ, ◌+◌, ◌-◌, ◌^◌, ◌≤◌, ◌<◌}
use akira_ccsds.Base.{◌≡◌, ◌∙◌, arith}
use akira_ccsds.Base.{false, ◌||◌, not, List, ◌++◌}
use akira_ccsds.Base.{ltb, leb, ◌==◌, if◌then◌else◌}
use akira_ccsds.Base.{length, take, drop, length-append, take-append}
use akira_ccsds.Base.{be32, get_be32}
use akira_ccsds.Cfdp.{invalid_argument, malformed_pdu, unsupported}
use akira_ccsds.Cfdp.{Outcome, done}
use akira_ccsds.Cfdp.{fail}
use akira_ccsds.Cfdp.Pdu.{pdu_type_file_data}
use akira_ccsds.Cfdp.Pdu.{file_size_small, PduHeader}
use akira_ccsds.Cfdp.Pdu.{header_encoded_len, header_bytes}
use akira_ccsds.Cfdp.Pdu.{with_data_len, put_pdu, on_data_field}
use akira_ccsds.Cfdp.Pdu.DataField.{CanCarry, put_pdu_lem, on_data_field_lem}

abbrev pub filedata_offset_len : ℕ
filedata_offset_len = 4

-- `struct ccsds_cfdp_filedata_pdu`; `bytes` is `data` with `data_len`.
pub record FiledataPdu : Type 0 where
  pub header : PduHeader
  pub offset : ℕ
  pub bytes : List ℕ

unfoldable pub encode_filedata : FiledataPdu → ℕ → Outcome (List ℕ)
encode_filedata p cap =
    if not (p.header.pdu_type == pdu_type_file_data) || p.header.segment_metadata_present
    then fail invalid_argument
    else if not (p.header.file_size_mode == file_size_small)
    then fail unsupported
    else if (length p.bytes == 0) || ltb (0xffff - filedata_offset_len) (length p.bytes)
    then fail invalid_argument
    else put_pdu p.header (filedata_offset_len + length p.bytes) cap (be32 p.offset ++ p.bytes)

-- What `ccsds_cfdp_decode_filedata` does with the header, its length, and the buffer behind it.
unfoldable pub read_filedata : PduHeader → ℕ → List ℕ → Outcome (FiledataPdu × ℕ)
read_filedata h header_len field =
    if not (h.pdu_type == pdu_type_file_data) || h.segment_metadata_present
    then fail malformed_pdu
    else if not (h.file_size_mode == file_size_small)
    then fail unsupported
    else if leb h.pdu_data_field_len filedata_offset_len || ltb (length field) h.pdu_data_field_len
    then fail malformed_pdu
    else if ltb (header_len + h.pdu_data_field_len - header_len) filedata_offset_len
    then fail malformed_pdu
    else done (
      record {
        header = h;
        offset = get_be32 field 0;
        bytes = take (h.pdu_data_field_len - filedata_offset_len) (drop filedata_offset_len field);
      },
      header_len + h.pdu_data_field_len,
    )

unfoldable pub decode_filedata : List ℕ → Outcome (FiledataPdu × ℕ)
decode_filedata buf = on_data_field read_filedata buf

-- A File Data PDU that `encode_filedata` accepts, given room.
pub record IsFiledata (p : FiledataPdu) : Type 0 where
  pub header_fits : CanCarry p.header (filedata_offset_len + length p.bytes)
  pub type_is_file_data : p.header.pdu_type ≡ pdu_type_file_data
  pub no_metadata : p.header.segment_metadata_present ≡ false
  pub offset_fits : p.offset < 2 ^ 32
  pub bytes_present : 1 ≤ length p.bytes

abbrev pub filedata_header : FiledataPdu → PduHeader
filedata_header p = with_data_len p.header (filedata_offset_len + length p.bytes)

-- Decoding what `encode_filedata` stored, with any bytes behind it, gives the PDU, its header with
-- the derived data field length, and the number of bytes stored: for a PDU that fits, and a buffer
-- with room for it.
pub decode_filedata-encode_filedata :
    (p : FiledataPdu) (cap : ℕ) (rest : List ℕ)
    → IsFiledata p
    → header_encoded_len (filedata_header p) + (filedata_offset_len + length p.bytes) ≤ cap
    → (stored : List ℕ) × (encode_filedata p cap ≡ done stored)
      × (decode_filedata (stored ++ rest)
          ≡ done (
            record p { header = filedata_header p },
            header_encoded_len (filedata_header p) + (filedata_offset_len + length p.bytes),
          ))
unfolding encode_filedata decode_filedata read_filedata
decode_filedata-encode_filedata p cap rest w room =
    let n = filedata_offset_len + length p.bytes in
    let field = be32 p.offset ++ p.bytes in
    let whole : length field ≡ n = omega arith in
    (
      header_bytes (filedata_header p) ++ field,
      ground (arith, w, w.header_fits, put_pdu_lem p.header n w.header_fits field cap whole),
      on_data_field_lem p.header n w.header_fits field read_filedata rest
          ∙ ground (
            arith,
            w,
            w.header_fits,
            length-append p.bytes rest,
            take-append p.bytes rest (n - filedata_offset_len),
          ),
    )
