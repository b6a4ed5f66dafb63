-- ===== src/Cfdp/Pdu/Metadata.antt =====
-- Metadata PDUs, without options. The type of a file checksum is a number on the wire.
use akira_ccsds.Base.{ℕ, ◌+◌, ◌-◌, bit_or}
use akira_ccsds.Base.{Bool, ◌&&◌, ◌||◌, not, List, [], ◌∷◌, ◌++◌}
use akira_ccsds.Base.{ltb, leb, ◌==◌, if◌then◌else◌}
use akira_ccsds.Base.{length, drop}
use akira_ccsds.Base.{shr, low_bits, test_bit, byte_at}
use akira_ccsds.Cfdp.{
  invalid_argument, buffer_too_small, malformed_pdu, unsupported, unsupported_checksum,
}
use akira_ccsds.Cfdp.{Outcome, done}
use akira_ccsds.Cfdp.{fail, ◌>>=◌, ChecksumType, modular, crc32c, ieee_802_3_fcs, null, unknown}
use akira_ccsds.Cfdp.Checksum.{checksum_type_is_supported}
use akira_ccsds.Cfdp.Pdu.{pdu_type_file_directive}
use akira_ccsds.Cfdp.Pdu.{transmission_mode_acknowledged, file_size_small, PduHeader}
use akira_ccsds.Cfdp.Pdu.{write_be_uint, read_be_uint, encode_header}
use akira_ccsds.Cfdp.Pdu.{with_data_len, on_data_field}
use akira_ccsds.Cfdp.Pdu.Fields.{lv_read, lv_write, tlv_read}

abbrev pub directive_metadata : ℕ
directive_metadata = 0x07

abbrev pub metadata_min_data_len : ℕ
metadata_min_data_len = 8

-- CCSDS_CFDP_MAX_FILENAME_LEN at its default.
abbrev pub max_filename_len : ℕ
max_filename_len = 64

-- `struct ccsds_cfdp_metadata_pdu`
pub record MetadataPdu : Type 0 where
  pub header : PduHeader
  pub closure_requested : Bool
  pub checksum_type : ChecksumType
  pub file_size : ℕ
  pub source_filename : List ℕ
  pub destination_filename : List ℕ

unfoldable pub checksum_code : ChecksumType → ℕ
checksum_code modular = 0
checksum_code crc32c = 2
checksum_code ieee_802_3_fcs = 3
checksum_code null = 15
checksum_code (unknown n) = n

-- The cast of a number to `enum ccsds_cfdp_checksum_type`.
unfoldable pub checksum_type_of : ℕ → ChecksumType
checksum_type_of n =
    if n == 0
    then modular
    else if n == 2
    then crc32c
    else if n == 3
    then ieee_802_3_fcs
    else if n == 15
    then null
    else unknown n

unfoldable pub filename_len_is_valid : List ℕ → Bool
filename_len_is_valid filename = ltb 0 (length filename) && leb (length filename) max_filename_len

unfoldable pub metadata_control : MetadataPdu → ℕ
metadata_control p =
    bit_or
      (if p.closure_requested && not (p.header.transmission_mode == transmission_mode_acknowledged)
        then 0x40
        else 0)
      (low_bits (checksum_code p.checksum_type) 4)

-- The stores of `ccsds_cfdp_encode_metadata` behind the header.
unfoldable pub put_metadata : MetadataPdu → ℕ → List ℕ → Outcome (List ℕ)
put_metadata p cap head =
    let fixed =
      head ++ ((directive_metadata ∷ metadata_control p ∷ []) ++ write_be_uint 4 p.file_size) in
    lv_write p.source_filename (cap - length fixed) >>= (λ source.
      lv_write p.destination_filename (cap - (length fixed + length source))
      >>= (λ destination. done (fixed ++ (source ++ destination))))

unfoldable pub encode_metadata : MetadataPdu → ℕ → Outcome (List ℕ)
encode_metadata p cap =
    let pdu_data_len =
      metadata_min_data_len + length p.source_filename + length p.destination_filename in
    if not (p.header.pdu_type == pdu_type_file_directive)
      || not (p.header.file_size_mode == file_size_small)
      || p.header.segment_metadata_present
    then fail invalid_argument
    else if not (checksum_type_is_supported p.checksum_type)
    then fail unsupported_checksum
    else if not (filename_len_is_valid p.source_filename)
        || not (filename_len_is_valid p.destination_filename)
    then fail invalid_argument
    else if ltb 0xffff pdu_data_len
    then fail invalid_argument
    else encode_header (with_data_len p.header pdu_data_len) cap >>= (λ head.
      if ltb (cap - length head) pdu_data_len
      then fail buffer_too_small
      else put_metadata p cap head)

-- The rest of `ccsds_cfdp_decode_metadata`, from the end of the file names, the destination file
-- name and the source file name on: `field` is the buffer behind the header, `data_len` its
-- announced length, `offset` the place in `field`, and `p` the PDU as read so far.
unfoldable pub read_options : MetadataPdu → ℕ → ℕ → List ℕ → ℕ → Outcome (MetadataPdu × ℕ)
read_options p header_len data_len field offset =
    if ltb offset data_len
    then tlv_read (drop offset field) (data_len - offset) >>= (λ option. fail unsupported)
    else done (p, header_len + data_len)

unfoldable pub read_destination : MetadataPdu → ℕ → ℕ → List ℕ → ℕ → Outcome (MetadataPdu × ℕ)
read_destination p header_len data_len field offset =
    lv_read (drop offset field) (data_len - offset) >>= (λ name.
      if not (filename_len_is_valid name.0)
      then fail invalid_argument
      else read_options (record p { destination_filename = name.0 }) header_len data_len field
          (offset + name.1))

unfoldable pub read_filenames : MetadataPdu → ℕ → ℕ → List ℕ → ℕ → Outcome (MetadataPdu × ℕ)
read_filenames p header_len data_len field offset =
    lv_read (drop offset field) (data_len - offset) >>= (λ name.
      if not (filename_len_is_valid name.0)
      then fail invalid_argument
      else read_destination (record p { source_filename = name.0 }) header_len data_len field
          (offset + name.1))

-- What `ccsds_cfdp_decode_metadata` does with the header, its length, and the buffer behind it.
unfoldable pub read_metadata : PduHeader → ℕ → List ℕ → Outcome (MetadataPdu × ℕ)
read_metadata h header_len field =
    let control = byte_at field 1 in
    let checksum_type = checksum_type_of (low_bits control 4) in
    if not (h.pdu_type == pdu_type_file_directive)
      || not (h.file_size_mode == file_size_small)
      || h.segment_metadata_present
    then fail malformed_pdu
    else if ltb h.pdu_data_field_len metadata_min_data_len
        || ltb (length field) h.pdu_data_field_len
    then fail malformed_pdu
    else if not (byte_at field 0 == directive_metadata)
    then fail malformed_pdu
    else if test_bit control 7 || not (low_bits (shr control 4) 2 == 0)
    then fail malformed_pdu
    else if not (checksum_type_is_supported checksum_type)
    then fail unsupported_checksum
    else if ltb (h.pdu_data_field_len - 2) 4
    then fail malformed_pdu
    else read_filenames
        (record {
          header = h;
          closure_requested = test_bit control 6;
          checksum_type = checksum_type;
          file_size = read_be_uint (drop 2 field) 4;
          source_filename = [];
          destination_filename = [];
        })
        header_len h.pdu_data_field_len field 6

unfoldable pub decode_metadata : List ℕ → Outcome (MetadataPdu × ℕ)
decode_metadata buf = on_data_field read_metadata buf
