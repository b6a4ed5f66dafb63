-- ===== src/Cfdp/Pdu.antt =====
-- CFDP protocol data units: connectivity/ccsds/ccsds_cfdp_pdu.c and .h, here the fixed header; the
-- child modules have the PDUs. An encoder gives the bytes that it stores, whose number is `*len`; a
-- decoder gives what it stores with `*consumed`, and what its outputs hold after a failure is not
-- modelled. The enums of ccsds_cfdp_types.h are numbers, since the code casts between them and bit
-- fields. A NULL pointer is not represented.
pub mod Numbers
pub mod Header
pub mod DataField
pub mod FileData
pub mod Eof
pub mod Finished
pub mod Ack
pub mod Nak
pub mod Metadata
pub mod MetadataRoundTrip
pub mod NakChecked
pub mod MetadataChecked
mod Examples
mod InputExamples
pub mod NakRoundTrip
pub mod Fields
pub mod Accepted
use akira_ccsds.Base.{
  ℕ, zero, suc, ◌+◌, ◌-◌, ◌*◌, ◌/◌, ◌%◌, ◌^◌, ◌≤◌, ◌<◌, min, max, bit_or, bit_xor,
}
use akira_ccsds.Base.{◌≡◌, refl, sym, ap, ap₂, ◌∙◌, ◌≢◌, ◌↔◌, ◌⊎◌, inl, inr, arith}
use akira_ccsds.Base.{
  Bool, true, false, ◌&&◌, ◌||◌, not, Option, none, some, List, [], ◌∷◌, ◌++◌, map, append_assoc,
  append-nil,
}
use akira_ccsds.Base.{
  ltb, leb, ◌==◌, if◌then◌else◌, ltb→lt, leb→le, ltb→ge, lt→ltb, ge→ltb, ==_iff, ==_refl,
  Bool-cases, Option-cases, all_below, all_below_sound,
}
use akira_ccsds.Base.{
  length, get_or, set, take, drop, replicate, All, length-append, length-set, length-take,
  length-drop, length-replicate, take-append-drop, take-append, drop-append, take_all, take-set,
  set_beyond, get_or-take, set_back, All-set, get_or-append, concat, prepend, prepend-eq-some,
  get_or-set_self, get_or-set_ne, get_or_ext, All-append, All-take, All-drop,
}
use akira_ccsds.Base.{
  IsByte, AllBytes, u8, u16, u32, shr, shl, low_bits, test_bit, byte_at, get_be16, be16, be32,
  get_be32, be64, get_be64, byte_at-IsByte, all_bytes_sound,
}
use akira_ccsds.Cfdp.{
  Status, invalid_argument, buffer_too_small, malformed_pdu, unsupported, unsupported_checksum,
  invalid_transmission_mode, checksum_failure,
}
use akira_ccsds.Cfdp.{
  file_size_error, inactivity_detected, nak_limit_reached, cancel_request, filestore_rejection,
  transaction_busy, Outcome, done,
}
use akira_ccsds.Cfdp.{fail, ◌>>=◌, ChecksumType, modular, crc32c, ieee_802_3_fcs, null, unknown}
use akira_ccsds.Cfdp.{>>=-eq-done}

abbrev pub version_1 : ℕ
version_1 = 1

abbrev pub max_entity_id_len : ℕ
max_entity_id_len = 4

abbrev pub max_trans_seq_len : ℕ
max_trans_seq_len = 4

abbrev pub fixed_header_min_len : ℕ
fixed_header_min_len = 4

abbrev pub max_encoded_int_len : ℕ
max_encoded_int_len = 8

abbrev pub pdu_type_file_directive : ℕ
pdu_type_file_directive = 0

abbrev pub pdu_type_file_data : ℕ
pdu_type_file_data = 1

abbrev pub direction_toward_receiver : ℕ
direction_toward_receiver = 0

abbrev pub direction_toward_sender : ℕ
direction_toward_sender = 1

abbrev pub transmission_mode_acknowledged : ℕ
transmission_mode_acknowledged = 0

abbrev pub transmission_mode_unacknowledged : ℕ
transmission_mode_unacknowledged = 1

abbrev pub crc_not_present : ℕ
crc_not_present = 0

abbrev pub crc_present : ℕ
crc_present = 1

abbrev pub file_size_small : ℕ
file_size_small = 0

abbrev pub record_boundaries_not_preserved : ℕ
record_boundaries_not_preserved = 0

abbrev pub record_boundaries_preserved : ℕ
record_boundaries_preserved = 1

-- `struct ccsds_cfdp_pdu_header`
pub record PduHeader : Type 0 where
  pub version : ℕ
  pub pdu_type : ℕ
  pub direction : ℕ
  pub transmission_mode : ℕ
  pub crc_flag : ℕ
  pub file_size_mode : ℕ
  pub pdu_data_field_len : ℕ
  pub segmentation_control : ℕ
  pub segment_metadata_present : Bool
  pub entity_id_len : ℕ
  pub transaction_sequence_number_len : ℕ
  pub source_entity_id : ℕ
  pub transaction_sequence_number : ℕ
  pub destination_entity_id : ℕ

unfoldable pub encoded_int_len_is_valid : ℕ → ℕ → Bool
encoded_int_len_is_valid len max_len = leb 1 len && leb len max_len && leb len max_encoded_int_len

unfoldable pub header_lengths_are_valid : PduHeader → Bool
header_lengths_are_valid h =
    encoded_int_len_is_valid h.entity_id_len max_entity_id_len
    && encoded_int_len_is_valid h.transaction_sequence_number_len max_trans_seq_len

unfoldable pub value_fits_len : ℕ → ℕ → Bool
value_fits_len value len = if leb max_encoded_int_len len then true else (shr value (len * 8) == 0)

-- The bytes that `write_be_uint` stores.
unfoldable pub write_be_uint : ℕ → ℕ → List ℕ
write_be_uint len value = take len (drop (max_encoded_int_len - len) (be64 value))

unfoldable pub read_be_uint : List ℕ → ℕ → ℕ
read_be_uint buf len = get_be64 (replicate (max_encoded_int_len - len) 0 ++ take len buf)

unfoldable pub header_encoded_len : PduHeader → ℕ
header_encoded_len h =
    if not (header_lengths_are_valid h)
    then 0
    else fixed_header_min_len + 2 * h.entity_id_len + h.transaction_sequence_number_len

-- `buf[0]` and `buf[3]`; every field is masked before its shift, so the casts to `uint8_t` change
-- nothing.
unfoldable pub header_byte0 : PduHeader → ℕ
header_byte0 h = bit_or (shl (low_bits h.version 3) 5) (
    bit_or (shl (low_bits h.pdu_type 1) 4) (
      bit_or (shl (low_bits h.direction 1) 3) (
        bit_or (shl (low_bits h.transmission_mode 1) 2)
          (bit_or (shl (low_bits h.crc_flag 1) 1) (low_bits h.file_size_mode 1)))))

unfoldable pub header_byte3 : PduHeader → ℕ
header_byte3 h = bit_or (shl (low_bits h.segmentation_control 1) 7) (
    bit_or (shl (low_bits (h.entity_id_len - 1) 3) 4) (
      bit_or (if h.segment_metadata_present then 0x08 else 0)
        (low_bits (h.transaction_sequence_number_len - 1) 3)))

unfoldable pub header_bytes : PduHeader → List ℕ
header_bytes h =
    (header_byte0 h ∷ [])
    ++ be16 h.pdu_data_field_len
    ++ (header_byte3 h ∷ [])
    ++ write_be_uint h.entity_id_len h.source_entity_id
    ++ write_be_uint h.transaction_sequence_number_len h.transaction_sequence_number
    ++ write_be_uint h.entity_id_len h.destination_entity_id

unfoldable pub encode_header : PduHeader → ℕ → Outcome (List ℕ)
encode_header h cap =
    if not (h.version == version_1)
      || ltb pdu_type_file_data h.pdu_type
      || ltb direction_toward_sender h.direction
      || ltb transmission_mode_unacknowledged h.transmission_mode
      || ltb crc_present h.crc_flag
      || ltb record_boundaries_preserved h.segmentation_control
    then fail invalid_argument
    else if not (h.file_size_mode == file_size_small)
    then fail unsupported
    else if not (header_lengths_are_valid h)
        || not (value_fits_len h.source_entity_id h.entity_id_len)
        || not (value_fits_len h.transaction_sequence_number h.transaction_sequence_number_len)
        || not (value_fits_len h.destination_entity_id h.entity_id_len)
    then fail invalid_argument
    else if ltb cap (header_encoded_len h)
    then fail buffer_too_small
    else done (header_bytes h)

-- What `ccsds_cfdp_decode_header` stores when it accepts, with the two lengths read from `buf[3]`.
unfoldable pub parsed_header : List ℕ → ℕ → ℕ → PduHeader
parsed_header buf entity_id_len trans_seq_len = record {
  version = low_bits (shr (byte_at buf 0) 5) 3;
  pdu_type = low_bits (shr (byte_at buf 0) 4) 1;
  direction = low_bits (shr (byte_at buf 0) 3) 1;
  transmission_mode = low_bits (shr (byte_at buf 0) 2) 1;
  crc_flag = low_bits (shr (byte_at buf 0) 1) 1;
  file_size_mode = low_bits (byte_at buf 0) 1;
  pdu_data_field_len = get_be16 buf 1;
  segmentation_control = low_bits (shr (byte_at buf 3) 7) 1;
  segment_metadata_present = test_bit (byte_at buf 3) 3;
  entity_id_len = entity_id_len;
  transaction_sequence_number_len = trans_seq_len;
  source_entity_id = read_be_uint (drop fixed_header_min_len buf) entity_id_len;
  transaction_sequence_number =
      read_be_uint (drop (fixed_header_min_len + entity_id_len) buf) trans_seq_len;
  destination_entity_id =
      read_be_uint (drop (fixed_header_min_len + entity_id_len + trans_seq_len) buf) entity_id_len;
}

unfoldable pub decode_header : List ℕ → Outcome (PduHeader × ℕ)
decode_header buf =
    let entity_id_len = low_bits (shr (byte_at buf 3) 4) 3 + 1 in
    let trans_seq_len = low_bits (byte_at buf 3) 3 + 1 in
    let needed = fixed_header_min_len + 2 * entity_id_len + trans_seq_len in
    if ltb (length buf) fixed_header_min_len
    then fail malformed_pdu
    else if not (low_bits (shr (byte_at buf 0) 5) 3 == version_1)
    then fail unsupported
    else if not (low_bits (byte_at buf 0) 1 == file_size_small)
    then fail unsupported
    else if not (encoded_int_len_is_valid entity_id_len max_entity_id_len)
        || not (encoded_int_len_is_valid trans_seq_len max_trans_seq_len)
    then fail unsupported
    else if ltb (length buf) needed
    then fail malformed_pdu
    else done (parsed_header buf entity_id_len trans_seq_len, needed)

-- CCSDS_CFDP_CONDITION_NO_ERROR to CCSDS_CFDP_CONDITION_CANCEL_REQUEST_RECEIVED.
unfoldable pub condition_code_is_valid : ℕ → Bool
condition_code_is_valid code = leb 0 code && leb code 0xf

-- `header` with the length of the data field that an encoder derives.
abbrev pub with_data_len : PduHeader → ℕ → PduHeader
with_data_len h n = record h { pdu_data_field_len = n }

-- The way each encoder ends: the header with the derived length, the test for room, and the bytes
-- of the data field.
unfoldable pub put_pdu : PduHeader → ℕ → ℕ → List ℕ → Outcome (List ℕ)
put_pdu h pdu_data_len cap bytes = encode_header (with_data_len h pdu_data_len) cap >>= (λ head.
    if ltb (cap - length head) pdu_data_len then fail buffer_too_small else done (head ++ bytes))

-- The way each decoder begins: the header, and then the buffer from `&buf[header_len]` on.
unfoldable pub on_data_field {ℓ} :
    {A : Type ℓ} → (PduHeader → ℕ → List ℕ → Outcome A) → List ℕ → Outcome A
on_data_field read buf = decode_header buf >>= (λ found. read found.0 found.1 (drop found.1 buf))
