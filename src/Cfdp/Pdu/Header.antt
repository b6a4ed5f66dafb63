-- ===== src/Cfdp/Pdu/Header.antt =====
-- `ccsds_cfdp_encode_header` and `ccsds_cfdp_decode_header` invert one another.
use akira_ccsds.Base.{ℕ, ◌+◌, ◌*◌, ◌/◌, ◌%◌, ◌^◌, ◌≤◌, ◌<◌}
use akira_ccsds.Base.{◌≡◌, refl, sym, ap, ◌∙◌, arith}
use akira_ccsds.Base.{true, List, ◌∷◌, ◌++◌, append_assoc}
use akira_ccsds.Base.{length, drop, length-append}
use akira_ccsds.Base.{shr, low_bits}
use akira_ccsds.Cfdp.{done}
use akira_ccsds.Cfdp.Pdu.{version_1}
use akira_ccsds.Cfdp.Pdu.{
  file_size_small, PduHeader, encoded_int_len_is_valid, header_lengths_are_valid,
}
use akira_ccsds.Cfdp.Pdu.{
  value_fits_len, write_be_uint, read_be_uint, header_encoded_len, header_byte0, header_byte3,
  header_bytes, encode_header,
}
use akira_ccsds.Cfdp.Pdu.{parsed_header, decode_header}
use akira_ccsds.Cfdp.Pdu.Numbers.{
  length-write_be_uint, read_be_uint-write_be_uint, byte0-sum, byte3-sum, second_number,
  third_number, drop_four,
}
use akira_ccsds.Cfdp.Pdu.Numbers.{drop_four_two}

-- A header whose fields fit their bit fields and lengths.
pub record IsWellFormed (h : PduHeader) : Type 0 where
  pub version_known : h.version ≡ version_1
  pub pdu_type_fits : h.pdu_type < 2
  pub direction_fits : h.direction < 2
  pub transmission_mode_fits : h.transmission_mode < 2
  pub crc_flag_fits : h.crc_flag < 2
  pub file_size_is_small : h.file_size_mode ≡ file_size_small
  pub data_len_fits : h.pdu_data_field_len < 2 ^ 16
  pub segmentation_fits : h.segmentation_control < 2
  pub lengths_fit : header_lengths_are_valid h ≡ true
  pub source_fits : value_fits_len h.source_entity_id h.entity_id_len ≡ true
  pub transaction_fits :
      value_fits_len h.transaction_sequence_number h.transaction_sequence_number_len ≡ true
  pub destination_fits : value_fits_len h.destination_entity_id h.entity_id_len ≡ true

-- What `decode_header` reads back.
module _ (h : PduHeader) (w : IsWellFormed h) (rest : List ℕ) where
  abbrev numbers : List ℕ
  numbers =
      write_be_uint h.entity_id_len h.source_entity_id
      ++ write_be_uint h.transaction_sequence_number_len h.transaction_sequence_number
      ++ write_be_uint h.entity_id_len h.destination_entity_id

  entity_id_len_valid : encoded_int_len_is_valid h.entity_id_len 4 ≡ true
  unfolding header_lengths_are_valid
  entity_id_len_valid = ground (arith, w.lengths_fit)

  trans_seq_len_valid : encoded_int_len_is_valid h.transaction_sequence_number_len 4 ≡ true
  unfolding header_lengths_are_valid
  trans_seq_len_valid = ground (arith, w.lengths_fit)

  lengths_range :
      (1 ≤ h.entity_id_len)
      × (h.entity_id_len ≤ 4)
      × (1 ≤ h.transaction_sequence_number_len)
      × (h.transaction_sequence_number_len ≤ 4)
  unfolding header_lengths_are_valid encoded_int_len_is_valid
  lengths_range = ground (arith, w.lengths_fit)

  header_bytes_lem :
      header_bytes h ++ rest
      ≡ header_byte0 h
        ∷ h.pdu_data_field_len / 256 % 256
        ∷ h.pdu_data_field_len % 256
        ∷ header_byte3 h
        ∷ (numbers ++ rest)
  unfolding header_bytes
  header_bytes_lem = refl

  length-numbers : length numbers ≡ 2 * h.entity_id_len + h.transaction_sequence_number_len
  length-numbers =
      let source = write_be_uint h.entity_id_len h.source_entity_id in
      let transaction =
        write_be_uint h.transaction_sequence_number_len h.transaction_sequence_number in
      omega (
        arith,
        length-append (source ++ transaction)
            (write_be_uint h.entity_id_len h.destination_entity_id),
        length-append source transaction,
        length-write_be_uint h.entity_id_len h.source_entity_id entity_id_len_valid,
        length-write_be_uint h.entity_id_len h.destination_entity_id entity_id_len_valid,
        length-write_be_uint h.transaction_sequence_number_len h.transaction_sequence_number
            trans_seq_len_valid,
      )

  source_read : read_be_uint (numbers ++ rest) h.entity_id_len ≡ h.source_entity_id
  source_read =
      let source = write_be_uint h.entity_id_len h.source_entity_id in
      let transaction =
        write_be_uint h.transaction_sequence_number_len h.transaction_sequence_number in
      let destination = write_be_uint h.entity_id_len h.destination_entity_id in
      ap (λ t. read_be_uint t h.entity_id_len)
        (append_assoc (source ++ transaction) destination rest
          ∙ append_assoc source transaction (destination ++ rest))
      ∙ read_be_uint-write_be_uint h.entity_id_len h.source_entity_id
          (transaction ++ (destination ++ rest)) entity_id_len_valid w.source_fits

  transaction_read :
      read_be_uint (drop h.entity_id_len (numbers ++ rest)) h.transaction_sequence_number_len
      ≡ h.transaction_sequence_number
  transaction_read =
      let source = write_be_uint h.entity_id_len h.source_entity_id in
      let transaction =
        write_be_uint h.transaction_sequence_number_len h.transaction_sequence_number in
      let destination = write_be_uint h.entity_id_len h.destination_entity_id in
      ap (λ t. read_be_uint t h.transaction_sequence_number_len)
        (second_number h.entity_id_len h.transaction_sequence_number_len source transaction
          destination rest
          (length-write_be_uint h.entity_id_len h.source_entity_id entity_id_len_valid))
      ∙ read_be_uint-write_be_uint h.transaction_sequence_number_len h.transaction_sequence_number
          (destination ++ rest) trans_seq_len_valid w.transaction_fits

  destination_read :
      read_be_uint
        (drop (h.entity_id_len + h.transaction_sequence_number_len) (numbers ++ rest))
        h.entity_id_len
      ≡ h.destination_entity_id
  destination_read =
      let source = write_be_uint h.entity_id_len h.source_entity_id in
      let transaction =
        write_be_uint h.transaction_sequence_number_len h.transaction_sequence_number in
      let destination = write_be_uint h.entity_id_len h.destination_entity_id in
      ap (λ t. read_be_uint t h.entity_id_len)
        (third_number h.entity_id_len h.transaction_sequence_number_len source transaction
          destination rest
          (length-write_be_uint h.entity_id_len h.source_entity_id entity_id_len_valid)
          (length-write_be_uint h.transaction_sequence_number_len h.transaction_sequence_number
            trans_seq_len_valid))
      ∙ read_be_uint-write_be_uint h.entity_id_len h.destination_entity_id rest entity_id_len_valid
          w.destination_fits

  parsed_header_lem :
      parsed_header
        (header_byte0 h
          ∷ h.pdu_data_field_len / 256 % 256
          ∷ h.pdu_data_field_len % 256
          ∷ header_byte3 h
          ∷ (numbers ++ rest))
        h.entity_id_len
        h.transaction_sequence_number_len
      ≡ h
  unfolding parsed_header
  parsed_header_lem =
      rw
        (
          drop_four (header_byte0 h) (h.pdu_data_field_len / 256 % 256) (h.pdu_data_field_len % 256)
              (header_byte3 h) (numbers ++ rest) h.entity_id_len,
          drop_four_two (header_byte0 h) (h.pdu_data_field_len / 256 % 256)
              (h.pdu_data_field_len % 256) (header_byte3 h) (numbers ++ rest) h.entity_id_len
              h.transaction_sequence_number_len,
          source_read,
          transaction_read,
          destination_read,
          byte0-sum h,
          byte3-sum h,
        )
        (ground (arith, w))

  read_entity_id_len : low_bits (shr (header_byte3 h) 4) 3 + 1 ≡ h.entity_id_len
  read_entity_id_len = ground (arith, byte3-sum h, lengths_range)

  read_trans_seq_len : low_bits (header_byte3 h) 3 + 1 ≡ h.transaction_sequence_number_len
  read_trans_seq_len = ground (arith, byte3-sum h, lengths_range)

  -- The length of what is stored, and what it decodes to with any bytes behind it.
  pub length-header_bytes : length (header_bytes h) ≡ header_encoded_len h
  unfolding header_bytes header_encoded_len
  length-header_bytes = ground (arith, length-numbers, w.lengths_fit)

  pub decode_header-header_bytes :
      decode_header (header_bytes h ++ rest) ≡ done (h, header_encoded_len h)
  unfolding decode_header header_encoded_len header_lengths_are_valid
  decode_header-header_bytes =
      rw (header_bytes_lem, read_entity_id_len, read_trans_seq_len, parsed_header_lem)
        (ground (
          arith,
          byte0-sum h,
          w,
          entity_id_len_valid,
          trans_seq_len_valid,
          length-numbers,
          length-append numbers rest,
        ))

-- A header that fits is stored in any buffer with room for it.
pub encode_header-header_bytes :
    (h : PduHeader) (cap : ℕ)
    → IsWellFormed h
    → header_encoded_len h ≤ cap
    → encode_header h cap ≡ done (header_bytes h)
unfolding encode_header
encode_header-header_bytes h cap w room = ground (arith, w, room)

-- Decoding what `encode_header` stored, with any bytes behind it, gives the header and the number
-- of bytes stored: for a header whose fields fit, and a buffer with room for it.
pub decode_header-encode_header :
    (h : PduHeader) (cap : ℕ) (rest : List ℕ)
    → IsWellFormed h
    → header_encoded_len h ≤ cap
    → (bytes : List ℕ) × (encode_header h cap ≡ done bytes)
      × (decode_header (bytes ++ rest) ≡ done (h, length bytes))
decode_header-encode_header h cap rest w room = (
  header_bytes h,
  encode_header-header_bytes h cap w room,
  decode_header-header_bytes h w rest ∙ ap (λ n. done (h, n)) (sym (length-header_bytes h w rest)),
)
