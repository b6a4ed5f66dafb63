-- ===== src/Cfdp/Pdu/InputExamples.antt =====
-- What the PDU decoders accept, at concrete inputs.
use akira_ccsds.Base.{ℕ, ◌+◌, ◌*◌, ◌≤◌, ◌<◌}
use akira_ccsds.Base.{◌≡◌, refl, arith}
use akira_ccsds.Base.{true, false, List, [], ◌∷◌}
use akira_ccsds.Base.{length, take, All}
use akira_ccsds.Base.{all_bytes_sound}
use akira_ccsds.Cfdp.{done}
use akira_ccsds.Cfdp.{modular}
use akira_ccsds.Cfdp.Checksum.{checksum_type_is_supported}
use akira_ccsds.Cfdp.Ranges.{max_nak_ranges}
use akira_ccsds.Cfdp.Pdu.{PduHeader, encoded_int_len_is_valid}
use akira_ccsds.Cfdp.Pdu.{read_be_uint, header_encoded_len, encode_header}
use akira_ccsds.Cfdp.Pdu.{parsed_header, decode_header, on_data_field}
use akira_ccsds.Cfdp.Pdu.Accepted.{encode_header-decode_header}
use akira_ccsds.Cfdp.Pdu.Fields.{lv_read}
use akira_ccsds.Cfdp.Pdu.Nak.{NakPdu, ranges_in_scope, nak_ranges_are_valid}
use akira_ccsds.Cfdp.Pdu.Nak.{read_ranges, read_nak, decode_nak}
use akira_ccsds.Cfdp.Pdu.NakChecked.{InScope, decode_nak-InScope}
use akira_ccsds.Cfdp.Pdu.Metadata.{MetadataPdu, checksum_type_of, filename_len_is_valid}
use akira_ccsds.Cfdp.Pdu.Metadata.{
  read_options, read_destination, read_filenames, read_metadata, decode_metadata,
}
use akira_ccsds.Cfdp.Pdu.MetadataChecked.{decode_metadata_exact}

-- A NAK PDU with one range as it comes in.
abbrev nak_input : List ℕ
nak_input =
    32 ∷ 0 ∷ 17 ∷ 0 ∷ 1 ∷ 7 ∷ 2 ∷ 8 ∷ 0 ∷ 0 ∷ 0 ∷ 0 ∷ 0 ∷ 0 ∷ 3 ∷ 232 ∷ 0 ∷ 0 ∷ 0 ∷ 10 ∷ 0 ∷ 0 ∷ 0
    ∷ 20 ∷ []

abbrev input_header : ℕ → PduHeader
input_header n = record {
  version = 1;
  pdu_type = 0;
  direction = 0;
  transmission_mode = 0;
  crc_flag = 0;
  file_size_mode = 0;
  pdu_data_field_len = n;
  segmentation_control = 0;
  segment_metadata_present = false;
  entity_id_len = 1;
  transaction_sequence_number_len = 1;
  source_entity_id = 1;
  transaction_sequence_number = 7;
  destination_entity_id = 2;
}

nak_input_header : decode_header nak_input ≡ done (input_header 17, 7)
unfolding decode_header parsed_header encoded_int_len_is_valid read_be_uint
nak_input_header = refl

encode_header-decode_header_example : encode_header (input_header 17) 7 ≡ done (take 7 nak_input)
encode_header-decode_header_example =
    encode_header-decode_header nak_input 7 (all_bytes_sound nak_input refl) nak_input_header
      (omega arith)

abbrev nak_found : NakPdu
nak_found = record {
  header = input_header 17;
  scope_start = 0;
  scope_end = 1000;
  ranges = record { start = 10; stop = 20 } ∷ [];
}

nak_input_found : decode_nak nak_input ≡ done (nak_found, 24)
unfolding decode_nak on_data_field read_nak nak_ranges_are_valid ranges_in_scope read_ranges
    decode_header parsed_header encoded_int_len_is_valid read_be_uint
nak_input_found = refl

decode_nak-InScope_example :
    (length nak_found.ranges ≤ max_nak_ranges)
    × (nak_found.scope_start < nak_found.scope_end)
    × All (InScope nak_found.scope_start nak_found.scope_end) nak_found.ranges
    × ((header_len : ℕ) × (decode_header nak_input ≡ done (input_header 17, header_len))
        × (24 ≡ header_len + 17)
        × (17 ≡ 9 + length nak_found.ranges * 8)
        × (24 ≤ length nak_input))
decode_nak-InScope_example =
    decode_nak-InScope nak_input (all_bytes_sound nak_input refl) nak_input_found

abbrev metadata_input : List ℕ
metadata_input =
    32 ∷ 0 ∷ 11 ∷ 0 ∷ 1 ∷ 7 ∷ 2 ∷ 7 ∷ 0 ∷ 0 ∷ 0 ∷ 0 ∷ 5 ∷ 2 ∷ 97 ∷ 98 ∷ 1 ∷ 99 ∷ 88 ∷ []

abbrev metadata_found : MetadataPdu
metadata_found = record {
  header = input_header 11;
  closure_requested = false;
  checksum_type = modular;
  file_size = 5;
  source_filename = 97 ∷ 98 ∷ [];
  destination_filename = 99 ∷ [];
}

metadata_input_found : decode_metadata metadata_input ≡ done (metadata_found, 18)
unfolding decode_metadata on_data_field read_metadata read_filenames read_destination read_options
    decode_header parsed_header encoded_int_len_is_valid read_be_uint checksum_type_of
    checksum_type_is_supported filename_len_is_valid lv_read
metadata_input_found = refl

decode_metadata_exact_example :
    (checksum_type_is_supported metadata_found.checksum_type ≡ true)
    × (filename_len_is_valid metadata_found.source_filename ≡ true)
    × (filename_len_is_valid metadata_found.destination_filename ≡ true)
    × (18 ≡ header_encoded_len metadata_found.header + (8 + 2 + 1))
    × (18 ≤ length metadata_input)
decode_metadata_exact_example =
    decode_metadata_exact metadata_input (all_bytes_sound metadata_input refl) metadata_input_found
