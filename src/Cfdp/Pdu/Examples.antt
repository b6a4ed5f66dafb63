-- ===== src/Cfdp/Pdu/Examples.antt =====
-- The PDU codecs at concrete inputs.
use akira_ccsds.Base.{ℕ, ◌+◌, ◌^◌, ◌<◌}
use akira_ccsds.Base.{◌≡◌, refl, arith}
use akira_ccsds.Base.{true, false, List, [], ◌∷◌, ◌++◌}
use akira_ccsds.Cfdp.{done}
use akira_ccsds.Cfdp.{crc32c}
use akira_ccsds.Cfdp.Checksum.{checksum_type_is_supported}
use akira_ccsds.Cfdp.Pdu.{PduHeader, encoded_int_len_is_valid, header_lengths_are_valid}
use akira_ccsds.Cfdp.Pdu.{value_fits_len, header_encoded_len}
use akira_ccsds.Cfdp.Pdu.{with_data_len}
use akira_ccsds.Cfdp.Pdu.DataField.{CanCarry}
use akira_ccsds.Cfdp.Pdu.FileData.{
  FiledataPdu, encode_filedata, decode_filedata, IsFiledata, filedata_header,
  decode_filedata-encode_filedata,
}
use akira_ccsds.Cfdp.Pdu.Eof.{EofPdu, encode_eof, decode_eof, IsEof, eof_header}
use akira_ccsds.Cfdp.Pdu.Eof.{decode_eof-encode_eof}
use akira_ccsds.Cfdp.Pdu.Finished.{FinishedPdu, encode_finished}
use akira_ccsds.Cfdp.Pdu.Finished.{
  decode_finished, IsFinished, finished_header, decode_finished-encode_finished,
}
use akira_ccsds.Cfdp.Pdu.Ack.{AckPdu, ack_directive_is_supported, ack_subtype_is_valid}
use akira_ccsds.Cfdp.Pdu.Ack.{encode_ack, decode_ack, IsAck, ack_header, decode_ack-encode_ack}
use akira_ccsds.Cfdp.Pdu.Nak.{NakPdu, ranges_in_scope, nak_ranges_are_valid, encode_nak}
use akira_ccsds.Cfdp.Pdu.Nak.{decode_nak}
use akira_ccsds.Cfdp.Pdu.NakRoundTrip.{IsNak, nak_header, decode_nak-encode_nak}
use akira_ccsds.Cfdp.Pdu.Metadata.{MetadataPdu, filename_len_is_valid}
use akira_ccsds.Cfdp.Pdu.Metadata.{encode_metadata, decode_metadata}
use akira_ccsds.Cfdp.Pdu.MetadataRoundTrip.{
  metadata_header, IsMetadata, stored_closure, decode_metadata-encode_metadata,
}

-- A header of type `type` from entity 1 to entity 2, with IDs of two bytes and sequence numbers of
-- three.
abbrev sample_header : ℕ → PduHeader
sample_header type = record {
  version = 1;
  pdu_type = type;
  direction = 0;
  transmission_mode = 0;
  crc_flag = 0;
  file_size_mode = 0;
  pdu_data_field_len = 0;
  segmentation_control = 0;
  segment_metadata_present = false;
  entity_id_len = 2;
  transaction_sequence_number_len = 3;
  source_entity_id = 1;
  transaction_sequence_number = 70000;
  destination_entity_id = 2;
}

sample_header-CanCarry : (type n : ℕ) → type < 2 → n < 2 ^ 16 → CanCarry (sample_header type) n
unfolding header_lengths_are_valid encoded_int_len_is_valid value_fits_len
sample_header-CanCarry type n t h = record {
  version_known = refl;
  pdu_type_fits = t;
  direction_fits = omega arith;
  transmission_mode_fits = omega arith;
  crc_flag_fits = omega arith;
  file_size_is_small = refl;
  data_len_fits = h;
  segmentation_fits = omega arith;
  lengths_fit = refl;
  source_fits = refl;
  transaction_fits = refl;
  destination_fits = refl;
}

sample_header_len : (type n : ℕ) → header_encoded_len (with_data_len (sample_header type) n) ≡ 11
unfolding header_encoded_len header_lengths_are_valid encoded_int_len_is_valid
sample_header_len type n = refl

abbrev sample_filedata : FiledataPdu
sample_filedata = record { header = sample_header 1; offset = 1000; bytes = 104 ∷ 105 ∷ [] }

sample_filedata-IsFiledata : IsFiledata sample_filedata
sample_filedata-IsFiledata = record {
  header_fits = sample_header-CanCarry 1 6 (omega arith) (omega arith);
  type_is_file_data = refl;
  no_metadata = refl;
  offset_fits = omega arith;
  bytes_present = omega arith;
}

decode_filedata-encode_filedata_example :
    (stored : List ℕ) × (encode_filedata sample_filedata 20 ≡ done stored)
    × (decode_filedata (stored ++ (9 ∷ []))
        ≡ done (
          record sample_filedata { header = filedata_header sample_filedata },
          header_encoded_len (filedata_header sample_filedata) + 6,
        ))
decode_filedata-encode_filedata_example =
    decode_filedata-encode_filedata sample_filedata 20 (9 ∷ []) sample_filedata-IsFiledata
      (omega (arith, sample_header_len 1 6))

abbrev sample_eof : EofPdu
sample_eof = record {
  header = sample_header 0;
  condition_code = 5;
  file_checksum = 0xdeadbeef;
  file_size = 1002;
}

sample_eof-IsEof : IsEof sample_eof
sample_eof-IsEof = record {
  header_fits = sample_header-CanCarry 0 10 (omega arith) (omega arith);
  type_is_directive = refl;
  no_metadata = refl;
  condition_fits = omega arith;
  checksum_fits = omega arith;
  file_size_fits = omega arith;
}

decode_eof-encode_eof_example :
    (stored : List ℕ) × (encode_eof sample_eof 21 ≡ done stored)
    × (decode_eof (stored ++ [])
        ≡ done (
          record sample_eof { header = eof_header sample_eof },
          header_encoded_len (eof_header sample_eof) + 10,
        ))
decode_eof-encode_eof_example =
    decode_eof-encode_eof sample_eof 21 [] sample_eof-IsEof (omega (arith, sample_header_len 0 10))

abbrev sample_finished : FinishedPdu
sample_finished = record {
  header = sample_header 0;
  condition_code = 5;
  delivery_code = 1;
  file_status = 2;
}

sample_finished-IsFinished : IsFinished sample_finished
sample_finished-IsFinished = record {
  header_fits = sample_header-CanCarry 0 2 (omega arith) (omega arith);
  type_is_directive = refl;
  no_metadata = refl;
  condition_fits = omega arith;
  delivery_fits = omega arith;
  status_fits = omega arith;
}

decode_finished-encode_finished_example :
    (stored : List ℕ) × (encode_finished sample_finished 13 ≡ done stored)
    × (decode_finished (stored ++ [])
        ≡ done (
          record sample_finished { header = finished_header sample_finished },
          header_encoded_len (finished_header sample_finished) + 2,
        ))
decode_finished-encode_finished_example =
    decode_finished-encode_finished sample_finished 13 [] sample_finished-IsFinished
      (omega (arith, sample_header_len 0 2))

abbrev sample_ack : AckPdu
sample_ack = record {
  header = sample_header 0;
  acknowledged_directive = 5;
  directive_subtype = 1;
  condition_code = 0;
  transaction_status = 2;
}

sample_ack-IsAck : IsAck sample_ack
unfolding ack_directive_is_supported ack_subtype_is_valid
sample_ack-IsAck = record {
  header_fits = sample_header-CanCarry 0 3 (omega arith) (omega arith);
  type_is_directive = refl;
  no_metadata = refl;
  directive_supported = refl;
  subtype_valid = refl;
  condition_fits = omega arith;
  status_fits = omega arith;
}

decode_ack-encode_ack_example :
    (stored : List ℕ) × (encode_ack sample_ack 14 ≡ done stored)
    × (decode_ack (stored ++ [])
        ≡ done (
          record sample_ack { header = ack_header sample_ack },
          header_encoded_len (ack_header sample_ack) + 3,
        ))
decode_ack-encode_ack_example =
    decode_ack-encode_ack sample_ack 14 [] sample_ack-IsAck (omega (arith, sample_header_len 0 3))

abbrev sample_nak : NakPdu
sample_nak = record {
  header = sample_header 0;
  scope_start = 0;
  scope_end = 1000;
  ranges = record { start = 10; stop = 20 } ∷ record { start = 500; stop = 1000 } ∷ [];
}

sample_nak-IsNak : IsNak sample_nak
unfolding nak_ranges_are_valid ranges_in_scope
sample_nak-IsNak = record {
  header_fits = sample_header-CanCarry 0 25 (omega arith) (omega arith);
  type_is_directive = refl;
  no_metadata = refl;
  start_fits = omega arith;
  end_fits = omega arith;
  words = ((omega arith, omega arith), ((omega arith, omega arith), tt));
  ranges_valid = refl;
}

decode_nak-encode_nak_example :
    (stored : List ℕ) × (encode_nak sample_nak 36 ≡ done stored)
    × (decode_nak (stored ++ [])
        ≡ done (
          record sample_nak { header = nak_header sample_nak },
          header_encoded_len (nak_header sample_nak) + 25,
        ))
decode_nak-encode_nak_example =
    decode_nak-encode_nak sample_nak 36 [] sample_nak-IsNak (omega (arith, sample_header_len 0 25))

abbrev sample_metadata : MetadataPdu
sample_metadata = record {
  header = sample_header 0;
  closure_requested = true;
  checksum_type = crc32c;
  file_size = 1002;
  source_filename = 97 ∷ 46 ∷ 98 ∷ [];
  destination_filename = 99 ∷ [];
}

sample_metadata-IsMetadata : IsMetadata sample_metadata
unfolding checksum_type_is_supported filename_len_is_valid
sample_metadata-IsMetadata = record {
  header_fits = sample_header-CanCarry 0 12 (omega arith) (omega arith);
  type_is_directive = refl;
  no_metadata = refl;
  checksum_supported = refl;
  file_size_fits = omega arith;
  source_valid = refl;
  destination_valid = refl;
}

decode_metadata-encode_metadata_example :
    (stored : List ℕ) × (encode_metadata sample_metadata 23 ≡ done stored)
    × (decode_metadata (stored ++ [])
        ≡ done (
          record sample_metadata {
            header = metadata_header sample_metadata;
            closure_requested = stored_closure sample_metadata;
          },
          header_encoded_len (metadata_header sample_metadata) + 12,
        ))
decode_metadata-encode_metadata_example =
    decode_metadata-encode_metadata sample_metadata 23 [] sample_metadata-IsMetadata
      (omega (arith, sample_header_len 0 12))
