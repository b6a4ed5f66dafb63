-- ===== src/Cfdp/Pdu/MetadataRoundTrip.antt =====
-- `ccsds_cfdp_decode_metadata` undoes `ccsds_cfdp_encode_metadata`.
use akira_ccsds.Base.{ℕ, ◌+◌, ◌-◌, ◌%◌, ◌^◌, ◌≤◌, ◌<◌}
use akira_ccsds.Base.{◌≡◌, refl, sym, ap, ◌∙◌, arith}
use akira_ccsds.Base.{Bool, true, false, ◌&&◌, not, List, [], ◌∷◌, ◌++◌, append_assoc}
use akira_ccsds.Base.{ltb, ◌==◌, if◌then◌else◌, ge→ltb}
use akira_ccsds.Base.{length, drop, length-append, drop-append}
use akira_ccsds.Base.{shr, low_bits, test_bit}
use akira_ccsds.Base.Fields.{bit_or_fields}
use akira_ccsds.Cfdp.{done}
use akira_ccsds.Cfdp.{ChecksumType, modular, crc32c, ieee_802_3_fcs, null, unknown}
use akira_ccsds.Cfdp.Checksum.{checksum_type_is_supported}
use akira_ccsds.Cfdp.Pdu.{pdu_type_file_directive}
use akira_ccsds.Cfdp.Pdu.{transmission_mode_acknowledged, PduHeader, encoded_int_len_is_valid}
use akira_ccsds.Cfdp.Pdu.{
  value_fits_len, write_be_uint, read_be_uint, header_encoded_len, header_bytes,
}
use akira_ccsds.Cfdp.Pdu.{with_data_len}
use akira_ccsds.Cfdp.Pdu.Header.{length-header_bytes, encode_header-header_bytes}
use akira_ccsds.Cfdp.Pdu.Numbers.{length-write_be_uint, read_be_uint-write_be_uint}
use akira_ccsds.Cfdp.Pdu.DataField.{CanCarry, on_data_field_lem}
use akira_ccsds.Cfdp.Pdu.Fields.{lv_write_lem, lv_read_lem}
use akira_ccsds.Cfdp.Pdu.Metadata.{
  directive_metadata, metadata_min_data_len, MetadataPdu, checksum_code, checksum_type_of,
  filename_len_is_valid, metadata_control,
}
use akira_ccsds.Cfdp.Pdu.Metadata.{
  put_metadata, encode_metadata, read_options, read_destination, read_filenames, read_metadata,
  decode_metadata,
}

abbrev pub metadata_data_len : MetadataPdu → ℕ
metadata_data_len p =
    metadata_min_data_len + length p.source_filename + length p.destination_filename

abbrev pub metadata_header : MetadataPdu → PduHeader
metadata_header p = with_data_len p.header (metadata_data_len p)

-- A Metadata PDU that `encode_metadata` accepts, given room.
pub record IsMetadata (p : MetadataPdu) : Type 0 where
  pub header_fits : CanCarry p.header (metadata_data_len p)
  pub type_is_directive : p.header.pdu_type ≡ pdu_type_file_directive
  pub no_metadata : p.header.segment_metadata_present ≡ false
  pub checksum_supported : checksum_type_is_supported p.checksum_type ≡ true
  pub file_size_fits : p.file_size < 2 ^ 32
  pub source_valid : filename_len_is_valid p.source_filename ≡ true
  pub destination_valid : filename_len_is_valid p.destination_filename ≡ true

checksum_type_of-checksum_code :
    (type : ChecksumType)
    → checksum_type_is_supported type ≡ true
    → checksum_type_of (checksum_code type % 16) ≡ type
unfolding checksum_type_is_supported checksum_type_of checksum_code
checksum_type_of-checksum_code modular h = refl
checksum_type_of-checksum_code crc32c h = refl
checksum_type_of-checksum_code ieee_802_3_fcs h = refl
checksum_type_of-checksum_code null h = refl
checksum_type_of-checksum_code (unknown n) h = cc

-- The closure bit that is stored: none in acknowledged mode.
abbrev pub stored_closure : MetadataPdu → Bool
stored_closure p =
    p.closure_requested && not (p.header.transmission_mode == transmission_mode_acknowledged)

control-sum :
    (p : MetadataPdu)
    → metadata_control p ≡ (if stored_closure p then 64 else 0) + checksum_code p.checksum_type % 16
unfolding metadata_control
control-sum p = ground (
  arith,
  bit_or_fields 6 0 (checksum_code p.checksum_type % 16),
  bit_or_fields 6 1 (checksum_code p.checksum_type % 16),
)

control_bits :
    (p : MetadataPdu)
    → (test_bit (metadata_control p) 7 ≡ false)
      × (low_bits (shr (metadata_control p) 4) 2 ≡ 0)
      × (low_bits (metadata_control p) 4 ≡ checksum_code p.checksum_type % 16)
      × (test_bit (metadata_control p) 6 ≡ stored_closure p)
control_bits p = ground (arith, control-sum p)

file_size_read :
    (value : ℕ) (rest : List ℕ)
    → value < 2 ^ 32
    → read_be_uint (write_be_uint 4 value ++ rest) 4 ≡ value
unfolding encoded_int_len_is_valid value_fits_len
file_size_read value rest small = read_be_uint-write_be_uint 4 value rest refl (ground arith)

-- The file names, read where they stand behind six bytes.
module _ (p : MetadataPdu) (source destination six rest : List ℕ) (header_len : ℕ) where
  abbrev names : List ℕ
  names = six ++ (length source ∷ (source ++ (length destination ∷ (destination ++ rest))))

  second_name :
      length six ≡ 6
      → drop (6 + (1 + length source)) names ≡ length destination ∷ (destination ++ rest)
  second_name e =
      ap (drop (6 + (1 + length source))) (
        sym
          (append_assoc six (length source ∷ source) (length destination ∷ (destination ++ rest))))
      ∙ drop-append (six ++ (length source ∷ source)) (length destination ∷ (destination ++ rest))
          (6 + (1 + length source)) (omega (arith, length-append six (length source ∷ source)))

  read_filenames_lem :
      length six ≡ 6
      → filename_len_is_valid source ≡ true
      → filename_len_is_valid destination ≡ true
      → read_filenames p header_len (8 + length source + length destination) names 6
        ≡ done (
          record p { source_filename = source; destination_filename = destination },
          header_len + (8 + length source + length destination),
        )
  unfolding read_filenames read_destination read_options
  read_filenames_lem e sv dv =
      rw
        (
          drop-append six (length source ∷ (source ++ (length destination ∷ (destination ++ rest))))
              6 (sym e),
          lv_read_lem source (length destination ∷ (destination ++ rest))
              (8 + length source + length destination - 6) (omega arith),
          sv,
          second_name e,
          lv_read_lem destination rest
              (8 + length source + length destination - (6 + (1 + length source))) (omega arith),
          dv,
        )
        (ground arith)

-- The data field that `encode_metadata` stores.
module _ (p : MetadataPdu) (w : IsMetadata p) where
  abbrev fixed_part : List ℕ
  fixed_part = (directive_metadata ∷ metadata_control p ∷ []) ++ write_be_uint 4 p.file_size

  abbrev names_part : List ℕ
  names_part =
      (length p.source_filename ∷ p.source_filename)
      ++ (length p.destination_filename ∷ p.destination_filename)

  length-fixed_part : length fixed_part ≡ 6
  unfolding encoded_int_len_is_valid
  length-fixed_part = omega (arith, length-write_be_uint 4 p.file_size refl)

  length-names_part :
      length names_part ≡ 2 + length p.source_filename + length p.destination_filename
  length-names_part = omega (
    arith,
    length-append (length p.source_filename ∷ p.source_filename)
        (length p.destination_filename ∷ p.destination_filename),
  )

  put_metadata_lem :
      (cap : ℕ) (head : List ℕ)
      → length head + metadata_data_len p ≤ cap
      → put_metadata p cap head ≡ done (head ++ (fixed_part ++ names_part))
  unfolding put_metadata
  put_metadata_lem cap head room =
      let whole : length (head ++ fixed_part) ≡ length head + 6 =
        omega (arith, length-append head fixed_part, length-fixed_part) in
      rw
        (
          lv_write_lem p.source_filename (cap - length (head ++ fixed_part)) (omega arith),
          lv_write_lem p.destination_filename
              (cap
                - (length (head ++ fixed_part)
                    + length (length p.source_filename ∷ p.source_filename)))
              (omega arith),
        )
        (ap done (append_assoc head fixed_part names_part))

  field_whole :
      (rest : List ℕ)
      → ltb (length ((fixed_part ++ names_part) ++ rest)) (metadata_data_len p) ≡ false
  field_whole rest = ge→ltb (length ((fixed_part ++ names_part) ++ rest)) (metadata_data_len p) (
      omega (
        arith,
        length-append (fixed_part ++ names_part) rest,
        length-append fixed_part names_part,
        length-fixed_part,
        length-names_part,
      ))

  read_metadata_lem :
      (rest : List ℕ) (header_len : ℕ)
      → read_metadata (metadata_header p) header_len ((fixed_part ++ names_part) ++ rest)
        ≡ done (
          record p { header = metadata_header p; closure_requested = stored_closure p },
          header_len + metadata_data_len p,
        )
  unfolding read_metadata
  read_metadata_lem rest header_len =
      let bits = control_bits p in
      let found =
        read_filenames_lem
          (record p {
            header = metadata_header p;
            closure_requested = stored_closure p;
            source_filename = [];
            destination_filename = [];
          })
          p.source_filename p.destination_filename fixed_part rest header_len length-fixed_part
          w.source_valid w.destination_valid in
      rw
        (
          field_whole rest,
          append_assoc fixed_part names_part rest,
          append_assoc (length p.source_filename ∷ p.source_filename)
              (length p.destination_filename ∷ p.destination_filename) rest,
          bits.0,
          bits.1,
          bits.2,
          bits.3,
          checksum_type_of-checksum_code p.checksum_type w.checksum_supported,
          w.checksum_supported,
          file_size_read p.file_size
              (length p.source_filename
                ∷ (p.source_filename
                    ++ (length p.destination_filename ∷ (p.destination_filename ++ rest))))
              w.file_size_fits,
          found,
        )
        (ground (arith, w, w.header_fits))

-- Decoding what `encode_metadata` stored, with any bytes behind it, gives the PDU, its header with
-- the derived data field length, and the number of bytes stored, where the closure request is lost
-- in acknowledged mode: for a PDU that fits, and a buffer with room for it.
pub decode_metadata-encode_metadata :
    (p : MetadataPdu) (cap : ℕ) (rest : List ℕ)
    → IsMetadata p
    → header_encoded_len (metadata_header p) + metadata_data_len p ≤ cap
    → (stored : List ℕ) × (encode_metadata p cap ≡ done stored)
      × (decode_metadata (stored ++ rest)
          ≡ done (
            record p { header = metadata_header p; closure_requested = stored_closure p },
            header_encoded_len (metadata_header p) + metadata_data_len p,
          ))
unfolding encode_metadata decode_metadata
decode_metadata-encode_metadata p cap rest w room =
    let n = metadata_data_len p in
    let head = header_bytes (metadata_header p) in
    let whole : length head ≡ header_encoded_len (metadata_header p) =
      length-header_bytes (metadata_header p) w.header_fits [] in
    (
      head ++ (fixed_part p w ++ names_part p w),
      rw (encode_header-header_bytes (metadata_header p) cap w.header_fits (omega arith))
          (ground (arith, w, w.header_fits, whole, put_metadata_lem p w cap head)),
      on_data_field_lem p.header n w.header_fits (fixed_part p w ++ names_part p w) read_metadata
            rest
          ∙ read_metadata_lem p w rest (header_encoded_len (metadata_header p)),
    )
