-- ===== src/Cfdp/Pdu/MetadataChecked.antt =====
-- What `ccsds_cfdp_decode_metadata` has checked when it accepts.
use akira_ccsds.Base.{ℕ, ◌+◌, ◌-◌, ◌≤◌}
use akira_ccsds.Base.{◌≡◌, refl, sym, ap, ◌∙◌, ◌≢◌, arith}
use akira_ccsds.Base.{Bool, true, false, not, List, []}
use akira_ccsds.Base.{if◌then◌else◌}
use akira_ccsds.Base.{length, drop, length-take, length-drop}
use akira_ccsds.Base.{AllBytes, low_bits, test_bit, byte_at}
use akira_ccsds.Cfdp.{Status, invalid_argument, unsupported}
use akira_ccsds.Cfdp.{Outcome, done}
use akira_ccsds.Cfdp.{fail, ◌>>=◌}
use akira_ccsds.Cfdp.{>>=-eq-done}
use akira_ccsds.Cfdp.Checksum.{checksum_type_is_supported}
use akira_ccsds.Cfdp.Pdu.{PduHeader}
use akira_ccsds.Cfdp.Pdu.{read_be_uint, header_encoded_len}
use akira_ccsds.Cfdp.Pdu.DataField.{on_data_field-eq-done}
use akira_ccsds.Cfdp.Pdu.Accepted.{decode_header-IsWellFormed}
use akira_ccsds.Cfdp.Pdu.Fields.{lv_read, tlv_read}
use akira_ccsds.Cfdp.Pdu.Metadata.{
  metadata_min_data_len, MetadataPdu, checksum_type_of, filename_len_is_valid,
}
use akira_ccsds.Cfdp.Pdu.Metadata.{
  read_options, read_destination, read_filenames, read_metadata, decode_metadata,
}

lv_read_checked :
    (buf : List ℕ) (len : ℕ) {value : List ℕ} {consumed : ℕ}
    → len ≤ length buf
    → lv_read buf len ≡ done (value, consumed)
    → (consumed ≡ 1 + length value) × (consumed ≤ len)
unfolding lv_read
lv_read_checked buf len {value} {consumed} h e =
    ground (arith, length-take (byte_at buf 0) (drop 1 buf), length-drop 1 buf)

never_done {ℓ κ} :
    {A : Type ℓ} {B : Type κ} (m : Outcome A) (s : Status) (b : B) → (m >>= (λ a. fail s)) ≢ done b
never_done (done a) s b h = cc
never_done (fail t) s b h = cc

if_not-eq-done {ℓ} :
    {A : Type ℓ} (b : Bool) (s : Status) (m : Outcome A) {a : A}
    → (if not b then fail s else m) ≡ done a
    → (b ≡ true) × (m ≡ done a)
if_not-eq-done true s m e = (refl, e)
if_not-eq-done false s m e = cc

module _ (p : MetadataPdu) (header_len data_len : ℕ) (field : List ℕ)
    (fits : data_len ≤ length field) where
  read_options_checked :
      (offset : ℕ) {q : MetadataPdu} {n : ℕ}
      → read_options p header_len data_len field offset ≡ done (q, n)
      → (q ≡ p) × (n ≡ header_len + data_len) × (data_len ≤ offset)
  unfolding read_options
  read_options_checked offset {q} {n} e =
      let option = tlv_read (drop offset field) (data_len - offset) in
      ground (arith, never_done {B = MetadataPdu × ℕ} option unsupported (q, n))

-- The length-value field at `offset` that a reader starts with, when it goes on with `next`.
module _ (data_len : ℕ) (field : List ℕ) (fits : data_len ≤ length field) (offset : ℕ) where
  read_name_checked :
      (next : List ℕ → ℕ → Outcome (MetadataPdu × ℕ)) {q : MetadataPdu} {n : ℕ}
      → offset ≤ data_len
      → (lv_read (drop offset field) (data_len - offset) >>= (λ name.
          if not (filename_len_is_valid name.0)
          then fail invalid_argument
          else next name.0 (offset + name.1)))
        ≡ done (q, n)
      → (name : List ℕ) × (filename_len_is_valid name ≡ true)
        × (offset + (1 + length name) ≤ data_len)
        × (next name (offset + (1 + length name)) ≡ done (q, n))
  read_name_checked next inside e =
      let found =
        >>=-eq-done (lv_read (drop offset field) (data_len - offset))
          (λ name.
            if not (filename_len_is_valid name.0)
            then fail invalid_argument
            else next name.0 (offset + name.1))
          e in
      let name = found.0.0 in
      let went_on =
        if_not-eq-done (filename_len_is_valid name) invalid_argument
          (next name (offset + found.0.1)) found.2 in
      let sized =
        lv_read_checked (drop offset field) (data_len - offset)
          (omega (arith, length-drop offset field)) found.1 in
      (
        name,
        went_on.0,
        omega (arith, sized),
        ap (λ (k : ℕ). next name (offset + k)) (sym sized.0) ∙ went_on.1,
      )

-- What is known of a Metadata PDU when the file names are read from `offset` on.
record IsNamed (p q : MetadataPdu) (header_len data_len offset n : ℕ) : Type 0 where
  names_fill : data_len ≡ offset + (2 + length q.source_filename + length q.destination_filename)
  consumed_is : n ≡ header_len + data_len
  source_valid : filename_len_is_valid q.source_filename ≡ true
  destination_valid : filename_len_is_valid q.destination_filename ≡ true
  checksum_kept : q.checksum_type ≡ p.checksum_type
  header_kept : q.header ≡ p.header

module _ (p : MetadataPdu) (header_len data_len : ℕ) (field : List ℕ)
    (fits : data_len ≤ length field) where
  read_filenames-IsNamed :
      (offset : ℕ) {q : MetadataPdu} {n : ℕ}
      → offset ≤ data_len
      → read_filenames p header_len data_len field offset ≡ done (q, n)
      → IsNamed p q header_len data_len offset n
  unfolding read_filenames read_destination
  read_filenames-IsNamed offset {q} {n} inside e =
      let first =
        read_name_checked data_len field fits offset
          (λ name. read_destination (record p { source_filename = name }) header_len data_len field)
          inside e in
      let named : MetadataPdu = record p { source_filename = first.0 } in
      let second =
        read_name_checked data_len field fits (offset + (1 + length first.0))
          (λ name.
            read_options (record named { destination_filename = name }) header_len data_len field)
          first.2 first.3 in
      let last =
        read_options_checked (record named { destination_filename = second.0 }) header_len data_len
          field fits (offset + (1 + length first.0) + (1 + length second.0)) second.3 in
      let source_is : q.source_filename ≡ first.0 =
        ap (λ (t : MetadataPdu). t.source_filename) last.0 in
      let destination_is : q.destination_filename ≡ second.0 =
        ap (λ (t : MetadataPdu). t.destination_filename) last.0 in
      record {
        names_fill = omega (arith, last.2, second.2, ap length source_is, ap length destination_is);
        consumed_is = last.1;
        source_valid = ap filename_len_is_valid source_is ∙ first.1;
        destination_valid = ap filename_len_is_valid destination_is ∙ second.1;
        checksum_kept = ap (λ (t : MetadataPdu). t.checksum_type) last.0;
        header_kept = ap (λ (t : MetadataPdu). t.header) last.0;
      }

-- What `read_metadata` passes to `read_filenames`.
abbrev announced : PduHeader → List ℕ → MetadataPdu
announced h field = record {
  header = h;
  closure_requested = test_bit (byte_at field 1) 6;
  checksum_type = checksum_type_of (low_bits (byte_at field 1) 4);
  file_size = read_be_uint (drop 2 field) 4;
  source_filename = [];
  destination_filename = [];
}

read_metadata_checked :
    (h : PduHeader) (header_len : ℕ) (field : List ℕ) {q : MetadataPdu} {n : ℕ}
    → read_metadata h header_len field ≡ done (q, n)
    → (8 ≤ h.pdu_data_field_len)
      × (h.pdu_data_field_len ≤ length field)
      × (checksum_type_is_supported (announced h field).checksum_type ≡ true)
      × (read_filenames (announced h field) header_len h.pdu_data_field_len field 6 ≡ done (q, n))
unfolding read_metadata
read_metadata_checked h header_len field {q} {n} e = ground arith

-- A Metadata PDU that `decode_metadata` accepts has a supported checksum type and two file names
-- of 1 to 64 bytes, and nothing behind them: the bytes consumed are the header, the eight fixed
-- bytes and the names, all of them in the buffer.
pub decode_metadata_exact :
    (buf : List ℕ) {q : MetadataPdu} {n : ℕ}
    → AllBytes buf
    → decode_metadata buf ≡ done (q, n)
    → (checksum_type_is_supported q.checksum_type ≡ true)
      × (filename_len_is_valid q.source_filename ≡ true)
      × (filename_len_is_valid q.destination_filename ≡ true)
      × (n
          ≡ header_encoded_len q.header
            + (metadata_min_data_len + length q.source_filename + length q.destination_filename))
      × (n ≤ length buf)
unfolding decode_metadata
decode_metadata_exact buf {q} {n} b e =
    let found = on_data_field-eq-done read_metadata buf e in
    let h = found.0 in
    let header_len = found.1 in
    let field = drop header_len buf in
    let decoded = decode_header-IsWellFormed buf b found.2 in
    let checked = read_metadata_checked h header_len field found.3 in
    let named =
      read_filenames-IsNamed (announced h field) header_len h.pdu_data_field_len field checked.1 6
        (omega (arith, checked.0)) checked.3 in
    let header_is : header_encoded_len q.header ≡ header_encoded_len h =
      ap header_encoded_len named.header_kept in
    (
      ap checksum_type_is_supported named.checksum_kept ∙ checked.2,
      named.source_valid,
      named.destination_valid,
      omega (arith, named.consumed_is, named.names_fill, decoded.1, header_is),
      omega (arith, named.consumed_is, checked.1, decoded.2, length-drop header_len buf),
    )
