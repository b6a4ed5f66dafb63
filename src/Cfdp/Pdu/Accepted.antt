-- ===== src/Cfdp/Pdu/Accepted.antt =====
-- What `ccsds_cfdp_decode_header` accepts, and that `ccsds_cfdp_encode_header` writes it back.
use akira_ccsds.Base.{ℕ, suc, ◌+◌, ◌*◌, ◌≤◌}
use akira_ccsds.Base.{◌≡◌, refl, sym, ap, ap₂, ◌∙◌, arith}
use akira_ccsds.Base.{true, List, [], ◌∷◌, ◌++◌}
use akira_ccsds.Base.{length, take, drop, length-drop, All-drop}
use akira_ccsds.Base.{IsByte, AllBytes, shr, low_bits, byte_at, be16, byte_at-IsByte}
use mathlib.Core.Path.{subst}
use akira_ccsds.Cfdp.{done}
use akira_ccsds.Cfdp.Pdu.{version_1, fixed_header_min_len}
use akira_ccsds.Cfdp.Pdu.{
  file_size_small, PduHeader, encoded_int_len_is_valid, header_lengths_are_valid,
}
use akira_ccsds.Cfdp.Pdu.{
  value_fits_len, write_be_uint, header_encoded_len, header_byte0, header_byte3, header_bytes,
  encode_header,
}
use akira_ccsds.Cfdp.Pdu.{parsed_header, decode_header}
use akira_ccsds.Cfdp.Pdu.Numbers.{byte0-sum, byte3-sum}
use akira_ccsds.Cfdp.Pdu.Numbers.{number_accepted, take-sum, drop-sum}
use akira_ccsds.Cfdp.Pdu.Header.{IsWellFormed, encode_header-header_bytes}

-- The lengths of the numbers, from `buf[3]`, and the length of the header.
abbrev entity_len : List ℕ → ℕ
entity_len buf = low_bits (shr (byte_at buf 3) 4) 3 + 1

abbrev transaction_len : List ℕ → ℕ
transaction_len buf = low_bits (byte_at buf 3) 3 + 1

abbrev needed_len : List ℕ → ℕ
needed_len buf = fixed_header_min_len + 2 * entity_len buf + transaction_len buf

-- What a header that `decode_header` accepts is known by.
record IsAccepted (buf : List ℕ) (h : PduHeader) (n : ℕ) : Type 0 where
  version_read : low_bits (shr (byte_at buf 0) 5) 3 ≡ version_1
  small_read : low_bits (byte_at buf 0) 1 ≡ file_size_small
  entity_valid : encoded_int_len_is_valid (entity_len buf) 4 ≡ true
  transaction_valid : encoded_int_len_is_valid (transaction_len buf) 4 ≡ true
  long_enough : needed_len buf ≤ length buf
  header_is : h ≡ parsed_header buf (entity_len buf) (transaction_len buf)
  length_is : n ≡ needed_len buf

decode_header-IsAccepted :
    (buf : List ℕ) {h : PduHeader} {n : ℕ} → decode_header buf ≡ done (h, n) → IsAccepted buf h n
unfolding decode_header
decode_header-IsAccepted buf {h} {n} e = record {
  version_read = ground arith;
  small_read = ground arith;
  entity_valid = ground arith;
  transaction_valid = ground arith;
  long_enough = ground arith;
  header_is = ground arith;
  length_is = ground arith;
}

module _ (buf : List ℕ) (b : AllBytes buf) {h : PduHeader} {n : ℕ}
    (e : decode_header buf ≡ done (h, n)) where
  abbrev accepted : IsAccepted buf h n
  accepted = decode_header-IsAccepted buf e

  abbrev parsed : PduHeader
  parsed = parsed_header buf (entity_len buf) (transaction_len buf)

  lengths_bounded : (entity_len buf ≤ 4) × (transaction_len buf ≤ 4)
  unfolding encoded_int_len_is_valid
  lengths_bounded = ground (arith, accepted.entity_valid, accepted.transaction_valid)

  source_accepted :
      (value_fits_len parsed.source_entity_id (entity_len buf) ≡ true)
      × (write_be_uint (entity_len buf) parsed.source_entity_id
          ≡ take (entity_len buf) (drop 4 buf))
  unfolding parsed_header
  source_accepted =
      number_accepted (entity_len buf) (drop 4 buf) accepted.entity_valid (All-drop IsByte 4 buf b)
        (omega (arith, length-drop 4 buf, accepted.long_enough))

  transaction_accepted :
      (value_fits_len parsed.transaction_sequence_number (transaction_len buf) ≡ true)
      × (write_be_uint (transaction_len buf) parsed.transaction_sequence_number
          ≡ take (transaction_len buf) (drop (4 + entity_len buf) buf))
  unfolding parsed_header
  transaction_accepted =
      number_accepted (transaction_len buf) (drop (4 + entity_len buf) buf)
        accepted.transaction_valid (All-drop IsByte (4 + entity_len buf) buf b)
        (omega (arith, length-drop (4 + entity_len buf) buf, accepted.long_enough))

  destination_accepted :
      (value_fits_len parsed.destination_entity_id (entity_len buf) ≡ true)
      × (write_be_uint (entity_len buf) parsed.destination_entity_id
          ≡ take (entity_len buf) (drop (4 + entity_len buf + transaction_len buf) buf))
  unfolding parsed_header
  destination_accepted =
      number_accepted (entity_len buf) (drop (4 + entity_len buf + transaction_len buf) buf)
        accepted.entity_valid (All-drop IsByte (4 + entity_len buf + transaction_len buf) buf b)
        (omega
          (arith, length-drop (4 + entity_len buf + transaction_len buf) buf, accepted.long_enough))

  parsed-IsWellFormed : IsWellFormed parsed
  unfolding parsed_header header_lengths_are_valid
  parsed-IsWellFormed = record {
    version_known = accepted.version_read;
    pdu_type_fits = omega arith;
    direction_fits = omega arith;
    transmission_mode_fits = omega arith;
    crc_flag_fits = omega arith;
    file_size_is_small = accepted.small_read;
    data_len_fits = omega (arith, byte_at-IsByte buf 1 b, byte_at-IsByte buf 2 b);
    segmentation_fits = omega arith;
    lengths_fit = rw (accepted.entity_valid, accepted.transaction_valid) refl;
    source_fits = source_accepted.0;
    transaction_fits = transaction_accepted.0;
    destination_fits = destination_accepted.0;
  }

  needed_encoded : needed_len buf ≡ header_encoded_len parsed
  unfolding parsed_header header_encoded_len header_lengths_are_valid
  needed_encoded = rw (accepted.entity_valid, accepted.transaction_valid) refl

  -- A header that `decode_header` accepts has all its fields in range, and stands whole in the
  -- buffer.
  pub decode_header-IsWellFormed : IsWellFormed h × (n ≡ header_encoded_len h) × (n ≤ length buf)
  decode_header-IsWellFormed = (
    subst IsWellFormed (sym accepted.header_is) parsed-IsWellFormed,
    accepted.length_is ∙ (needed_encoded ∙ ap header_encoded_len (sym accepted.header_is)),
    omega (arith, accepted.length_is, accepted.long_enough),
  )

  numbers_stand :
      write_be_uint (entity_len buf) parsed.source_entity_id
        ++ write_be_uint (transaction_len buf) parsed.transaction_sequence_number
        ++ write_be_uint (entity_len buf) parsed.destination_entity_id
      ≡ take (2 * entity_len buf + transaction_len buf) (drop 4 buf)
  numbers_stand =
      let e1 = entity_len buf in
      let t1 = transaction_len buf in
      let whole : 2 * e1 + t1 ≡ (e1 + t1) + e1 = omega arith in
      let places : 4 + e1 + t1 ≡ 4 + (e1 + t1) = omega arith in
      rw
        (
          source_accepted.1,
          transaction_accepted.1,
          destination_accepted.1,
          whole,
          places,
          take-sum (e1 + t1) e1 (drop 4 buf),
          take-sum e1 t1 (drop 4 buf),
          drop-sum 4 e1 buf,
          drop-sum 4 (e1 + t1) buf,
        )
        refl

-- The bytes of bit fields as they stood.
first_bytes :
    (a a1 a2 a3 : ℕ) (tail : List ℕ)
    → AllBytes (a ∷ a1 ∷ a2 ∷ a3 ∷ tail)
    → let buf = a ∷ a1 ∷ a2 ∷ a3 ∷ tail in
      let p = parsed_header buf (entity_len buf) (transaction_len buf) in
      (header_byte0 p ≡ a) × (header_byte3 p ≡ a3) × (be16 p.pdu_data_field_len ≡ a1 ∷ a2 ∷ [])
unfolding parsed_header
first_bytes a a1 a2 a3 tail b =
    let buf = a ∷ a1 ∷ a2 ∷ a3 ∷ tail in
    let p = parsed_header buf (entity_len buf) (transaction_len buf) in
    (
      ground (arith, b.0, byte0-sum p),
      ground (arith, b.1.1.1.0, byte3-sum p),
      ground (arith, b.1.0, b.1.1.0),
    )

header_stands :
    (buf : List ℕ) {h : PduHeader} {n : ℕ}
    → AllBytes buf
    → decode_header buf ≡ done (h, n)
    → header_bytes h ≡ take n buf
unfolding header_bytes parsed_header
header_stands [] b e = absurd (omega (arith, (accepted [] b e).long_enough))
header_stands (a ∷ []) b e = absurd (omega (arith, (accepted (a ∷ []) b e).long_enough))
header_stands (a ∷ a1 ∷ []) b e = absurd (omega (arith, (accepted (a ∷ a1 ∷ []) b e).long_enough))
header_stands (a ∷ a1 ∷ a2 ∷ []) b e =
    absurd (omega (arith, (accepted (a ∷ a1 ∷ a2 ∷ []) b e).long_enough))
header_stands (a ∷ a1 ∷ a2 ∷ a3 ∷ tail) {h} {n} b e =
    let buf = a ∷ a1 ∷ a2 ∷ a3 ∷ tail in
    let found = accepted buf b e in
    let bits = first_bytes a a1 a2 a3 tail b in
    let behind = 2 * entity_len buf + transaction_len buf in
    let four : n ≡ suc (suc (suc (suc behind))) = omega (arith, found.length_is) in
    let p = parsed_header buf (entity_len buf) (transaction_len buf) in
    ap header_bytes found.header_is
    ∙ (ap₂ (λ (x : ℕ) (xs : List ℕ). x ∷ xs) bits.0
          (ap₂ (λ (xs ys : List ℕ). xs ++ ys) bits.2
            (ap₂ (λ (x : ℕ) (xs : List ℕ). x ∷ xs) bits.1 (numbers_stand buf b e)))
        ∙ ap (λ k. take k buf) (sym four))

-- Encoding a header that `decode_header` accepts gives the bytes that it was read from.
pub encode_header-decode_header :
    (buf : List ℕ) (cap : ℕ) {h : PduHeader} {n : ℕ}
    → AllBytes buf
    → decode_header buf ≡ done (h, n)
    → n ≤ cap
    → encode_header h cap ≡ done (take n buf)
encode_header-decode_header buf cap {h} b e room =
    let found = decode_header-IsWellFormed buf b e in
    encode_header-header_bytes h cap found.0 (omega (arith, found.1))
    ∙ ap done (header_stands buf b e)
