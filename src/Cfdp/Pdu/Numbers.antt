-- ===== src/Cfdp/Pdu/Numbers.antt =====
-- The parts of the fixed header: the numbers of one to four bytes, and the two bytes of bit fields.
use akira_ccsds.Base.{ℕ, zero, suc, ◌+◌, ◌-◌, ◌*◌, ◌%◌, ◌≤◌}
use akira_ccsds.Base.{◌≡◌, refl, sym, ap, ◌∙◌, arith}
use akira_ccsds.Base.{Bool, true, List, [], ◌∷◌, ◌++◌, append_assoc}
use akira_ccsds.Base.{if◌then◌else◌}
use akira_ccsds.Base.{length, take, drop, length-append, drop-append}
use akira_ccsds.Base.{AllBytes}
use akira_ccsds.Base.Fields.{bit_or_fields}
use native.Mathlib.Numerals.{unary_clauses}
use akira_ccsds.Cfdp.Pdu.{PduHeader, encoded_int_len_is_valid}
use akira_ccsds.Cfdp.Pdu.{value_fits_len, write_be_uint, read_be_uint, header_byte0, header_byte3}

pub length-write_be_uint :
    (len value : ℕ) → encoded_int_len_is_valid len 4 ≡ true → length (write_be_uint len value) ≡ len
unfolding write_be_uint encoded_int_len_is_valid
length-write_be_uint zero value h = ground arith
length-write_be_uint (suc zero) value h = refl
length-write_be_uint (suc (suc zero)) value h = refl
length-write_be_uint (suc (suc (suc zero))) value h = refl
length-write_be_uint (suc (suc (suc (suc zero)))) value h = refl
length-write_be_uint (suc (suc (suc (suc (suc len))))) value h = ground arith

-- A number read from the bytes that it was written to, of a valid length that it fits.
pub read_be_uint-write_be_uint :
    (len value : ℕ) (rest : List ℕ)
    → encoded_int_len_is_valid len 4 ≡ true
    → value_fits_len value len ≡ true
    → read_be_uint (write_be_uint len value ++ rest) len ≡ value
unfolding write_be_uint read_be_uint encoded_int_len_is_valid value_fits_len
read_be_uint-write_be_uint zero value rest h f = ground arith
read_be_uint-write_be_uint (suc zero) value rest h f = ground arith
read_be_uint-write_be_uint (suc (suc zero)) value rest h f = ground arith
read_be_uint-write_be_uint (suc (suc (suc zero))) value rest h f = ground arith
read_be_uint-write_be_uint (suc (suc (suc (suc zero)))) value rest h f = ground arith
read_be_uint-write_be_uint (suc (suc (suc (suc (suc len))))) value rest h f = ground arith

abbrev pub flag : Bool → ℕ
flag b = if b then 1 else 0

pub byte0-sum :
    (h : PduHeader)
    → header_byte0 h
      ≡ h.version % 8 * 32
        + (h.pdu_type % 2 * 16
            + (h.direction % 2 * 8
                + (h.transmission_mode % 2 * 4 + (h.crc_flag % 2 * 2 + h.file_size_mode % 2))))
unfolding header_byte0
byte0-sum h =
    let low1 = h.crc_flag % 2 * 2 + h.file_size_mode % 2 in
    let low2 = h.transmission_mode % 2 * 4 + low1 in
    let low3 = h.direction % 2 * 8 + low2 in
    ground (
      arith,
      bit_or_fields 1 (h.crc_flag % 2) (h.file_size_mode % 2),
      bit_or_fields 2 (h.transmission_mode % 2) low1,
      bit_or_fields 3 (h.direction % 2) low2,
      bit_or_fields 4 (h.pdu_type % 2) low3,
      bit_or_fields 5 (h.version % 8) (h.pdu_type % 2 * 16 + low3),
    )

pub byte3-sum :
    (h : PduHeader)
    → header_byte3 h
      ≡ h.segmentation_control % 2 * 128
        + ((h.entity_id_len - 1) % 8 * 16
            + (flag h.segment_metadata_present * 8 + (h.transaction_sequence_number_len - 1) % 8))
unfolding header_byte3
byte3-sum h =
    let low = (h.transaction_sequence_number_len - 1) % 8 in
    let low3 = flag h.segment_metadata_present * 8 + low in
    ground (
      arith,
      bit_or_fields 3 0 low,
      bit_or_fields 3 1 low,
      bit_or_fields 4 ((h.entity_id_len - 1) % 8) low3,
      bit_or_fields 7 (h.segmentation_control % 2) ((h.entity_id_len - 1) % 8 * 16 + low3),
    )

-- The three numbers behind the first four bytes, each found at its place.
module _ (e t : ℕ) (xs ys zs rest : List ℕ) where
  pub second_number : length xs ≡ e → drop e ((xs ++ ys ++ zs) ++ rest) ≡ ys ++ (zs ++ rest)
  second_number le =
      ap (drop e) (append_assoc (xs ++ ys) zs rest ∙ append_assoc xs ys (zs ++ rest))
      ∙ drop-append xs (ys ++ (zs ++ rest)) e (sym le)

  pub third_number :
      length xs ≡ e → length ys ≡ t → drop (e + t) ((xs ++ ys ++ zs) ++ rest) ≡ zs ++ rest
  third_number le lt =
      ap (drop (e + t)) (append_assoc (xs ++ ys) zs rest)
      ∙ drop-append (xs ++ ys) (zs ++ rest) (e + t) (omega (arith, length-append xs ys))

module _ (a b c d : ℕ) (tail : List ℕ) where
  pub drop_four : (n : ℕ) → drop (4 + n) (a ∷ b ∷ c ∷ d ∷ tail) ≡ drop n tail
  drop_four n =
      let four : 4 + n ≡ suc (suc (suc (suc n))) = omega arith in
      ap (λ k. drop k (a ∷ b ∷ c ∷ d ∷ tail)) four

  pub drop_four_two : (n m : ℕ) → drop (4 + n + m) (a ∷ b ∷ c ∷ d ∷ tail) ≡ drop (n + m) tail
  drop_four_two n m =
      let four : 4 + n + m ≡ 4 + (n + m) = omega arith in
      ap (λ k. drop k (a ∷ b ∷ c ∷ d ∷ tail)) four ∙ drop_four (n + m)

-- A number of one to four bytes fits its length, and is written back as it stood.
pub number_accepted :
    (len : ℕ) (buf : List ℕ)
    → encoded_int_len_is_valid len 4 ≡ true
    → AllBytes buf
    → len ≤ length buf
    → (value_fits_len (read_be_uint buf len) len ≡ true)
      × (write_be_uint len (read_be_uint buf len) ≡ take len buf)
unfolding write_be_uint read_be_uint encoded_int_len_is_valid value_fits_len
number_accepted zero buf v b h = ground arith
number_accepted (suc zero) [] v b h = absurd (omega arith)
number_accepted (suc zero) (a ∷ buf) v b h = (ground arith, ground arith)
number_accepted (suc (suc zero)) [] v b h = absurd (omega arith)
number_accepted (suc (suc zero)) (a ∷ []) v b h = absurd (omega arith)
number_accepted (suc (suc zero)) (a ∷ a1 ∷ buf) v b h = (ground arith, ground arith)
number_accepted (suc (suc (suc zero))) [] v b h = absurd (omega arith)
number_accepted (suc (suc (suc zero))) (a ∷ []) v b h = absurd (omega arith)
number_accepted (suc (suc (suc zero))) (a ∷ a1 ∷ []) v b h = absurd (omega arith)
number_accepted (suc (suc (suc zero))) (a ∷ a1 ∷ a2 ∷ buf) v b h = (ground arith, ground arith)
number_accepted (suc (suc (suc (suc zero)))) [] v b h = absurd (omega arith)
number_accepted (suc (suc (suc (suc zero)))) (a ∷ []) v b h = absurd (omega arith)
number_accepted (suc (suc (suc (suc zero)))) (a ∷ a1 ∷ []) v b h = absurd (omega arith)
number_accepted (suc (suc (suc (suc zero)))) (a ∷ a1 ∷ a2 ∷ []) v b h = absurd (omega arith)
number_accepted (suc (suc (suc (suc zero)))) (a ∷ a1 ∷ a2 ∷ a3 ∷ buf) v b h =
    (ground arith, ground arith)
number_accepted (suc (suc (suc (suc (suc len))))) buf v b h = ground arith

pub take-sum : (n m : ℕ) (xs : List ℕ) → take (n + m) xs ≡ take n xs ++ take m (drop n xs)
take-sum zero m xs = let none_first : 0 + m ≡ m = omega arith in ap (λ k. take k xs) none_first
take-sum (suc n) zero [] = simp unary_clauses refl
take-sum (suc n) (suc m) [] = simp unary_clauses refl
take-sum (suc n) m (x ∷ xs) =
    let one_more : suc n + m ≡ suc (n + m) = omega arith in
    ap (λ k. take k (x ∷ xs)) one_more ∙ ap (λ t. x ∷ t) (take-sum n m xs)

pub drop-sum : (n m : ℕ) (xs : List ℕ) → drop (n + m) xs ≡ drop m (drop n xs)
drop-sum zero m xs = let none_first : 0 + m ≡ m = omega arith in ap (λ k. drop k xs) none_first
drop-sum (suc n) zero [] = simp unary_clauses refl
drop-sum (suc n) (suc m) [] = simp unary_clauses refl
drop-sum (suc n) m (x ∷ xs) =
    let one_more : suc n + m ≡ suc (n + m) = omega arith in
    ap (λ k. drop k (x ∷ xs)) one_more ∙ drop-sum n m xs
