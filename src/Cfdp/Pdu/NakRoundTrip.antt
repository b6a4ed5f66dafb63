-- ===== src/Cfdp/Pdu/NakRoundTrip.antt =====
-- `ccsds_cfdp_decode_nak` undoes `ccsds_cfdp_encode_nak`, and what it accepts.
use akira_ccsds.Base.{ℕ, ◌+◌, ◌-◌, ◌*◌, ◌/◌, ◌^◌, ◌≤◌, ◌<◌}
use akira_ccsds.Base.{◌≡◌, refl, ◌∙◌, arith}
use akira_ccsds.Base.{true, false, List, [], ◌∷◌, ◌++◌}
use akira_ccsds.Base.{length, All, length-append}
use akira_ccsds.Base.{be32, get_be32}
use akira_ccsds.Cfdp.{done}
use akira_ccsds.Cfdp.Pdu.{pdu_type_file_directive}
use akira_ccsds.Cfdp.Pdu.{PduHeader}
use akira_ccsds.Cfdp.Pdu.{header_encoded_len, header_bytes}
use akira_ccsds.Cfdp.Pdu.{with_data_len}
use akira_ccsds.Cfdp.Pdu.DataField.{CanCarry, put_pdu_lem, on_data_field_lem}
use akira_ccsds.Cfdp.Ranges.{Range, Ranges, max_nak_ranges}
use akira_ccsds.Cfdp.Pdu.Nak.{
  directive_nak, nak_min_data_len, nak_range_len, NakPdu, nak_ranges_are_valid, range_bytes,
  encode_nak,
}
use akira_ccsds.Cfdp.Pdu.Nak.{read_ranges, read_nak, decode_nak}

abbrev pub IsWordRange : Range → Type 0
IsWordRange r = (r.start < 2 ^ 32) × (r.stop < 2 ^ 32)

abbrev pub nak_data_len : NakPdu → ℕ
nak_data_len p = nak_min_data_len + length p.ranges * nak_range_len

-- A NAK PDU that `encode_nak` accepts, given room.
pub record IsNak (p : NakPdu) : Type 0 where
  pub header_fits : CanCarry p.header (nak_data_len p)
  pub type_is_directive : p.header.pdu_type ≡ pdu_type_file_directive
  pub no_metadata : p.header.segment_metadata_present ≡ false
  pub start_fits : p.scope_start < 2 ^ 32
  pub end_fits : p.scope_end < 2 ^ 32
  pub words : All IsWordRange p.ranges
  pub ranges_valid : nak_ranges_are_valid p ≡ true

abbrev pub nak_header : NakPdu → PduHeader
nak_header p = with_data_len p.header (nak_data_len p)

length-range_bytes : (rs : Ranges) → length (range_bytes rs) ≡ length rs * nak_range_len
unfolding range_bytes
length-range_bytes [] = refl
length-range_bytes (r ∷ rs) = omega (arith, length-range_bytes rs)

read_ranges-range_bytes :
    (rs : Ranges) (rest : List ℕ)
    → All IsWordRange rs
    → read_ranges (length rs) (range_bytes rs ++ rest) ≡ rs
unfolding range_bytes read_ranges
read_ranges-range_bytes [] rest w = refl
read_ranges-range_bytes (r ∷ rs) rest w = ground (arith, w.0, read_ranges-range_bytes rs rest w.1)

word_read : (v : ℕ) (rest : List ℕ) → v < 2 ^ 32 → get_be32 (be32 v ++ rest) 0 ≡ v
word_read v rest h = omega arith

ranges_few : (p : NakPdu) → nak_ranges_are_valid p ≡ true → length p.ranges ≤ max_nak_ranges
unfolding nak_ranges_are_valid
ranges_few p valid = ground arith

-- Decoding what `encode_nak` stored, with any bytes behind it, gives the PDU, its header with the
-- derived data field length, and the number of bytes stored: for a PDU that fits, and a buffer
-- with room for it.
pub decode_nak-encode_nak :
    (p : NakPdu) (cap : ℕ) (rest : List ℕ)
    → IsNak p
    → header_encoded_len (nak_header p) + nak_data_len p ≤ cap
    → (stored : List ℕ) × (encode_nak p cap ≡ done stored)
      × (decode_nak (stored ++ rest)
          ≡ done (
            record p { header = nak_header p },
            header_encoded_len (nak_header p) + nak_data_len p,
          ))
unfolding encode_nak decode_nak read_nak nak_ranges_are_valid
decode_nak-encode_nak p cap rest w room =
    let n = nak_data_len p in
    let field =
      (directive_nak ∷ []) ++ (be32 p.scope_start ++ (be32 p.scope_end ++ range_bytes p.ranges)) in
    let whole : length field ≡ n = omega (arith, length-range_bytes p.ranges) in
    let count : (n - nak_min_data_len) / nak_range_len ≡ length p.ranges = omega arith in
    (
      header_bytes (nak_header p) ++ field,
      ground (
        arith,
        w,
        w.header_fits,
        ranges_few p w.ranges_valid,
        put_pdu_lem p.header n w.header_fits field cap whole,
      ),
      on_data_field_lem p.header n w.header_fits field read_nak rest
          ∙ rw
              (
                count,
                read_ranges-range_bytes p.ranges rest w.words,
                word_read p.scope_start (range_bytes p.ranges) w.start_fits,
                word_read p.scope_end (range_bytes p.ranges) w.end_fits,
              )
              (ground (
                arith,
                w,
                w.header_fits,
                ranges_few p w.ranges_valid,
                length-append (range_bytes p.ranges) rest,
                length-range_bytes p.ranges,
              )),
    )
