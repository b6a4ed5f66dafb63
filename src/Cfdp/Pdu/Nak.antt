-- ===== src/Cfdp/Pdu/Nak.antt =====
-- NAK PDUs. A `ccsds_cfdp_nak_range_t` has the fields of a received range; the array with
-- `range_count` is the list of the ranges.
use akira_ccsds.Base.{ℕ, zero, suc, ◌+◌, ◌-◌, ◌*◌, ◌/◌, ◌%◌}
use akira_ccsds.Base.{Bool, true, false, ◌||◌, not, List, [], ◌∷◌, ◌++◌}
use akira_ccsds.Base.{ltb, leb, ◌==◌, if◌then◌else◌}
use akira_ccsds.Base.{length, drop}
use akira_ccsds.Base.{byte_at, be32, get_be32}
use akira_ccsds.Cfdp.{invalid_argument, malformed_pdu, unsupported}
use akira_ccsds.Cfdp.{Outcome, done}
use akira_ccsds.Cfdp.{fail}
use akira_ccsds.Cfdp.Pdu.{pdu_type_file_directive}
use akira_ccsds.Cfdp.Pdu.{file_size_small, PduHeader}
use akira_ccsds.Cfdp.Pdu.{put_pdu, on_data_field}
use akira_ccsds.Cfdp.Ranges.{Ranges, max_nak_ranges}

abbrev pub directive_nak : ℕ
directive_nak = 0x08

abbrev pub nak_min_data_len : ℕ
nak_min_data_len = 9

abbrev pub nak_range_len : ℕ
nak_range_len = 8

-- `struct ccsds_cfdp_nak_pdu`
pub record NakPdu : Type 0 where
  pub header : PduHeader
  pub scope_start : ℕ
  pub scope_end : ℕ
  pub ranges : Ranges

-- The loop of `nak_validate_ranges`.
unfoldable pub ranges_in_scope : ℕ → ℕ → Ranges → Bool
ranges_in_scope scope_start scope_end [] = true
ranges_in_scope scope_start scope_end (r ∷ rs) =
    let rest = ranges_in_scope scope_start scope_end rs in
    if leb r.stop r.start || ltb r.start scope_start || ltb scope_end r.stop then false else rest

-- Whether `nak_validate_ranges` returns OK; it has one other result, INVALID_ARGUMENT.
unfoldable pub nak_ranges_are_valid : NakPdu → Bool
nak_ranges_are_valid p =
    if leb p.scope_end p.scope_start || ltb max_nak_ranges (length p.ranges)
    then false
    else ranges_in_scope p.scope_start p.scope_end p.ranges

-- The loop of `ccsds_cfdp_encode_nak`.
unfoldable pub range_bytes : Ranges → List ℕ
range_bytes [] = []
range_bytes (r ∷ rs) = be32 r.start ++ (be32 r.stop ++ range_bytes rs)

unfoldable pub encode_nak : NakPdu → ℕ → Outcome (List ℕ)
encode_nak p cap =
    let pdu_data_len = nak_min_data_len + length p.ranges * nak_range_len in
    if not (p.header.pdu_type == pdu_type_file_directive) || p.header.segment_metadata_present
    then fail invalid_argument
    else if not (p.header.file_size_mode == file_size_small)
    then fail unsupported
    else if not (nak_ranges_are_valid p)
    then fail invalid_argument
    else if ltb 0xffff pdu_data_len
    then fail invalid_argument
    else put_pdu p.header pdu_data_len cap
        ((directive_nak ∷ []) ++ (be32 p.scope_start ++ (be32 p.scope_end ++ range_bytes p.ranges)))

-- The loop of `ccsds_cfdp_decode_nak`, for a number of ranges.
unfoldable pub read_ranges : ℕ → List ℕ → Ranges
read_ranges zero buf = []
read_ranges (suc count) buf =
    record { start = get_be32 buf 0; stop = get_be32 buf 4 }
    ∷ read_ranges count (drop nak_range_len buf)

-- What `ccsds_cfdp_decode_nak` does with the header, its length, and the buffer behind it.
unfoldable pub read_nak : PduHeader → ℕ → List ℕ → Outcome (NakPdu × ℕ)
read_nak h header_len field =
    let remaining = h.pdu_data_field_len - nak_min_data_len in
    let nak : NakPdu = record {
      header = h;
      scope_start = get_be32 field 1;
      scope_end = get_be32 field 5;
      ranges = read_ranges (remaining / nak_range_len) (drop 9 field);
    } in
    if not (h.pdu_type == pdu_type_file_directive) || h.segment_metadata_present
    then fail malformed_pdu
    else if not (h.file_size_mode == file_size_small)
    then fail unsupported
    else if ltb h.pdu_data_field_len nak_min_data_len || ltb (length field) h.pdu_data_field_len
    then fail malformed_pdu
    else if not (remaining % nak_range_len == 0) || ltb max_nak_ranges (remaining / nak_range_len)
    then fail malformed_pdu
    else if not (byte_at field 0 == directive_nak)
    then fail malformed_pdu
    else if not (nak_ranges_are_valid nak)
    then fail malformed_pdu
    else done (nak, header_len + h.pdu_data_field_len)

unfoldable pub decode_nak : List ℕ → Outcome (NakPdu × ℕ)
decode_nak buf = on_data_field read_nak buf
