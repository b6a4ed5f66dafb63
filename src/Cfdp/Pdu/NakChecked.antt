-- ===== src/Cfdp/Pdu/NakChecked.antt =====
-- What `ccsds_cfdp_decode_nak` has checked when it accepts.
use akira_ccsds.Base.{ℕ, zero, suc, ◌+◌, ◌-◌, ◌*◌, ◌/◌, ◌≤◌, ◌<◌}
use akira_ccsds.Base.{◌≡◌, refl, sym, ap, ◌∙◌, arith}
use akira_ccsds.Base.{true, List, [], ◌∷◌}
use akira_ccsds.Base.{length, drop, All, length-drop}
use akira_ccsds.Base.{AllBytes}
use akira_ccsds.Cfdp.{done}
use akira_ccsds.Cfdp.Ranges.{Range, Ranges, max_nak_ranges}
use akira_ccsds.Cfdp.Pdu.{PduHeader, decode_header}
use akira_ccsds.Cfdp.Pdu.DataField.{on_data_field-eq-done}
use akira_ccsds.Cfdp.Pdu.Accepted.{decode_header-IsWellFormed}
use akira_ccsds.Cfdp.Pdu.Nak.{
  nak_min_data_len, nak_range_len, NakPdu, ranges_in_scope, nak_ranges_are_valid,
}
use akira_ccsds.Cfdp.Pdu.Nak.{read_ranges, read_nak, decode_nak}

-- A nonempty range within a scope.
abbrev pub InScope : ℕ → ℕ → Range → Type 0
InScope scope_start scope_end r =
    (scope_start ≤ r.start) × (r.start < r.stop) × (r.stop ≤ scope_end)

ranges_in_scope_sound :
    (scope_start scope_end : ℕ) (rs : Ranges)
    → ranges_in_scope scope_start scope_end rs ≡ true
    → All (InScope scope_start scope_end) rs
unfolding ranges_in_scope
ranges_in_scope_sound scope_start scope_end [] e = tt
ranges_in_scope_sound scope_start scope_end (r ∷ rs) e =
    (ground arith, ranges_in_scope_sound scope_start scope_end rs (ground arith))

length-read_ranges : (count : ℕ) (buf : List ℕ) → length (read_ranges count buf) ≡ count
unfolding read_ranges
length-read_ranges zero buf = refl
length-read_ranges (suc count) buf = ap suc (length-read_ranges count (drop nak_range_len buf))

read_nak_checked :
    (h : PduHeader) (header_len : ℕ) (field : List ℕ) {p : NakPdu} {n : ℕ}
    → read_nak h header_len field ≡ done (p, n)
    → (nak_ranges_are_valid p ≡ true)
      × (p.header ≡ h)
      × (n ≡ header_len + nak_min_data_len + length p.ranges * nak_range_len)
      × (n ≡ header_len + h.pdu_data_field_len)
      × (n ≤ header_len + length field)
unfolding read_nak
read_nak_checked h header_len field {p} {n} e = ground (
  arith,
  length-read_ranges ((h.pdu_data_field_len - nak_min_data_len) / nak_range_len) (drop 9 field),
)

-- A NAK PDU that `decode_nak` accepts has at most `max_nak_ranges` ranges, all nonempty and within
-- its nonempty scope. Its header is the one that `decode_header` reads, and the bytes consumed are
-- that header and the data field that it announces, which is the directive code and the scope (9
-- bytes) and 8 bytes for each range, all of them in the buffer.
pub decode_nak-InScope :
    (buf : List ℕ) {p : NakPdu} {n : ℕ}
    → AllBytes buf
    → decode_nak buf ≡ done (p, n)
    → (length p.ranges ≤ max_nak_ranges)
      × (p.scope_start < p.scope_end)
      × All (InScope p.scope_start p.scope_end) p.ranges
      × ((header_len : ℕ) × (decode_header buf ≡ done (p.header, header_len))
          × (n ≡ header_len + p.header.pdu_data_field_len)
          × (p.header.pdu_data_field_len ≡ 9 + length p.ranges * 8)
          × (n ≤ length buf))
unfolding decode_nak nak_ranges_are_valid
decode_nak-InScope buf {p} {n} b e =
    let found = on_data_field-eq-done read_nak buf e in
    let h = found.0 in
    let header_len = found.1 in
    let decoded = decode_header-IsWellFormed buf b found.2 in
    let (valid, same, counted, announced, inside) =
      read_nak_checked h header_len (drop header_len buf) found.3 in
    let field_len : p.header.pdu_data_field_len ≡ h.pdu_data_field_len =
      ap (λ x. x.pdu_data_field_len) same in
    (
      ground (arith, valid),
      ground (arith, valid),
      ranges_in_scope_sound p.scope_start p.scope_end p.ranges (ground (arith, valid)),
      (
        header_len,
        found.2 ∙ ap (λ x. done (x, header_len)) (sym same),
        omega (arith, announced, field_len),
        omega (arith, announced, field_len, counted),
        omega (arith, inside, decoded.2, length-drop header_len buf),
      ),
    )
