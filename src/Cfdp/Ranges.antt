-- ===== src/Cfdp/Ranges.antt =====
-- The received parts of a file: connectivity/ccsds/ccsds_cfdp_ranges.c and .h. The first `count`
-- elements of the array are a list; what the array holds behind them is never read. The offsets
-- are 32-bit numbers, which the code only compares, so nothing can wrap. A NULL pointer, which each
-- function refuses first, is not represented.
pub mod Cover
pub mod Add
pub mod Query
pub mod Missing
mod Examples
use akira_ccsds.Base.{
  ℕ, zero, suc, ◌+◌, ◌-◌, ◌*◌, ◌/◌, ◌%◌, ◌^◌, ◌≤◌, ◌<◌, min, max, bit_or, bit_xor,
}
use akira_ccsds.Base.{◌≡◌, refl, sym, ap, ap₂, ◌∙◌, ◌≢◌, ◌↔◌, ◌⊎◌, inl, inr, arith}
use akira_ccsds.Base.{
  Bool, true, false, ◌&&◌, ◌||◌, not, Option, none, some, List, [], ◌∷◌, ◌++◌, map, append_assoc,
  append-nil,
}
use akira_ccsds.Base.{
  ltb, leb, ◌==◌, if◌then◌else◌, ltb→lt, leb→le, ltb→ge, lt→ltb, ge→ltb, ==_iff, ==_refl,
  Bool-cases, Option-cases, all_below, all_below_sound,
}
use akira_ccsds.Base.{
  length, get_or, set, take, drop, replicate, All, length-append, length-set, length-take,
  length-drop, length-replicate, take-append-drop, take-append, drop-append, take_all, prepend,
  prepend-eq-some, get_or-set_self, get_or-set_ne, get_or_ext, All-append, All-take, All-drop,
}
use akira_ccsds.Base.{
  IsByte, AllBytes, u8, u16, u32, shr, shl, low_bits, test_bit, byte_at, get_be16, be16, be32,
  byte_at-IsByte,
}
use akira_ccsds.Cfdp.{
  Status, invalid_argument, buffer_too_small, malformed_pdu, unsupported, unsupported_checksum,
  invalid_transmission_mode, checksum_failure,
}
use akira_ccsds.Cfdp.{
  file_size_error, inactivity_detected, nak_limit_reached, cancel_request, filestore_rejection,
  transaction_busy, Outcome, done,
}
use akira_ccsds.Cfdp.{fail, ◌>>=◌, ChecksumType, modular, crc32c, ieee_802_3_fcs, null, unknown}
use akira_ccsds.Cfdp.{>>=-eq-done}

-- CCSDS_CFDP_MAX_NAK_RANGES at its default.
abbrev pub max_nak_ranges : ℕ
max_nak_ranges = 4

-- `struct ccsds_cfdp_range`, the offsets from `start` up to but not `stop` (`end` in the source).
pub record Range : Type 0 where
  pub start : ℕ
  pub stop : ℕ

abbrev pub Ranges : Type 0
Ranges = List Range

abbrev pub range_is_valid : ℕ → ℕ → Bool
range_is_valid start stop = ltb start stop

abbrev pub init : Ranges
init = []

-- `while (first < count && ranges[first].end < start) first++`
unfoldable pub skip_before : ℕ → Ranges → ℕ
skip_before start [] = 0
skip_before start (r ∷ rs) =
    let rest = skip_before start rs in if ltb r.stop start then suc rest else 0

pub record Merged : Type 0 where
  pub removed : ℕ
  pub start : ℕ
  pub stop : ℕ

-- The second loop, from `ranges[first]` on: how many ranges it passes, and the merged bounds.
unfoldable pub merge_touching : ℕ → ℕ → ℕ → Ranges → Merged
merge_touching stop merged_start merged_end [] = record {
  removed = 0;
  start = merged_start;
  stop = merged_end;
}
merge_touching stop merged_start merged_end (r ∷ rs) =
    let rest =
      merge_touching stop (if ltb r.start merged_start then r.start else merged_start)
        (if ltb merged_end r.stop then r.stop else merged_end) rs in
    if leb r.start stop
    then record rest { removed = suc rest.removed }
    else record { removed = 0; start = merged_start; stop = merged_end }

-- The merged range stored in place of the `removed` ranges from `ranges[first]` on; the loops that
-- shift the ranges behind them close the gap, or open one where nothing is removed.
unfoldable pub store : Ranges → ℕ → Merged → Ranges
store rs first m =
    take first rs ++ (record { start = m.start; stop = m.stop } ∷ drop m.removed (drop first rs))

unfoldable pub add : Ranges → ℕ → ℕ → Outcome Ranges
add rs start stop =
    let first = skip_before start rs in
    let m = merge_touching stop start stop (drop first rs) in
    if not (range_is_valid start stop) || ltb max_nak_ranges (length rs)
    then fail invalid_argument
    else if (m.removed == 0) && (length rs == max_nak_ranges)
    then fail buffer_too_small
    else done (store rs first m)

-- The loop of `is_complete`.
unfoldable pub scan_complete : ℕ → ℕ → Ranges → Bool
scan_complete start stop [] = false
scan_complete start stop (r ∷ rs) =
    let rest = scan_complete start stop rs in
    if ltb start r.start then false else if leb r.start start && leb stop r.stop then true else rest

unfoldable pub is_complete : Ranges → ℕ → ℕ → Outcome Bool
is_complete rs start stop =
    if not (range_is_valid start stop) || ltb max_nak_ranges (length rs)
    then fail invalid_argument
    else done (scan_complete start stop rs)

-- The loop of `missing`, from a range on; it gives the cursor and the ranges found so far.
unfoldable pub scan_missing : ℕ → ℕ → Ranges → Ranges → Outcome (ℕ × Ranges)
scan_missing stop cursor missing [] = done (cursor, missing)
scan_missing stop cursor missing (r ∷ rs) =
    let skipped = scan_missing stop cursor missing rs in
    let advanced = scan_missing stop r.stop missing rs in
    if not (ltb cursor stop)
    then done (cursor, missing)
    else if leb r.stop cursor
    then skipped
    else if leb stop r.start
    then done (cursor, missing)
    else if ltb cursor r.start
    then add missing cursor (if ltb r.start stop then r.start else stop)
      >>= (λ found. scan_missing stop r.stop found rs)
    else advanced

unfoldable pub missing : Ranges → ℕ → ℕ → Outcome Ranges
missing rs start stop =
    if not (range_is_valid start stop) || ltb max_nak_ranges (length rs)
    then fail invalid_argument
    else scan_missing stop start init rs
      >>= (λ found. if ltb found.0 stop then add found.1 found.0 stop else done found.1)
