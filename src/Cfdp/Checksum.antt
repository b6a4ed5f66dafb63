-- ===== src/Cfdp/Checksum.antt =====
-- File checksums: connectivity/ccsds/ccsds_cfdp_checksum.c and .h. `crc32_c` and
-- `crc32_ieee_update` are Zephyr's `sys/crc.h`, parameters here.
pub mod Modular
mod Examples
use akira_ccsds.Base.{
  ℕ, zero, suc, ◌+◌, ◌-◌, ◌*◌, ◌/◌, ◌%◌, ◌^◌, ◌≤◌, ◌<◌, min, max, bit_or, bit_xor,
}
use akira_ccsds.Base.{◌≡◌, refl, sym, ap, ap₂, ◌∙◌, ◌≢◌, ◌↔◌, ◌⊎◌, inl, inr, arith}
use akira_ccsds.Base.{
  Bool, true, false, ◌&&◌, ◌||◌, not, Option, none, some, List, [], ◌∷◌, ◌++◌, map, append_assoc,
  append-nil,
}
use akira_ccsds.Base.{
  ltb, leb, ◌==◌, if◌then◌else◌, ltb→lt, leb→le, ltb→ge, lt→ltb, ge→ltb, ==_iff, ==_refl,
  Bool-cases, Option-cases, all_below, all_below_sound,
}
use akira_ccsds.Base.{
  length, get_or, set, take, drop, replicate, All, length-append, length-set, length-take,
  length-drop, length-replicate, take-append-drop, take-append, drop-append, take_all, take-set,
  set_beyond, get_or-take, set_back, All-set, get_or-append, concat, prepend, prepend-eq-some,
  get_or-set_self, get_or-set_ne, get_or_ext, All-append, All-take, All-drop,
}
use akira_ccsds.Base.{
  IsByte, AllBytes, u8, u16, u32, shr, shl, low_bits, test_bit, byte_at, get_be16, be16, be32,
  byte_at-IsByte, all_bytes_sound,
}
use akira_ccsds.Cfdp.{Status, Outcome, done, fail, ChecksumType}
use akira_ccsds.Cfdp.{invalid_argument, unsupported_checksum}
use akira_ccsds.Cfdp.{modular, crc32c, ieee_802_3_fcs, null, unknown}

-- `struct ccsds_cfdp_checksum_state`
pub record Checksum : Type 0 where
  pub type : ChecksumType
  pub value : ℕ
  pub next_offset : ℕ
  pub crc_started : Bool
  pub deferred : Bool

unfoldable pub checksum_type_is_supported : ChecksumType → Bool
checksum_type_is_supported modular = true
checksum_type_is_supported crc32c = true
checksum_type_is_supported ieee_802_3_fcs = true
checksum_type_is_supported null = true
checksum_type_is_supported (unknown n) = false

-- `update_range_is_valid`, with a 32-bit `size_t`.
unfoldable pub update_range_is_valid : ℕ → ℕ → Bool
update_range_is_valid file_offset len = leb len 1 || leb (len - 1) (0xffffffff - file_offset)

unfoldable pub supports_out_of_order : ChecksumType → Bool
supports_out_of_order modular = true
supports_out_of_order crc32c = false
supports_out_of_order ieee_802_3_fcs = false
supports_out_of_order null = true
supports_out_of_order (unknown n) = false

-- `ccsds_cfdp_checksum_init`
unfoldable pub init : ChecksumType → Outcome Checksum
init type =
    if not (checksum_type_is_supported type)
    then fail unsupported_checksum
    else done
        (record { type = type; value = 0; next_offset = 0; crc_started = false; deferred = false })

-- The loop of the modular case, from byte `i` of the segment on, with the value so far.
unfoldable pub add_bytes : ℕ → ℕ → List ℕ → ℕ → ℕ
add_bytes file_offset i [] value = value
add_bytes file_offset i (b ∷ bytes) value =
    let byte_lane = u32 (file_offset + i) % 4 in
    let shift = (3 - byte_lane) * 8 in
    add_bytes file_offset (suc i) bytes (u32 (value + u32 (shl b shift)))

module _ (crc32_c : ℕ → List ℕ → Bool → Bool → ℕ) (crc32_ieee_update : ℕ → List ℕ → ℕ) where
  -- The switch of `ccsds_cfdp_checksum_update`.
  unfoldable pub accumulate : ChecksumType → Checksum → ℕ → List ℕ → Outcome Checksum
  accumulate modular state file_offset bytes =
      done (record state { value = add_bytes file_offset 0 bytes state.value })
  accumulate crc32c state file_offset bytes =
      if not (file_offset == state.next_offset)
      then done (record state { deferred = true })
      else if not state.deferred
      then done (record state {
        value = crc32_c state.value bytes (not state.crc_started) false;
        next_offset = u32 (state.next_offset + u32 (length bytes));
        crc_started = true;
      })
      else done state
  accumulate ieee_802_3_fcs state file_offset bytes =
      if not (file_offset == state.next_offset)
      then done (record state { deferred = true })
      else if not state.deferred
      then done (record state {
        value = crc32_ieee_update state.value bytes;
        next_offset = u32 (state.next_offset + u32 (length bytes));
      })
      else done state
  accumulate null state file_offset bytes = done state
  accumulate (unknown n) state file_offset bytes = fail unsupported_checksum

  -- `ccsds_cfdp_checksum_update`
  unfoldable pub update : Checksum → ℕ → List ℕ → Outcome Checksum
  update state file_offset bytes =
      if not (checksum_type_is_supported state.type)
      then fail unsupported_checksum
      else if length bytes == 0
      then done state
      else if not (update_range_is_valid file_offset (length bytes))
      then fail invalid_argument
      else accumulate state.type state file_offset bytes

-- The switch of `ccsds_cfdp_checksum_finish`.
unfoldable pub result_of : ChecksumType → Checksum → Outcome ℕ
result_of null state = done 0
result_of crc32c state =
    if state.deferred
    then fail invalid_argument
    else done (if state.crc_started then bit_xor state.value 0xffffffff else 0)
result_of ieee_802_3_fcs state = if state.deferred then fail invalid_argument else done state.value
result_of modular state = done state.value
result_of (unknown n) state = done state.value

-- `ccsds_cfdp_checksum_finish`
unfoldable pub finish : Checksum → Outcome ℕ
finish state =
    if not (checksum_type_is_supported state.type)
    then fail unsupported_checksum
    else result_of state.type state

unfoldable pub checksum_type_is_crc : ChecksumType → Bool
checksum_type_is_crc modular = false
checksum_type_is_crc crc32c = true
checksum_type_is_crc ieee_802_3_fcs = true
checksum_type_is_crc null = false
checksum_type_is_crc (unknown n) = false

-- `read` gives at most `cap` bytes from an offset on.
module _ (crc32_c : ℕ → List ℕ → Bool → Bool → ℕ) (crc32_ieee_update : ℕ → List ℕ → ℕ)
    (read : ℕ → ℕ → Outcome (List ℕ)) (file_size scratch_len : ℕ) where
  -- The loop over the file, on fuel: every round that goes on reads a byte, so `file_size` rounds
  -- are enough.
  unfoldable pub recompute : ℕ → ℕ → Checksum → Outcome Checksum
  recompute zero offset recomputed = done recomputed
  recompute (suc fuel) offset recomputed =
      let request_len = min (file_size - offset) scratch_len in
      let step : Outcome Checksum = elim (read offset request_len) [
        | fail s ↦ fail s
        | done bytes ↦
            let go_on : Outcome Checksum =
              elim (update crc32_c crc32_ieee_update recomputed offset bytes) [
                | fail s ↦ fail s
                | done next ↦ recompute fuel (u32 (offset + u32 (length bytes))) next
              ] in
            if (length bytes == 0) || ltb request_len (length bytes)
            then fail invalid_argument
            else go_on
      ] in
      if ltb offset file_size then step else done recomputed

  -- `ccsds_cfdp_checksum_finish_file`
  unfoldable pub finish_file : Checksum → Outcome ℕ
  finish_file state =
      let again : Outcome ℕ = elim (init state.type) [
        | fail s ↦ fail s
        | done fresh ↦ elim (recompute file_size 0 fresh) [
          | fail s ↦ fail s
          | done recomputed ↦ finish recomputed
        ]
      ] in
      if not (checksum_type_is_supported state.type)
      then fail unsupported_checksum
      else if not (checksum_type_is_crc state.type)
      then finish state
      else if not state.deferred && (state.next_offset == file_size)
      then finish state
      else again
