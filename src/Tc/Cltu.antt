-- ===== src/Tc/Cltu.antt =====
-- Command link transmission units: connectivity/ccsds/ccsds_cltu.c and .h. A message is a start
-- sequence, BCH blocks and a tail sequence.
pub mod Delivery
use akira_ccsds.Base.{
  ℕ, zero, suc, ◌+◌, ◌-◌, ◌*◌, ◌/◌, ◌%◌, ◌^◌, ◌≤◌, ◌<◌, min, max, bit_or, bit_xor,
}
use akira_ccsds.Base.{◌≡◌, refl, sym, ap, ap₂, ◌∙◌, ◌≢◌, ◌↔◌, ◌⊎◌, inl, inr, arith}
use akira_ccsds.Base.{
  Bool, true, false, ◌&&◌, ◌||◌, not, Option, none, some, List, [], ◌∷◌, ◌++◌, map, append_assoc,
  append-nil,
}
use akira_ccsds.Base.{
  ltb, leb, ◌==◌, if◌then◌else◌, ltb→lt, leb→le, ltb→ge, lt→ltb, ge→ltb, ==_iff, ==_refl,
  Bool-cases, Option-cases, all_below, all_below_sound,
}
use akira_ccsds.Base.{
  length, get_or, set, take, drop, replicate, All, length-append, length-set, length-take,
  length-drop, length-replicate, take-append-drop, take-append, drop-append, take_all, take-set,
  set_beyond, get_or-take, set_back, All-set, get_or-append, concat, prepend, prepend-eq-some,
  get_or-set_self, get_or-set_ne, get_or_ext, All-append, All-take, All-drop,
}
use akira_ccsds.Base.{
  IsByte, AllBytes, u8, u16, u32, shr, shl, low_bits, test_bit, byte_at, get_be16, be16, be32,
  byte_at-IsByte,
}
use akira_ccsds.Base.{
  Errno, einval, emsgsize, enospc, enoent, eio, eacces, enotsup, Result, ok, err, ◌>>=◌, Code,
  success, failure, other,
}
use akira_ccsds.Tc.Bch.{
  block_size, data_size, Verdict, intact, corrected, detected_even, detected_odd, Scan,
}
use akira_ccsds.Tc.Bch.{
  block_bit, shift_in, scan_bit, scan, previous_single, find_single, flip, Decoded,
}
use akira_ccsds.Tc.Bch.{correct, scanned, decode_block}

-- CONFIG_AKIRA_CCSDS_MAX_CLTU_LEN at its default.
abbrev pub max_cltu_len : ℕ
max_cltu_len = 1024

-- `__builtin_popcount` of a byte
abbrev pub popcount : ℕ → ℕ
popcount x =
    x % 2 + x / 2 % 2 + x / 4 % 2 + x / 8 % 2 + x / 16 % 2 + x / 32 % 2 + x / 64 % 2 + x / 128 % 2

-- `ccsds_cltu_is_start_sequence`: 0xeb90 with at most one wrong bit.
unfoldable pub is_start_sequence : List ℕ → Bool
is_start_sequence candidate =
    let errors = popcount (bit_xor (byte_at candidate 0) 0xeb) in
    if ltb 1 errors then false else leb (errors + popcount (bit_xor (byte_at candidate 1) 0x90)) 1

-- `cltu_tail_sequence`
abbrev pub tail_sequence : List ℕ
tail_sequence = 0xc5 ∷ 0xc5 ∷ 0xc5 ∷ 0xc5 ∷ 0xc5 ∷ 0xc5 ∷ 0xc5 ∷ 0x79 ∷ []

-- The loop of `ccsds_cltu_has_tail_sequence` from index `i` on.
unfoldable pub matches_tail : ℕ → ℕ → ℕ → List ℕ → Bool
matches_tail zero i tail_offset cltu = true
matches_tail (suc rounds) i tail_offset cltu =
    let rest = matches_tail rounds (suc i) tail_offset cltu in
    if not (byte_at cltu (tail_offset + i) == byte_at tail_sequence i) then false else rest

unfoldable pub has_tail_sequence : List ℕ → Bool
has_tail_sequence cltu =
    let cltu_len = length cltu in
    if not (byte_at cltu (cltu_len - 1) == 0x79)
    then false
    else matches_tail (block_size - 1) 0 (cltu_len - block_size) cltu

-- The loop over the blocks: `body` begins with the next block. A corrected block is used as one
-- that was intact.
unfoldable pub decode_blocks : ℕ → List ℕ → Result (List ℕ)
decode_blocks zero body = ok []
decode_blocks (suc count) body =
    let block = decode_block (take block_size body) in
    let rest = decode_blocks count (drop block_size body) in
    elim block.verdict [
      | intact ↦ rest >>= (λ bytes. ok (block.payload ++ bytes))
      | corrected ↦ rest >>= (λ bytes. ok (block.payload ++ bytes))
      | detected_even ↦ err eio
      | detected_odd ↦ err eio
    ]

-- The transfer frame, whose length is `*tc_frame_len`.
unfoldable pub decode_message : List ℕ → ℕ → Result (List ℕ)
decode_message cltu tc_frame_cap =
    let bch_len = length cltu - 2 in
    let decoded_block_count = bch_len / block_size - 1 in
    if ltb (length cltu) (2 + 2 * block_size)
    then err einval
    else if ltb max_cltu_len (length cltu)
    then err einval
    else if not (is_start_sequence cltu)
    then err einval
    else if not (bch_len % block_size == 0)
    then err einval
    else if not (has_tail_sequence cltu)
    then err einval
    else if ltb tc_frame_cap (decoded_block_count * data_size)
    then err enospc
    else decode_blocks decoded_block_count (drop 2 cltu)

-- `struct ccsds_cltu_rx`; the buffer's contents play no part.
pub record CltuRx (F U : Type 0) : Type 0 where
  pub on_frame : F
  pub user_data : U
  pub buffered_len : ℕ
  pub in_cltu : Bool

unfoldable pub rx_init : {F U : Type 0} → F → U → CltuRx F U
rx_init on_frame user_data = record {
  on_frame = on_frame;
  user_data = user_data;
  buffered_len = 0;
  in_cltu = false;
}

unfoldable pub rx_reset : {F U : Type 0} → CltuRx F U → CltuRx F U
rx_reset rx = record rx { buffered_len = 0; in_cltu = false }

-- Streaming reception is not supported yet.
unfoldable pub rx_push : {F U : Type 0} → CltuRx F U → List ℕ → Code
rx_push rx chunk = failure enotsup
