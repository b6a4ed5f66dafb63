-- ===== src/Tc/Bch.antt =====
-- The BCH(63,56) block decoder of the telecommand uplink: connectivity/ccsds/ccsds_bch.c and .h.
pub mod Syndrome
pub mod Correction
use akira_ccsds.Base.{
  ℕ, zero, suc, ◌+◌, ◌-◌, ◌*◌, ◌/◌, ◌%◌, ◌^◌, ◌≤◌, ◌<◌, min, max, bit_or, bit_xor,
}
use akira_ccsds.Base.{◌≡◌, refl, sym, ap, ap₂, ◌∙◌, ◌≢◌, ◌↔◌, ◌⊎◌, inl, inr, arith}
use akira_ccsds.Base.{
  Bool, true, false, ◌&&◌, ◌||◌, not, Option, none, some, List, [], ◌∷◌, ◌++◌, map, append_assoc,
  append-nil,
}
use akira_ccsds.Base.{
  ltb, leb, ◌==◌, if◌then◌else◌, ltb→lt, leb→le, ltb→ge, lt→ltb, ge→ltb, ==_iff, ==_refl,
  Bool-cases, Option-cases, all_below, all_below_sound,
}
use akira_ccsds.Base.{
  length, get_or, set, take, drop, replicate, All, length-append, length-set, length-take,
  length-drop, length-replicate, take-append-drop, take-append, drop-append, take_all, prepend,
  prepend-eq-some, get_or-set_self, get_or-set_ne, get_or_ext, All-append, All-take, All-drop,
}
use akira_ccsds.Base.{
  IsByte, AllBytes, u8, u16, u32, shr, shl, low_bits, test_bit, byte_at, get_be16, be16, be32,
  byte_at-IsByte,
}
use akira_ccsds.Base.{
  Errno, einval, emsgsize, enospc, enoent, eio, eacces, enotsup, Result, ok, err, ◌>>=◌, Code,
  success, failure, other,
}

abbrev pub block_size : ℕ
block_size = 8

abbrev pub data_size : ℕ
data_size = 7

-- `enum ccsds_bch_result`
pub data Verdict : Type 0 where
  intact corrected detected_even detected_odd : Verdict

-- The loop's variables.
pub record Scan : Type 0 where
  pub syndrome : ℕ
  pub odd_parity : Bool

-- `(block[i / 8] >> (7 - (i % 8))) & 1`
unfoldable pub block_bit : List ℕ → ℕ → ℕ
block_bit block i = low_bits (shr (byte_at block (i / 8)) (7 - i % 8)) 1

-- The shift register of the syndrome takes one bit in; what leaves it feeds back 0x03.
unfoldable pub shift_in : ℕ → ℕ → ℕ
shift_in syndrome b =
    let shifted = bit_or (low_bits (shl syndrome 1) 6) b in
    if test_bit syndrome 5 then bit_xor shifted 0x03 else shifted

-- One round: the parity bits are sent complemented.
unfoldable pub scan_bit : List ℕ → ℕ → Scan → Scan
scan_bit block i s =
    let b = if leb 56 i then bit_xor (block_bit block i) 1 else block_bit block i in
    record {
      syndrome = shift_in s.syndrome b;
      odd_parity = if b == 0 then s.odd_parity else not s.odd_parity;
    }

-- The loop from bit `i` on, with that many rounds left.
unfoldable pub scan : ℕ → List ℕ → ℕ → Scan → Scan
scan zero block i s = s
scan (suc rounds) block i s = scan rounds block (suc i) (scan_bit block i s)

unfoldable pub previous_single : ℕ → ℕ
previous_single single =
    if test_bit single 0 then bit_or (shr (bit_xor single 0x03) 1) 0x20 else shr single 1

-- The search for the bit whose error alone gives the syndrome.
unfoldable pub find_single : ℕ → ℕ → ℕ → ℕ → Option ℕ
find_single zero i single syndrome = none
find_single (suc rounds) i single syndrome =
    let rest = find_single rounds (suc i) (previous_single single) syndrome in
    if syndrome == single then some i else rest

-- `data[i / 8] ^= 0x80 >> (i % 8)`
unfoldable pub flip : ℕ → List ℕ → List ℕ
flip i bytes = set bytes (i / 8) (bit_xor (byte_at bytes (i / 8)) (shr 0x80 (i % 8)))

pub record Decoded : Type 0 where
  pub verdict : Verdict
  pub payload : List ℕ
  -- `*corrected_bit`, where `none` is -1
  pub corrected_bit : Option ℕ

unfoldable pub correct : ℕ → List ℕ → Decoded
correct syndrome bytes = elim (find_single 63 0 0x21 syndrome) [
  | none ↦ record { verdict = detected_odd; payload = bytes; corrected_bit = none }
  | some i ↦ record {
    verdict = corrected;
    payload = if ltb i 56 then flip i bytes else bytes;
    corrected_bit = some i;
  }
]

abbrev pub scanned : List ℕ → Scan
scanned block = scan 63 block 0 (record { syndrome = 0; odd_parity = false })

unfoldable pub decode_block : List ℕ → Decoded
decode_block block =
    let s = scanned block in
    let bytes = take data_size block in
    if s.syndrome == 0
    then record {
      verdict = if s.odd_parity then detected_odd else intact;
      payload = bytes;
      corrected_bit = none;
    }
    else if not s.odd_parity
    then record { verdict = detected_even; payload = bytes; corrected_bit = none }
    else correct s.syndrome bytes
