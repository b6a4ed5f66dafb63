-- ===== src/SpacePacket.antt =====
-- CCSDS Space Packets: connectivity/ccsds/ccsds_space_packet.c and .h, with the constants of
-- ccsds_types.h. A buffer is the list of its bytes, and its length is the list's. The payload
-- pointer with its length is the list of the payload's bytes.
pub mod RoundTrip
mod Examples
use akira_ccsds.Base.{
  ℕ, zero, suc, ◌+◌, ◌-◌, ◌*◌, ◌/◌, ◌%◌, ◌^◌, ◌≤◌, ◌<◌, min, max, bit_or, bit_xor,
}
use akira_ccsds.Base.{◌≡◌, refl, sym, ap, ap₂, ◌∙◌, ◌≢◌, ◌↔◌, ◌⊎◌, inl, inr, arith}
use akira_ccsds.Base.{
  Bool, true, false, ◌&&◌, ◌||◌, not, Option, none, some, List, [], ◌∷◌, ◌++◌, map, append_assoc,
  append-nil,
}
use akira_ccsds.Base.{
  ltb, leb, ◌==◌, if◌then◌else◌, ltb→lt, ltb→ge, lt→ltb, ge→ltb, ==_iff, ==_refl, Bool-cases,
  all_below, all_below_sound,
}
use akira_ccsds.Base.{
  length, get_or, set, take, drop, replicate, All, length-append, length-set, length-take,
  length-drop, length-replicate, take-append-drop, take-append, drop-append, take_all, prepend,
  prepend-eq-some, get_or-set_self, get_or-set_ne, get_or_ext, All-append, All-take, All-drop,
}
use akira_ccsds.Base.{
  IsByte, AllBytes, u8, u16, u32, shr, shl, low_bits, test_bit, byte_at, get_be16, be16, be32,
  byte_at-IsByte,
}
use akira_ccsds.Base.{
  Errno, einval, emsgsize, enospc, enoent, eio, eacces, enotsup, Result, ok, err, ◌>>=◌, Code,
  success, failure, other,
}

abbrev pub apid_max : ℕ
apid_max = 0x07ff

abbrev pub primary_hdr_len : ℕ
primary_hdr_len = 6

-- `enum ccsds_packet_type` and `enum ccsds_sequence_flags` are numbers, since the code casts
-- between them and bit fields.
abbrev pub sequence_unsegmented : ℕ
sequence_unsegmented = 3

pub record SpacePacket : Type 0 where
  pub version : ℕ
  pub type : ℕ
  pub secondary_header : Bool
  pub apid : ℕ
  pub sequence_flags : ℕ
  pub sequence_count : ℕ
  pub payload : List ℕ

abbrev pub encoded_len : ℕ → ℕ
encoded_len payload_len = primary_hdr_len + payload_len

-- What `ccsds_space_packet_decode` stores when it accepts.
abbrev parsed : List ℕ → SpacePacket
parsed buf =
    let word0 = get_be16 buf 0 in
    let word1 = get_be16 buf 2 in
    let payload_len = get_be16 buf 4 + 1 in
    record {
      version = low_bits (shr word0 13) 3;
      type = low_bits (shr word0 12) 1;
      secondary_header = test_bit word0 11;
      apid = low_bits word0 11;
      sequence_flags = low_bits (shr word1 14) 2;
      sequence_count = low_bits word1 14;
      payload = take payload_len (drop primary_hdr_len buf);
    }

unfoldable pub decode : List ℕ → Result SpacePacket
decode buf =
    if ltb (length buf) primary_hdr_len
    then err einval
    else if ltb (length buf) (primary_hdr_len + (get_be16 buf 4 + 1))
    then err emsgsize
    else ok (parsed buf)

unfoldable pub header_word0 : SpacePacket → ℕ
header_word0 p = bit_or (shl (low_bits p.version 3) 13) (
    bit_or (shl (low_bits p.type 1) 12)
      (bit_or (if p.secondary_header then 0x0800 else 0) (low_bits p.apid 11)))

unfoldable pub header_word1 : SpacePacket → ℕ
header_word1 p = bit_or (shl (low_bits p.sequence_flags 2) 14) (low_bits p.sequence_count 14)

-- The bytes stored into `buf`, whose number is `*len`.
unfoldable pub encode : SpacePacket → ℕ → Result (List ℕ)
encode p cap =
    if ltb apid_max p.apid
      || ltb 0x3fff p.sequence_count
      || (length p.payload == 0)
      || ltb 0x10000 (length p.payload)
    then err einval
    else if ltb cap (encoded_len (length p.payload))
    then err enospc
    else ok (
        be16 (header_word0 p)
        ++ be16 (header_word1 p)
        ++ be16 (u16 (length p.payload - 1))
        ++ p.payload)
