-- ===== src/Tc/Frame.antt =====
-- Telecommand transfer frames: connectivity/ccsds/ccsds_tc_frame.c and .h. The spacecraft id is
-- CONFIG_AKIRA_CCSDS_SPACECRAFT_ID, at most 0x3ff by a build assertion.
pub mod RoundTrip
use akira_ccsds.Base.{
  ℕ, zero, suc, ◌+◌, ◌-◌, ◌*◌, ◌/◌, ◌%◌, ◌^◌, ◌≤◌, ◌<◌, min, max, bit_or, bit_xor,
}
use akira_ccsds.Base.{◌≡◌, refl, sym, ap, ap₂, ◌∙◌, ◌≢◌, ◌↔◌, ◌⊎◌, inl, inr, arith}
use akira_ccsds.Base.{
  Bool, true, false, ◌&&◌, ◌||◌, not, Option, none, some, List, [], ◌∷◌, ◌++◌, map, append_assoc,
  append-nil,
}
use akira_ccsds.Base.{
  ltb, leb, ◌==◌, if◌then◌else◌, ltb→lt, leb→le, ltb→ge, lt→ltb, ge→ltb, ==_iff, ==_refl,
  Bool-cases, Option-cases, all_below, all_below_sound,
}
use akira_ccsds.Base.{
  length, get_or, set, take, drop, replicate, All, length-append, length-set, length-take,
  length-drop, length-replicate, take-append-drop, take-append, drop-append, take_all, take-set,
  set_beyond, get_or-take, set_back, All-set, get_or-append, concat, prepend, prepend-eq-some,
  get_or-set_self, get_or-set_ne, get_or_ext, All-append, All-take, All-drop,
}
use akira_ccsds.Base.{
  IsByte, AllBytes, u8, u16, u32, shr, shl, low_bits, test_bit, byte_at, get_be16, be16, be32,
  byte_at-IsByte,
}
use akira_ccsds.Base.{
  Errno, einval, emsgsize, enospc, enoent, eio, eacces, enotsup, Result, ok, err, ◌>>=◌, Code,
  success, failure, other,
}
use akira_ccsds.SpacePacket
use akira_ccsds.SpacePacket.{SpacePacket}

abbrev pub tc_primary_hdr_len : ℕ
tc_primary_hdr_len = 5

abbrev pub fill_byte : ℕ
fill_byte = 0x55

-- `struct ccsds_tc_frame`; the data pointer with its length is a list.
pub record TcFrame : Type 0 where
  pub spacecraft_id : ℕ
  pub virtual_channel_id : ℕ
  pub bypass : Bool
  pub control_command : Bool
  pub frame_sequence_number : ℕ
  pub payload : List ℕ

-- The frame length of the header's length field.
abbrev pub frame_len : List ℕ → ℕ
frame_len buf = low_bits (get_be16 buf 2) 10 + 1

-- What `ccsds_tc_frame_decode` stores when it accepts.
abbrev parsed : List ℕ → TcFrame
parsed buf = record {
  spacecraft_id = low_bits (get_be16 buf 0) 10;
  virtual_channel_id = low_bits (shr (get_be16 buf 2) 10) 6;
  bypass = test_bit (byte_at buf 0) 5;
  control_command = test_bit (byte_at buf 0) 4;
  frame_sequence_number = byte_at buf 4;
  payload = take (frame_len buf - tc_primary_hdr_len) (drop tc_primary_hdr_len buf);
}

unfoldable pub decode : ℕ → List ℕ → Result TcFrame
decode scid buf =
    if ltb (length buf) tc_primary_hdr_len
    then err einval
    else if not (low_bits (shr (byte_at buf 0) 6) 2 == 0)
    then err einval
    else if ltb (frame_len buf) tc_primary_hdr_len
    then err emsgsize
    else if ltb (length buf) (frame_len buf)
    then err emsgsize
    else if ltb (frame_len buf) (length buf)
        && (not (byte_at buf (frame_len buf) == fill_byte)
            || not (byte_at buf (length buf - 1) == fill_byte))
    then err emsgsize
    else if not (low_bits (get_be16 buf 0) 10 == scid)
    then err eacces
    else ok (parsed buf)

unfoldable pub extract_packet : TcFrame → Result SpacePacket
extract_packet frame = SpacePacket.decode frame.payload
