-- ===== src/Tc/Segment.antt =====
-- Telecommand segments: connectivity/ccsds/ccsds_tc_segment.c and .h. The handler is a function
-- pointer that may change the state `W`.
pub mod Walk
use akira_ccsds.Base.{
  ℕ, zero, suc, ◌+◌, ◌-◌, ◌*◌, ◌/◌, ◌%◌, ◌^◌, ◌≤◌, ◌<◌, min, max, bit_or, bit_xor,
}
use akira_ccsds.Base.{◌≡◌, refl, sym, ap, ap₂, ◌∙◌, ◌≢◌, ◌↔◌, ◌⊎◌, inl, inr, arith}
use akira_ccsds.Base.{
  Bool, true, false, ◌&&◌, ◌||◌, not, Option, none, some, List, [], ◌∷◌, ◌++◌, map, append_assoc,
  append-nil,
}
use akira_ccsds.Base.{
  ltb, leb, ◌==◌, if◌then◌else◌, ltb→lt, leb→le, ltb→ge, lt→ltb, ge→ltb, ==_iff, ==_refl,
  Bool-cases, Option-cases, all_below, all_below_sound,
}
use akira_ccsds.Base.{
  length, get_or, set, take, drop, replicate, All, length-append, length-set, length-take,
  length-drop, length-replicate, take-append-drop, take-append, drop-append, take_all, take-set,
  set_beyond, get_or-take, set_back, All-set, get_or-append, concat, prepend, prepend-eq-some,
  get_or-set_self, get_or-set_ne, get_or_ext, All-append, All-take, All-drop,
}
use akira_ccsds.Base.{
  IsByte, AllBytes, u8, u16, u32, shr, shl, low_bits, test_bit, byte_at, get_be16, be16, be32,
  byte_at-IsByte,
}
use akira_ccsds.Base.{
  Errno, einval, emsgsize, enospc, enoent, eio, eacces, enotsup, Result, ok, err, ◌>>=◌, Code,
  success, failure, other,
}
use akira_ccsds.SpacePacket.{
  apid_max, primary_hdr_len, sequence_unsegmented, SpacePacket, encoded_len, header_word0,
  header_word1,
}
use akira_ccsds.Tc.Frame.{tc_primary_hdr_len, fill_byte, TcFrame, frame_len, extract_packet}

abbrev pub segment_hdr_len : ℕ
segment_hdr_len = 1

-- `enum ccsds_tc_segment_boundary`
pub data Boundary : Type 0 where
  continuation first last unsegmented : Boundary

-- The cast of the two bits of the header.
abbrev pub boundary_of : ℕ → Boundary
boundary_of zero = continuation
boundary_of (suc zero) = first
boundary_of (suc (suc zero)) = last
boundary_of (suc (suc (suc n))) = unsegmented

-- `struct ccsds_tc_segment`; the data pointer with its length is a list.
pub record TcSegment : Type 0 where
  pub boundary : Boundary
  pub map_id : ℕ
  pub payload : List ℕ

-- `struct ccsds_tc_segment_part`
pub record Part : Type 0 where
  pub map_id : ℕ
  pub segment_boundary : Boundary
  pub starts_packet : Bool
  pub ends_packet : Bool
  pub payload : List ℕ
  pub packet_len : ℕ

unfoldable pub segment_ends_packet : Boundary → Bool
segment_ends_packet continuation = false
segment_ends_packet first = false
segment_ends_packet last = true
segment_ends_packet unsegmented = true

unfoldable pub encoded_packet_len : List ℕ → ℕ
encoded_packet_len packet = primary_hdr_len + get_be16 packet 4 + 1

unfoldable pub decode : List ℕ → Result TcSegment
decode buf =
    if ltb (length buf) segment_hdr_len
    then err einval
    else ok (record {
      boundary = boundary_of (low_bits (shr (byte_at buf 0) 6) 2);
      map_id = low_bits (byte_at buf 0) 6;
      payload = drop segment_hdr_len buf;
    })

unfoldable pub decode_frame : TcFrame → Result TcSegment
decode_frame frame = decode frame.payload

-- `if (ret != 0) return ret;` before the rest of a loop
unfoldable pub on_success : {W : Type 0} → Code → W → Code × W → Code × W
on_success success w' rest = rest
on_success (failure e) w' rest = (failure e, w')
on_success (other n) w' rest = (other n, w')

module _ {W : Type 0} (handler : Part → W → Code × W) where
  unfoldable pub emit_part : TcSegment → Bool → Bool → List ℕ → ℕ → W → Code × W
  emit_part segment starts ends bytes packet_len = handler (record {
    map_id = segment.map_id;
    segment_boundary = segment.boundary;
    starts_packet = starts;
    ends_packet = ends;
    payload = bytes;
    packet_len = packet_len;
  })

  -- The loop of `ccsds_tc_segment_walk_parts` over the data from `offset` on, on fuel: every round
  -- takes at least seven bytes, so the length of the data is enough.
  unfoldable pub walk_packets : ℕ → TcSegment → List ℕ → W → Code × W
  walk_packets zero segment remaining w = (success, w)
  walk_packets (suc fuel) segment remaining w =
      let packet_len = encoded_packet_len remaining in
      let (ret, w') = emit_part segment true true (take packet_len remaining) packet_len w in
      let rest = walk_packets fuel segment (drop packet_len remaining) w' in
      if not (ltb 0 (length remaining))
      then (success, w)
      else if ltb (length remaining) primary_hdr_len
      then (failure einval, w)
      else if ltb (length remaining) packet_len
      then (failure einval, w)
      else on_success ret w' rest

  unfoldable pub walk_first : TcSegment → W → Code × W
  walk_first segment w =
      let packet_len = encoded_packet_len segment.payload in
      if ltb (length segment.payload) primary_hdr_len
      then (failure einval, w)
      else if leb packet_len (length segment.payload)
      then (failure einval, w)
      else emit_part segment true false segment.payload packet_len w

  unfoldable pub walk_parts : TcSegment → W → Code × W
  walk_parts segment w =
      if length segment.payload == 0 then (failure einval, w) else elim segment.boundary [
        | continuation ↦
            emit_part segment false (segment_ends_packet segment.boundary) segment.payload 0 w
        | last ↦ emit_part segment false (segment_ends_packet segment.boundary) segment.payload 0 w
        | first ↦ walk_first segment w
        | unsegmented ↦ walk_packets (length segment.payload) segment segment.payload w
      ]
