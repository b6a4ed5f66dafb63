-- ===== src/Tc/Segment/Walk.antt =====
-- What the walk over an unsegmented segment hands to the handler.
use akira_ccsds.Base.{ℕ, zero, suc, ◌+◌, ◌≤◌, ◌<◌}
use akira_ccsds.Base.{◌≡◌, refl, ap, ◌⊎◌, arith}
use akira_ccsds.Base.{true, false, List, [], ◌∷◌, ◌++◌, append_assoc}
use akira_ccsds.Base.{ltb, ◌==◌, if◌then◌else◌}
use akira_ccsds.Base.{length, All, length-append, take-append, drop-append, concat}
use akira_ccsds.Base.{einval, Code, success, failure}
use akira_ccsds.SpacePacket.{primary_hdr_len}
use akira_ccsds.Tc.Segment.{unsegmented, TcSegment}
use akira_ccsds.Tc.Segment.{Part, encoded_packet_len, on_success, emit_part, walk_packets}
use akira_ccsds.Tc.Segment.{walk_parts}

-- Bytes that are one whole Space Packet by their length field.
pub record IsPacketBytes (bytes : List ℕ) : Type 0 where
  pub header : primary_hdr_len ≤ length bytes
  pub whole : encoded_packet_len bytes ≡ length bytes

-- Bytes that do not begin with a whole packet: nothing, or a part of one.
pub record IsCut (bytes : List ℕ) : Type 0 where
  pub short : (length bytes < primary_hdr_len) ⊎ (length bytes < encoded_packet_len bytes)

abbrev pub whole_part : TcSegment → List ℕ → Part
whole_part segment packet = record {
  map_id = segment.map_id;
  segment_boundary = segment.boundary;
  starts_packet = true;
  ends_packet = true;
  payload = packet;
  packet_len = length packet;
}

abbrev pub filled : ℕ → List (List ℕ) → List ℕ → TcSegment
filled map_id packets cut = record {
  boundary = unsegmented;
  map_id = map_id;
  payload = concat packets ++ cut;
}

module _ {W : Type 0} (handler : Part → W → Code × W) where
  -- The specification: the handler is called for each packet in turn until it fails, and after all
  -- of them `finish` is the result.
  abbrev pub in_turn : TcSegment → Code → List (List ℕ) → W → Code × W
  in_turn segment finish [] w = (finish, w)
  in_turn segment finish (packet ∷ packets) w =
      let (ret, w') = handler (whole_part segment packet) w in
      let rest = in_turn segment finish packets w' in on_success ret w' rest

  packet_len-append :
      (packet rest : List ℕ)
      → IsPacketBytes packet
      → encoded_packet_len (packet ++ rest) ≡ length packet
  unfolding encoded_packet_len
  packet_len-append (a ∷ b ∷ c ∷ d ∷ e ∷ f ∷ packet) rest p = p.whole
  packet_len-append [] rest p = absurd (omega (arith, p.header))
  packet_len-append (a ∷ []) rest p = absurd (omega (arith, p.header))
  packet_len-append (a ∷ b ∷ []) rest p = absurd (omega (arith, p.header))
  packet_len-append (a ∷ b ∷ c ∷ []) rest p = absurd (omega (arith, p.header))
  packet_len-append (a ∷ b ∷ c ∷ d ∷ []) rest p = absurd (omega (arith, p.header))
  packet_len-append (a ∷ b ∷ c ∷ d ∷ e ∷ []) rest p = absurd (omega (arith, p.header))

  walk_packets-step :
      (fuel : ℕ) (segment : TcSegment) (packet rest : List ℕ) (w : W)
      → IsPacketBytes packet
      → walk_packets handler (suc fuel) segment (packet ++ rest) w
        ≡ on_success
            (handler (whole_part segment packet) w).0
            (handler (whole_part segment packet) w).1
            (walk_packets handler fuel segment rest (handler (whole_part segment packet) w).1)
  unfolding walk_packets emit_part
  walk_packets-step fuel segment packet rest w p =
      rw
        (
          packet_len-append packet rest p,
          take-append packet rest (length packet) refl,
          drop-append packet rest (length packet) refl,
          length-append packet rest,
          enough,
          has_header,
          not_cut,
        )
        refl
    where
      enough : ltb 0 (length packet + length rest) ≡ true
      enough = ground (arith, p.header)

      has_header : ltb (length packet + length rest) primary_hdr_len ≡ false
      has_header = ground (arith, p.header)

      not_cut : ltb (length packet + length rest) (length packet) ≡ false
      not_cut = ground arith

  abbrev pub end_code : List ℕ → Code
  end_code cut = if length cut == 0 then success else failure einval

  walk_packets-in_turn :
      (fuel : ℕ) (segment : TcSegment) (packets : List (List ℕ)) (cut : List ℕ) (w : W)
      → length (concat packets ++ cut) ≤ fuel
      → All IsPacketBytes packets
      → IsCut cut
      → walk_packets handler fuel segment (concat packets ++ cut) w
        ≡ in_turn segment (end_code cut) packets w
  walk_packets-in_turn zero segment [] cut w enough good c = unfold walk_packets in ground arith
  walk_packets-in_turn (suc fuel) segment [] cut w enough good c =
      unfold walk_packets in ground (arith, c.short)
  walk_packets-in_turn zero segment (packet ∷ packets) cut w enough good c = absurd (
      omega (
        arith,
        enough,
        good.0.header,
        length-append (packet ++ concat packets) cut,
        length-append packet (concat packets),
      ))
  walk_packets-in_turn (suc fuel) segment (packet ∷ packets) cut w enough good c =
      rw
        (
          append_assoc packet (concat packets) cut,
          walk_packets-step fuel segment packet (concat packets ++ cut) w good.0,
          walk_packets-in_turn fuel segment packets cut (handler (whole_part segment packet) w).1
              (omega (
                arith,
                enough,
                good.0.header,
                ap length (append_assoc packet (concat packets) cut),
                length-append packet (concat packets ++ cut),
              ))
              good.1 c,
        )
        refl

  -- Of an unsegmented segment that holds whole packets and then perhaps a part of one, the handler
  -- is given each whole packet in order, marked as starting and ending it, until it returns
  -- something other than 0, which is then the result; after the last packet the result is 0, or
  -- EINVAL if a part of a packet is left. A segment with no data is refused with EINVAL.
  pub walk_parts-unsegmented :
      (map_id : ℕ) (packets : List (List ℕ)) (cut : List ℕ) (w : W)
      → All IsPacketBytes packets
      → IsCut cut
      → walk_parts handler (filled map_id packets cut) w ≡ (
          if length (concat packets ++ cut) == 0
          then (failure einval, w)
          else in_turn (filled map_id packets cut) (end_code cut) packets w)
  unfolding walk_parts
  walk_parts-unsegmented map_id packets cut w good c =
      rw
        (walk_packets-in_turn (length (concat packets ++ cut)) (filled map_id packets cut) packets
          cut w (omega arith) good c)
        refl
