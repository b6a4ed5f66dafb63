-- ===== src/Tc/Examples.antt =====
-- An uplink: two BCH blocks, one of them hit, a frame, and a segment of two packets.
use akira_ccsds.Base.{ℕ}
use akira_ccsds.Base.{◌≡◌, refl, inl, arith}
use akira_ccsds.Base.{true, false, some, List, [], ◌∷◌, ◌++◌}
use akira_ccsds.Base.{take, replicate, concat}
use akira_ccsds.Base.{all_bytes_sound}
use akira_ccsds.Base.{ok, Code, success}
use akira_ccsds.Tc.Bch.{data_size, intact, corrected, detected_even}
use akira_ccsds.Tc.Bch.{block_bit, shift_in, scan_bit, scan, previous_single, find_single, flip}
use akira_ccsds.Tc.Bch.{correct, decode_block}
use akira_ccsds.Tc.Bch.Correction.{IsBlock, decode_block-single, decode_block-double}
use akira_ccsds.Tc.Cltu.{is_start_sequence, tail_sequence, decode_message}
use akira_ccsds.Tc.Cltu.Delivery.{
  IsIntact, Delivered, harmed, unharmed, none_left, another, decode_message-Delivered,
}
use akira_ccsds.Tc.Frame.{TcFrame, decode, fill_byte}
use akira_ccsds.Tc.Frame.RoundTrip.{IsFrame, layout, decode-layout}
use akira_ccsds.Tc.Segment.{encoded_packet_len, on_success, unsegmented, Part, walk_parts}
use akira_ccsds.Tc.Segment.Walk.{IsPacketBytes, filled, walk_parts-unsegmented}

abbrev zero_block : List ℕ
zero_block = 0 ∷ 0 ∷ 0 ∷ 0 ∷ 0 ∷ 0 ∷ 0 ∷ 0xfe ∷ []

zero_block-IsBlock : IsBlock zero_block
zero_block-IsBlock = record { size = refl; bytes = all_bytes_sound zero_block refl }

zero_block-intact : (decode_block zero_block).verdict ≡ intact
unfolding decode_block correct scan scan_bit shift_in block_bit flip previous_single find_single
zero_block-intact = refl

decode_block-single_example :
    decode_block (flip 20 zero_block)
    ≡ record { verdict = corrected; payload = take data_size zero_block; corrected_bit = some 20 }
decode_block-single_example =
    decode_block-single zero_block 20 zero_block-IsBlock (omega arith) zero_block-intact

decode_block-double_example : (decode_block (flip 33 (flip 20 zero_block))).verdict ≡ detected_even
decode_block-double_example =
    decode_block-double zero_block 20 33 zero_block-IsBlock (omega arith) (omega arith)
      (λ e. absurd (omega arith)) zero_block-intact

zero_block-IsIntact : IsIntact zero_block
zero_block-IsIntact = (zero_block-IsBlock, zero_block-intact)

second_hit : Delivered (zero_block ∷ zero_block ∷ []) (zero_block ∷ flip 20 zero_block ∷ [])
second_hit = another unharmed (another (harmed 20 (omega arith)) none_left)

start_eb90 : is_start_sequence (0xeb ∷ 0x90 ∷ []) ≡ true
unfolding is_start_sequence
start_eb90 = refl

decode_message-Delivered_example :
    decode_message (0xeb ∷ 0x90 ∷ concat (zero_block ∷ flip 20 zero_block ∷ []) ++ tail_sequence) 64
    ≡ ok (replicate 14 0)
decode_message-Delivered_example =
    decode_message-Delivered 0xeb 0x90 (zero_block ∷ zero_block ∷ [])
      (zero_block ∷ flip 20 zero_block ∷ []) 64 start_eb90 (omega arith) (omega arith)
      (zero_block-IsIntact, (zero_block-IsIntact, tt)) second_hit (omega arith)

abbrev frame : TcFrame
frame = record {
  spacecraft_id = 300;
  virtual_channel_id = 2;
  bypass = true;
  control_command = false;
  frame_sequence_number = 17;
  payload = 9 ∷ 8 ∷ 7 ∷ [];
}

frame-IsFrame : IsFrame frame
frame-IsFrame = record {
  scid_fits = omega arith;
  vcid_fits = omega arith;
  number_fits = omega arith;
  length_fits = omega arith;
}

decode-layout_example : decode 300 (layout 0 frame ++ replicate 4 fill_byte) ≡ ok frame
decode-layout_example = decode-layout frame 0 4 300 frame-IsFrame (omega arith)

abbrev packet : List ℕ
packet = 0x18 ∷ 5 ∷ 0xc0 ∷ 0 ∷ 0 ∷ 1 ∷ 3 ∷ 4 ∷ []

packet-IsPacketBytes : IsPacketBytes packet
unfolding encoded_packet_len
packet-IsPacketBytes = record { header = omega arith; whole = refl }

-- The handler records the parts.
abbrev keep : Part → List Part → Code × List Part
keep part w = (success, part ∷ w)

abbrev whole : Part
whole = record {
  map_id = 1;
  segment_boundary = unsegmented;
  starts_packet = true;
  ends_packet = true;
  payload = packet;
  packet_len = 8;
}

walk_parts-unsegmented_example :
    walk_parts keep (filled 1 (packet ∷ packet ∷ []) []) [] ≡ (success, whole ∷ whole ∷ [])
unfolding on_success
walk_parts-unsegmented_example =
    walk_parts-unsegmented keep 1 (packet ∷ packet ∷ []) [] []
      (packet-IsPacketBytes, (packet-IsPacketBytes, tt)) (record { short = inl (omega arith) })
