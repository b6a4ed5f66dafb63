-- ===== src/Tm/Build.antt =====
-- The construction of one frame: the header, the data field out of the queued packets, the
-- operational control field, the checksum; and its channel coding.
use akira_ccsds.Base.{ℕ, zero, suc, ◌+◌, ◌-◌, min, bit_or}
use akira_ccsds.Base.{◌&&◌, ◌||◌, not, Option, none, some, List, [], ◌∷◌, ◌++◌}
use akira_ccsds.Base.{ltb, leb, ◌==◌, if◌then◌else◌}
use akira_ccsds.Base.{length, set, replicate}
use akira_ccsds.Base.{u8, u16, shl, low_bits, get_be16, be16, be32}
use akira_ccsds.Base.{eio, Result, ok, err}
use akira_ccsds.SpacePacket.{apid_max, primary_hdr_len, sequence_unsegmented}
use akira_ccsds.Crc16.{compute}
use akira_ccsds.Randomizer.{apply}
use akira_ccsds.ReedSolomon.{rs_encode}
use akira_ccsds.Tm.State.{Config, space_packet_min_len, ocf_len}
use akira_ccsds.Tm.State.{data_len, PipeOps, Vc, Tm}
use akira_ccsds.Tm.State.{vc_at}
use akira_ccsds.Tm.Pending.{sub_size, read_pending_bytes}

abbrev pub no_first_header_pointer : ℕ
no_first_header_pointer = 0x7ff

abbrev pub idle_first_header_pointer : ℕ
idle_first_header_pointer = 0x7fe

-- `packet_total_len`
unfoldable pub packet_total_len : List ℕ → ℕ
packet_total_len packet = primary_hdr_len + get_be16 packet 4 + 1

-- `build_primary_header` from the counters as they stand. The flags written as constants: no
-- secondary header, no synchronisation, no packet order, segment length id 3, OCF present.
unfoldable pub primary_header : Config → ℕ → ℕ → ℕ → ℕ → List ℕ
primary_header c vcid mcfc vcfc first_header_pointer =
    let word0 = bit_or (shl (low_bits c.spacecraft_id 10) 4) (bit_or (shl (low_bits vcid 3) 1) 1) in
    let word2 = bit_or (shl 3 11) (low_bits first_header_pointer 11) in
    be16 word0 ++ (u8 mcfc ∷ u8 vcfc ∷ be16 word2)

-- `append_ocf`: zeros are left where no provider is set or it fails.
abbrev pub ocf : Option ℕ → List ℕ
ocf none = replicate ocf_len 0
ocf (some clcw) = be32 clcw

-- `append_fecf`, over all that stands before it.
abbrev pub with_fecf : Config → List ℕ → List ℕ
with_fecf c body = if c.fecf then body ++ be16 (compute body) else body

-- `fill_idle_space_packet`
unfoldable pub idle_space_packet : ℕ → List ℕ
idle_space_packet len =
    if ltb len space_packet_min_len
    then replicate len 0
    else be16 apid_max
      ++ (be16 (shl sequence_unsegmented 14)
          ++ (be16 (u16 (len - primary_hdr_len - 1)) ++ replicate (len - primary_hdr_len) 0))

-- `increment_frame_counters`
unfoldable pub increment_frame_counters : {P R C : Type 0} → PipeOps P → Tm P R C → ℕ → Tm P R C
increment_frame_counters ops tm vcid = record tm {
  mcfc = u8 (tm.mcfc + 1);
  vcs = set tm.vcs vcid (record (vc_at ops tm vcid) { vcfc = u8 ((vc_at ops tm vcid).vcfc + 1) });
}

-- What the loop of `build_packet_transfer_frame` has made of the data field.
pub record Filled : Type 0 where
  pub used : List ℕ
  pub first_header_pointer : ℕ

-- The call of the CLCW provider, if there is one.
abbrev pub ask_clcw : {C W : Type 0} → (C → W → Option ℕ × W) → Option C → W → Option ℕ × W
ask_clcw clcw none w = (none, w)
ask_clcw clcw (some fn) w = clcw fn w

module _ {P : Type 0} (ops : PipeOps P) (c : Config) where
  -- The loop, on fuel: every round adds a byte to `used`, so the length of the data field is
  -- enough.
  unfoldable pub fill_data : ℕ → List ℕ → ℕ → Vc P → Result Filled × Vc P
  fill_data zero used fhp vc = (ok (record { used = used; first_header_pointer = fhp }), vc)
  fill_data (suc fuel) used fhp vc =
      let space = data_len c - length used in
      let chunk_len = min vc.packet_rem space in
      let chunk = read_pending_bytes ops chunk_len vc in
      let fhp' = if fhp == no_first_header_pointer then u16 (length used) else fhp in
      let header = read_pending_bytes ops primary_hdr_len vc in
      let stay : Result Filled × Vc P =
        (ok (record { used = used; first_header_pointer = fhp }), vc) in
      let continued : Result Filled × Vc P = elim chunk.0 [
        | err e ↦ (err e, chunk.1)
        | ok bytes ↦
            fill_data fuel (used ++ bytes) fhp
              (record (chunk.1) { packet_rem = sub_size (chunk.1).packet_rem chunk_len })
      ] in
      let opened : Result Filled × Vc P = elim header.0 [
        | err e ↦ (err e, header.1)
        | ok bytes ↦
            fill_data fuel (used ++ bytes) fhp'
              (record (header.1) { packet_rem = packet_total_len bytes - primary_hdr_len })
      ] in
      if not (ltb (length used) (data_len c) && (ltb 0 vc.packet_rem || ltb 0 vc.pending_len))
      then stay
      else if ltb 0 vc.packet_rem
      then continued
      else if ltb space primary_hdr_len
      then stay
      else if ltb vc.pending_len primary_hdr_len
      then (err eio, vc)
      else opened

  -- The data field with its idle packet, and the first header pointer.
  unfoldable pub close_data : Filled → Filled
  close_data f =
      let left = data_len c - length f.used in
      if ltb (length f.used) (data_len c)
      then record {
        used = f.used ++ idle_space_packet left;
        first_header_pointer =
            if (f.first_header_pointer == no_first_header_pointer) && leb space_packet_min_len left
            then u16 (length f.used)
            else f.first_header_pointer;
      }
      else f

  module _ {R C W : Type 0} (clcw : C → W → Option ℕ × W) where
    -- The frame around a data field.
    unfoldable pub frame_of : Tm P R C → ℕ → ℕ → List ℕ → Option ℕ → List ℕ
    frame_of tm vcid fhp field word =
        with_fecf c
          (primary_header c vcid tm.mcfc (vc_at ops tm vcid).vcfc fhp ++ (field ++ ocf word))

    unfoldable pub build_idle_transfer_frame : Tm P R C → ℕ → W → List ℕ × Tm P R C × W
    build_idle_transfer_frame tm vcid w =
        let (word, w') = ask_clcw clcw tm.clcw_provider w in
        (
          frame_of tm vcid idle_first_header_pointer (replicate (data_len c) 0) word,
          increment_frame_counters ops tm vcid,
          w',
        )

    unfoldable pub finish_frame : Tm P R C → ℕ → Filled → W → List ℕ × Tm P R C × W
    finish_frame tm vcid filled w =
        let (word, w') = ask_clcw clcw tm.clcw_provider w in
        let field = close_data filled in
        (
          frame_of tm vcid field.first_header_pointer field.used word,
          increment_frame_counters ops tm vcid,
          w',
        )

    -- The frame is `none` where the function returns an error.
    unfoldable pub build_packet_transfer_frame : Tm P R C → ℕ → W → Option (List ℕ) × Tm P R C × W
    build_packet_transfer_frame tm vcid w =
        let out = fill_data (data_len c) [] no_first_header_pointer (vc_at ops tm vcid) in
        let read : Tm P R C = record tm { vcs = set tm.vcs vcid (out.1) } in
        elim out.0 [
          | err e ↦ (none, read, w)
          | ok filled ↦
              let (frame, tm', w') = finish_frame read vcid filled w in (some frame, tm', w')
        ]

-- `code_transfer_frame`
unfoldable pub code_transfer_frame : Config → List ℕ → List ℕ
code_transfer_frame c frame =
    let body = if c.rs then frame ++ rs_encode frame else frame in
    0x1a ∷ 0xcf ∷ 0xfc ∷ 0x1d ∷ (if c.rnd then apply body else body)
