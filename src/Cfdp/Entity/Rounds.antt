-- ===== src/Cfdp/Entity/Rounds.antt =====
-- The loops over a file in connectivity/ccsds/ccsds_cfdp_entity.c do not depend on the fuel that
-- their models run on, once there is enough.
use akira_ccsds.Base.{ℕ, zero, suc, ◌+◌, ◌-◌, ◌^◌, ◌≤◌, ◌<◌, min}
use akira_ccsds.Base.{◌≡◌, refl, inl, inr, arith}
use akira_ccsds.Base.{Option}
use akira_ccsds.Base.{Option-cases}
use akira_ccsds.Base.{length}
use akira_ccsds.Base.{u32}
use akira_ccsds.Cfdp.{Outcome-cases}
use akira_ccsds.Cfdp.Checksum
use akira_ccsds.Cfdp.Checksum.{Checksum}
use akira_ccsds.Cfdp.Entity.{max_segment_size}
use akira_ccsds.Cfdp.Entity.{State, Ops}
use akira_ccsds.Cfdp.Entity.{set_world}
use akira_ccsds.Cfdp.Entity.Receiver.{checksum_loop}
use akira_ccsds.Cfdp.Entity.Sender.{send_filedata}
use akira_ccsds.Cfdp.Entity.Replies.{retransmit_loop}

module _ {W H : Type 0} (ops : Ops W H) where
  -- The checksum loop of `receiver_compute_checksum` ends within as many rounds as there are bytes
  -- left: any two amounts of fuel that are enough give the same result, whatever the file store
  -- does, for a file size of 32 bits.
  pub checksum_loop_enough :
      (handle : Option H) (file_size fuel more offset : ℕ) (state : Checksum) (world : W)
      → file_size < 2 ^ 32
      → offset ≤ file_size
      → file_size ≤ offset + fuel
      → file_size ≤ offset + more
      → checksum_loop ops handle file_size fuel offset state world
        ≡ checksum_loop ops handle file_size more offset state world
  unfolding checksum_loop
  checksum_loop_enough handle file_size zero zero offset state world small inside f m = refl
  checksum_loop_enough handle file_size zero (suc more) offset state world small inside f m =
      ground arith
  checksum_loop_enough handle file_size (suc fuel) zero offset state world small inside f m =
      ground arith
  checksum_loop_enough handle file_size (suc fuel) (suc more) offset state world small inside f m =
      let request_len = min (file_size - offset) max_segment_size in
      let found = ops.read handle offset request_len world in
      elim (Option-cases found.0) [
        | inl refused ↦ ground (arith, refused)
        | inr answered ↦
            let bytes = answered.0 in
            let updated = Checksum.update ops.crc32_c ops.crc32_ieee_update state offset bytes in
            elim (Outcome-cases updated) [
              | inl unsupported_type ↦ ground (arith, answered, unsupported_type)
              | inr next ↦ ground (
                arith,
                answered,
                next,
                checksum_loop_enough handle file_size fuel more (u32 (offset + length bytes)) next.0
                    found.1,
              )
            ]
      ]

  -- So does the loop of `sender_retransmit_range`.
  pub retransmit_loop_enough :
      (stop fuel more offset : ℕ) (s : State W H)
      → stop < 2 ^ 32
      → offset ≤ stop
      → stop ≤ offset + fuel
      → stop ≤ offset + more
      → retransmit_loop ops stop fuel offset s ≡ retransmit_loop ops stop more offset s
  unfolding retransmit_loop
  retransmit_loop_enough stop zero zero offset s small inside f m = refl
  retransmit_loop_enough stop zero (suc more) offset s small inside f m = ground arith
  retransmit_loop_enough stop (suc fuel) zero offset s small inside f m = ground arith
  retransmit_loop_enough stop (suc fuel) (suc more) offset s small inside f m =
      let request_len = min (stop - offset) max_segment_size in
      let found = ops.read s.entity.sender.file_handle offset request_len s.world in
      elim (Option-cases found.0) [
        | inl refused ↦ ground (arith, refused)
        | inr answered ↦
            let bytes = answered.0 in
            let sent = send_filedata ops offset bytes (set_world found.1 s) in
            elim (Outcome-cases sent.0) [
              | inl unsent ↦ ground (arith, answered, unsent)
              | inr accepted ↦ ground (
                arith,
                answered,
                accepted,
                retransmit_loop_enough stop fuel more (u32 (offset + length bytes)) sent.1,
              )
            ]
      ]
