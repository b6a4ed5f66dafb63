-- ===== src/Tm/Queue.antt =====
-- `ccsds_tm_frame_add`: a complete Space Packet is queued for a virtual channel.
use akira_ccsds.Base.{ℕ, zero, suc, ◌+◌}
use akira_ccsds.Base.{not, Option, none, some, List}
use akira_ccsds.Base.{ltb, ◌==◌, if◌then◌else◌}
use akira_ccsds.Base.{length, set, drop}
use akira_ccsds.Base.{Errno, einval, emsgsize, eio, Result, ok, err}
use akira_ccsds.Tm.State.{Config, max_vc_id, space_packet_min_len}
use akira_ccsds.Tm.State.{PipeOps, Vc, Tm}
use akira_ccsds.Tm.State.{vc_at}
use akira_ccsds.Tm.Build.{packet_total_len}

module _ {P : Type 0} (ops : PipeOps P) where
  -- The loop, with the bytes that are not written yet, on fuel: every round that goes on writes a
  -- byte, so the number of bytes is enough.
  unfoldable pub write_loop : ℕ → List ℕ → Vc P → Result (Unit {0}) × Vc P
  write_loop zero left vc = (ok tt, vc)
  write_loop (suc fuel) left vc =
      let wrote = ops.write left vc.pending in
      elim wrote.0 [
        | err e ↦ if length left == 0 then (ok tt, vc) else (err e, record vc { pending = wrote.1 })
        | ok n ↦
            let after : Vc P = record vc { pending = wrote.1; pending_len = vc.pending_len + n } in
            let rest = write_loop fuel (drop n left) after in
            if length left == 0
            then (ok tt, vc)
            else if n == 0
            then (err eio, record vc { pending = wrote.1 })
            else rest
      ]

  module _ {R C : Type 0} (c : Config) where
    -- `locked` is the error of `k_mutex_lock` within the caller's timeout, if it fails.
    unfoldable pub add : Tm P R C → ℕ → List ℕ → Option Errno → Result (Unit {0}) × Tm P R C
    add tm vcid packet locked =
        let out = write_loop (length packet) packet (vc_at ops tm vcid) in
        if ltb (length packet) space_packet_min_len
        then (err einval, tm)
        else if not (packet_total_len packet == length packet)
        then (err einval, tm)
        else if ltb c.max_space_packet_len (length packet)
        then (err emsgsize, tm)
        else if ltb c.queue_depth (length packet)
        then (err emsgsize, tm)
        else if ltb max_vc_id vcid
        then (err einval, tm)
        else elim locked [
          | some e ↦ (err e, tm)
          | none ↦ (out.0, record tm { vcs = set tm.vcs vcid (out.1) })
        ]
