-- ===== src/Tm/Generator.antt =====
-- The generator's cycle and the work handler that runs it.
use akira_ccsds.Base.{ℕ, suc}
use akira_ccsds.Base.{Bool, true, false, ◌||◌, not, Option, none, some, List, [], ◌∷◌}
use akira_ccsds.Base.{ltb, if◌then◌else◌}
use akira_ccsds.Tm.State.{Config, max_vc_id}
use akira_ccsds.Tm.State.{PipeOps, Vc, Tm, WorkRequest, schedule}
use akira_ccsds.Tm.Build.{build_idle_transfer_frame, build_packet_transfer_frame}
use akira_ccsds.Tm.Build.{code_transfer_frame}
use akira_ccsds.Tm.Routes.{route_frame}

unfoldable pub vc_has_pending_bytes : {P : Type 0} → Vc P → Bool
vc_has_pending_bytes vc = ltb 0 vc.pending_len || ltb 0 vc.packet_rem

-- The loop of `generator_select_active_vc` from channel `i` on.
unfoldable pub select_from : {P : Type 0} → ℕ → List (Vc P) → Option ℕ
select_from i [] = none
select_from i (vc ∷ vcs) =
    let rest = select_from (suc i) vcs in if vc_has_pending_bytes vc then some i else rest

module _ {P R C W : Type 0} (ops : PipeOps P) (c : Config) (clcw : C → W → Option ℕ × W)
    (call : R → ℕ → List ℕ → W → W) where
  unfoldable pub generator_select_active_vc : Tm P R C → Option ℕ
  generator_select_active_vc tm = select_from 0 tm.vcs

  unfoldable pub idle_cycle : Tm P R C → W → Tm P R C × W
  idle_cycle tm w =
      let (frame, tm', w') = build_idle_transfer_frame ops c clcw tm max_vc_id w in
      (tm', route_frame call ops tm' max_vc_id (code_transfer_frame c frame) w')

  unfoldable pub packet_cycle : Tm P R C → ℕ → W → Tm P R C × W
  packet_cycle tm vcid w =
      let (built, tm', w') = build_packet_transfer_frame ops c clcw tm vcid w in
      elim built [
        | none ↦ (tm', w')
        | some frame ↦ (tm', route_frame call ops tm' vcid (code_transfer_frame c frame) w')
      ]

  -- Whether the cycle was active, with the new state.
  unfoldable pub generator_cycle : Tm P R C → W → Bool × Tm P R C × W
  generator_cycle tm w = elim (generator_select_active_vc tm) [
    | none ↦
        let noted : Tm P R C = record tm { last_cycle_active = false; last_vcid = max_vc_id } in
        let (tm', w') = idle_cycle noted w in (false, tm', w')
    | some vcid ↦
        let noted : Tm P R C = record tm { last_cycle_active = true; last_vcid = vcid } in
        let (tm', w') = packet_cycle noted vcid w in (true, tm', w')
  ]

  -- The delay that is chosen after a cycle.
  abbrev pub next_delay : Tm P R C → Bool → ℕ
  next_delay tm active = if active then tm.active_delay else tm.idle_delay

  -- `generator_work_handler`, where nobody stops the generator while the cycle runs; the request to
  -- the kernel is made at the end.
  unfoldable pub generator_work_handler : Tm P R C → W → Option WorkRequest × Tm P R C × W
  generator_work_handler tm w =
      let (active, tm', w') = generator_cycle tm w in
      if not tm.running
      then (none, tm, w)
      else (if tm'.running then some (schedule (next_delay tm' active)) else none, tm', w')
