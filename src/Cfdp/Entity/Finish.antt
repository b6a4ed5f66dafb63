-- ===== src/Cfdp/Entity/Finish.antt =====
-- The end of a receiver's transaction: connectivity/ccsds/ccsds_cfdp_entity.c.
use akira_ccsds.Base.{ℕ}
use akira_ccsds.Base.{Bool, true, false, ◌&&◌, not, none, List}
use akira_ccsds.Base.{if◌then◌else◌}
use akira_ccsds.Cfdp.{filestore_rejection, done}
use akira_ccsds.Cfdp.{fail}
use akira_ccsds.Cfdp.Entity.{Return}
use akira_ccsds.Cfdp.Entity.{Slot, empty_slot, State, Ops}
use akira_ccsds.Cfdp.Entity.{arm_retry, is_acknowledged, set_receiver}
use akira_ccsds.Cfdp.Entity.{set_world, emit_terminal_event}
use akira_ccsds.Cfdp.Entity.Receiver.{is_ok, rejected_unless}
use akira_ccsds.Cfdp.Entity.Receiver.{send_finished_for_receiver_status}

-- What `receiver_finish` returns in the end: the status, or the one of the Finished PDU when the
-- status is OK.
abbrev pub first_failure : Return → Return → Return
first_failure status finished_status = if is_ok status then finished_status else status

abbrev pub without_handle : {H : Type 0} → Slot H → Slot H
without_handle slot = record slot { file_handle_open = false; file_handle = none }

module _ {W H : Type 0} where
  -- `ccsds_cfdp_entity_release_receiver_transaction`
  unfoldable pub release_receiver_transaction : State W H → State W H
  release_receiver_transaction s = set_receiver empty_slot s

  unfoldable pub release_receiver_terminal : Ops W H → Return → State W H → State W H
  release_receiver_terminal ops status s =
      release_receiver_transaction (emit_terminal_event ops s.entity.receiver.id status s)

  -- `filestore->close` where a handle is open: whether it returned 0, and the world.
  unfoldable pub close_open_handle : Ops W H → Slot H → W → Bool × W
  close_open_handle ops slot world =
      if slot.file_handle_open then ops.close slot.file_handle world else (true, world)

  unfoldable pub close_discard_receiver : Ops W H → State W H → State W H
  close_discard_receiver ops s =
      let slot = s.entity.receiver in
      let closed = close_open_handle ops slot s.world in
      let discarded = ops.discard_tmp slot.destination_path closed.1 in
      if not slot.filestore_set
      then s
      else set_world discarded.1 (set_receiver (without_handle slot) s)

  unfoldable pub fail_receiver_active_transaction : Ops W H → Return → State W H → State W H
  fail_receiver_active_transaction ops status s =
      let closed =
        if s.entity.receiver.waiting_for_finished_ack then s else close_discard_receiver ops s in
      release_receiver_terminal ops status closed

  -- The file is committed when all went well so far, and discarded otherwise.
  unfoldable pub settle_file : Ops W H → List ℕ → Return → W → Return × W
  settle_file ops path (done u) world =
      let committed = ops.commit_tmp path world in (rejected_unless committed.0, committed.1)
  settle_file ops path (fail status) world =
      let discarded = ops.discard_tmp path world in (fail status, discarded.1)

  -- The first part of `receiver_finish`: the handle closed and the file settled.
  unfoldable pub settle : Ops W H → Return → State W H → Return × State W H
  settle ops status s =
      let slot = s.entity.receiver in
      let closed = close_open_handle ops slot s.world in
      let closing : Return =
        if is_ok status && not closed.0 then fail filestore_rejection else status in
      let settled = settle_file ops slot.destination_path closing closed.1 in
      (settled.0, set_world settled.1 (set_receiver (without_handle slot) s))

  -- The last part of `receiver_finish`, with the result of the Finished PDU.
  unfoldable pub conclude : Ops W H → Return → Return → State W H → Return × State W H
  conclude ops status finished_status s =
      let clock = ops.now_ms s.world in
      let slot = s.entity.receiver in
      if is_acknowledged slot
      then (if is_ok finished_status
          then (
            status,
            set_world clock.1 (
                set_receiver
                  (arm_retry
                    (record slot {
                      recovery_pending = false;
                      waiting_for_finished_ack = true;
                      retry_count = 0;
                    })
                    clock.0)
                  s),
          )
          else (
            first_failure status finished_status,
            release_receiver_terminal ops finished_status s,
          ))
      else (
        first_failure status finished_status,
        release_receiver_terminal ops (first_failure status finished_status) s,
      )

  unfoldable pub receiver_finish : Ops W H → Return → State W H → Return × State W H
  receiver_finish ops status s =
      let settled = settle ops status s in
      let noted =
        set_receiver (record settled.1.entity.receiver { finished_status = settled.0 }) settled.1 in
      let sent = send_finished_for_receiver_status ops settled.0 noted in
      if s.entity.receiver.closure_requested
      then (if not sent.1.entity.receiver.active
          then (first_failure settled.0 sent.0, sent.1)
          else conclude ops settled.0 sent.0 sent.1)
      else conclude ops settled.0 (done tt) settled.1
