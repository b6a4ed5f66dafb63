-- ===== src/Cfdp/Entity/SendFile.antt =====
-- `ccsds_cfdp_entity_send_file` of connectivity/ccsds/ccsds_cfdp_entity.c.
use akira_ccsds.Base.{ℕ, zero, suc, ◌+◌, ◌-◌, min}
use akira_ccsds.Base.{Bool, true, false, ◌&&◌, ◌||◌, not, Option, none, some, List}
use akira_ccsds.Base.{ltb, leb, ◌==◌, if◌then◌else◌}
use akira_ccsds.Base.{length}
use akira_ccsds.Base.{u32}
use akira_ccsds.Cfdp.{invalid_argument}
use akira_ccsds.Cfdp.{file_size_error, inactivity_detected, filestore_rejection, Outcome, done}
use akira_ccsds.Cfdp.{fail, ◌>>=◌}
use akira_ccsds.Cfdp.Checksum
use akira_ccsds.Cfdp.Checksum.{Checksum}
use akira_ccsds.Cfdp.Pdu.{transmission_mode_acknowledged, transmission_mode_unacknowledged}
use akira_ccsds.Cfdp.Pdu.Metadata.{max_filename_len}
use akira_ccsds.Cfdp.Entity.{max_segment_size, Return, TransactionId}
use akira_ccsds.Cfdp.Entity.{Slot, Entity, State, Ops}
use akira_ccsds.Cfdp.Entity.{arm_retry}
use akira_ccsds.Cfdp.Entity.{set_sender, set_world}
use akira_ccsds.Cfdp.Entity.Sender.{PutRequest, create_sender_transaction, send_metadata}
use akira_ccsds.Cfdp.Entity.Sender.{
  send_filedata, send_eof, close_sender_handle, release_sender_terminal,
}

-- `bounded_strlen` looks no further than one byte beyond the limit.
unfoldable pub path_len_is_valid : List ℕ → Bool
path_len_is_valid path = not (length path == 0) && leb (length path) max_filename_len

unfoldable pub is_null : {H : Type 0} → Option H → Bool
is_null none = true
is_null (some handle) = false

module _ {H : Type 0} where
  -- The sender's slot for a request, before the file is opened.
  unfoldable pub requested_slot : PutRequest → Slot H → Slot H
  requested_slot request slot = record slot {
    closure_requested = request.closure_requested;
    transmission_mode =
        if request.acknowledged_mode
        then transmission_mode_acknowledged
        else transmission_mode_unacknowledged;
    source_path = request.source_path;
    destination_path = request.destination_path;
  }

module _ {W H : Type 0} (ops : Ops W H) where
  -- The loop over the file, on fuel: every round that goes on reads a byte, so `file_size` rounds
  -- are enough.
  unfoldable pub send_segments :
      Option H → ℕ → ℕ → ℕ → Checksum → State W H → Outcome Checksum × State W H
  send_segments handle file_size zero offset state s = (done state, s)
  send_segments handle file_size (suc fuel) offset state s =
      let request_len = min (file_size - offset) max_segment_size in
      let found = ops.read handle offset request_len s.world in
      let read = set_world found.1 s in
      let step : Outcome Checksum × State W H = elim found.0 [
        | none ↦ (fail filestore_rejection, read)
        | some bytes ↦
            let sent = send_filedata ops offset bytes read in
            let go_on : Outcome Checksum × State W H = elim sent.0 [
              | fail status ↦ (fail status, sent.1)
              | done u ↦
                  elim (Checksum.update ops.crc32_c ops.crc32_ieee_update state offset bytes) [
                    | fail status ↦ (fail status, sent.1)
                    | done next ↦
                        send_segments handle file_size fuel (u32 (offset + length bytes)) next
                          sent.1
                  ]
            ] in
            if (length bytes == 0) || ltb request_len (length bytes)
            then (fail file_size_error, read)
            else go_on
      ] in
      if ltb offset file_size then step else (done state, s)

  -- From the label `out_release` on, for a transaction that does not go on.
  unfoldable pub out_release : Bool → Return → State W H → Return × State W H
  out_release handle_open status s =
      let closed =
        if handle_open && s.entity.sender.file_handle_open then close_sender_handle ops s else s in
      let released =
        if closed.entity.sender.active then release_sender_terminal ops status closed else closed in
      (
        status,
        record released { entity = record released.entity { sender_completion_available = false } },
      )

  -- The status behind a sent EOF when nothing more is awaited.
  unfoldable pub closing_status : PutRequest → Entity H → Return
  closing_status request entity =
      if request.closure_requested && entity.sender_completion_available
      then entity.sender_completion_status
      else if request.closure_requested && entity.sender.finished_received
      then entity.sender.finished_status
      else if request.closure_requested && ops.has_clock
      then fail inactivity_detected
      else done tt

  -- The end of the file: the EOF PDU, and the wait for the Finished PDU in acknowledged mode.
  unfoldable pub send_end : PutRequest → ℕ → ℕ → State W H → Return × State W H
  send_end request checksum file_size s =
      let noted = set_sender (record s.entity.sender { eof_checksum = checksum }) s in
      let sent = send_eof ops checksum file_size noted in
      let slot = sent.1.entity.sender in
      let clock = ops.now_ms sent.1.world in
      elim sent.0 [
        | fail status ↦ out_release true (fail status) sent.1
        | done u ↦
            if request.acknowledged_mode && slot.active && not slot.finished_received
            then (
              done tt,
              set_world clock.1
                  (set_sender (arm_retry (record slot { retry_count = 0 }) clock.0) sent.1),
            )
            else out_release true (closing_status request sent.1.entity) sent.1
      ]

  -- From the opened file on.
  unfoldable pub send_opened : PutRequest → Checksum → Option H → ℕ → State W H → Return × State W H
  send_opened request state handle file_size s =
      let sent = send_metadata ops request file_size s in
      let segments = send_segments handle file_size file_size 0 state sent.1 in
      let finished = segments.0 >>= (λ final. Checksum.finish final) in
      elim sent.0 [
        | fail status ↦ out_release true (fail status) sent.1
        | done u ↦ elim finished [
          | fail status ↦ out_release true (fail status) segments.1
          | done checksum ↦ send_end request checksum file_size segments.1
        ]
      ]

  -- `filestore->open_read`, and the transaction from there on.
  unfoldable pub run_sender : PutRequest → Checksum → State W H → Return × State W H
  run_sender request state s =
      let opened = ops.open_read request.source_path s.world in
      let tried = set_world opened.1 s in
      elim opened.0 [
        | none ↦ out_release false (fail filestore_rejection) tried
        | some file ↦
            if is_null file.0 && ltb 0 file.1
            then out_release false (fail filestore_rejection) tried
            else send_opened request state file.0 file.1 (
                set_sender
                  (record tried.entity.sender {
                    file_handle_open = true;
                    file_handle = file.0;
                    filestore_set = true;
                    file_size = file.1;
                    checksum_type = request.checksum_type;
                  })
                  tried)
      ]

  -- The status, with the transaction ID that is stored.
  unfoldable pub send_file : PutRequest → State W H → Outcome TransactionId × (Return × State W H)
  send_file request s =
      let created = create_sender_transaction s.entity in
      let started : State W H = record s {
        entity = record created.1 {
          sender_completion_available = false;
          sender_completion_status = done tt;
          sender = requested_slot request created.1.sender;
        };
      } in
      if not (path_len_is_valid request.source_path)
        || not (path_len_is_valid request.destination_path)
      then (fail invalid_argument, (fail invalid_argument, s))
      else elim (Checksum.init request.checksum_type) [
        | fail status ↦ (fail status, (fail status, s))
        | done state ↦ elim created.0 [
          | fail status ↦ (fail status, (fail status, s))
          | done id ↦ (done id, run_sender request state started)
        ]
      ]
