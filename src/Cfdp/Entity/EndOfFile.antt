-- ===== src/Cfdp/Entity/EndOfFile.antt =====
-- What a receiver does with EOF and ACK PDUs: connectivity/ccsds/ccsds_cfdp_entity.c.
use akira_ccsds.Base.{ℕ, ◌+◌}
use akira_ccsds.Base.{true, ◌&&◌, ◌||◌, not, List}
use akira_ccsds.Base.{leb, ◌==◌, if◌then◌else◌}
use akira_ccsds.Base.{length}
use akira_ccsds.Base.{u32}
use akira_ccsds.Cfdp.{invalid_argument, unsupported}
use akira_ccsds.Cfdp.{file_size_error, inactivity_detected, done}
use akira_ccsds.Cfdp.{fail}
use akira_ccsds.Cfdp.Ranges
use akira_ccsds.Cfdp.Ranges.{Range, Ranges}
use akira_ccsds.Cfdp.Pdu.{transmission_mode_acknowledged}
use akira_ccsds.Cfdp.Pdu.Eof.{EofPdu, decode_eof}
use akira_ccsds.Cfdp.Pdu.Finished.{directive_finished}
use akira_ccsds.Cfdp.Pdu.Ack.{decode_ack, ack_subtype_finished}
use akira_ccsds.Cfdp.Entity.{max_nak_rounds, Return}
use akira_ccsds.Cfdp.Entity.{State, Ops}
use akira_ccsds.Cfdp.Entity.{
  transaction_id_matches, transaction_id_from_header, incoming_header_is_supported, arm_retry,
  retry_due, is_acknowledged, set_receiver,
}
use akira_ccsds.Cfdp.Entity.{set_world}
use akira_ccsds.Cfdp.Entity.Receiver.{condition_no_error}
use akira_ccsds.Cfdp.Entity.Receiver.{receiver_match_active}
use akira_ccsds.Cfdp.Entity.Receiver.{
  send_ack_eof, send_nak_for_missing_ranges, send_finished_for_receiver_status,
}
use akira_ccsds.Cfdp.Entity.Finish.{release_receiver_terminal, close_discard_receiver}
use akira_ccsds.Cfdp.Entity.Finish.{receiver_finish}
use akira_ccsds.Cfdp.Entity.Handlers.{verify_and_finish}

module _ {W H : Type 0} (ops : Ops W H) where
  -- An EOF PDU with ranges missing: NAK in acknowledged mode, or the end.
  unfoldable pub request_missing : EofPdu → State W H → Return × State W H
  request_missing eof s =
      let slot = record s.entity.receiver {
        eof_received = true;
        eof_checksum = eof.file_checksum;
      } in
      let sent = send_nak_for_missing_ranges ops (set_receiver slot s) in
      let clock = ops.now_ms sent.1.world in
      let waiting =
        arm_retry (record sent.1.entity.receiver { recovery_pending = true; retry_count = 0 })
          clock.0 in
      if is_acknowledged s.entity.receiver
      then elim sent.0 [
        | fail status ↦ receiver_finish ops (fail status) sent.1
        | done u ↦ (done tt, set_world clock.1 (set_receiver waiting sent.1))
      ]
      else receiver_finish ops (fail file_size_error) s

  -- An EOF PDU without error, from the test for completeness on.
  unfoldable pub conclude_eof : EofPdu → State W H → Return × State W H
  conclude_eof eof s = elim (Ranges.is_complete s.entity.receiver.received_ranges 0 eof.file_size) [
    | fail status ↦ receiver_finish ops (fail status) s
    | done whole ↦
        if whole then verify_and_finish ops eof.file_checksum s else request_missing eof s
  ]

  -- `receiver_handle_eof`, once the transaction is known to be the active one.
  unfoldable pub accept_eof : EofPdu → State W H → Return × State W H
  accept_eof eof s =
      let slot = s.entity.receiver in
      let noted = set_receiver (record slot { eof_checksum = eof.file_checksum }) s in
      let acknowledged = send_ack_eof ops eof.condition_code noted in
      if slot.waiting_for_finished_ack
      then send_finished_for_receiver_status ops slot.finished_status s
      else if not (eof.condition_code == condition_no_error)
          || not (eof.file_size == slot.file_size)
      then receiver_finish ops (fail file_size_error)
          (if is_acknowledged slot then acknowledged.1 else noted)
      else if is_acknowledged slot
      then elim acknowledged.0 [
        | fail status ↦ (fail status, acknowledged.1)
        | done u ↦ conclude_eof eof acknowledged.1
      ]
      else conclude_eof eof noted

  unfoldable pub receiver_handle_eof : List ℕ → State W H → Return × State W H
  receiver_handle_eof pdu s = elim (decode_eof pdu) [
    | fail status ↦ (fail status, s)
    | done found ↦
        if not (found.1 == length pdu) || not (incoming_header_is_supported s.entity found.0.header)
        then (fail unsupported, s)
        else elim (receiver_match_active s.entity found.0.header) [
          | fail status ↦ (fail status, s)
          | done u ↦ accept_eof found.0 s
        ]
  ]

  unfoldable pub receiver_handle_ack : List ℕ → State W H → Return × State W H
  receiver_handle_ack pdu s = elim (decode_ack pdu) [
    | fail status ↦ (fail status, s)
    | done found ↦
        let ack = found.0 in
        let slot = s.entity.receiver in
        if not (found.1 == length pdu) || not (incoming_header_is_supported s.entity ack.header)
        then (fail unsupported, s)
        else if not (ack.acknowledged_directive == directive_finished)
            || not (ack.directive_subtype == ack_subtype_finished)
            || not (ack.header.transmission_mode == transmission_mode_acknowledged)
        then (fail unsupported, s)
        else if not slot.active
            || not (transaction_id_matches slot.id (transaction_id_from_header ack.header))
        then (fail invalid_argument, s)
        else (done tt, release_receiver_terminal ops slot.finished_status s)
  ]

  -- The first part of `ccsds_cfdp_entity_poll`: a receiver that waits for missing ranges.
  unfoldable pub poll_recovery : ℕ → State W H → State W H
  poll_recovery now_ms s =
      let slot = s.entity.receiver in
      let sent = send_nak_for_missing_ranges ops s in
      let after = sent.1.entity.receiver in
      let retried : State W H = elim sent.0 [
        | fail status ↦
            release_receiver_terminal ops (fail status) (close_discard_receiver ops sent.1)
        | done u ↦
            set_receiver
              (arm_retry (record after { retry_count = u32 (after.retry_count + 1) }) now_ms) sent.1
      ] in
      if slot.active && is_acknowledged slot && slot.recovery_pending && retry_due slot now_ms
      then (if leb max_nak_rounds slot.retry_count
          then release_receiver_terminal ops (fail inactivity_detected)
              (close_discard_receiver ops s)
          else retried)
      else s

  -- The second part: a receiver that waits for the ACK of its Finished PDU.
  unfoldable pub poll_finished : ℕ → State W H → State W H
  poll_finished now_ms s =
      let slot = s.entity.receiver in
      let sent = send_finished_for_receiver_status ops slot.finished_status s in
      let after = sent.1.entity.receiver in
      let retried : State W H = elim sent.0 [
        | fail status ↦ release_receiver_terminal ops (fail status) sent.1
        | done u ↦
            set_receiver
              (arm_retry (record after { retry_count = u32 (after.retry_count + 1) }) now_ms) sent.1
      ] in
      if slot.active
        && is_acknowledged slot
        && slot.waiting_for_finished_ack
        && retry_due slot now_ms
      then (if leb max_nak_rounds slot.retry_count
          then release_receiver_terminal ops (fail inactivity_detected) s
          else retried)
      else s
