-- ===== src/Cfdp/Entity/Replies.antt =====
-- What a sender does with Finished, ACK and NAK PDUs: connectivity/ccsds/ccsds_cfdp_entity.c.
use akira_ccsds.Base.{ℕ, zero, suc, ◌+◌, ◌-◌, min}
use akira_ccsds.Base.{Bool, true, ◌&&◌, ◌||◌, not, none, some, List, [], ◌∷◌}
use akira_ccsds.Base.{ltb, ◌==◌, if◌then◌else◌}
use akira_ccsds.Base.{length}
use akira_ccsds.Base.{u32}
use akira_ccsds.Cfdp.{invalid_argument, unsupported, invalid_transmission_mode, checksum_failure}
use akira_ccsds.Cfdp.{file_size_error, nak_limit_reached, cancel_request, filestore_rejection, done}
use akira_ccsds.Cfdp.{fail}
use akira_ccsds.Cfdp.Ranges.{Ranges}
use akira_ccsds.Cfdp.Pdu.{transmission_mode_acknowledged}
use akira_ccsds.Cfdp.Pdu.{PduHeader}
use akira_ccsds.Cfdp.Pdu.Eof.{directive_eof}
use akira_ccsds.Cfdp.Pdu.Finished.{FinishedPdu, decode_finished}
use akira_ccsds.Cfdp.Pdu.Ack.{decode_ack, ack_subtype_other}
use akira_ccsds.Cfdp.Pdu.Nak.{NakPdu, decode_nak}
use akira_ccsds.Cfdp.Entity.{max_segment_size, max_nak_rounds, Return}
use akira_ccsds.Cfdp.Entity.{Entity, State, Ops}
use akira_ccsds.Cfdp.Entity.{
  transaction_id_matches, transaction_id_from_header, incoming_finished_header_is_supported,
  is_acknowledged,
}
use akira_ccsds.Cfdp.Entity.{set_sender, set_world}
use akira_ccsds.Cfdp.Entity.Receiver.{
  condition_no_error, condition_filestore_rejection, condition_file_checksum_failure,
  condition_file_size_error,
}
use akira_ccsds.Cfdp.Entity.Sender.{
  send_filedata, send_eof, send_ack_finished, release_sender_terminal, sender_fail,
}
use akira_ccsds.Cfdp.Entity.SendFile.{is_null}

-- The status that a Finished PDU reports.
unfoldable pub reported_status : FinishedPdu → Return
reported_status p =
    if (p.condition_code == condition_no_error) && (p.delivery_code == 0)
    then done tt
    else if p.condition_code == condition_file_checksum_failure
    then fail checksum_failure
    else if p.condition_code == condition_file_size_error
    then fail file_size_error
    else if p.condition_code == condition_filestore_rejection
    then fail filestore_rejection
    else fail cancel_request

module _ {H : Type 0} where
  -- Whether the header names the sender's transaction.
  unfoldable pub sender_matches : Entity H → PduHeader → Bool
  sender_matches entity h =
      entity.sender.active && transaction_id_matches entity.sender.id (transaction_id_from_header h)

  unfoldable pub receiver_matches : Entity H → PduHeader → Bool
  receiver_matches entity h =
      entity.receiver.active
      && transaction_id_matches entity.receiver.id (transaction_id_from_header h)

  unfoldable pub sender_nak_header_is_supported : Entity H → PduHeader → Bool
  sender_nak_header_is_supported entity h =
      incoming_finished_header_is_supported entity h
      && (h.transmission_mode == transmission_mode_acknowledged)

module _ {W H : Type 0} (ops : Ops W H) where
  -- `sender_handle_finished`, once the PDU is known to be of the sender's transaction.
  unfoldable pub accept_finished : FinishedPdu → State W H → Return × State W H
  accept_finished finished s =
      let status = reported_status finished in
      let noted : State W H = record s {
        entity = record s.entity {
          sender = record s.entity.sender { finished_received = true; finished_status = status };
          sender_completion_available = true;
          sender_completion_status = status;
        };
      } in
      let sent = send_ack_finished ops finished.condition_code noted in
      if is_acknowledged s.entity.sender
      then elim sent.0 [
        | fail failure ↦ sender_fail ops (fail failure) sent.1
        | done u ↦ (status, release_sender_terminal ops status sent.1)
      ]
      else (status, noted)

  unfoldable pub sender_handle_finished : List ℕ → State W H → Return × State W H
  sender_handle_finished pdu s = elim (decode_finished pdu) [
    | fail status ↦ (fail status, s)
    | done found ↦
        if not (found.1 == length pdu)
          || not (incoming_finished_header_is_supported s.entity found.0.header)
        then (fail unsupported, s)
        else if not (sender_matches s.entity found.0.header)
        then (fail invalid_argument, s)
        else accept_finished found.0 s
  ]

  unfoldable pub sender_handle_ack : List ℕ → State W H → Return × State W H
  sender_handle_ack pdu s = elim (decode_ack pdu) [
    | fail status ↦ (fail status, s)
    | done found ↦
        let ack = found.0 in
        if not (found.1 == length pdu)
          || not (incoming_finished_header_is_supported s.entity ack.header)
        then (fail unsupported, s)
        else if not (ack.acknowledged_directive == directive_eof)
            || not (ack.directive_subtype == ack_subtype_other)
            || not (ack.header.transmission_mode == transmission_mode_acknowledged)
        then (fail unsupported, s)
        else if not (sender_matches s.entity ack.header)
        then (fail invalid_argument, s)
        else (done tt, s)
  ]

  -- The loop of `sender_retransmit_range`, on fuel: every round that goes on reads a byte, so
  -- `stop - start` rounds are enough.
  unfoldable pub retransmit_loop : ℕ → ℕ → ℕ → State W H → Return × State W H
  retransmit_loop stop zero offset s = (done tt, s)
  retransmit_loop stop (suc fuel) offset s =
      let request_len = min (stop - offset) max_segment_size in
      let found = ops.read s.entity.sender.file_handle offset request_len s.world in
      let read = set_world found.1 s in
      let step : Return × State W H = elim found.0 [
        | none ↦ (fail filestore_rejection, read)
        | some bytes ↦
            let sent = send_filedata ops offset bytes read in
            let go_on : Return × State W H = elim sent.0 [
              | fail status ↦ (fail status, sent.1)
              | done u ↦ retransmit_loop stop fuel (u32 (offset + length bytes)) sent.1
            ] in
            if (length bytes == 0) || ltb request_len (length bytes)
            then (fail file_size_error, read)
            else go_on
      ] in
      if ltb offset stop then step else (done tt, s)

  unfoldable pub sender_retransmit_range : ℕ → ℕ → State W H → Return × State W H
  sender_retransmit_range start stop s = retransmit_loop stop (stop - start) start s

  -- The loop of `sender_handle_nak`, with the EOF PDU behind it.
  unfoldable pub retransmit_ranges : Ranges → State W H → Return × State W H
  retransmit_ranges [] s =
      let slot = s.entity.sender in
      let sent = send_eof ops slot.eof_checksum slot.file_size s in
      elim sent.0 [
        | fail status ↦ sender_fail ops (fail status) sent.1
        | done u ↦ (done tt, sent.1)
      ]
  retransmit_ranges (r ∷ rs) s =
      let sent = sender_retransmit_range r.start r.stop s in
      let go_on : Return × State W H = elim sent.0 [
        | fail status ↦ sender_fail ops (fail status) sent.1
        | done u ↦ retransmit_ranges rs sent.1
      ] in
      if ltb s.entity.sender.file_size r.stop
      then sender_fail ops (fail file_size_error) s
      else go_on

  -- `sender_handle_nak`, once the PDU is known to be of the sender's transaction.
  unfoldable pub accept_nak : NakPdu → State W H → Return × State W H
  accept_nak nak s =
      let slot = s.entity.sender in
      let count = u32 (slot.nak_retry_count + 1) in
      let counted = set_sender (record slot { nak_retry_count = count }) s in
      if not slot.filestore_set || not slot.file_handle_open || is_null slot.file_handle
      then sender_fail ops (fail filestore_rejection) s
      else if not (is_acknowledged slot)
      then sender_fail ops (fail invalid_transmission_mode) s
      else if ltb max_nak_rounds count
      then sender_fail ops (fail nak_limit_reached) counted
      else if not (nak.scope_start == 0) || not (nak.scope_end == slot.file_size)
      then sender_fail ops (fail file_size_error) counted
      else retransmit_ranges nak.ranges counted

  unfoldable pub sender_handle_nak : List ℕ → State W H → Return × State W H
  sender_handle_nak pdu s = elim (decode_nak pdu) [
    | fail status ↦ (fail status, s)
    | done found ↦
        if not (found.1 == length pdu)
          || not (sender_nak_header_is_supported s.entity found.0.header)
        then (fail unsupported, s)
        else if not (sender_matches s.entity found.0.header)
        then (fail invalid_argument, s)
        else accept_nak found.0 s
  ]
