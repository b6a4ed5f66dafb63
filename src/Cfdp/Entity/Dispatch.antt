-- ===== src/Cfdp/Entity/Dispatch.antt =====
-- The entry points of the CFDP entity: connectivity/ccsds/ccsds_cfdp_entity.c.
use akira_ccsds.Base.{ℕ, ◌+◌}
use akira_ccsds.Base.{true, false, ◌&&◌, ◌||◌, not, List}
use akira_ccsds.Base.{leb, ◌==◌, if◌then◌else◌}
use akira_ccsds.Base.{length}
use akira_ccsds.Base.{u32, byte_at}
use akira_ccsds.Cfdp.{invalid_argument, malformed_pdu, unsupported}
use akira_ccsds.Cfdp.{inactivity_detected, transaction_busy, Outcome, done}
use akira_ccsds.Cfdp.{fail}
use akira_ccsds.Cfdp.Pdu.{
  max_entity_id_len, max_trans_seq_len, pdu_type_file_directive, pdu_type_file_data,
  direction_toward_receiver,
}
use akira_ccsds.Cfdp.Pdu.{direction_toward_sender}
use akira_ccsds.Cfdp.Pdu.{PduHeader, encoded_int_len_is_valid, value_fits_len}
use akira_ccsds.Cfdp.Pdu.{decode_header}
use akira_ccsds.Cfdp.Pdu.Metadata.{directive_metadata}
use akira_ccsds.Cfdp.Pdu.Eof.{directive_eof}
use akira_ccsds.Cfdp.Pdu.Finished.{directive_finished}
use akira_ccsds.Cfdp.Pdu.Ack.{directive_ack}
use akira_ccsds.Cfdp.Pdu.Nak.{directive_nak}
use akira_ccsds.Cfdp.Entity.{max_nak_rounds, Return, TransactionId}
use akira_ccsds.Cfdp.Entity.{empty_slot, Entity, State, Ops}
use akira_ccsds.Cfdp.Entity.{
  transaction_id_matches, transaction_id_from_header, incoming_header_is_supported,
  incoming_finished_header_is_supported, arm_retry, retry_due, is_acknowledged,
}
use akira_ccsds.Cfdp.Entity.{set_sender}
use akira_ccsds.Cfdp.Entity.Receiver.{is_ok}
use akira_ccsds.Cfdp.Entity.Finish.{fail_receiver_active_transaction}
use akira_ccsds.Cfdp.Entity.Handlers.{receiver_handle_metadata, receiver_handle_filedata}
use akira_ccsds.Cfdp.Entity.EndOfFile.{
  receiver_handle_eof, receiver_handle_ack, poll_recovery, poll_finished,
}
use akira_ccsds.Cfdp.Entity.Sender.{send_eof, release_sender_terminal, sender_fail}
use akira_ccsds.Cfdp.Entity.Replies.{
  sender_matches, receiver_matches, sender_handle_finished, sender_handle_ack,
}
use akira_ccsds.Cfdp.Entity.Replies.{sender_handle_nak}

-- `struct ccsds_cfdp_entity_config`, without the callback.
pub record EntityConfig : Type 0 where
  pub local_entity_id : ℕ
  pub remote_entity_id : ℕ
  pub entity_id_len : ℕ
  pub transaction_sequence_number_len : ℕ
  pub initial_transaction_sequence_number : ℕ

module _ {H : Type 0} where
  -- `ccsds_cfdp_entity_init`
  unfoldable pub init_entity : EntityConfig → Outcome (Entity H)
  init_entity config =
      if not (encoded_int_len_is_valid config.entity_id_len max_entity_id_len)
        || not (encoded_int_len_is_valid config.transaction_sequence_number_len max_trans_seq_len)
        || not (value_fits_len config.local_entity_id config.entity_id_len)
        || not (value_fits_len config.remote_entity_id config.entity_id_len)
        || not (
            value_fits_len config.initial_transaction_sequence_number
              config.transaction_sequence_number_len)
      then fail invalid_argument
      else done (record {
        local_entity_id = config.local_entity_id;
        remote_entity_id = config.remote_entity_id;
        entity_id_len = config.entity_id_len;
        transaction_sequence_number_len = config.transaction_sequence_number_len;
        next_transaction_sequence_number = config.initial_transaction_sequence_number;
        sender = empty_slot;
        receiver = empty_slot;
        sender_completion_available = false;
        sender_completion_status = done tt;
      })

  -- `ccsds_cfdp_entity_match_or_create_receiver_transaction`, once the header is decoded.
  unfoldable pub match_or_create : PduHeader → Entity H → Outcome TransactionId × Entity H
  match_or_create h entity =
      let incoming = transaction_id_from_header h in
      let slot = entity.receiver in
      if not (h.destination_entity_id == entity.local_entity_id)
        || not (h.source_entity_id == entity.remote_entity_id)
        || not (h.entity_id_len == entity.entity_id_len)
        || not (h.transaction_sequence_number_len == entity.transaction_sequence_number_len)
        || not (h.direction == direction_toward_receiver)
      then (fail unsupported, entity)
      else if slot.active
      then (
        if not (transaction_id_matches slot.id incoming)
            then fail transaction_busy
            else done slot.id,
        entity,
      )
      else (
        done incoming,
        record entity {
          receiver = record slot {
            active = true;
            id = incoming;
            peer_entity_id = h.source_entity_id;
          };
        },
      )

  unfoldable pub match_or_create_receiver_transaction :
      List ℕ → Entity H → Outcome TransactionId × Entity H
  match_or_create_receiver_transaction pdu entity = elim (decode_header pdu) [
    | fail status ↦ (fail status, entity)
    | done found ↦ match_or_create found.0 entity
  ]

module _ {W H : Type 0} (ops : Ops W H) where
  -- A PDU toward the sender.
  unfoldable pub dispatch_sender : PduHeader → ℕ → List ℕ → State W H → Return × State W H
  dispatch_sender h header_len pdu s =
      let directive = byte_at pdu header_len in
      let handled : Return × State W H =
        if directive == directive_finished
        then sender_handle_finished ops pdu s
        else if directive == directive_ack
        then sender_handle_ack ops pdu s
        else if directive == directive_nak
        then sender_handle_nak ops pdu s
        else (fail unsupported, s) in
      if not (incoming_finished_header_is_supported s.entity h)
        || not (h.pdu_type == pdu_type_file_directive)
        || (h.pdu_data_field_len == 0)
        || leb (length pdu) header_len
      then (fail unsupported, s)
      else (
        handled.0,
        if not (is_ok handled.0) && sender_matches handled.1.entity h
            then release_sender_terminal ops handled.0 handled.1
            else handled.1,
      )

  -- What a receiver's handler returned, with a failure ending the transaction.
  unfoldable pub end_failed : PduHeader → Return × State W H → Return × State W H
  end_failed h handled = (
    handled.0,
    if not (is_ok handled.0) && receiver_matches handled.1.entity h
        then fail_receiver_active_transaction ops handled.0 handled.1
        else handled.1,
  )

  -- A PDU toward the receiver.
  unfoldable pub dispatch_receiver : PduHeader → ℕ → List ℕ → State W H → Return × State W H
  dispatch_receiver h header_len pdu s =
      let directive = byte_at pdu header_len in
      if not (incoming_header_is_supported s.entity h)
      then (fail unsupported, s)
      else if h.pdu_type == pdu_type_file_data
      then end_failed h (receiver_handle_filedata ops pdu s)
      else if (h.pdu_data_field_len == 0) || leb (length pdu) header_len
      then (fail malformed_pdu, s)
      else end_failed h (
          if directive == directive_metadata
          then receiver_handle_metadata ops pdu s
          else if directive == directive_eof
          then receiver_handle_eof ops pdu s
          else if directive == directive_ack
          then receiver_handle_ack ops pdu s
          else (fail unsupported, s))

  -- `ccsds_cfdp_entity_receive_pdu`
  unfoldable pub receive_pdu : List ℕ → State W H → Return × State W H
  receive_pdu pdu s = elim (decode_header pdu) [
    | fail status ↦ (fail status, s)
    | done found ↦
        if found.0.direction == direction_toward_sender
        then dispatch_sender found.0 found.1 pdu s
        else dispatch_receiver found.0 found.1 pdu s
  ]

  -- The last part of `ccsds_cfdp_entity_poll`: a sender that waits for the Finished PDU.
  unfoldable pub poll_sender : ℕ → State W H → State W H
  poll_sender now_ms s =
      let slot = s.entity.sender in
      let sent = send_eof ops slot.eof_checksum slot.file_size s in
      let after = sent.1.entity.sender in
      let failed = sender_fail ops (fail inactivity_detected) s in
      let retried : State W H = elim sent.0 [
        | fail status ↦ let ended = sender_fail ops (fail status) sent.1 in ended.1
        | done u ↦
            set_sender
              (arm_retry (record after { retry_count = u32 (after.retry_count + 1) }) now_ms) sent.1
      ] in
      if slot.active && is_acknowledged slot && not slot.finished_received && retry_due slot now_ms
      then (if leb max_nak_rounds slot.retry_count then failed.1 else retried)
      else s

  unfoldable pub poll : ℕ → State W H → State W H
  poll now_ms s = poll_sender now_ms (poll_finished ops now_ms (poll_recovery ops now_ms s))
