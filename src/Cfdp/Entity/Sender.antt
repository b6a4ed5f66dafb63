-- ===== src/Cfdp/Entity/Sender.antt =====
-- The sending side of the CFDP entity, connectivity/ccsds/ccsds_cfdp_entity.c: its transaction and
-- what it sends.
use akira_ccsds.Base.{ℕ, ◌+◌, ◌*◌, ◌%◌, ◌^◌}
use akira_ccsds.Base.{Bool, true, false, ◌&&◌, none, List}
use akira_ccsds.Base.{leb, ◌==◌, if◌then◌else◌}
use akira_ccsds.Cfdp.{transaction_busy, Outcome, done}
use akira_ccsds.Cfdp.{fail, ChecksumType}
use akira_ccsds.Cfdp.Pdu.{
  version_1, max_encoded_int_len, pdu_type_file_directive, pdu_type_file_data,
  direction_toward_receiver,
}
use akira_ccsds.Cfdp.Pdu.{
  transmission_mode_unacknowledged, crc_not_present, file_size_small,
  record_boundaries_not_preserved,
}
use akira_ccsds.Cfdp.Pdu.{PduHeader}
use akira_ccsds.Cfdp.Pdu.Metadata.{encode_metadata}
use akira_ccsds.Cfdp.Pdu.FileData.{encode_filedata}
use akira_ccsds.Cfdp.Pdu.Eof.{encode_eof}
use akira_ccsds.Cfdp.Pdu.Finished.{directive_finished}
use akira_ccsds.Cfdp.Pdu.Ack.{encode_ack, ack_subtype_finished}
use akira_ccsds.Cfdp.Entity.{max_pdu_size, Return, TransactionId}
use akira_ccsds.Cfdp.Entity.{empty_slot, Entity, State, Ops}
use akira_ccsds.Cfdp.Entity.{set_sender, set_world, emit_terminal_event, send_encoded_pdu_to}
use akira_ccsds.Cfdp.Entity.Receiver.{condition_no_error}

abbrev pub transaction_status_terminated : ℕ
transaction_status_terminated = 2

-- `struct ccsds_cfdp_put_request`; a path is its bytes before the terminating NUL.
pub record PutRequest : Type 0 where
  pub source_path : List ℕ
  pub destination_path : List ℕ
  pub checksum_type : ChecksumType
  pub closure_requested : Bool
  pub acknowledged_mode : Bool

unfoldable pub transaction_sequence_limit : ℕ → ℕ
transaction_sequence_limit len =
    if leb max_encoded_int_len len then 0xffffffffffffffff else 2 ^ (len * 8)

module _ {H : Type 0} where
  unfoldable pub advance_transaction_sequence_number : Entity H → Entity H
  advance_transaction_sequence_number entity =
      let limit = transaction_sequence_limit entity.transaction_sequence_number_len in
      if limit == 0xffffffffffffffff
      then record entity {
        next_transaction_sequence_number = (entity.next_transaction_sequence_number + 1) % 2 ^ 64;
      }
      else record entity {
        next_transaction_sequence_number =
            (entity.next_transaction_sequence_number + 1) % 2 ^ 64 % limit;
      }

  unfoldable pub sender_header : Entity H → ℕ → PduHeader
  sender_header entity pdu_type = record {
    version = version_1;
    pdu_type = pdu_type;
    direction = direction_toward_receiver;
    transmission_mode = entity.sender.transmission_mode;
    crc_flag = crc_not_present;
    file_size_mode = file_size_small;
    pdu_data_field_len = 0;
    segmentation_control = record_boundaries_not_preserved;
    segment_metadata_present = false;
    entity_id_len = entity.entity_id_len;
    transaction_sequence_number_len = entity.transaction_sequence_number_len;
    source_entity_id = entity.sender.id.source_entity_id;
    transaction_sequence_number = entity.sender.id.transaction_sequence_number;
    destination_entity_id = entity.sender.peer_entity_id;
  }

  -- What `ccsds_cfdp_entity_create_sender_transaction` stores.
  unfoldable pub started_sender : Entity H → Entity H
  started_sender entity = record (advance_transaction_sequence_number entity) {
    sender = record entity.sender {
      active = true;
      id = record {
        source_entity_id = entity.local_entity_id;
        transaction_sequence_number = entity.next_transaction_sequence_number;
      };
      peer_entity_id = entity.remote_entity_id;
      transmission_mode = transmission_mode_unacknowledged;
      finished_status = done tt;
    };
  }

  unfoldable pub create_sender_transaction : Entity H → Outcome TransactionId × Entity H
  create_sender_transaction entity =
      if entity.sender.active
      then (fail transaction_busy, entity)
      else (done (started_sender entity).sender.id, started_sender entity)

module _ {W H : Type 0} (ops : Ops W H) where
  unfoldable pub send_metadata : PutRequest → ℕ → State W H → Return × State W H
  send_metadata request file_size s =
      send_encoded_pdu_to ops s.entity.sender.peer_entity_id
        (encode_metadata
          (record {
            header = sender_header s.entity pdu_type_file_directive;
            closure_requested = request.closure_requested;
            checksum_type = request.checksum_type;
            file_size = file_size;
            source_filename = request.source_path;
            destination_filename = request.destination_path;
          })
          max_pdu_size)
        s

  unfoldable pub send_filedata : ℕ → List ℕ → State W H → Return × State W H
  send_filedata offset bytes s =
      send_encoded_pdu_to ops s.entity.sender.peer_entity_id
        (encode_filedata
          (record {
            header = sender_header s.entity pdu_type_file_data;
            offset = offset;
            bytes = bytes;
          })
          max_pdu_size)
        s

  unfoldable pub send_eof : ℕ → ℕ → State W H → Return × State W H
  send_eof checksum file_size s =
      send_encoded_pdu_to ops s.entity.sender.peer_entity_id
        (encode_eof
          (record {
            header = sender_header s.entity pdu_type_file_directive;
            condition_code = condition_no_error;
            file_checksum = checksum;
            file_size = file_size;
          })
          max_pdu_size)
        s

  unfoldable pub send_ack_finished : ℕ → State W H → Return × State W H
  send_ack_finished code s =
      send_encoded_pdu_to ops s.entity.sender.peer_entity_id
        (encode_ack
          (record {
            header = sender_header s.entity pdu_type_file_directive;
            acknowledged_directive = directive_finished;
            directive_subtype = ack_subtype_finished;
            condition_code = code;
            transaction_status = transaction_status_terminated;
          })
          max_pdu_size)
        s

  unfoldable pub close_sender_handle : State W H → State W H
  close_sender_handle s =
      let slot = s.entity.sender in
      let closed = ops.close slot.file_handle s.world in
      set_world (if slot.file_handle_open && slot.filestore_set then closed.1 else s.world)
        (set_sender (record slot { file_handle_open = false; file_handle = none }) s)

  unfoldable pub release_sender_transaction : State W H → State W H
  release_sender_transaction s = set_sender empty_slot (close_sender_handle s)

  unfoldable pub release_sender_terminal : Return → State W H → State W H
  release_sender_terminal status s =
      release_sender_transaction (emit_terminal_event ops s.entity.sender.id status s)

  unfoldable pub sender_fail : Return → State W H → Return × State W H
  sender_fail status s = (
    status,
    release_sender_terminal status
        (close_sender_handle (set_sender (record s.entity.sender { finished_status = status }) s)),
  )
