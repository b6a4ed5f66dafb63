-- ===== src/Cfdp/Entity/Examples.antt =====
-- The CFDP entity at concrete inputs.
use akira_ccsds.Base.{ℕ, ◌<◌}
use akira_ccsds.Base.{◌≡◌, refl, ◌≢◌, arith}
use akira_ccsds.Base.{true, false, some, List, [], ◌∷◌, ◌++◌}
use akira_ccsds.Base.{length, take, drop}
use akira_ccsds.Cfdp.{done}
use akira_ccsds.Cfdp.Checksum
use akira_ccsds.Cfdp.Checksum.{Checksum}
use akira_ccsds.Cfdp.Ranges
use akira_ccsds.Cfdp.Ranges.{Range, Ranges}
use akira_ccsds.Cfdp.Ranges.Cover.{covers}
use akira_ccsds.Cfdp.Pdu.{transmission_mode_acknowledged, transmission_mode_unacknowledged}
use akira_ccsds.Cfdp.Pdu.{encoded_int_len_is_valid, value_fits_len, read_be_uint}
use akira_ccsds.Cfdp.Pdu.{parsed_header, decode_header}
use akira_ccsds.Cfdp.Pdu.{on_data_field}
use akira_ccsds.Cfdp.Pdu.Eof.{EofPdu, decode_eof, read_eof}
use akira_ccsds.Cfdp.Entity.{Slot, empty_slot, Entity, State, Ops}
use akira_ccsds.Cfdp.Entity.{
  transaction_id_matches, transaction_id_from_header, incoming_header_is_supported,
}
use akira_ccsds.Cfdp.Entity.{emit_terminal_event}
use akira_ccsds.Cfdp.Entity.Receiver.{condition_no_error}
use akira_ccsds.Cfdp.Entity.Receiver.{
  is_ok, rejected_unless, receiver_response_header, receiver_match_active, checksum_loop,
  receiver_compute_checksum,
}
use akira_ccsds.Cfdp.Entity.Receiver.{receiver_verify_complete_file}
use akira_ccsds.Cfdp.Entity.Finish.{
  release_receiver_transaction, release_receiver_terminal, close_open_handle, settle_file,
}
use akira_ccsds.Cfdp.Entity.Finish.{settle, conclude, receiver_finish}
use akira_ccsds.Cfdp.Entity.Handlers.{verify_and_finish}
use akira_ccsds.Cfdp.Entity.EndOfFile.{conclude_eof, accept_eof, receiver_handle_eof}
use akira_ccsds.Cfdp.Entity.Sender.{create_sender_transaction}
use akira_ccsds.Cfdp.Entity.Failure.{accept_eof-empty}
use akira_ccsds.Cfdp.Entity.Verified.{receiver_handle_eof-done}
use akira_ccsds.Cfdp.Entity.Waiting.{IsQuiet, poll_all, poll_all-released}
use akira_ccsds.Cfdp.Entity.Numbering.{
  IsNumbered, after_transactions, create_sender_transaction-after,
}
use akira_ccsds.Cfdp.Entity.Rounds.{checksum_loop_enough}

-- A world that is one file, a transport that takes all, and a clock that stands still.
abbrev pub sample_ops : Ops (List ℕ) Unit
sample_ops = record {
  send_pdu = λ to bytes s. (true, s);
  event_cb = λ event s. s;
  now_ms = λ file. (0, file);
  has_clock = true;
  open_read = λ path file. (some (some tt, length file), file);
  open_write_tmp = λ path file. (some (some tt), file);
  read = λ handle offset len file. (some (take len (drop offset file)), file);
  write = λ handle offset bytes file. (true, take offset file ++ bytes);
  close = λ handle file. (true, file);
  commit_tmp = λ path file. (true, file);
  discard_tmp = λ path file. (true, []);
  crc32_c = λ value bytes first last. value;
  crc32_ieee_update = λ value bytes. value;
}

-- A receiver that has the three bytes of its file.
abbrev pub sample_slot : Slot Unit
sample_slot = record empty_slot {
  active = true;
  metadata_received = true;
  id = record { source_entity_id = 1; transaction_sequence_number = 7 };
  peer_entity_id = 1;
  filestore_set = true;
  file_handle_open = true;
  file_handle = some tt;
  file_size = 3;
  transmission_mode = transmission_mode_unacknowledged;
  received_ranges = record { start = 0; stop = 3 } ∷ [];
  destination_path = 99 ∷ [];
}

abbrev pub sample_entity : Slot Unit → Entity Unit
sample_entity receiver = record {
  local_entity_id = 2;
  remote_entity_id = 1;
  entity_id_len = 1;
  transaction_sequence_number_len = 1;
  next_transaction_sequence_number = 7;
  sender = empty_slot;
  receiver = receiver;
  sender_completion_available = false;
  sender_completion_status = done tt;
}

abbrev pub sample_state : Slot Unit → State (List ℕ) Unit
sample_state receiver = record { entity = sample_entity receiver; world = 1 ∷ 2 ∷ 3 ∷ [] }

-- Its EOF PDU, with the modular checksum of the file.
abbrev pub sample_pdu : List ℕ
sample_pdu = 36 ∷ 0 ∷ 10 ∷ 0 ∷ 1 ∷ 7 ∷ 2 ∷ 4 ∷ 0 ∷ 1 ∷ 2 ∷ 3 ∷ 0 ∷ 0 ∷ 0 ∷ 0 ∷ 3 ∷ []

sample_delivered :
    (receiver_handle_eof sample_ops sample_pdu (sample_state sample_slot)).0 ≡ done tt
unfolding receiver_handle_eof accept_eof conclude_eof verify_and_finish
    receiver_verify_complete_file receiver_compute_checksum checksum_loop Checksum.init
    Checksum.checksum_type_is_supported Checksum.update Checksum.update_range_is_valid
    Checksum.accumulate Checksum.add_bytes Checksum.finish Checksum.result_of receiver_finish settle
    settle_file close_open_handle conclude release_receiver_terminal release_receiver_transaction
    emit_terminal_event is_ok rejected_unless decode_eof on_data_field read_eof decode_header
    parsed_header encoded_int_len_is_valid read_be_uint incoming_header_is_supported
    receiver_match_active transaction_id_matches transaction_id_from_header Ranges.is_complete
    Ranges.scan_complete
sample_delivered = refl

receiver_handle_eof-done_example :
    (eof : EofPdu) × (decode_eof sample_pdu ≡ done (eof, 17))
    × (eof.condition_code ≡ condition_no_error)
    × (eof.file_size ≡ 3)
    × (0 < 3)
    × ((x : ℕ) → x < 3 → covers sample_slot.received_ranges x ≡ true)
    × ((receiver_compute_checksum sample_ops
          (record sample_slot { eof_checksum = eof.file_checksum })
          (1 ∷ 2 ∷ 3 ∷ [])).0
        ≡ done eof.file_checksum)
receiver_handle_eof-done_example =
    receiver_handle_eof-done sample_ops sample_pdu (sample_state sample_slot) refl refl
      (omega arith, omega arith, tt) sample_delivered

-- A receiver that expects an empty file, in acknowledged mode, and the EOF PDU of one.
abbrev empty_file_slot : Slot Unit
empty_file_slot = record sample_slot {
  file_size = 0;
  received_ranges = [];
  transmission_mode = transmission_mode_acknowledged;
}

abbrev empty_file_eof : EofPdu
empty_file_eof = record {
  header = receiver_response_header (sample_entity empty_file_slot);
  condition_code = 0;
  file_checksum = 0;
  file_size = 0;
}

accept_eof-empty_example :
    (accept_eof sample_ops empty_file_eof (sample_state empty_file_slot)).0 ≢ done tt
accept_eof-empty_example =
    accept_eof-empty sample_ops empty_file_eof (sample_state empty_file_slot) refl refl

sample_ops-IsQuiet : IsQuiet sample_ops
sample_ops-IsQuiet = record { quiet_send = λ to bytes s. refl; quiet_event = λ event s. refl }

-- A receiver that has sent its Finished PDU.
abbrev finished_slot : Slot Unit
finished_slot = record sample_slot {
  transmission_mode = transmission_mode_acknowledged;
  waiting_for_finished_ack = true;
  retry_deadline_ms = 500;
}

abbrev poll_times : List ℕ
poll_times = 600 ∷ 1600 ∷ 3000 ∷ 4000 ∷ 5001 ∷ []

poll_all-released_example :
    (poll_all sample_ops poll_times (sample_state finished_slot)).entity.receiver.active ≡ false
poll_all-released_example =
    poll_all-released sample_ops sample_ops-IsQuiet poll_times (sample_state finished_slot)
      (refl, refl, refl, refl)
      (
        omega arith,
        omega arith,
        (
          omega arith,
          omega arith,
          (omega arith, omega arith, (omega arith, omega arith, (omega arith, omega arith, tt))),
        ),
      )
      (omega arith) (omega arith)

sample_entity-IsNumbered : IsNumbered (sample_entity sample_slot)
unfolding encoded_int_len_is_valid value_fits_len
sample_entity-IsNumbered = (refl, refl)

create_sender_transaction-after_example :
    (create_sender_transaction (after_transactions 300 (sample_entity sample_slot))).0
    ≡ done (record { source_entity_id = 2; transaction_sequence_number = 51 })
create_sender_transaction-after_example =
    create_sender_transaction-after 300 (sample_entity sample_slot) sample_entity-IsNumbered refl

checksum_loop_enough_example :
    checksum_loop sample_ops (some tt) 3 3 0 sample_slot.checksum_state (1 ∷ 2 ∷ 3 ∷ [])
    ≡ checksum_loop sample_ops (some tt) 3 10 0 sample_slot.checksum_state (1 ∷ 2 ∷ 3 ∷ [])
checksum_loop_enough_example =
    checksum_loop_enough sample_ops (some tt) 3 3 10 0 sample_slot.checksum_state (1 ∷ 2 ∷ 3 ∷ [])
      (omega arith) (omega arith) (omega arith) (omega arith)
