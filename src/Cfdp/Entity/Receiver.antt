-- ===== src/Cfdp/Entity/Receiver.antt =====
-- The receiving side of the CFDP entity, connectivity/ccsds/ccsds_cfdp_entity.c: what it sends, and
-- the check of a complete file.
use akira_ccsds.Base.{ℕ, zero, suc, ◌+◌, ◌-◌, min}
use akira_ccsds.Base.{Bool, true, false, ◌||◌, not, Option, none, some, List}
use akira_ccsds.Base.{ltb, ◌==◌, if◌then◌else◌}
use akira_ccsds.Base.{length}
use akira_ccsds.Base.{u32}
use akira_ccsds.Cfdp.{invalid_argument, buffer_too_small, checksum_failure}
use akira_ccsds.Cfdp.{
  file_size_error, nak_limit_reached, filestore_rejection, transaction_busy, Outcome, done,
}
use akira_ccsds.Cfdp.{fail, ◌>>=◌}
use akira_ccsds.Cfdp.Checksum
use akira_ccsds.Cfdp.Checksum.{Checksum}
use akira_ccsds.Cfdp.Ranges
use akira_ccsds.Cfdp.Ranges.{Range, Ranges}
use akira_ccsds.Cfdp.Pdu.{version_1, pdu_type_file_directive}
use akira_ccsds.Cfdp.Pdu.{
  direction_toward_sender, crc_not_present, file_size_small, record_boundaries_not_preserved,
}
use akira_ccsds.Cfdp.Pdu.{PduHeader}
use akira_ccsds.Cfdp.Pdu.Eof.{directive_eof}
use akira_ccsds.Cfdp.Pdu.Finished.{encode_finished}
use akira_ccsds.Cfdp.Pdu.Ack.{encode_ack, ack_subtype_other}
use akira_ccsds.Cfdp.Pdu.Nak.{encode_nak}
use akira_ccsds.Cfdp.Entity.{max_pdu_size, max_segment_size, Return}
use akira_ccsds.Cfdp.Entity.{Slot, Entity, State, Ops}
use akira_ccsds.Cfdp.Entity.{transaction_id_matches, transaction_id_from_header}
use akira_ccsds.Cfdp.Entity.{send_encoded_pdu_to}

abbrev pub transaction_status_active : ℕ
transaction_status_active = 1

-- The condition codes that the entity names.
abbrev pub condition_no_error : ℕ
condition_no_error = 0x0

abbrev pub condition_filestore_rejection : ℕ
condition_filestore_rejection = 0x4

abbrev pub condition_file_checksum_failure : ℕ
condition_file_checksum_failure = 0x5

abbrev pub condition_file_size_error : ℕ
condition_file_size_error = 0x6

abbrev pub condition_nak_limit_reached : ℕ
condition_nak_limit_reached = 0x7

abbrev pub condition_cancel_request_received : ℕ
condition_cancel_request_received = 0xf

unfoldable pub finished_condition_from_status : Return → ℕ
finished_condition_from_status (fail filestore_rejection) = condition_filestore_rejection
finished_condition_from_status (fail checksum_failure) = condition_file_checksum_failure
finished_condition_from_status (fail file_size_error) = condition_file_size_error
finished_condition_from_status (fail nak_limit_reached) = condition_nak_limit_reached
finished_condition_from_status (done u) = condition_no_error
finished_condition_from_status (fail status) = condition_cancel_request_received

-- CCSDS_CFDP_FILE_STATUS_RETAINED, DISCARDED_FILESTORE_REJECTION and DISCARDED_DELIBERATELY.
unfoldable pub finished_file_status_from_status : Return → ℕ
finished_file_status_from_status (done u) = 2
finished_file_status_from_status (fail filestore_rejection) = 1
finished_file_status_from_status (fail status) = 0

unfoldable pub is_ok : Return → Bool
is_ok (done u) = true
is_ok (fail status) = false

-- How a read, write, open, close or commit that did not return 0 is reported.
unfoldable pub rejected_unless : Bool → Return
rejected_unless true = done tt
rejected_unless false = fail filestore_rejection

module _ {H : Type 0} where
  unfoldable pub receiver_response_header : Entity H → PduHeader
  receiver_response_header entity = record {
    version = version_1;
    pdu_type = pdu_type_file_directive;
    direction = direction_toward_sender;
    transmission_mode = entity.receiver.transmission_mode;
    crc_flag = crc_not_present;
    file_size_mode = file_size_small;
    pdu_data_field_len = 0;
    segmentation_control = record_boundaries_not_preserved;
    segment_metadata_present = false;
    entity_id_len = entity.entity_id_len;
    transaction_sequence_number_len = entity.transaction_sequence_number_len;
    source_entity_id = entity.receiver.id.source_entity_id;
    transaction_sequence_number = entity.receiver.id.transaction_sequence_number;
    destination_entity_id = entity.local_entity_id;
  }

  unfoldable pub receiver_match_active : Entity H → PduHeader → Return
  receiver_match_active entity h =
      if not entity.receiver.active || not entity.receiver.metadata_received
      then fail invalid_argument
      else if not (transaction_id_matches entity.receiver.id (transaction_id_from_header h))
      then fail transaction_busy
      else done tt

  -- The missing ranges of the file as a NAK PDU, encoded.
  unfoldable pub encode_missing : Entity H → Outcome (List ℕ)
  encode_missing entity =
      let slot = entity.receiver in
      elim (Ranges.missing slot.received_ranges 0 slot.file_size) [
        | fail buffer_too_small ↦ fail nak_limit_reached
        | fail s ↦ fail s
        | done missing ↦
            encode_nak
              (record {
                header = receiver_response_header entity;
                scope_start = 0;
                scope_end = slot.file_size;
                ranges = missing;
              })
              max_pdu_size
      ]

module _ {W H : Type 0} where
  -- The loop of `receiver_compute_checksum`, on fuel: every round that goes on reads a byte, so
  -- `file_size` rounds are enough. The reads change the world only.
  unfoldable pub checksum_loop :
      Ops W H → Option H → ℕ → ℕ → ℕ → Checksum → W → Outcome Checksum × W
  checksum_loop ops handle file_size zero offset state world = (done state, world)
  checksum_loop ops handle file_size (suc fuel) offset state world =
      let request_len = min (file_size - offset) max_segment_size in
      let found = ops.read handle offset request_len world in
      let step : Outcome Checksum × W = elim found.0 [
        | none ↦ (fail filestore_rejection, found.1)
        | some bytes ↦
            let go_on : Outcome Checksum × W =
              elim (Checksum.update ops.crc32_c ops.crc32_ieee_update state offset bytes) [
                | fail s ↦ (fail s, found.1)
                | done next ↦
                    checksum_loop ops handle file_size fuel (u32 (offset + length bytes)) next
                      found.1
              ] in
            if (length bytes == 0) || ltb request_len (length bytes)
            then (fail file_size_error, found.1)
            else go_on
      ] in
      if ltb offset file_size then step else (done state, world)

  unfoldable pub receiver_compute_checksum : Ops W H → Slot H → W → Outcome ℕ × W
  receiver_compute_checksum ops slot world = elim (Checksum.init slot.checksum_type) [
    | fail s ↦ (fail s, world)
    | done state ↦
        let looped =
          checksum_loop ops slot.file_handle slot.file_size slot.file_size 0 state world in
        (looped.0 >>= (λ final. Checksum.finish final), looped.1)
  ]

  unfoldable pub receiver_verify_complete_file : Ops W H → Slot H → ℕ → W → Return × W
  receiver_verify_complete_file ops slot expected_checksum world =
      let computed = receiver_compute_checksum ops slot world in
      (
        computed.0 >>= (λ checksum.
            if checksum == expected_checksum then done tt else fail checksum_failure),
        computed.1,
      )

  unfoldable pub send_ack_eof : Ops W H → ℕ → State W H → Return × State W H
  send_ack_eof ops code s =
      send_encoded_pdu_to ops s.entity.receiver.peer_entity_id
        (encode_ack
          (record {
            header = receiver_response_header s.entity;
            acknowledged_directive = directive_eof;
            directive_subtype = ack_subtype_other;
            condition_code = code;
            transaction_status = transaction_status_active;
          })
          max_pdu_size)
        s

  unfoldable pub send_nak_for_missing_ranges : Ops W H → State W H → Return × State W H
  send_nak_for_missing_ranges ops s =
      send_encoded_pdu_to ops s.entity.receiver.peer_entity_id (encode_missing s.entity) s

  unfoldable pub send_finished_for_receiver_status :
      Ops W H → Return → State W H → Return × State W H
  send_finished_for_receiver_status ops status s =
      send_encoded_pdu_to ops s.entity.receiver.peer_entity_id
        (encode_finished
          (record {
            header = receiver_response_header s.entity;
            condition_code = finished_condition_from_status status;
            delivery_code = if is_ok status then 0 else 1;
            file_status = finished_file_status_from_status status;
          })
          max_pdu_size)
        s
