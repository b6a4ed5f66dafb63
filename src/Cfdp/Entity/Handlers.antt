-- ===== src/Cfdp/Entity/Handlers.antt =====
-- What a receiver does with each kind of PDU: connectivity/ccsds/ccsds_cfdp_entity.c.
use akira_ccsds.Base.{ℕ, ◌+◌, ◌-◌}
use akira_ccsds.Base.{true, ◌&&◌, ◌||◌, not, none, some, List}
use akira_ccsds.Base.{ltb, ◌==◌, if◌then◌else◌}
use akira_ccsds.Base.{length}
use akira_ccsds.Base.{u32}
use akira_ccsds.Cfdp.{invalid_argument, unsupported}
use akira_ccsds.Cfdp.{file_size_error, filestore_rejection, transaction_busy, done}
use akira_ccsds.Cfdp.{fail}
use akira_ccsds.Cfdp.Checksum
use akira_ccsds.Cfdp.Checksum.{Checksum}
use akira_ccsds.Cfdp.Ranges
use akira_ccsds.Cfdp.Ranges.{Range, Ranges}
use akira_ccsds.Cfdp.Pdu.{transmission_mode_acknowledged}
use akira_ccsds.Cfdp.Pdu.Metadata.{MetadataPdu, decode_metadata}
use akira_ccsds.Cfdp.Pdu.FileData.{FiledataPdu, decode_filedata}
use akira_ccsds.Cfdp.Entity.{Return}
use akira_ccsds.Cfdp.Entity.{Slot, empty_slot, State, Ops}
use akira_ccsds.Cfdp.Entity.{
  transaction_id_matches, transaction_id_from_header, incoming_header_is_supported, is_acknowledged,
  set_receiver,
}
use akira_ccsds.Cfdp.Entity.{set_world, emit_terminal_event}
use akira_ccsds.Cfdp.Entity.Receiver.{receiver_match_active}
use akira_ccsds.Cfdp.Entity.Receiver.{receiver_verify_complete_file}
use akira_ccsds.Cfdp.Entity.Finish.{receiver_finish}

module _ {H : Type 0} where
  -- The slot that a Metadata PDU fills, before its file is opened.
  unfoldable pub opened_slot : MetadataPdu → Checksum → Slot H → Slot H
  opened_slot metadata state slot = record slot {
    checksum_state = state;
    received_ranges = Ranges.init;
    source_path = metadata.source_filename;
    destination_path = metadata.destination_filename;
    active = true;
    metadata_received = true;
    filestore_set = true;
    id = transaction_id_from_header metadata.header;
    peer_entity_id = metadata.header.source_entity_id;
    file_size = metadata.file_size;
    checksum_type = metadata.checksum_type;
    transmission_mode = metadata.header.transmission_mode;
    closure_requested =
        metadata.closure_requested
        || (metadata.header.transmission_mode == transmission_mode_acknowledged);
  }

module _ {W H : Type 0} (ops : Ops W H) where
  -- `receiver_handle_metadata`, once the PDU is decoded.
  unfoldable pub accept_metadata : MetadataPdu → State W H → Return × State W H
  accept_metadata metadata s =
      let slot = s.entity.receiver in
      let incoming = transaction_id_from_header metadata.header in
      let opening : Return × State W H = elim (Checksum.init metadata.checksum_type) [
        | fail status ↦ (fail status, s)
        | done state ↦
            let filled = opened_slot metadata state slot in
            let opened = ops.open_write_tmp filled.destination_path s.world in
            let started = set_world opened.1 (set_receiver filled s) in
            elim opened.0 [
              | none ↦ (
                fail filestore_rejection,
                set_receiver empty_slot
                    (emit_terminal_event ops incoming (fail filestore_rejection) started),
              )
              | some handle ↦ (
                done tt,
                set_receiver (record filled { file_handle = handle; file_handle_open = true })
                    started,
              )
            ]
      ] in
      if slot.active
      then (
        if not (transaction_id_matches slot.id incoming)
            then fail transaction_busy
            else fail invalid_argument,
        s,
      )
      else opening

  unfoldable pub receiver_handle_metadata : List ℕ → State W H → Return × State W H
  receiver_handle_metadata pdu s = elim (decode_metadata pdu) [
    | fail status ↦ (fail status, s)
    | done found ↦
        if not (found.1 == length pdu) || not (incoming_header_is_supported s.entity found.0.header)
        then (fail unsupported, s)
        else accept_metadata found.0 s
  ]

  -- A complete file is verified, and the transaction ends.
  unfoldable pub verify_and_finish : ℕ → State W H → Return × State W H
  verify_and_finish expected_checksum s =
      let verified =
        receiver_verify_complete_file ops s.entity.receiver expected_checksum s.world in
      receiver_finish ops verified.0 (set_world verified.1 s)

  -- `receiver_handle_filedata`, once the segment is stored.
  unfoldable pub after_segment : State W H → Return × State W H
  after_segment s =
      let slot = s.entity.receiver in
      let complete_now : Return × State W H =
        elim (Ranges.is_complete slot.received_ranges 0 slot.file_size) [
          | fail status ↦ receiver_finish ops (fail status) s
          | done whole ↦ if whole then verify_and_finish slot.eof_checksum s else (done tt, s)
        ] in
      if slot.eof_received && is_acknowledged slot then complete_now else (done tt, s)

  -- `receiver_handle_filedata`, from the write on.
  unfoldable pub store_segment : FiledataPdu → State W H → Return × State W H
  store_segment filedata s =
      let slot = s.entity.receiver in
      let stop = u32 (filedata.offset + length filedata.bytes) in
      let written = ops.write slot.file_handle filedata.offset filedata.bytes s.world in
      let stored = set_world written.1 s in
      let recorded : Return × State W H =
        elim (Ranges.add slot.received_ranges filedata.offset stop) [
          | fail status ↦ (fail status, stored)
          | done ranges ↦
              let added = record slot { received_ranges = ranges } in
              elim (Checksum.update ops.crc32_c ops.crc32_ieee_update slot.checksum_state
                filedata.offset filedata.bytes) [
                  | fail status ↦ (fail status, set_receiver added stored)
                  | done state ↦
                      after_segment (set_receiver (record added { checksum_state = state }) stored)
                ]
        ] in
      if not written.0 then (fail filestore_rejection, stored) else recorded

  unfoldable pub receiver_handle_filedata : List ℕ → State W H → Return × State W H
  receiver_handle_filedata pdu s = elim (decode_filedata pdu) [
    | fail status ↦ (fail status, s)
    | done found ↦
        let filedata = found.0 in
        let data_len = length filedata.bytes in
        let placed : Return × State W H = elim (receiver_match_active s.entity filedata.header) [
          | fail status ↦ (fail status, s)
          | done u ↦
              if ltb 0xffffffff data_len || ltb (0xffffffff - data_len) filedata.offset
              then (fail file_size_error, s)
              else if ltb s.entity.receiver.file_size (u32 (filedata.offset + data_len))
              then (fail file_size_error, s)
              else store_segment filedata s
        ] in
        if not (found.1 == length pdu)
          || not (incoming_header_is_supported s.entity filedata.header)
        then (fail unsupported, s)
        else placed
  ]
