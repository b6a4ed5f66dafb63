-- ===== src/Cfdp/Entity.antt =====
-- The CFDP entity: connectivity/ccsds/ccsds_cfdp_entity.c and .h, here its state and what its two
-- sides share; Receiver and Sender have the sides, Dispatch the entry points.
--
-- The transport and the event callback may call back into the entity, so they map the whole state;
-- the file store and the clock only change the world behind them. Every call is given one file
-- store, all of whose operations are there. The scratch buffers `pdu_buf` and `file_segment_buf`
-- are not represented: each use fills them first.
pub mod Receiver
pub mod Finish
pub mod Handlers
pub mod EndOfFile
pub mod Sender
pub mod SendFile
pub mod Replies
pub mod Dispatch
pub mod Failure
pub mod Verified
pub mod Waiting
pub mod Numbering
pub mod Rounds
pub mod Examples
use akira_ccsds.Base.{
  ℕ, zero, suc, ◌+◌, ◌-◌, ◌*◌, ◌/◌, ◌%◌, ◌^◌, ◌≤◌, ◌<◌, min, max, bit_or, bit_xor,
}
use akira_ccsds.Base.{◌≡◌, refl, sym, ap, ap₂, ◌∙◌, ◌≢◌, ◌↔◌, ◌⊎◌, inl, inr, arith}
use akira_ccsds.Base.{
  Bool, true, false, ◌&&◌, ◌||◌, not, Option, none, some, List, [], ◌∷◌, ◌++◌, map, append_assoc,
  append-nil,
}
use akira_ccsds.Base.{
  ltb, leb, ◌==◌, if◌then◌else◌, ltb→lt, leb→le, ltb→ge, lt→ltb, ge→ltb, ==_iff, ==_refl,
  Bool-cases, Option-cases, all_below, all_below_sound,
}
use akira_ccsds.Base.{
  length, get_or, set, take, drop, replicate, All, length-append, length-set, length-take,
  length-drop, length-replicate, take-append-drop, take-append, drop-append, take_all, take-set,
  set_beyond, get_or-take, set_back, All-set, get_or-append, concat, prepend, prepend-eq-some,
  get_or-set_self, get_or-set_ne, get_or_ext, All-append, All-take, All-drop,
}
use akira_ccsds.Base.{
  IsByte, AllBytes, u8, u16, u32, shr, shl, low_bits, test_bit, byte_at, get_be16, be16, be32,
  get_be32, be64, get_be64, byte_at-IsByte, all_bytes_sound,
}
use akira_ccsds.Cfdp.{
  Status, invalid_argument, buffer_too_small, malformed_pdu, unsupported, unsupported_checksum,
  invalid_transmission_mode, checksum_failure,
}
use akira_ccsds.Cfdp.{
  file_size_error, inactivity_detected, nak_limit_reached, cancel_request, filestore_rejection,
  transaction_busy, Outcome, done,
}
use akira_ccsds.Cfdp.{fail, ◌>>=◌, ChecksumType, modular, crc32c, ieee_802_3_fcs, null, unknown}
use akira_ccsds.Cfdp.{>>=-eq-done, Outcome-cases}
use akira_ccsds.Cfdp.Checksum.{Checksum}
use akira_ccsds.Cfdp.Ranges.{Range, Ranges}
use akira_ccsds.Cfdp.Pdu.{
  version_1, max_entity_id_len, max_trans_seq_len, fixed_header_min_len, max_encoded_int_len,
  pdu_type_file_directive, pdu_type_file_data, direction_toward_receiver,
}
use akira_ccsds.Cfdp.Pdu.{
  direction_toward_sender, transmission_mode_acknowledged, transmission_mode_unacknowledged,
  crc_not_present, crc_present, file_size_small, record_boundaries_not_preserved,
  record_boundaries_preserved,
}
use akira_ccsds.Cfdp.Pdu.{
  PduHeader, encoded_int_len_is_valid, header_lengths_are_valid, value_fits_len, write_be_uint,
  read_be_uint, header_encoded_len, header_byte0,
}
use akira_ccsds.Cfdp.Pdu.{
  header_byte3, header_bytes, encode_header, parsed_header, decode_header, condition_code_is_valid,
  with_data_len, put_pdu,
}
use akira_ccsds.Cfdp.Pdu.{on_data_field}

-- CCSDS_CFDP_MAX_PDU_SIZE, CCSDS_CFDP_MAX_SEGMENT_SIZE, CCSDS_CFDP_MAX_NAK_ROUNDS and
-- CCSDS_CFDP_RETRY_INTERVAL_MS at their defaults.
abbrev pub max_pdu_size : ℕ
max_pdu_size = 512

abbrev pub max_segment_size : ℕ
max_segment_size = 384

abbrev pub max_nak_rounds : ℕ
max_nak_rounds = 4

abbrev pub retry_interval_ms : ℕ
retry_interval_ms = 1000

-- `enum ccsds_cfdp_status` with CCSDS_CFDP_STATUS_OK.
abbrev pub Return : Type 0
Return = Outcome Unit

-- `struct ccsds_cfdp_transaction_id`
pub record TransactionId : Type 0 where
  pub source_entity_id : ℕ
  pub transaction_sequence_number : ℕ

-- `ccsds_cfdp_event_type_t`; the entity emits the last two.
pub data EventType : Type 0 where
  transaction_started metadata_recv file_segment_recv eof_recv nak_sent nak_recv : EventType
  retransmit finished_sent finished_recv complete failed : EventType

-- `struct ccsds_cfdp_event`
pub record Event : Type 0 where
  pub type : EventType
  pub transaction_id : TransactionId
  pub status : Return

-- `struct ccsds_cfdp_transaction_slot`, with file handles of type `H`. `filestore_set` is whether
-- the pointer to the file store is not NULL.
pub record Slot (H : Type 0) : Type 0 where
  pub active : Bool
  pub id : TransactionId
  pub peer_entity_id : ℕ
  pub filestore_set : Bool
  pub metadata_received : Bool
  pub file_handle_open : Bool
  pub file_handle : Option H
  pub file_size : ℕ
  pub eof_checksum : ℕ
  pub checksum_type : ChecksumType
  pub transmission_mode : ℕ
  pub checksum_state : Checksum
  pub received_ranges : Ranges
  pub source_path : List ℕ
  pub destination_path : List ℕ
  pub closure_requested : Bool
  pub eof_received : Bool
  pub finished_received : Bool
  pub recovery_pending : Bool
  pub waiting_for_finished_ack : Bool
  pub nak_retry_count : ℕ
  pub retry_count : ℕ
  pub retry_deadline_ms : ℕ
  pub finished_status : Return

-- The slot that `memset` to 0 leaves.
abbrev pub empty_slot : {H : Type 0} → Slot H
empty_slot = record {
  active = false;
  id = record { source_entity_id = 0; transaction_sequence_number = 0 };
  peer_entity_id = 0;
  filestore_set = false;
  metadata_received = false;
  file_handle_open = false;
  file_handle = none;
  file_size = 0;
  eof_checksum = 0;
  checksum_type = modular;
  transmission_mode = transmission_mode_acknowledged;
  checksum_state = record {
    type = modular;
    value = 0;
    next_offset = 0;
    crc_started = false;
    deferred = false;
  };
  received_ranges = [];
  source_path = [];
  destination_path = [];
  closure_requested = false;
  eof_received = false;
  finished_received = false;
  recovery_pending = false;
  waiting_for_finished_ack = false;
  nak_retry_count = 0;
  retry_count = 0;
  retry_deadline_ms = 0;
  finished_status = done tt;
}

-- `struct ccsds_cfdp_entity`, without its callbacks and scratch buffers.
pub record Entity (H : Type 0) : Type 0 where
  pub local_entity_id : ℕ
  pub remote_entity_id : ℕ
  pub entity_id_len : ℕ
  pub transaction_sequence_number_len : ℕ
  pub next_transaction_sequence_number : ℕ
  pub sender : Slot H
  pub receiver : Slot H
  pub sender_completion_available : Bool
  pub sender_completion_status : Return

-- The entity with the world of its callbacks.
pub record State (W H : Type 0) : Type 0 where
  pub entity : Entity H
  pub world : W

-- `struct ccsds_cfdp_ut_ops`, the event callback, `struct ccsds_cfdp_filestore_ops`, and the CRC
-- functions of Zephyr; `has_clock` is whether `now_ms` is not NULL. A Boolean is whether a call
-- returned 0; a read that returned 0 gives the bytes that it read; an open that returned 0 gives
-- the handle, which may be NULL.
pub record Ops (W H : Type 0) : Type 0 where
  pub send_pdu : ℕ → List ℕ → State W H → Bool × State W H
  pub event_cb : Event → State W H → State W H
  pub now_ms : W → ℕ × W
  pub has_clock : Bool
  pub open_read : List ℕ → W → Option (Option H × ℕ) × W
  pub open_write_tmp : List ℕ → W → Option (Option H) × W
  pub read : Option H → ℕ → ℕ → W → Option (List ℕ) × W
  pub write : Option H → ℕ → List ℕ → W → Bool × W
  pub close : Option H → W → Bool × W
  pub commit_tmp : List ℕ → W → Bool × W
  pub discard_tmp : List ℕ → W → Bool × W
  pub crc32_c : ℕ → List ℕ → Bool → Bool → ℕ
  pub crc32_ieee_update : ℕ → List ℕ → ℕ

unfoldable pub transaction_id_matches : TransactionId → TransactionId → Bool
transaction_id_matches a b =
    (a.source_entity_id == b.source_entity_id)
    && (a.transaction_sequence_number == b.transaction_sequence_number)

unfoldable pub transaction_id_from_header : PduHeader → TransactionId
transaction_id_from_header h = record {
  source_entity_id = h.source_entity_id;
  transaction_sequence_number = h.transaction_sequence_number;
}

module _ {H : Type 0} where
  unfoldable pub incoming_header_is_supported : Entity H → PduHeader → Bool
  incoming_header_is_supported entity h =
      (h.destination_entity_id == entity.local_entity_id)
      && (h.source_entity_id == entity.remote_entity_id)
      && (h.entity_id_len == entity.entity_id_len)
      && (h.transaction_sequence_number_len == entity.transaction_sequence_number_len)
      && (h.direction == direction_toward_receiver)
      && leb h.transmission_mode transmission_mode_unacknowledged
      && (h.crc_flag == crc_not_present)

  unfoldable pub incoming_finished_header_is_supported : Entity H → PduHeader → Bool
  incoming_finished_header_is_supported entity h =
      (h.source_entity_id == entity.local_entity_id)
      && (h.destination_entity_id == entity.remote_entity_id)
      && (h.entity_id_len == entity.entity_id_len)
      && (h.transaction_sequence_number_len == entity.transaction_sequence_number_len)
      && (h.direction == direction_toward_sender)
      && leb h.transmission_mode transmission_mode_unacknowledged
      && (h.crc_flag == crc_not_present)

  unfoldable pub arm_retry : Slot H → ℕ → Slot H
  arm_retry slot now_ms = record slot { retry_deadline_ms = (now_ms + retry_interval_ms) % 2 ^ 64 }

  unfoldable pub retry_due : Slot H → ℕ → Bool
  retry_due slot now_ms = (slot.retry_deadline_ms == 0) || leb slot.retry_deadline_ms now_ms

  abbrev pub is_acknowledged : Slot H → Bool
  is_acknowledged slot = slot.transmission_mode == transmission_mode_acknowledged

module _ {W H : Type 0} where
  abbrev pub set_receiver : Slot H → State W H → State W H
  set_receiver slot s = record s { entity = record s.entity { receiver = slot } }

  abbrev pub set_sender : Slot H → State W H → State W H
  set_sender slot s = record s { entity = record s.entity { sender = slot } }

  abbrev pub set_world : W → State W H → State W H
  set_world w s = record s { world = w }

  unfoldable pub emit_terminal_event : Ops W H → TransactionId → Return → State W H → State W H
  emit_terminal_event ops id (done u) s =
      ops.event_cb (record { type = complete; transaction_id = id; status = done u }) s
  emit_terminal_event ops id (fail status) s =
      ops.event_cb (record { type = failed; transaction_id = id; status = fail status }) s

  -- An encoder's result, and then `send_encoded_pdu_to`.
  unfoldable pub send_encoded_pdu_to :
      Ops W H → ℕ → Outcome (List ℕ) → State W H → Return × State W H
  send_encoded_pdu_to ops dest_entity_id (fail status) s = (fail status, s)
  send_encoded_pdu_to ops dest_entity_id (done bytes) s =
      let sent = ops.send_pdu dest_entity_id bytes s in
      (if sent.0 then done tt else fail invalid_argument, sent.1)
