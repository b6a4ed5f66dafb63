-- ===== src/Cfdp/Adapter.antt =====
-- CFDP over Space Packets: connectivity/ccsds/ccsds_cfdp_space_packet.c and .h. The callback that
-- sends a packet works on the world and does not use the adapter; the entity that receives is the
-- state that the handler is called with. NULL pointers are not represented, and the clock is
-- passed on as it is.
pub mod Delivery
mod Examples
use akira_ccsds.Base.{
  ℕ, zero, suc, ◌+◌, ◌-◌, ◌*◌, ◌/◌, ◌%◌, ◌^◌, ◌≤◌, ◌<◌, min, max, bit_or, bit_xor,
}
use akira_ccsds.Base.{◌≡◌, refl, sym, ap, ap₂, ◌∙◌, ◌≢◌, ◌↔◌, ◌⊎◌, inl, inr, arith}
use akira_ccsds.Base.{
  Bool, true, false, ◌&&◌, ◌||◌, not, Option, none, some, List, [], ◌∷◌, ◌++◌, map, append_assoc,
  append-nil,
}
use akira_ccsds.Base.{
  ltb, leb, ◌==◌, if◌then◌else◌, ltb→lt, leb→le, ltb→ge, lt→ltb, ge→ltb, ==_iff, ==_refl,
  Bool-cases, Option-cases, all_below, all_below_sound,
}
use akira_ccsds.Base.{
  length, get_or, set, take, drop, replicate, All, length-append, length-set, length-take,
  length-drop, length-replicate, take-append-drop, take-append, drop-append, take_all, take-set,
  set_beyond, get_or-take, set_back, All-set, get_or-append, concat, prepend, prepend-eq-some,
  get_or-set_self, get_or-set_ne, get_or_ext, All-append, All-take, All-drop,
}
use akira_ccsds.Base.{
  IsByte, AllBytes, u8, u16, u32, shr, shl, low_bits, test_bit, byte_at, get_be16, be16, be32,
  get_be32, be64, get_be64, byte_at-IsByte, all_bytes_sound,
}
use akira_ccsds.Base.{
  Errno, einval, emsgsize, enospc, enoent, eio, eacces, enotsup, Result, ok, err, ◌>>=◌, Code,
  success, failure, other,
}
use akira_ccsds.Cfdp.{Status, Outcome, done, fail, invalid_argument}
use akira_ccsds.Cfdp.Pdu.{decode_header}
use akira_ccsds.Cfdp.Entity.{Ops, State, Return, max_pdu_size}
use akira_ccsds.Cfdp.Entity.Receiver.{is_ok}
use akira_ccsds.Cfdp.Entity.Dispatch.{receive_pdu}
use akira_ccsds.SpacePacket.{SpacePacket, apid_max, primary_hdr_len, sequence_unsegmented, encode}
use akira_ccsds.Router.{Router, register_apid}

-- `struct ccsds_cfdp_space_packet_adapter` without its callbacks, the entity and the buffer.
pub record Adapter : Type 0 where
  pub remote_entity_id : ℕ
  pub local_apid : ℕ
  pub remote_apid : ℕ
  pub packet_type : ℕ
  pub sequence_count : ℕ

-- The packet that carries a PDU.
unfoldable pub packet_of : Adapter → List ℕ → SpacePacket
packet_of adapter pdu = record {
  version = 0;
  type = adapter.packet_type;
  secondary_header = false;
  apid = adapter.remote_apid;
  sequence_flags = sequence_unsegmented;
  sequence_count = adapter.sequence_count;
  payload = pdu;
}

-- `cfdp_space_packet_send_pdu`
unfoldable pub send_pdu :
    {W : Type 0} → (List ℕ → W → Code × W) → Adapter → ℕ → List ℕ → W → Code × (Adapter × W)
send_pdu send_packet adapter dest_entity_id pdu world =
    if (length pdu == 0)
      || ltb max_pdu_size (length pdu)
      || not (dest_entity_id == adapter.remote_entity_id)
    then (failure einval, (adapter, world))
    else elim (encode (packet_of adapter pdu) (primary_hdr_len + max_pdu_size)) [
      | err e ↦ (failure e, (adapter, world))
      | ok packet ↦
          let sent = send_packet packet world in
          let next = record adapter { sequence_count = low_bits (adapter.sequence_count + 1) 14 } in
          (sent.0, (next, sent.1))
    ]

unfoldable pub code_of : Return → Code
code_of (done u) = success
code_of (fail status) = failure einval

module _ {W H : Type 0} (ops : Ops W H) where
  -- What the handler does with the PDU of an accepted packet.
  unfoldable pub receive_payload : List ℕ → State W H → Code × State W H
  receive_payload pdu s =
      let received = receive_pdu ops pdu s in
      elim (decode_header pdu) [
        | fail status ↦ (failure einval, s)
        | done found ↦ (code_of received.0, received.1)
      ]

  -- `cfdp_space_packet_rx_handler`
  unfoldable pub rx_handler : SpacePacket → State W H → Code × State W H
  rx_handler packet s =
      if not (packet.version == 0)
        || packet.secondary_header
        || not (packet.sequence_flags == sequence_unsegmented)
        || (length packet.payload == 0)
        || ltb max_pdu_size (length packet.payload)
      then (failure einval, s)
      else receive_payload packet.payload s

-- `ccsds_cfdp_space_packet_adapter_init`, with the configuration in place of the adapter.
unfoldable pub adapter_init : Adapter → Outcome Adapter
adapter_init config =
    if ltb apid_max config.local_apid
      || ltb apid_max config.remote_apid
      || ltb 0x3fff config.sequence_count
    then fail invalid_argument
    else done config

-- `ccsds_cfdp_space_packet_adapter_register_rx`, with the handler and the adapter as registered.
unfoldable pub register_rx : {H U : Type 0} → Adapter → Router H U → H → U → Result (Router H U)
register_rx adapter router handler user =
    register_apid router adapter.local_apid handler (some user)
