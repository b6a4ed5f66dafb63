-- ===== src/Cfdp/Adapter/Examples.antt =====
-- The Space Packet adapter at concrete inputs.
use akira_ccsds.Base.{ℕ}
use akira_ccsds.Base.{◌≡◌, refl, arith}
use akira_ccsds.Base.{true, Option, some, List, [], ◌∷◌, ◌++◌}
use akira_ccsds.Base.{einval, ok, Code, success, failure}
use akira_ccsds.Cfdp.{fail, done, invalid_argument}
use akira_ccsds.Cfdp.Entity.{State}
use akira_ccsds.Cfdp.Entity.Dispatch.{receive_pdu}
use akira_ccsds.Cfdp.Entity.Examples.{sample_ops, sample_slot, sample_state, sample_pdu}
use akira_ccsds.Cfdp.Adapter.Delivery.{IsAdapter, send_pdu-delivered}
use akira_ccsds.Cfdp.Adapter.{Adapter, send_pdu, rx_handler, adapter_init, register_rx}
use akira_ccsds.SpacePacket.{SpacePacket}
use akira_ccsds.Router.{
  Router, cleared, init, register_apid, replace_handler, take_free, dispatch_bytes,
}

-- A sender that is at the end of its sequence counter, and the receiver that it names.
abbrev sending : Adapter
sending = record {
  remote_entity_id = 2;
  local_apid = 40;
  remote_apid = 41;
  packet_type = 0;
  sequence_count = 16383;
}

abbrev receiving : Adapter
receiving = record {
  remote_entity_id = 1;
  local_apid = 41;
  remote_apid = 40;
  packet_type = 0;
  sequence_count = 0;
}

adapter_init-sending : adapter_init sending ≡ done sending
unfolding adapter_init
adapter_init-sending = refl

adapter_init-too_large :
    adapter_init (record sending { remote_apid = 2048 }) ≡ fail invalid_argument
unfolding adapter_init
adapter_init-too_large = refl

sending-IsAdapter : IsAdapter sending
sending-IsAdapter = record {
  remote_apid_fits = omega arith;
  type_fits = omega arith;
  count_fits = omega arith;
}

-- The router has room for two APIDs.
abbrev one_registered : Router ℕ ℕ
one_registered =
    record { apid = 41; handler = some 1; user_data = some 9; active = true } ∷ cleared ∷ []

register_receiving : register_rx receiving (init {H = ℕ} {U = ℕ} 2) 1 9 ≡ ok one_registered
unfolding register_rx register_apid replace_handler take_free init
register_receiving = refl

abbrev call_adapter :
    Option ℕ → SpacePacket → Option ℕ → State (List ℕ) Unit → Code × State (List ℕ) Unit
call_adapter handler p user s = rx_handler sample_ops p s

send_pdu-delivered_example :
    (packet : List ℕ) × (send_pdu (λ bytes sent. (success, bytes ++ sent)) sending 2 sample_pdu []
      ≡ (success, (record sending { sequence_count = 0 }, packet ++ [])))
    × (dispatch_bytes call_adapter one_registered packet (sample_state sample_slot) ≡ (
      elim (receive_pdu sample_ops sample_pdu (sample_state sample_slot)).0 [
        | done u ↦ success
        | fail status ↦ failure einval
      ],
      (receive_pdu sample_ops sample_pdu (sample_state sample_slot)).1,
    ))
send_pdu-delivered_example =
    send_pdu-delivered sample_ops (λ bytes sent. (success, bytes ++ sent)) call_adapter sending
      receiving sample_pdu [] (init 2) one_registered 1 9 (sample_state sample_slot)
      sending-IsAdapter (omega arith, omega arith) refl register_receiving (λ p t. refl)
