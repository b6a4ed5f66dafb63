-- ===== src/Cfdp/Adapter/Delivery.antt =====
-- A PDU on its way from one adapter to the entity of another.
use akira_ccsds.Base.{ℕ, ◌+◌, ◌%◌, ◌^◌, ◌≤◌, ◌<◌}
use akira_ccsds.Base.{◌≡◌, refl, sym, ap, ◌∙◌, inl, inr, arith}
use akira_ccsds.Base.{Option, none, some, List, [], append-nil}
use akira_ccsds.Base.{==_refl}
use akira_ccsds.Base.{length}
use akira_ccsds.Base.{einval, enoent, ok, Code, success, failure}
use akira_ccsds.Cfdp.{Status, done, fail, Outcome-cases}
use akira_ccsds.Cfdp.Adapter.{
  Adapter, packet_of, send_pdu, code_of, receive_payload, rx_handler, register_rx,
}
use akira_ccsds.Cfdp.Pdu.{decode_header}
use akira_ccsds.Cfdp.Entity.{Ops, State, Return, max_pdu_size}
use akira_ccsds.Cfdp.Entity.Dispatch.{receive_pdu}
use akira_ccsds.SpacePacket.{SpacePacket, apid_max, primary_hdr_len, encode, encoded_len}
use akira_ccsds.SpacePacket.RoundTrip.{IsWellFormed}
use akira_ccsds.Router.{Router, dispatch_bytes}
use akira_ccsds.Router.Lookup.{lookup, register_apid_lem}
use akira_ccsds.Router.Invariant.{dispatch_bytes-encode}

-- An adapter that `adapter_init` made, and what `send_pdu` keeps of it.
pub record IsAdapter (a : Adapter) : Type 0 where
  pub remote_apid_fits : a.remote_apid ≤ apid_max
  pub type_fits : a.packet_type < 2
  pub count_fits : a.sequence_count < 2 ^ 14

-- A PDU of a size that an adapter carries.
abbrev pub IsCarried : List ℕ → Type 0
IsCarried pdu = (1 ≤ length pdu) × (length pdu ≤ max_pdu_size)

packet_of-IsWellFormed :
    (a : Adapter) (pdu : List ℕ) → IsAdapter a → IsCarried pdu → IsWellFormed (packet_of a pdu)
unfolding packet_of
packet_of-IsWellFormed a pdu w c = record {
  version_fits = omega arith;
  type_fits = w.type_fits;
  apid_fits = w.remote_apid_fits;
  flags_fit = omega arith;
  count_fits = w.count_fits;
  payload_present = c.0;
  payload_fits = omega (arith, c.1);
}

room :
    (a : Adapter) (pdu : List ℕ)
    → IsCarried pdu
    → encoded_len (length (packet_of a pdu).payload) ≤ primary_hdr_len + max_pdu_size
unfolding packet_of
room a pdu c = omega (arith, c.1)

lookup-register_rx :
    {H U : Type 0} (a b : Adapter) (pdu : List ℕ) (router router' : Router H U) (handler : H)
    (user : U)
    → a.remote_apid ≡ b.local_apid
    → register_rx b router handler user ≡ ok router'
    → lookup (packet_of a pdu).apid router' ≡ some (some handler, some user)
unfolding packet_of register_rx
lookup-register_rx a b pdu router router' handler user same registered =
    let found =
      (register_apid_lem router b.local_apid handler (some user)).0 router' registered
        a.remote_apid in
    ground (arith, found, same, ==_refl b.local_apid)

send_pdu-encoded :
    {V : Type 0} (send_packet : List ℕ → V → Code × V) (a : Adapter) (pdu : List ℕ) (world : V)
    (packet : List ℕ)
    → IsCarried pdu
    → encode (packet_of a pdu) (primary_hdr_len + max_pdu_size) ≡ ok packet
    → send_pdu send_packet a a.remote_entity_id pdu world ≡ (
      (send_packet packet world).0,
      (record a { sequence_count = (a.sequence_count + 1) % 2 ^ 14 }, (send_packet packet world).1),
    )
unfolding send_pdu
send_pdu-encoded send_packet a pdu world packet c stored =
    ground (arith, c, stored, ==_refl a.remote_entity_id)

module _ {W H : Type 0} (ops : Ops W H) where
  rx_handler-packet_of :
      (a : Adapter) (pdu : List ℕ) (s : State W H)
      → IsCarried pdu
      → rx_handler ops (packet_of a pdu) s ≡ receive_payload ops pdu s
  unfolding rx_handler packet_of
  rx_handler-packet_of a pdu s c = ground (arith, c)

  code_of_lem :
      (r : Return) → code_of r ≡ (elim r [ done u ↦ success | fail status ↦ failure einval ])
  unfolding code_of
  code_of_lem (done u) = refl
  code_of_lem (fail status) = refl

  receive_pdu_undecoded :
      (pdu : List ℕ) (s : State W H) {status : Status}
      → decode_header pdu ≡ fail status
      → receive_pdu ops pdu s ≡ (fail status, s)
  unfolding receive_pdu
  receive_pdu_undecoded pdu s e = rw (receive_pdu, e) refl

  receive_payload-receive_pdu :
      (pdu : List ℕ) (s : State W H)
      → receive_payload ops pdu s ≡ (
        elim (receive_pdu ops pdu s).0 [ done u ↦ success | fail status ↦ failure einval ],
        (receive_pdu ops pdu s).1,
      )
  unfolding receive_payload
  receive_payload-receive_pdu pdu s = elim (Outcome-cases (decode_header pdu)) [
    | inl (status, e) ↦ ground (arith, e, receive_pdu_undecoded pdu s e)
    | inr (found, e) ↦ ground (arith, e, code_of_lem (receive_pdu ops pdu s).0)
  ]

  -- A PDU that an adapter sends reaches the entity behind the other end unchanged: the adapter
  -- hands one packet to its callback, and when the bytes of that packet are dispatched by a router
  -- at which the other adapter has registered, the new state is the one that `receive_pdu` of the
  -- entity gives for this very PDU, and the result is 0 when it reports OK and EINVAL when it fails. The sender is well-formed, the PDU has 1 to 512 bytes and is sent to the
  -- adapter's peer, the sender's remote APID is the receiver's local one, and the registered
  -- handler runs `rx_handler`.
  pub send_pdu-delivered :
      {V H' U : Type 0} (send_packet : List ℕ → V → Code × V)
      (call : Option H' → SpacePacket → Option U → State W H → Code × State W H) (a b : Adapter)
      (pdu : List ℕ) (world : V) (router router' : Router H' U) (handler : H') (user : U)
      (s : State W H)
      → IsAdapter a
      → IsCarried pdu
      → a.remote_apid ≡ b.local_apid
      → register_rx b router handler user ≡ ok router'
      → ((p : SpacePacket) (t : State W H)
          → call (some handler) p (some user) t ≡ rx_handler ops p t)
      → (packet : List ℕ) × (send_pdu send_packet a a.remote_entity_id pdu world ≡ (
        (send_packet packet world).0,
        (
          record a { sequence_count = (a.sequence_count + 1) % 2 ^ 14 },
          (send_packet packet world).1,
        ),
      ))
        × (dispatch_bytes call router' packet s ≡ (
          elim (receive_pdu ops pdu s).0 [ done u ↦ success | fail status ↦ failure einval ],
          (receive_pdu ops pdu s).1,
        ))
  send_pdu-delivered send_packet call a b pdu world router router' handler user s w c same
        registered runs =
      let (packet, stored, dispatched) =
        dispatch_bytes-encode call router' (packet_of a pdu) (primary_hdr_len + max_pdu_size) [] s
          (packet_of-IsWellFormed a pdu w c) (room a pdu c) in
      let arrival : elim (lookup (packet_of a pdu).apid router') [
        | none ↦ (failure enoent, s)
        | some reg ↦ call reg.0 (packet_of a pdu) reg.1 s
      ]
          ≡ call (some handler) (packet_of a pdu) (some user) s =
        rw (lookup-register_rx a b pdu router router' handler user same registered) refl in
      (
        packet,
        send_pdu-encoded send_packet a pdu world packet c stored,
        ap (λ bytes. dispatch_bytes call router' bytes s) (sym (append-nil packet))
            ∙ dispatched
            ∙ arrival
            ∙ runs (packet_of a pdu) s
            ∙ rx_handler-packet_of a pdu s c
            ∙ receive_payload-receive_pdu pdu s,
      )
