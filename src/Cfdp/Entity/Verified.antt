-- ===== src/Cfdp/Entity/Verified.antt =====
-- When a receiver reports success: connectivity/ccsds/ccsds_cfdp_entity.c.
use akira_ccsds.Base.{ℕ, ◌≤◌, ◌<◌}
use akira_ccsds.Base.{◌≡◌, sym, ap, ◌∙◌, inl, inr, arith}
use akira_ccsds.Base.{Bool, true, false, List}
use akira_ccsds.Base.{◌==◌, if◌then◌else◌}
use akira_ccsds.Base.{length}
use akira_ccsds.Cfdp.{checksum_failure}
use akira_ccsds.Cfdp.{file_size_error, done}
use akira_ccsds.Cfdp.{fail, ◌>>=◌}
use akira_ccsds.Cfdp.{>>=-eq-done, Outcome-cases}
use akira_ccsds.Cfdp.Ranges
use akira_ccsds.Cfdp.Ranges.Cover.{covers, IsNormal}
use akira_ccsds.Cfdp.Ranges.Query.{is_complete_lem}
use akira_ccsds.Cfdp.Ranges.{Range, Ranges}
use akira_ccsds.Cfdp.Pdu.{PduHeader}
use akira_ccsds.Cfdp.Pdu.Eof.{EofPdu, decode_eof}
use akira_ccsds.Cfdp.Entity.{Entity, State, Ops}
use akira_ccsds.Cfdp.Entity.{is_acknowledged, set_receiver}
use akira_ccsds.Cfdp.Entity.{set_world}
use akira_ccsds.Cfdp.Entity.Receiver.{condition_no_error}
use akira_ccsds.Cfdp.Entity.Receiver.{receiver_match_active, receiver_compute_checksum}
use akira_ccsds.Cfdp.Entity.Receiver.{receiver_verify_complete_file}
use akira_ccsds.Cfdp.Entity.Handlers.{verify_and_finish}
use akira_ccsds.Cfdp.Entity.EndOfFile.{
  request_missing, conclude_eof, accept_eof, receiver_handle_eof,
}
use akira_ccsds.Cfdp.Entity.Failure.{receiver_finish-fail, receiver_finish-done}

receiver_match_active-done :
    {H : Type 0} (entity : Entity H) (h : PduHeader) {u : Unit}
    → receiver_match_active entity h ≡ done u
    → entity.receiver.active ≡ true
unfolding receiver_match_active
receiver_match_active-done entity h e = ground arith

is_complete-nonempty :
    (rs : Ranges) (stop : ℕ) {b : Bool}
    → Ranges.is_complete rs 0 stop ≡ done b
    → (0 < stop) × (length rs ≤ 4)
unfolding Ranges.is_complete
is_complete-nonempty rs stop e = (ground arith, ground arith)

all_covered :
    (rs : Ranges) (stop : ℕ)
    → IsNormal rs
    → length rs ≤ 4
    → 0 < stop
    → Ranges.is_complete rs 0 stop ≡ done true
    → (x : ℕ) → x < stop
    → covers rs x ≡ true
all_covered rs stop normal few some_bytes e x inside =
    elim (is_complete_lem rs 0 stop normal few some_bytes) [
      | inl whole ↦ whole.1 x (ground arith)
      | inr gap ↦ absurd (ground (arith, e, gap.0))
    ]

module _ {W H : Type 0} (ops : Ops W H) where
  -- A computed checksum that is the expected one is what a success of `verify_and_finish` needs.
  verify_and_finish-done :
      (expected : ℕ) (s : State W H)
      → (verify_and_finish ops expected s).0 ≡ done tt
      → (receiver_compute_checksum ops s.entity.receiver s.world).0 ≡ done expected
  unfolding verify_and_finish receiver_verify_complete_file
  verify_and_finish-done expected s e =
      let computed = receiver_compute_checksum ops s.entity.receiver s.world in
      let passed =
        receiver_finish-done ops
          (computed.0
            >>= (λ checksum. if checksum == expected then done tt else fail checksum_failure))
          (set_world computed.1 s) e in
      let found =
        >>=-eq-done computed.0
          (λ checksum. if checksum == expected then done tt else fail checksum_failure) passed in
      let same : found.0 ≡ expected = ground (arith, found.2) in found.1 ∙ ap done same

  conclude_eof-done :
      (eof : EofPdu) (s : State W H)
      → is_acknowledged s.entity.receiver ≡ false
      → (conclude_eof ops eof s).0 ≡ done tt
      → (Ranges.is_complete s.entity.receiver.received_ranges 0 eof.file_size ≡ done true)
        × ((receiver_compute_checksum ops s.entity.receiver s.world).0 ≡ done eof.file_checksum)
  unfolding conclude_eof request_missing
  conclude_eof-done eof s u e =
      let found = Ranges.is_complete s.entity.receiver.received_ranges 0 eof.file_size in
      elim (Outcome-cases found) [
        | inl refused ↦ ground (arith, refused, receiver_finish-fail ops refused.0 s)
        | inr answered ↦ ground (
          arith,
          answered,
          receiver_finish-fail ops file_size_error s,
          verify_and_finish-done eof.file_checksum s,
        )
      ]

  accept_eof-done :
      (eof : EofPdu) (s : State W H)
      → is_acknowledged s.entity.receiver ≡ false
      → s.entity.receiver.waiting_for_finished_ack ≡ false
      → (accept_eof ops eof s).0 ≡ done tt
      → (eof.condition_code ≡ condition_no_error)
        × (eof.file_size ≡ s.entity.receiver.file_size)
        × ((conclude_eof ops eof
              (set_receiver (record s.entity.receiver { eof_checksum = eof.file_checksum }) s)).0
            ≡ done tt)
  unfolding accept_eof
  accept_eof-done eof s unacked idle e = ground (
    arith,
    unacked,
    idle,
    receiver_finish-fail ops file_size_error
        (set_receiver (record s.entity.receiver { eof_checksum = eof.file_checksum }) s),
  )

  receiver_handle_eof-accepted :
      (pdu : List ℕ) (s : State W H)
      → (receiver_handle_eof ops pdu s).0 ≡ done tt
      → (eof : EofPdu) × (decode_eof pdu ≡ done (eof, length pdu))
        × (s.entity.receiver.active ≡ true)
        × ((accept_eof ops eof s).0 ≡ done tt)
  unfolding receiver_handle_eof
  receiver_handle_eof-accepted pdu s e = elim (Outcome-cases (decode_eof pdu)) [
    | inl refused ↦ absurd (ground (arith, refused))
    | inr answered ↦
        let eof = answered.0.0 in
        elim (Outcome-cases (receiver_match_active s.entity eof.header)) [
          | inl unmatched ↦ absurd (ground (arith, answered, unmatched))
          | inr matched ↦
              let whole : answered.0.1 ≡ length pdu = ground (arith, answered, matched) in
              (
                eof,
                answered.1 ∙ ap (λ n. done (eof, n)) whole,
                receiver_match_active-done s.entity eof.header matched.1,
                ground (arith, answered, matched),
              )
        ]
  ]

  -- What a receiver in unacknowledged mode has verified when it reports success for an EOF PDU: the
  -- PDU was decoded whole, it names no error and the file size of the Metadata PDU, the file is not
  -- empty and each of its offsets was received, and the checksum of the file as read back is the
  -- one of the PDU. The received ranges are in normal form.
  pub receiver_handle_eof-done :
      (pdu : List ℕ) (s : State W H)
      → is_acknowledged s.entity.receiver ≡ false
      → s.entity.receiver.waiting_for_finished_ack ≡ false
      → IsNormal s.entity.receiver.received_ranges
      → (receiver_handle_eof ops pdu s).0 ≡ done tt
      → (eof : EofPdu) × (decode_eof pdu ≡ done (eof, length pdu))
        × (eof.condition_code ≡ condition_no_error)
        × (eof.file_size ≡ s.entity.receiver.file_size)
        × (0 < s.entity.receiver.file_size)
        × ((x : ℕ)
            → x < s.entity.receiver.file_size
            → covers s.entity.receiver.received_ranges x ≡ true)
        × ((receiver_compute_checksum ops
              (record s.entity.receiver { eof_checksum = eof.file_checksum })
              s.world).0
            ≡ done eof.file_checksum)
  receiver_handle_eof-done pdu s unacked idle normal e =
      let found = receiver_handle_eof-accepted pdu s e in
      let eof = found.0 in
      let slot = s.entity.receiver in
      let noted = set_receiver (record slot { eof_checksum = eof.file_checksum }) s in
      let agreed = accept_eof-done eof s unacked idle found.3 in
      let ended = conclude_eof-done eof noted unacked agreed.2 in
      let answered : Ranges.is_complete slot.received_ranges 0 slot.file_size ≡ done true =
        ap (λ n. Ranges.is_complete slot.received_ranges 0 n) (sym agreed.1) ∙ ended.0 in
      let bounds = is_complete-nonempty slot.received_ranges slot.file_size answered in
      (
        eof,
        found.1,
        agreed.0,
        agreed.1,
        bounds.0,
        all_covered slot.received_ranges slot.file_size normal bounds.1 bounds.0 answered,
        ended.1,
      )
