-- ===== src/Cfdp/Entity/Waiting.antt =====
-- A receiver that waits for the ACK of its Finished PDU, under `ccsds_cfdp_entity_poll` of
-- connectivity/ccsds/ccsds_cfdp_entity.c.
use akira_ccsds.Base.{ℕ, suc, ◌+◌, ◌^◌, ◌≤◌, ◌<◌}
use akira_ccsds.Base.{◌≡◌, refl, sym, ap, ◌∙◌, ◌⊎◌, inl, inr, arith}
use akira_ccsds.Base.{true, false, List, [], ◌∷◌}
use akira_ccsds.Base.{leb, Bool-cases}
use akira_ccsds.Base.{length}
use mathlib.Core.Path.{subst}
use akira_ccsds.Cfdp.{inactivity_detected, Outcome, done}
use akira_ccsds.Cfdp.{fail}
use akira_ccsds.Cfdp.{Outcome-cases}
use akira_ccsds.Cfdp.Entity.{max_nak_rounds, retry_interval_ms, Return, TransactionId}
use akira_ccsds.Cfdp.Entity.{Event, Slot, Entity, State, Ops}
use akira_ccsds.Cfdp.Entity.{arm_retry, retry_due, is_acknowledged}
use akira_ccsds.Cfdp.Entity.{set_sender, emit_terminal_event, send_encoded_pdu_to}
use akira_ccsds.Cfdp.Entity.Receiver.{send_finished_for_receiver_status}
use akira_ccsds.Cfdp.Entity.Finish.{release_receiver_transaction, release_receiver_terminal}
use akira_ccsds.Cfdp.Entity.EndOfFile.{poll_recovery, poll_finished}
use akira_ccsds.Cfdp.Entity.Sender.{
  send_eof, close_sender_handle, release_sender_transaction, release_sender_terminal, sender_fail,
}
use akira_ccsds.Cfdp.Entity.Dispatch.{poll_sender, poll}

-- A transport and an event callback that do not call back into the entity.
pub record IsQuiet {W H : Type 0} (ops : Ops W H) : Type 0 where
  pub quiet_send :
      (to : ℕ) (bytes : List ℕ) (s : State W H) → (ops.send_pdu to bytes s).1.entity ≡ s.entity
  pub quiet_event : (event : Event) (s : State W H) → (ops.event_cb event s).entity ≡ s.entity

-- A receiver that waits for the ACK of its Finished PDU.
abbrev pub AwaitsAck : {H : Type 0} → Slot H → Type 0
AwaitsAck slot =
    (slot.active ≡ true)
    × (is_acknowledged slot ≡ true)
    × (slot.waiting_for_finished_ack ≡ true)
    × (slot.recovery_pending ≡ false)

-- The receiver was released, or it waits on with one retry more and a later deadline.
abbrev IsRetried : {H : Type 0} → Slot H → ℕ → Slot H → Type 0
IsRetried slot now after =
    (after.active ≡ false)
    ⊎ (AwaitsAck after
        × (slot.retry_count < max_nak_rounds)
        × (after.retry_count ≡ suc slot.retry_count)
        × (after.retry_deadline_ms ≡ now + retry_interval_ms))

-- Polls at the times of a list.
abbrev pub poll_all : {W H : Type 0} → Ops W H → List ℕ → State W H → State W H
poll_all ops [] s = s
poll_all ops (now ∷ times) s = poll_all ops times (poll ops now s)

-- Times of which each is no earlier than the deadline that the one before it sets.
abbrev pub IsSpaced : ℕ → List ℕ → Type 0
IsSpaced deadline [] = Unit
IsSpaced deadline (now ∷ times) =
    (deadline ≤ now) × (now + retry_interval_ms < 2 ^ 64) × IsSpaced (now + retry_interval_ms) times

module _ {W H : Type 0} (ops : Ops W H) (quiet : IsQuiet ops) where
  send_encoded_pdu_to-entity :
      (to : ℕ) (encoded : Outcome (List ℕ)) (s : State W H)
      → (send_encoded_pdu_to ops to encoded s).1.entity ≡ s.entity
  unfolding send_encoded_pdu_to
  send_encoded_pdu_to-entity to (done bytes) s = quiet.quiet_send to bytes s
  send_encoded_pdu_to-entity to (fail status) s = refl

  emit_terminal_event-entity :
      (id : TransactionId) (status : Return) (s : State W H)
      → (emit_terminal_event ops id status s).entity ≡ s.entity
  unfolding emit_terminal_event
  emit_terminal_event-entity id (done u) s = quiet.quiet_event _ s
  emit_terminal_event-entity id (fail status) s = quiet.quiet_event _ s

  -- The sender's part of a poll leaves the receiver alone.
  close_sender_handle-receiver :
      (s : State W H) → (close_sender_handle ops s).entity.receiver ≡ s.entity.receiver
  unfolding close_sender_handle
  close_sender_handle-receiver s = refl

  sender_fail-receiver :
      (status : Return) (s : State W H)
      → (sender_fail ops status s).1.entity.receiver ≡ s.entity.receiver
  unfolding sender_fail release_sender_terminal release_sender_transaction close_sender_handle
  sender_fail-receiver status s =
      let closed =
        close_sender_handle ops
          (set_sender (record s.entity.sender { finished_status = status }) s) in
      ap (λ (t : Entity H). t.receiver)
        (emit_terminal_event-entity closed.entity.sender.id status closed)

  -- A retransmission of the EOF PDU, by what the transport returned.
  poll_sender-receiver :
      (now : ℕ) (s : State W H) → (poll_sender ops now s).entity.receiver ≡ s.entity.receiver
  unfolding poll_sender
  poll_sender-receiver now s =
      let slot = s.entity.sender in
      let sent = send_eof ops slot.eof_checksum slot.file_size s in
      let kept : sent.1.entity.receiver ≡ s.entity.receiver =
        unfold send_eof in ap (λ (t : Entity H). t.receiver) (send_encoded_pdu_to-entity _ _ s) in
      elim (Outcome-cases sent.0) [
        | inl refused ↦ ground (
          arith,
          refused,
          kept,
          sender_fail-receiver (fail inactivity_detected) s,
          sender_fail-receiver (fail refused.0) sent.1,
        )
        | inr accepted ↦
            ground (arith, accepted, kept, sender_fail-receiver (fail inactivity_detected) s)
      ]

  -- The retry of a Finished PDU: the receiver is released, or it waits on with one retry more.
  poll_finished-IsRetried :
      (now : ℕ) (s : State W H)
      → AwaitsAck s.entity.receiver
      → retry_due s.entity.receiver now ≡ true
      → now + retry_interval_ms < 2 ^ 64
      → IsRetried s.entity.receiver now (poll_finished ops now s).entity.receiver
  unfolding poll_finished arm_retry release_receiver_terminal release_receiver_transaction
  poll_finished-IsRetried now s awaits due small =
      let slot = s.entity.receiver in
      let sent = send_finished_for_receiver_status ops slot.finished_status s in
      let kept : sent.1.entity ≡ s.entity =
        unfold send_finished_for_receiver_status in send_encoded_pdu_to-entity _ _ s in
      let receiver_kept : sent.1.entity.receiver ≡ slot = ap (λ (t : Entity H). t.receiver) kept in
      elim (Outcome-cases sent.0) [
        | inl refused ↦ inl (ground (arith, awaits, due, refused))
        | inr accepted ↦ elim (Bool-cases (leb max_nak_rounds slot.retry_count)) [
          | inl exhausted ↦ inl (ground (arith, awaits, due, exhausted))
          | inr rounds_left ↦
              let next : (poll_finished ops now s).entity.receiver ≡ record slot {
                retry_count = suc slot.retry_count;
                retry_deadline_ms = now + retry_interval_ms;
              } =
                ground (arith, awaits, due, accepted, rounds_left, receiver_kept) in
              inr (
                (
                  ap (λ (t : Slot H). t.active) next ∙ awaits.0,
                  ap (λ (t : Slot H). is_acknowledged t) next ∙ awaits.1,
                  ap (λ (t : Slot H). t.waiting_for_finished_ack) next ∙ awaits.2,
                  ap (λ (t : Slot H). t.recovery_pending) next ∙ awaits.3,
                ),
                ground arith,
                ap (λ (t : Slot H). t.retry_count) next,
                ap (λ (t : Slot H). t.retry_deadline_ms) next,
              )
        ]
      ]

  poll_recovery-idle :
      (now : ℕ) (s : State W H)
      → (s.entity.receiver.active ≡ false) ⊎ (s.entity.receiver.recovery_pending ≡ false)
      → poll_recovery ops now s ≡ s
  unfolding poll_recovery
  poll_recovery-idle now s (inl inactive) = ground (arith, inactive)
  poll_recovery-idle now s (inr idle) = ground (arith, idle)

  poll_finished-inactive :
      (now : ℕ) (s : State W H) → s.entity.receiver.active ≡ false → poll_finished ops now s ≡ s
  unfolding poll_finished
  poll_finished-inactive now s inactive = ground (arith, inactive)

  -- A released receiver stays released, whatever the times are.
  poll_all-inactive :
      (times : List ℕ) (s : State W H)
      → s.entity.receiver.active ≡ false
      → (poll_all ops times s).entity.receiver.active ≡ false
  unfolding poll
  poll_all-inactive [] s inactive = inactive
  poll_all-inactive (now ∷ times) s inactive =
      let first = poll_recovery-idle now s (inl inactive) in
      let second = poll_finished-inactive now s inactive in
      let unchanged : poll ops now s ≡ poll_sender ops now s =
        ap (λ t. poll_sender ops now (poll_finished ops now t)) first
        ∙ ap (λ t. poll_sender ops now t) second in
      poll_all-inactive times (poll ops now s) (
        ap (λ (t : State W H). t.entity.receiver.active) unchanged
        ∙ (ap (λ (t : Slot H). t.active) (poll_sender-receiver now s) ∙ inactive))

  poll-IsRetried :
      (now : ℕ) (s : State W H)
      → AwaitsAck s.entity.receiver
      → retry_due s.entity.receiver now ≡ true
      → now + retry_interval_ms < 2 ^ 64
      → IsRetried s.entity.receiver now (poll ops now s).entity.receiver
  unfolding poll
  poll-IsRetried now s awaits due small =
      let first = poll_recovery-idle now s (inr awaits.3) in
      let kept : (poll ops now s).entity.receiver ≡ (poll_finished ops now s).entity.receiver =
        ap (λ t. (poll_sender ops now (poll_finished ops now t)).entity.receiver) first
        ∙ poll_sender-receiver now (poll_finished ops now s) in
      subst (IsRetried s.entity.receiver now) (sym kept)
        (poll_finished-IsRetried now s awaits due small)

  -- A receiver that waits for the ACK of its Finished PDU does not wait for ever: after five polls,
  -- less the retries that it has made, each when its deadline is reached, the slot is free, whether
  -- the transport sends or fails. Neither the transport nor the event callback calls back.
  pub poll_all-released :
      (times : List ℕ) (s : State W H)
      → AwaitsAck s.entity.receiver
      → IsSpaced s.entity.receiver.retry_deadline_ms times
      → 5 ≤ s.entity.receiver.retry_count + length times
      → s.entity.receiver.retry_count ≤ 4
      → (poll_all ops times s).entity.receiver.active ≡ false
  unfolding retry_due
  poll_all-released [] s awaits spaced enough few = absurd (omega arith)
  poll_all-released (now ∷ times) s awaits spaced enough few =
      elim (poll-IsRetried now s awaits (ground (arith, spaced.0)) spaced.1) [
        | inl released ↦ poll_all-inactive times (poll ops now s) released
        | inr retried ↦
            poll_all-released times (poll ops now s) retried.0
              (subst (λ d. IsSpaced d times) (sym retried.3) spaced.2) (omega (arith, retried.2))
              (omega (arith, retried.1, retried.2))
      ]
