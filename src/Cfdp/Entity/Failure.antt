-- ===== src/Cfdp/Entity/Failure.antt =====
-- The failures of a receiver: connectivity/ccsds/ccsds_cfdp_entity.c.
use akira_ccsds.Base.{◌≡◌, refl, sym, ap, ◌∙◌, ◌≢◌, arith}
use akira_ccsds.Base.{Bool, true, false, not}
use akira_ccsds.Base.{if◌then◌else◌}
use akira_ccsds.Cfdp.{Status, invalid_argument}
use akira_ccsds.Cfdp.{file_size_error, done}
use akira_ccsds.Cfdp.{fail}
use akira_ccsds.Cfdp.Ranges
use akira_ccsds.Cfdp.Ranges.{Range, Ranges}
use akira_ccsds.Cfdp.Pdu.Eof.{EofPdu}
use akira_ccsds.Cfdp.Entity.{Return}
use akira_ccsds.Cfdp.Entity.{State, Ops}
use akira_ccsds.Cfdp.Entity.{is_acknowledged, set_receiver}
use akira_ccsds.Cfdp.Entity.Receiver.{is_ok}
use akira_ccsds.Cfdp.Entity.Receiver.{send_ack_eof, send_finished_for_receiver_status}
use akira_ccsds.Cfdp.Entity.Finish.{settle_file}
use akira_ccsds.Cfdp.Entity.Finish.{settle, conclude, receiver_finish}
use akira_ccsds.Cfdp.Entity.EndOfFile.{conclude_eof, accept_eof}

-- Both branches of a test return the same.
returns_either {ℓ} :
    {A : Type ℓ} {r : Return} (b : Bool) (x y : Return × A)
    → x.0 ≡ r
    → y.0 ≡ r
    → (if b then x else y).0 ≡ r
returns_either true x y p q = p
returns_either false x y p q = q

is_complete-empty : (rs : Ranges) → Ranges.is_complete rs 0 0 ≡ fail invalid_argument
unfolding Ranges.is_complete
is_complete-empty rs = refl

module _ {W H : Type 0} (ops : Ops W H) where
  settle-fail : (status : Status) (s : State W H) → (settle ops (fail status) s).0 ≡ fail status
  unfolding settle settle_file is_ok
  settle-fail status s = refl

  conclude-fail :
      (status : Status) (finished : Return) (s : State W H)
      → (conclude ops (fail status) finished s).0 ≡ fail status
  unfolding conclude is_ok
  conclude-fail status finished s =
      returns_either (is_acknowledged s.entity.receiver) _ _
        (returns_either (is_ok finished) _ _ refl refl) refl

  -- `receiver_finish` returns a failure as it was given.
  pub receiver_finish-fail :
      (status : Status) (s : State W H) → (receiver_finish ops (fail status) s).0 ≡ fail status
  unfolding receiver_finish settle settle_file is_ok
  receiver_finish-fail status s =
      let settled = settle ops (fail status) s in
      let noted =
        set_receiver (record settled.1.entity.receiver { finished_status = fail status })
          settled.1 in
      let sent = send_finished_for_receiver_status ops (fail status) noted in
      returns_either s.entity.receiver.closure_requested _ _
        (returns_either (not sent.1.entity.receiver.active) _ _ refl
          (conclude-fail status sent.0 sent.1))
        (conclude-fail status (done tt) settled.1)

  pub receiver_finish-done :
      (status : Return) (s : State W H)
      → (receiver_finish ops status s).0 ≡ done tt
      → status ≡ done tt
  receiver_finish-done (done u) s e = refl
  receiver_finish-done (fail status) s e =
      let wrong : fail status ≡ done tt = sym (receiver_finish-fail status s) ∙ e in cc

  conclude_eof-empty :
      (eof : EofPdu) (s : State W H)
      → eof.file_size ≡ 0
      → (conclude_eof ops eof s).0 ≡ fail invalid_argument
  unfolding conclude_eof
  conclude_eof-empty eof s none_announced =
      let rs = s.entity.receiver.received_ranges in
      let refused : Ranges.is_complete rs 0 eof.file_size ≡ fail invalid_argument =
        ap (λ n. Ranges.is_complete rs 0 n) none_announced ∙ is_complete-empty rs in
      ground (arith, refused, receiver_finish-fail invalid_argument s)

  -- An empty file cannot be delivered: for an EOF PDU that announces no bytes, a receiver that has
  -- not finished yet reports no success, in either mode and whatever its transport does.
  pub accept_eof-empty :
      (eof : EofPdu) (s : State W H)
      → eof.file_size ≡ 0
      → s.entity.receiver.waiting_for_finished_ack ≡ false
      → (accept_eof ops eof s).0 ≢ done tt
  unfolding accept_eof
  accept_eof-empty eof s none_announced idle e =
      let slot = s.entity.receiver in
      let noted = set_receiver (record slot { eof_checksum = eof.file_checksum }) s in
      let acknowledged = send_ack_eof ops eof.condition_code noted in
      ground (
        arith,
        none_announced,
        idle,
        receiver_finish-fail file_size_error noted,
        receiver_finish-fail file_size_error acknowledged.1,
        conclude_eof-empty eof noted none_announced,
        conclude_eof-empty eof acknowledged.1 none_announced,
      )
