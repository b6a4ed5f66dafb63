-- ===== src/Cfdp/Entity/Numbering.antt =====
-- The transaction sequence numbers of connectivity/ccsds/ccsds_cfdp_entity.c.
use akira_ccsds.Base.{ℕ, zero, suc, ◌+◌, ◌*◌, ◌%◌, ◌^◌, ◌≤◌, ◌<◌}
use akira_ccsds.Base.{◌≡◌, refl, sym, ap, ap₂, ◌∙◌, ◌↔◌, arith}
use akira_ccsds.Base.{true, false}
use akira_ccsds.Base.{◌==◌}
use native.Mathlib.Nat.{mod-add-mod, mod-lt, mod-eq_of_lt}
use akira_ccsds.Cfdp.{Outcome, done}
use akira_ccsds.Cfdp.Pdu.{max_trans_seq_len}
use akira_ccsds.Cfdp.Pdu.{encoded_int_len_is_valid, value_fits_len}
use akira_ccsds.Cfdp.Entity.{TransactionId}
use akira_ccsds.Cfdp.Entity.{empty_slot, Entity}
use akira_ccsds.Cfdp.Entity.Sender.{
  transaction_sequence_limit, advance_transaction_sequence_number, started_sender,
  create_sender_transaction,
}

-- An entity whose sequence number fits the length that it is encoded with.
abbrev pub IsNumbered : {H : Type 0} → Entity H → Type 0
IsNumbered entity =
    (encoded_int_len_is_valid entity.transaction_sequence_number_len max_trans_seq_len ≡ true)
    × (value_fits_len entity.next_transaction_sequence_number entity.transaction_sequence_number_len
        ≡ true)

-- The limit of the numbers, which the wrap-around of 64 bits cannot disturb.
limit_small :
    (len : ℕ)
    → encoded_int_len_is_valid len 4 ≡ true
    → (2 ≤ transaction_sequence_limit len)
      × (transaction_sequence_limit len ≤ 2 ^ 32)
      × (transaction_sequence_limit len ≡ 2 ^ (len * 8))
unfolding encoded_int_len_is_valid transaction_sequence_limit
limit_small zero v = ground arith
limit_small (suc zero) v = (ground arith, ground arith, refl)
limit_small (suc (suc zero)) v = (ground arith, ground arith, refl)
limit_small (suc (suc (suc zero))) v = (ground arith, ground arith, refl)
limit_small (suc (suc (suc (suc zero)))) v = (ground arith, ground arith, refl)
limit_small (suc (suc (suc (suc (suc len))))) v = ground arith

fits_below :
    (len value : ℕ)
    → encoded_int_len_is_valid len 4 ≡ true
    → (value_fits_len value len ≡ true) ↔ (value < transaction_sequence_limit len)
unfolding encoded_int_len_is_valid value_fits_len transaction_sequence_limit
fits_below zero value v = ground arith
fits_below (suc zero) value v = ground arith
fits_below (suc (suc zero)) value v = ground arith
fits_below (suc (suc (suc zero))) value v = ground arith
fits_below (suc (suc (suc (suc zero)))) value v = ground arith
fits_below (suc (suc (suc (suc (suc len))))) value v = ground arith

abbrev named : ℕ → ℕ → Outcome TransactionId
named source number =
    done (record { source_entity_id = source; transaction_sequence_number = number })

module _ {H : Type 0} where
  abbrev limit_of : Entity H → ℕ
  limit_of entity = transaction_sequence_limit entity.transaction_sequence_number_len

  advance-next :
      (entity : Entity H)
      → IsNumbered entity
      → (advance_transaction_sequence_number entity).next_transaction_sequence_number
        ≡ (entity.next_transaction_sequence_number + 1) % limit_of entity
  unfolding advance_transaction_sequence_number
  advance-next entity numbered =
      let next = entity.next_transaction_sequence_number in
      let bounds = limit_small entity.transaction_sequence_number_len numbered.0 in
      let below = fits_below entity.transaction_sequence_number_len next numbered.0 in
      let fits : next < limit_of entity = ground (arith, numbered.1, below) in
      let bounded : (limit_of entity == 0xffffffffffffffff) ≡ false = ground (arith, bounds) in
      let unwrapped : (next + 1) % 2 ^ 64 ≡ next + 1 = omega (arith, bounds.1, fits) in
      rw (bounded, unwrapped) refl

  advance-len :
      (entity : Entity H)
      → (advance_transaction_sequence_number entity).transaction_sequence_number_len
        ≡ entity.transaction_sequence_number_len
  unfolding advance_transaction_sequence_number
  advance-len entity = ground arith

  advance-local :
      (entity : Entity H)
      → (advance_transaction_sequence_number entity).local_entity_id ≡ entity.local_entity_id
  unfolding advance_transaction_sequence_number
  advance-local entity = ground arith

  -- An entity after a transaction was created and released.
  abbrev pub after_transaction : Entity H → Entity H
  after_transaction entity =
      let created = create_sender_transaction entity in record created.1 { sender = empty_slot }

  abbrev pub after_transactions : ℕ → Entity H → Entity H
  after_transactions zero entity = entity
  after_transactions (suc n) entity = after_transactions n (after_transaction entity)

  create_sender_transaction-free :
      (entity : Entity H)
      → entity.sender.active ≡ false
      → create_sender_transaction entity
        ≡ (done (started_sender entity).sender.id, started_sender entity)
  unfolding create_sender_transaction
  create_sender_transaction-free entity free = ground (arith, free)

  -- A created and released transaction moves the number on, and changes nothing else that counts.
  after_transaction-lem :
      (entity : Entity H)
      → IsNumbered entity
      → entity.sender.active ≡ false
      → let after = after_transaction entity in
        (after.next_transaction_sequence_number
          ≡ (entity.next_transaction_sequence_number + 1) % limit_of entity)
        × (after.transaction_sequence_number_len ≡ entity.transaction_sequence_number_len)
        × (after.local_entity_id ≡ entity.local_entity_id)
  unfolding started_sender
  after_transaction-lem entity numbered free =
      let created = create_sender_transaction-free entity free in
      (
        ap (λ (t : Outcome TransactionId × Entity H). t.1.next_transaction_sequence_number) created
            ∙ advance-next entity numbered,
        ap (λ (t : Outcome TransactionId × Entity H). t.1.transaction_sequence_number_len) created
            ∙ advance-len entity,
        ap (λ (t : Outcome TransactionId × Entity H). t.1.local_entity_id) created
            ∙ advance-local entity,
      )

  after_transaction-IsNumbered :
      (entity : Entity H)
      → IsNumbered entity
      → entity.sender.active ≡ false
      → IsNumbered (after_transaction entity)
  after_transaction-IsNumbered entity numbered free =
      let moved = after_transaction-lem entity numbered free in
      let len = entity.transaction_sequence_number_len in
      let bounds = limit_small len numbered.0 in
      let next = (entity.next_transaction_sequence_number + 1) % limit_of entity in
      let small : next < limit_of entity =
        mod-lt (entity.next_transaction_sequence_number + 1) (omega (arith, bounds.0)) in
      let below = fits_below len next numbered.0 in
      let fits : value_fits_len next len ≡ true = ground (arith, small, below) in
      (
        ap (λ n. encoded_int_len_is_valid n max_trans_seq_len) moved.1 ∙ numbered.0,
        ap₂ value_fits_len moved.0 moved.1 ∙ fits,
      )

  -- The transaction that is created after `n` others, each released, has the initial sequence
  -- number plus `n`, modulo the numbers of its length: numbers are given out in order and wrap
  -- around at the length that they are encoded with. The entity starts with a number that fits and
  -- no transaction.
  pub create_sender_transaction-after :
      (n : ℕ) (entity : Entity H)
      → IsNumbered entity
      → entity.sender.active ≡ false
      → (create_sender_transaction (after_transactions n entity)).0
        ≡ done (record {
          source_entity_id = entity.local_entity_id;
          transaction_sequence_number =
              (entity.next_transaction_sequence_number + n)
              % 2 ^ (entity.transaction_sequence_number_len * 8);
        })
  unfolding started_sender
  create_sender_transaction-after zero entity numbered free =
      let next = entity.next_transaction_sequence_number in
      let len = entity.transaction_sequence_number_len in
      let below = fits_below len next numbered.0 in
      let bounds = limit_small len numbered.0 in
      let small : next < limit_of entity = ground (arith, numbered.1, below) in
      let none_more : next + 0 ≡ next = omega arith in
      let same : (next + 0) % 2 ^ (len * 8) ≡ next =
        ap₂ ◌%◌ none_more (sym bounds.2) ∙ mod-eq_of_lt small in
      ap (λ (t : Outcome TransactionId × Entity H). t.0)
        (create_sender_transaction-free entity free)
      ∙ ap (named entity.local_entity_id) (sym same)
  create_sender_transaction-after (suc n) entity numbered free =
      let next = entity.next_transaction_sequence_number in
      let len = entity.transaction_sequence_number_len in
      let moved = after_transaction-lem entity numbered free in
      let bounds = limit_small len numbered.0 in
      let rest =
        create_sender_transaction-after n (after_transaction entity)
          (after_transaction-IsNumbered entity numbered free) refl in
      let one_more : next + 1 + n ≡ next + suc n = omega arith in
      let number : ((after_transaction entity).next_transaction_sequence_number + n)
            % 2 ^ ((after_transaction entity).transaction_sequence_number_len * 8)
          ≡ (next + suc n) % 2 ^ (len * 8) =
        ap₂ (λ k l. (k + n) % 2 ^ (l * 8)) moved.0 moved.1
        ∙ (ap (λ m. ((next + 1) % m + n) % 2 ^ (len * 8)) bounds.2
            ∙ (mod-add-mod (next + 1) (2 ^ (len * 8)) n ∙ ap (λ k. k % 2 ^ (len * 8)) one_more)) in
      rest ∙ ap₂ named moved.2 number
