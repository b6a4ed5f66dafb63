-- ===== src/Cfdp.antt =====
-- CFDP, the file delivery protocol: the types that its parts share, from
-- connectivity/ccsds/ccsds_cfdp_status.h and ccsds_cfdp_types.h.
pub mod Ranges
pub mod Checksum
pub mod Pdu
pub mod Entity
pub mod Adapter
use Prim.Native.Nat.{ℕ}
use mathlib.Core.Path.{◌≡◌, refl}
use mathlib.Core.Logic.{◌⊎◌, inl, inr}

-- `enum ccsds_cfdp_status` without CCSDS_CFDP_STATUS_OK, which is `done`.
pub data Status : Type 0 where
  invalid_argument buffer_too_small malformed_pdu unsupported unsupported_checksum : Status
  invalid_transmission_mode checksum_failure file_size_error inactivity_detected : Status
  nak_limit_reached cancel_request filestore_rejection transaction_busy : Status

-- A status, with what is stored through the output pointers when it is OK.
pub data Outcome {ℓ} (A : Type ℓ) : Type ℓ where
  done : A → Outcome A
  fail : Status → Outcome A

infixl 5 ◌>>=◌
abbrev pub ◌>>=◌ {ℓ κ} : {A : Type ℓ} {B : Type κ} → Outcome A → (A → Outcome B) → Outcome B
done a >>= f = f a
fail s >>= f = fail s

-- `enum ccsds_cfdp_checksum_type`; `unknown` is any value that the enum does not name.
pub data ChecksumType : Type 0 where
  modular crc32c ieee_802_3_fcs null : ChecksumType
  unknown : ℕ → ChecksumType

-- Inversion of a chain that is done.
pub >>=-eq-done {ℓ κ} :
    {A : Type ℓ} {B : Type κ} (m : Outcome A) (f : A → Outcome B) {b : B}
    → (m >>= f) ≡ done b
    → (a : A) × (m ≡ done a) × (f a ≡ done b)
>>=-eq-done (done a) f h = (a, refl, h)
>>=-eq-done (fail s) f h = cc

pub Outcome-cases {ℓ} :
    {A : Type ℓ} (m : Outcome A)
    → ((status : Status) × (m ≡ fail status)) ⊎ ((a : A) × (m ≡ done a))
Outcome-cases (fail status) = inl (status, refl)
Outcome-cases (done a) = inr (a, refl)
