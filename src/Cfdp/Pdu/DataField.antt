-- ===== src/Cfdp/Pdu/DataField.antt =====
-- The data field behind a fixed header, as the encoders store it and the decoders reach it.
use akira_ccsds.Base.{ℕ, ◌+◌, ◌≤◌}
use akira_ccsds.Base.{◌≡◌, refl, sym, arith}
use akira_ccsds.Base.{List, [], ◌++◌, append_assoc}
use akira_ccsds.Base.{length, drop, drop-append}
use akira_ccsds.Cfdp.{Outcome, done}
use akira_ccsds.Cfdp.{>>=-eq-done}
use akira_ccsds.Cfdp.Pdu.{PduHeader}
use akira_ccsds.Cfdp.Pdu.{header_encoded_len, header_bytes}
use akira_ccsds.Cfdp.Pdu.{decode_header, with_data_len, put_pdu, on_data_field}
use akira_ccsds.Cfdp.Pdu.Header.{
  IsWellFormed, length-header_bytes, decode_header-header_bytes, encode_header-header_bytes,
}

-- A header that fits apart from the length of its data field, which the encoders derive.
abbrev pub CanCarry : PduHeader → ℕ → Type 0
CanCarry h n = IsWellFormed (with_data_len h n)

module _ (h : PduHeader) (n : ℕ) (w : CanCarry h n) (bytes : List ℕ) where
  pub put_pdu_lem :
      (cap : ℕ)
      → length bytes ≡ n
      → header_encoded_len (with_data_len h n) + n ≤ cap
      → put_pdu h n cap bytes ≡ done (header_bytes (with_data_len h n) ++ bytes)
  unfolding put_pdu
  put_pdu_lem cap e room =
      rw (encode_header-header_bytes (with_data_len h n) cap w (omega arith))
        (ground (arith, length-header_bytes (with_data_len h n) w []))

  pub on_data_field_lem {ℓ} :
      {A : Type ℓ} (read : PduHeader → ℕ → List ℕ → Outcome A) (rest : List ℕ)
      → on_data_field read ((header_bytes (with_data_len h n) ++ bytes) ++ rest)
        ≡ read (with_data_len h n) (header_encoded_len (with_data_len h n)) (bytes ++ rest)
  unfolding on_data_field
  on_data_field_lem read rest =
      rw
        (
          append_assoc (header_bytes (with_data_len h n)) bytes rest,
          decode_header-header_bytes (with_data_len h n) w (bytes ++ rest),
          drop-append (header_bytes (with_data_len h n)) (bytes ++ rest)
              (header_encoded_len (with_data_len h n))
              (sym (length-header_bytes (with_data_len h n) w [])),
        )
        refl

-- Inversion of a decoder.
pub on_data_field-eq-done {ℓ} :
    {A : Type ℓ} (read : PduHeader → ℕ → List ℕ → Outcome A) (buf : List ℕ) {a : A}
    → on_data_field read buf ≡ done a
    → (h : PduHeader) × (n : ℕ) × (decode_header buf ≡ done (h, n))
      × (read h n (drop n buf) ≡ done a)
unfolding on_data_field
on_data_field-eq-done read buf e =
    let found =
      >>=-eq-done (decode_header buf) (λ found. read found.0 found.1 (drop found.1 buf)) e in
    (found.0.0, found.0.1, found.1, found.2)
