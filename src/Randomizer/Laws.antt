-- ===== src/Randomizer/Laws.antt =====
-- `ccsds_rnd_apply` is its own inverse, and works byte by byte with a period of 255.
use akira_ccsds.Base.{ℕ, zero, suc, ◌+◌, ◌%◌, ◌<◌, bit_xor}
use akira_ccsds.Base.{◌≡◌, refl, ap, ap₂, ◌∙◌, arith}
use akira_ccsds.Base.{List, [], ◌∷◌}
use akira_ccsds.Base.{◌==◌, if◌then◌else◌}
use akira_ccsds.Base.{length, get_or}
use akira_ccsds.Base.{byte_at}
use akira_ccsds.Base.Xor.{bit_xor_cancel}
use akira_ccsds.Randomizer.{seq_bytes, rnd_seq, apply_from, apply}

length-apply_from : (k : ℕ) (bytes : List ℕ) → length (apply_from k bytes) ≡ length bytes
unfolding apply_from
length-apply_from k [] = refl
length-apply_from k (b ∷ bytes) =
    ap suc (length-apply_from (if suc k == seq_bytes then 0 else suc k) bytes)

apply_from_twice : (k : ℕ) (bytes : List ℕ) → apply_from k (apply_from k bytes) ≡ bytes
unfolding apply_from
apply_from_twice k [] = refl
apply_from_twice k (b ∷ bytes) =
    ap₂ ◌∷◌ (bit_xor_cancel b (get_or rnd_seq k 0))
      (apply_from_twice (if suc k == seq_bytes then 0 else suc k) bytes)

next_index :
    (k i : ℕ) → k < 255 → ((if suc k == 255 then 0 else suc k) + i) % 255 ≡ (k + suc i) % 255
next_index k i h = ground arith

apply_from-byte :
    (k : ℕ) (bytes : List ℕ) (i : ℕ)
    → k < seq_bytes
    → i < length bytes
    → byte_at (apply_from k bytes) i
      ≡ bit_xor (byte_at bytes i) (get_or rnd_seq ((k + i) % seq_bytes) 0)
unfolding apply_from
apply_from-byte k [] i h p = absurd (omega arith)
apply_from-byte k (b ∷ bytes) zero h p = ap (λ t. bit_xor b (get_or rnd_seq t 0)) (omega arith)
apply_from-byte k (b ∷ bytes) (suc i) h p =
    apply_from-byte (if suc k == seq_bytes then 0 else suc k) bytes i (ground arith) (omega arith)
    ∙ ap (λ t. bit_xor (byte_at bytes i) (get_or rnd_seq t 0)) (next_index k i h)

-- Applied twice to a buffer, the randomizer gives the buffer back.
apply_twice : (bytes : List ℕ) → apply (apply bytes) ≡ bytes
unfolding apply
apply_twice bytes = apply_from_twice 0 bytes

-- Applied twice to a buffer, the randomizer gives it back. The length is kept, and byte `i` is
-- changed by byte `i mod 255` of the sequence, whatever the other bytes are.
pub apply-byte :
    (bytes : List ℕ)
    → (apply (apply bytes) ≡ bytes)
      × (length (apply bytes) ≡ length bytes)
      × ((i : ℕ)
          → i < length bytes
          → byte_at (apply bytes) i ≡ bit_xor (byte_at bytes i) (get_or rnd_seq (i % seq_bytes) 0))
unfolding apply
apply-byte bytes = (
  apply_twice bytes,
  length-apply_from 0 bytes,
  λ i p.
      apply_from-byte 0 bytes i (omega arith) p
      ∙ ap (λ t. bit_xor (byte_at bytes i) (get_or rnd_seq t 0)) (omega arith),
)
