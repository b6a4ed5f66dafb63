-- ===== src/Randomizer/Sequence.antt =====
-- The table of the randomizer against the generator of the CCSDS standard.
use akira_ccsds.Base.{ℕ, ◌+◌, ◌-◌, ◌/◌, ◌%◌, ◌^◌, ◌<◌}
use akira_ccsds.Base.{◌≡◌, refl}
use akira_ccsds.Base.{true}
use akira_ccsds.Base.{◌==◌, ==_iff, all_below, all_below_sound}
use akira_ccsds.Base.{length, get_or}
use akira_ccsds.Randomizer.{seq_bytes, rnd_seq}

-- Bit `n` of the sequence, the most significant bit of a byte first.
abbrev pub seq_bit : ℕ → ℕ
seq_bit n = get_or rnd_seq (n / 8) 0 / 2 ^ (7 - n % 8) % 2

recurrence_rows :
    all_below 2032 (λ n.
      seq_bit (n + 8) == (seq_bit n + seq_bit (n + 3) + seq_bit (n + 5) + seq_bit (n + 7)) % 2)
    ≡ true
unfolding all_below rnd_seq
recurrence_rows = refl

-- The first byte is all ones, and every later bit of the table comes from the eight before it by
-- the generator x^8 + x^7 + x^5 + x^3 + 1; the sequence has the 255 bytes of its period.
pub rnd_seq_lem :
    (length rnd_seq ≡ seq_bytes)
    × (get_or rnd_seq 0 0 ≡ 0xff)
    × ((n : ℕ)
        → n < 2032
        → seq_bit (n + 8) ≡ (seq_bit n + seq_bit (n + 3) + seq_bit (n + 5) + seq_bit (n + 7)) % 2)
rnd_seq_lem = (
  unfold rnd_seq in refl,
  unfold rnd_seq in refl,
  λ n h. (==_iff _ _).0 (all_below_sound 2032 _ n recurrence_rows h),
)
