-- ===== src/Randomizer/Examples.antt =====
-- A randomized buffer.
use akira_ccsds.Base.{ℕ, ◌%◌, ◌<◌, bit_xor}
use akira_ccsds.Base.{◌≡◌, refl}
use akira_ccsds.Base.{List, [], ◌∷◌}
use akira_ccsds.Base.{length, get_or}
use akira_ccsds.Base.{byte_at}
use akira_ccsds.Randomizer.{seq_bytes, rnd_seq, apply_from, apply}
use akira_ccsds.Randomizer.Laws.{apply-byte}

abbrev zeros : List ℕ
zeros = 0 ∷ 0 ∷ 0 ∷ []

apply-zeros : apply zeros ≡ 0xff ∷ 0x48 ∷ 0x0e ∷ []
unfolding apply apply_from rnd_seq
apply-zeros = refl

apply-byte_example :
    (apply (apply zeros) ≡ zeros)
    × (length (apply zeros) ≡ 3)
    × ((i : ℕ)
        → i < 3
        → byte_at (apply zeros) i ≡ bit_xor (byte_at zeros i) (get_or rnd_seq (i % seq_bytes) 0))
apply-byte_example = apply-byte zeros
