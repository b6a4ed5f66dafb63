-- ===== src/Cfdp/Checksum/Examples.antt =====
-- A file of seven bytes in two segments, the second one first.
use mathlib.Core.List.{Permᴰ}
use akira_ccsds.Base.{ℕ}
use akira_ccsds.Base.{◌≡◌, refl, arith}
use akira_ccsds.Base.{Bool, List, [], ◌∷◌}
use akira_ccsds.Cfdp.{done, modular, ◌>>=◌}
use akira_ccsds.Cfdp.Checksum.{init}
use akira_ccsds.Cfdp.Checksum.{finish}
use akira_ccsds.Cfdp.Checksum.Modular.{Segment, receive, modular-any_order}

abbrev pieces : List (List ℕ)
pieces = (1 ∷ 2 ∷ 3 ∷ []) ∷ (4 ∷ 5 ∷ 6 ∷ 7 ∷ []) ∷ []

abbrev late_first : List Segment
late_first = (3, 4 ∷ 5 ∷ 6 ∷ 7 ∷ []) ∷ (0, 1 ∷ 2 ∷ 3 ∷ []) ∷ []

-- Stand-ins for the CRC functions, which the modular checksum does not call.
abbrev crc_c : ℕ → List ℕ → Bool → Bool → ℕ
crc_c crc bytes first last = crc

abbrev crc_ieee : ℕ → List ℕ → ℕ
crc_ieee crc bytes = crc

modular-any_order_example :
    (init modular >>= λ state. receive crc_c crc_ieee state late_first >>= finish) ≡ done 0x06080a04
modular-any_order_example =
    modular-any_order crc_c crc_ieee late_first pieces (omega arith) (Permᴰ.swap refl refl)
