-- ===== src/Cfdp/Ranges/Examples.antt =====
-- A file of which two parts have arrived.
use akira_ccsds.Base.{ℕ, ◌≤◌, ◌<◌}
use akira_ccsds.Base.{◌≡◌, refl, ◌⊎◌, arith}
use akira_ccsds.Base.{true, false, ◌&&◌, ◌||◌, not, [], ◌∷◌}
use akira_ccsds.Base.{length, All}
use akira_ccsds.Cfdp.{buffer_too_small}
use akira_ccsds.Cfdp.{done}
use akira_ccsds.Cfdp.{fail}
use akira_ccsds.Cfdp.Ranges.{max_nak_ranges, Range, Ranges, skip_before, merge_touching}
use akira_ccsds.Cfdp.Ranges.{store, add, is_complete, scan_missing, missing}
use akira_ccsds.Cfdp.Ranges.Cover.{within, covers, IsNormal}
use akira_ccsds.Cfdp.Ranges.Add.{add_lem}
use akira_ccsds.Cfdp.Ranges.Query.{is_complete_lem}
use akira_ccsds.Cfdp.Ranges.Missing.{missing_total}

abbrev two_parts : Ranges
two_parts = record { start = 10; stop = 20 } ∷ record { start = 30; stop = 40 } ∷ []

two_parts-IsNormal : IsNormal two_parts
two_parts-IsNormal = (omega arith, omega arith, (omega arith, omega arith, tt))

add_between : add two_parts 20 30 ≡ done (record { start = 10; stop = 40 } ∷ [])
unfolding add skip_before merge_touching store
add_between = refl

missing_ends :
    missing two_parts 0 50
    ≡ done (
        record { start = 0; stop = 10 }
        ∷ record { start = 20; stop = 30 }
        ∷ record { start = 40; stop = 50 }
        ∷ [])
unfolding missing scan_missing add skip_before merge_touching store
missing_ends = refl

add_lem_example :
    ((out : Ranges) × (add two_parts 15 25 ≡ done out)
      × IsNormal out
      × (length out ≤ max_nak_ranges)
      × (length out ≤ 3)
      × ((x : ℕ) → covers out x ≡ (within 15 25 x || covers two_parts x)))
    ⊎ ((add two_parts 15 25 ≡ fail buffer_too_small)
        × (2 ≡ max_nak_ranges)
        × All (λ (r : Range). (r.stop < 15) ⊎ (25 < r.start)) two_parts)
add_lem_example = add_lem two_parts 15 25 two_parts-IsNormal (omega arith) (omega arith)

is_complete_lem_example :
    ((is_complete two_parts 12 18 ≡ done true)
      × ((x : ℕ) → within 12 18 x ≡ true → covers two_parts x ≡ true))
    ⊎ ((is_complete two_parts 12 18 ≡ done false)
        × ((x : ℕ) × (within 12 18 x ≡ true) × (covers two_parts x ≡ false)))
is_complete_lem_example =
    is_complete_lem two_parts 12 18 two_parts-IsNormal (omega arith) (omega arith)

missing_total_example :
    (out : Ranges) × (missing two_parts 0 50 ≡ done out)
    × IsNormal out
    × ((x : ℕ) → covers out x ≡ (within 0 50 x && not (covers two_parts x)))
missing_total_example = missing_total two_parts 0 50 two_parts-IsNormal (omega arith) (omega arith)
