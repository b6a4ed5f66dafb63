-- ===== src/Cfdp/Ranges/Query.antt =====
-- `ccsds_cfdp_ranges_is_complete` against the set of covered offsets.
use akira_ccsds.Base.{ℕ, suc, ◌≤◌, ◌<◌}
use akira_ccsds.Base.{◌≡◌, refl, ◌⊎◌, inl, inr, arith}
use akira_ccsds.Base.{true, false, [], ◌∷◌}
use akira_ccsds.Base.{ltb, Bool-cases}
use akira_ccsds.Base.{length}
use akira_ccsds.Cfdp.{done}
use akira_ccsds.Cfdp.Ranges.{max_nak_ranges, Ranges}
use akira_ccsds.Cfdp.Ranges.{scan_complete, is_complete}
use akira_ccsds.Cfdp.Ranges.Cover.{within, covers, IsNormalFrom, IsNormal, covers-below}

-- Where the scan says yes one range holds the whole interval.
scan_complete-true :
    (start stop x : ℕ) (rs : Ranges)
    → scan_complete start stop rs ≡ true
    → within start stop x ≡ true
    → covers rs x ≡ true
unfolding scan_complete
scan_complete-true start stop x [] h w = ground arith
scan_complete-true start stop x (r ∷ rs) h w = ground (arith, scan_complete-true start stop x rs)

-- Where it says no an offset of the interval is not covered.
scan_complete-false :
    (low start stop : ℕ) (rs : Ranges)
    → IsNormalFrom low rs
    → start < stop
    → scan_complete start stop rs ≡ false
    → (x : ℕ) × (within start stop x ≡ true) × (covers rs x ≡ false)
unfolding scan_complete
scan_complete-false low start stop [] n p h = (start, ground arith, refl)
scan_complete-false low start stop (r ∷ rs) n p h = elim (Bool-cases (ltb start r.start)) [
  | inl gap ↦ (start, ground arith, ground (arith, covers-below rs start n.2 (ground arith)))
  | inr reached ↦ elim (Bool-cases (ltb start r.stop)) [
    | inl inside ↦ (r.stop, ground arith, ground (arith, covers-below rs r.stop n.2 (omega arith)))
    | inr behind ↦
        let (x, w, c) = scan_complete-false (suc r.stop) start stop rs n.2 p (ground arith) in
        (x, w, ground arith)
  ]
]

-- For ranges in normal form and a non-empty interval the answer is `true` only if every offset of
-- the interval is covered, and `false` only if one of them is not; one of the two is given.
pub is_complete_lem :
    (rs : Ranges) (start stop : ℕ)
    → IsNormal rs
    → length rs ≤ max_nak_ranges
    → start < stop
    → ((is_complete rs start stop ≡ done true)
        × ((x : ℕ) → within start stop x ≡ true → covers rs x ≡ true))
      ⊎ ((is_complete rs start stop ≡ done false)
          × ((x : ℕ) × (within start stop x ≡ true) × (covers rs x ≡ false)))
is_complete_lem rs start stop n le p = elim (Bool-cases (scan_complete start stop rs)) [
  | inl all ↦ inl (unfold is_complete in ground arith, λ x. scan_complete-true start stop x rs all)
  | inr some_gap ↦
      inr (unfold is_complete in ground arith, scan_complete-false 0 start stop rs n p some_gap)
]
