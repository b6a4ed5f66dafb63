-- ===== src/Cfdp/Ranges/Missing.antt =====
-- `ccsds_cfdp_ranges_missing` against the set of covered offsets.
use akira_ccsds.Base.{ℕ, suc, ◌+◌, ◌≤◌, ◌<◌}
use akira_ccsds.Base.{◌≡◌, refl, ◌∙◌, inl, inr, arith}
use akira_ccsds.Base.{Bool, false, ◌&&◌, ◌||◌, not, [], ◌∷◌}
use akira_ccsds.Base.{ltb, leb, if◌then◌else◌, ltb→lt, leb→le, ltb→ge, Bool-cases}
use akira_ccsds.Base.{length}
use akira_ccsds.Cfdp.{done}
use akira_ccsds.Cfdp.{>>=-eq-done}
use akira_ccsds.Cfdp.Ranges.{max_nak_ranges, Range, Ranges, range_is_valid, init}
use akira_ccsds.Cfdp.Ranges.{add, scan_missing, missing}
use akira_ccsds.Cfdp.Ranges.Cover.{within, covers, IsNormalFrom, IsNormal, covers-below}
use akira_ccsds.Cfdp.Ranges.Add.{add_lem}

-- What the scan of `missing` adds to what it has found, up to its cursor and behind it.
record IsScanned (stop cursor : ℕ) (before rs : Ranges) (out : ℕ × Ranges) : Type 0 where
  normal : IsNormal out.1
  small : length out.1 ≤ max_nak_ranges
  cover :
      (x : ℕ)
      → (covers out.1 x || within out.0 stop x)
        ≡ (covers before x || (within cursor stop x && not (covers rs x)))

module _ (stop cursor : ℕ) (before : Ranges) (r : Range) (rs : Ranges)
    (rest_normal : IsNormalFrom (suc r.stop) rs) where
  -- A range that ends before the cursor.
  IsScanned-past :
      {out : ℕ × Ranges}
      → r.stop ≤ cursor
      → IsScanned stop cursor before rs out
      → IsScanned stop cursor before (r ∷ rs) out
  IsScanned-past h s = record {
    normal = s.normal;
    small = s.small;
    cover = λ x. ground (arith, s.cover x);
  }

  -- A range that begins behind the interval: the scan ends.
  IsScanned-beyond :
      IsNormal before
      → length before ≤ max_nak_ranges
      → r.start < r.stop
      → stop ≤ r.start
      → IsScanned stop cursor before (r ∷ rs) (cursor, before)
  IsScanned-beyond nb le p h = record {
    normal = nb;
    small = le;
    cover = λ x. elim (Bool-cases (ltb x stop)) [
      | inl low_x ↦
          ground (arith, covers-below rs x rest_normal (omega (arith, ltb→lt x stop low_x)))
      | inr high_x ↦ ground arith
    ];
  }

  -- A range that reaches beyond the cursor, with what lies before it already reported.
  IsScanned-advance :
      (found : Ranges) {out : ℕ × Ranges}
      → r.start < r.stop
      → cursor < r.stop
      → ((x : ℕ) → covers found x ≡ ((within cursor stop x && ltb x r.start) || covers before x))
      → IsScanned stop r.stop found rs out
      → IsScanned stop cursor before (r ∷ rs) out
  IsScanned-advance found p h c s = record {
    normal = s.normal;
    small = s.small;
    cover = λ x. elim (Bool-cases (ltb x (suc r.stop))) [
      | inl low_x ↦
          ground
            (arith, s.cover x, c x, covers-below rs x rest_normal (ltb→lt x (suc r.stop) low_x))
      | inr high_x ↦ ground (arith, s.cover x, c x)
    ];
  }

clip :
    (cursor a stop x : ℕ) (b : Bool)
    → a ≤ stop
    → (within cursor a x || b) ≡ ((within cursor stop x && ltb x a) || b)
clip cursor a stop x b h = ground arith

no_gap :
    (cursor a stop x : ℕ) (b : Bool) → a ≤ cursor → b ≡ ((within cursor stop x && ltb x a) || b)
no_gap cursor a stop x b h = ground arith

scan_missing-IsScanned :
    (low stop cursor : ℕ) (before rs : Ranges) (out : ℕ × Ranges)
    → IsNormalFrom low rs
    → IsNormal before
    → length before ≤ max_nak_ranges
    → scan_missing stop cursor before rs ≡ done out
    → IsScanned stop cursor before rs out
unfolding scan_missing
scan_missing-IsScanned low stop cursor before [] out n nb le e =
    let same : out ≡ (cursor, before) = ground arith in
    rw same (record { normal = nb; small = le; cover = λ x. ground arith })
scan_missing-IsScanned low stop cursor before (r ∷ rs) out n nb le e =
    elim (Bool-cases (ltb cursor stop)) [
      | inr ended ↦
          let same : out ≡ (cursor, before) = ground arith in
          rw same (record { normal = nb; small = le; cover = λ x. ground arith })
      | inl running ↦ elim (Bool-cases (leb r.stop cursor)) [
        | inl past ↦
            IsScanned-past stop cursor before r rs n.2 (leb→le _ _ past) (
              scan_missing-IsScanned (suc r.stop) stop cursor before rs out n.2 nb le
                (ground arith))
        | inr ahead ↦ elim (Bool-cases (leb stop r.start)) [
          | inl beyond ↦
              let same : out ≡ (cursor, before) = ground arith in
              rw same (IsScanned-beyond stop cursor before r rs n.2 nb le n.1 (leb→le _ _ beyond))
          | inr inside ↦ elim (Bool-cases (ltb cursor r.start)) [
            | inl gap ↦ elim (add_lem before cursor r.start nb le (ltb→lt _ _ gap)) [
              | inr bad ↦ absurd (ground arith)
              | inl (found, added, nf, lf, gf, cf) ↦
                  IsScanned-advance stop cursor before r rs n.2 found n.1 (ground arith)
                    (λ x. cf x ∙ clip cursor r.start stop x (covers before x) (ground arith))
                    (scan_missing-IsScanned (suc r.stop) stop r.stop found rs out n.2 nf lf
                      (ground arith))
            ]
            | inr touching ↦
                IsScanned-advance stop cursor before r rs n.2 before n.1 (ground arith)
                  (λ x. no_gap cursor r.start stop x (covers before x) (ltb→ge _ _ touching))
                  (scan_missing-IsScanned (suc r.stop) stop r.stop before rs out n.2 nb le
                    (ground arith))
          ]
        ]
      ]
    ]

-- The last gap, from the cursor to the end of the interval.
finish_missing :
    (start stop : ℕ) (rs out : Ranges) (found : ℕ × Ranges)
    → IsScanned stop start init rs found
    → (if ltb found.0 stop then add found.1 found.0 stop else done found.1) ≡ done out
    → IsNormal out × ((x : ℕ) → covers out x ≡ (within start stop x && not (covers rs x)))
finish_missing start stop rs out found s e = elim (Bool-cases (ltb found.0 stop)) [
  | inr ended ↦
      let same : out ≡ found.1 = ground arith in rw same (s.normal, λ x. ground (arith, s.cover x))
  | inl more ↦ elim (add_lem found.1 found.0 stop s.normal s.small (ltb→lt _ _ more)) [
    | inr bad ↦ absurd (ground arith)
    | inl (out', added, normal, small, grows, cover) ↦
        let same : out ≡ out' = ground arith in
        rw same (normal, λ x. ground (arith, s.cover x, cover x))
  ]
]

-- For ranges in normal form and a non-empty interval, the ranges that `missing` reports are in
-- normal form and cover exactly the offsets of the interval that are not covered.
pub missing_lem :
    (rs : Ranges) (start stop : ℕ) (out : Ranges)
    → IsNormal rs
    → start < stop
    → missing rs start stop ≡ done out
    → IsNormal out × ((x : ℕ) → covers out x ≡ (within start stop x && not (covers rs x)))
unfolding missing
missing_lem rs start stop out n p e = elim (Bool-cases (ltb max_nak_ranges (length rs))) [
  | inl big ↦ absurd (ground arith)
  | inr fits ↦
      let enters : (not (range_is_valid start stop) || ltb max_nak_ranges (length rs)) ≡ false =
        ground arith in
      let (found, scanned, last) =
        >>=-eq-done (scan_missing stop start init rs)
          (λ found. if ltb found.0 stop then add found.1 found.0 stop else done found.1)
          (rw enters at e) in
      finish_missing start stop rs out found
        (scan_missing-IsScanned 0 stop start init rs found n tt (omega arith) scanned) last
]

-- The scan does not fail while there is room for one gap for each range.
scan_missing_total :
    (low stop cursor : ℕ) (before rs : Ranges)
    → IsNormalFrom low rs
    → IsNormal before
    → length before + length rs < max_nak_ranges
    → (out : ℕ × Ranges) × (scan_missing stop cursor before rs ≡ done out)
      × (length out.1 < max_nak_ranges)
unfolding scan_missing
scan_missing_total low stop cursor before [] n nb le = ((cursor, before), refl, omega arith)
scan_missing_total low stop cursor before (r ∷ rs) n nb le = elim (Bool-cases (ltb cursor stop)) [
  | inr ended ↦ ((cursor, before), ground arith, omega arith)
  | inl running ↦ elim (Bool-cases (leb r.stop cursor)) [
    | inl past ↦
        let (out, e, k) =
          scan_missing_total (suc r.stop) stop cursor before rs n.2 nb (omega arith) in
        (out, ground arith, k)
    | inr ahead ↦ elim (Bool-cases (leb stop r.start)) [
      | inl beyond ↦ ((cursor, before), ground arith, omega arith)
      | inr inside ↦ elim (Bool-cases (ltb cursor r.start)) [
        | inl gap ↦ elim (add_lem before cursor r.start nb (omega arith) (ltb→lt _ _ gap)) [
          | inr bad ↦ absurd (omega (arith, bad.1))
          | inl (found, added, nf, lf, gf, cf) ↦
              let (out, e, k) =
                scan_missing_total (suc r.stop) stop r.stop found rs n.2 nf (omega arith) in
              (out, ground arith, k)
        ]
        | inr touching ↦
            let (out, e, k) =
              scan_missing_total (suc r.stop) stop r.stop before rs n.2 nb (omega arith) in
            (out, ground arith, k)
      ]
    ]
  ]
]

-- With fewer than `max_nak_ranges` ranges, in normal form, and a non-empty interval `missing` does
-- not fail, and what it reports is in normal form and covers exactly the offsets of the interval
-- that are not covered.
pub missing_total :
    (rs : Ranges) (start stop : ℕ)
    → IsNormal rs
    → length rs < max_nak_ranges
    → start < stop
    → (out : Ranges) × (missing rs start stop ≡ done out)
      × IsNormal out
      × ((x : ℕ) → covers out x ≡ (within start stop x && not (covers rs x)))
missing_total rs start stop n small p =
    let (found, scanned, room) = scan_missing_total 0 stop start init rs n tt (omega arith) in
    let s = scan_missing-IsScanned 0 stop start init rs found n tt (omega arith) scanned in
    let enters : (not (range_is_valid start stop) || ltb max_nak_ranges (length rs)) ≡ false =
      ground arith in
    elim (Bool-cases (ltb found.0 stop)) [
      | inr ended ↦
          let e : missing rs start stop ≡ done found.1 =
            unfold missing in rw (enters, scanned, ended) in
          let m = missing_lem rs start stop found.1 n p e in (found.1, e, m.0, m.1)
      | inl more ↦ elim (add_lem found.1 found.0 stop s.normal (omega arith) (ltb→lt _ _ more)) [
        | inr bad ↦ absurd (omega (arith, bad.1))
        | inl (out, added, nf, lf, gf, cf) ↦
            let e : missing rs start stop ≡ done out =
              unfold missing in rw (enters, scanned, more) added in
            let m = missing_lem rs start stop out n p e in (out, e, m.0, m.1)
      ]
    ]
