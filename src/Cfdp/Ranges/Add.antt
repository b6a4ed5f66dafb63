-- ===== src/Cfdp/Ranges/Add.antt =====
-- `ccsds_cfdp_ranges_add`: the union with the new range, in normal form again.
use akira_ccsds.Base.{ℕ, suc, ◌+◌, ◌≤◌, ◌<◌}
use akira_ccsds.Base.{◌≡◌, refl, ◌∙◌, ◌⊎◌, inl, inr, arith}
use akira_ccsds.Base.{Bool, true, false, ◌&&◌, ◌||◌, not, [], ◌∷◌}
use akira_ccsds.Base.{ltb, leb, ◌==◌, if◌then◌else◌, ltb→lt, leb→le, Bool-cases}
use akira_ccsds.Base.{length, take, drop, All, length-append, length-take, length-drop}
use akira_ccsds.Cfdp.{buffer_too_small}
use akira_ccsds.Cfdp.{done}
use akira_ccsds.Cfdp.{fail}
use akira_ccsds.Cfdp.Ranges.{
  max_nak_ranges, Range, Ranges, range_is_valid, skip_before, Merged, merge_touching,
}
use akira_ccsds.Cfdp.Ranges.{store, add}
use akira_ccsds.Cfdp.Ranges.Cover.{within, covers, IsNormalFrom, IsNormal}

-- The first range, if there is one, does not end before `x`.
abbrev HeadReaches : ℕ → Ranges → Type 0
HeadReaches x [] = Unit
HeadReaches x (r ∷ rs) = x ≤ r.stop

abbrev range : Merged → Range
range m = record { start = m.start; stop = m.stop }

-- What the merge loop has done: the merged range and what stays behind it are in normal form, and
-- cover what the merged range did before, and the ranges that were passed.
record IsMerged (low start stop : ℕ) (rs : Ranges) (m : Merged) : Type 0 where
  normal : IsNormalFrom low (range m ∷ drop m.removed rs)
  cover : (x : ℕ) → covers (range m ∷ drop m.removed rs) x ≡ (within start stop x || covers rs x)

HeadReaches-of_normal : (x low : ℕ) (rs : Ranges) → IsNormalFrom low rs → x ≤ low → HeadReaches x rs
HeadReaches-of_normal x low [] n h = tt
HeadReaches-of_normal x low (r ∷ rs) n h = omega arith

-- Two ranges that touch cover what their hull does.
hull :
    (start merged : ℕ) (r : Range) (x : ℕ)
    → start < merged
    → r.start ≤ merged
    → start ≤ r.stop
    → within
        (if ltb r.start start then r.start else start)
        (if ltb merged r.stop then r.stop else merged)
        x
      ≡ (within start merged x || within r.start r.stop x)
hull start merged r x p q h = ground arith

or_assoc : (a b c : Bool) → ((a || b) || c) ≡ (a || (b || c))
or_assoc true b c = refl
or_assoc false b c = refl

merge_touching-IsMerged :
    (stop low from start merged : ℕ) (rs : Ranges)
    → IsNormalFrom from rs
    → HeadReaches start rs
    → low ≤ start
    → low ≤ from
    → start < merged
    → stop ≤ merged
    → (merged ≤ stop) ⊎ (merged < from)
    → IsMerged low start merged rs (merge_touching stop start merged rs)
unfolding merge_touching
merge_touching-IsMerged stop low from start merged [] n hr l1 l2 p q c = record {
  normal = omega arith;
  cover = λ x. ground arith;
}
merge_touching-IsMerged stop low from start merged (r ∷ rs) n hr l1 l2 p q c =
    elim (Bool-cases (leb r.start stop)) [
      | inr far ↦ rw far (record {
        normal = (omega arith, omega arith, (ground arith, n.1, n.2));
        cover = λ x. refl;
      })
      | inl near ↦
          let start' : ℕ = if ltb r.start start then r.start else start in
          let merged' : ℕ = if ltb merged r.stop then r.stop else merged in
          let low_start : (low ≤ start') × (start' ≤ suc r.stop) = ground arith in
          let high : (start' < merged')
              × (stop ≤ merged')
              × ((merged' ≤ stop) ⊎ (merged' < suc r.stop)) =
            (ground arith, ground arith, ground arith) in
          let rest =
            merge_touching-IsMerged stop low (suc r.stop) start' merged' rs n.2
              (HeadReaches-of_normal start' (suc r.stop) rs n.2 low_start.1) low_start.0
              (omega arith) high.0 high.1 high.2 in
          rw near (record {
            normal = rest.normal;
            cover = λ x.
                rest.cover x
                ∙ rw (hull start merged r x p (omega (arith, leb→le r.start stop near)) hr)
                    (or_assoc (within start merged x) (within r.start r.stop x) (covers rs x));
          })
    ]

-- The same with a prefix of ranges that end before the new one.
record IsUnion (low start stop : ℕ) (rs out : Ranges) : Type 0 where
  normal : IsNormalFrom low out
  cover : (x : ℕ) → covers out x ≡ (within start stop x || covers rs x)

or_swap : (a b c : Bool) → (a || (b || c)) ≡ (b || (a || c))
or_swap true true c = refl
or_swap true false c = refl
or_swap false b c = refl

store-IsUnion :
    (low start stop : ℕ) (rs : Ranges)
    → IsNormalFrom low rs
    → low ≤ start
    → start < stop
    → IsUnion low start stop rs (
        store rs
          (skip_before start rs)
          (merge_touching stop start stop (drop (skip_before start rs) rs)))
unfolding store skip_before
store-IsUnion low start stop [] n h p =
    let m =
      merge_touching-IsMerged stop low low start stop [] n tt h (omega arith) p (omega arith)
        (inl (omega arith)) in
    record { normal = m.normal; cover = m.cover }
store-IsUnion low start stop (r ∷ rs) n h p = elim (Bool-cases (ltb r.stop start)) [
  | inr here ↦
      let m =
        merge_touching-IsMerged stop low low start stop (r ∷ rs) n (ground arith) h (omega arith) p
          (omega arith) (inl (omega arith)) in
      rw here (record { normal = m.normal; cover = m.cover })
  | inl before ↦
      let u = store-IsUnion (suc r.stop) start stop rs n.2 (ltb→lt _ _ before) p in
      rw before (record {
        normal = (n.0, n.1, u.normal);
        cover = λ x.
            rw (u.cover x) (or_swap (within r.start r.stop x) (within start stop x) (covers rs x));
      })
]

removed-le : (stop a b : ℕ) (rs : Ranges) → (merge_touching stop a b rs).removed ≤ length rs
unfolding merge_touching
removed-le stop a b [] = omega arith
removed-le stop a b (r ∷ rs) = ground (
  arith,
  removed-le stop (if ltb r.start a then r.start else a) (if ltb b r.stop then r.stop else b) rs,
)

skip_before-le : (start : ℕ) (rs : Ranges) → skip_before start rs ≤ length rs
unfolding skip_before
skip_before-le start [] = omega arith
skip_before-le start (r ∷ rs) = ground (arith, skip_before-le start rs)

length-store :
    (rs : Ranges) (first : ℕ) (m : Merged)
    → first ≤ length rs
    → m.removed ≤ length (drop first rs)
    → length (store rs first m) + m.removed ≡ length rs + 1
unfolding store
length-store rs first m f k = omega (
  arith,
  length-append (take first rs) (range m ∷ drop m.removed (drop first rs)),
  length-take first rs,
  length-drop first rs,
  length-drop m.removed (drop first rs),
)

abbrev Apart : ℕ → ℕ → Ranges → Type 0
Apart start stop = All (λ r. (r.stop < start) ⊎ (stop < r.start))

Apart-above :
    (low start stop : ℕ) (rs : Ranges) → IsNormalFrom low rs → stop < low → Apart start stop rs
Apart-above low start stop [] n h = tt
Apart-above low start stop (r ∷ rs) n h =
    (inr (omega arith), Apart-above (suc r.stop) start stop rs n.2 (omega arith))

-- Nothing is merged only if no range overlaps or touches the new one.
Apart-of_none_removed :
    (low start stop : ℕ) (rs : Ranges)
    → IsNormalFrom low rs
    → (merge_touching stop start stop (drop (skip_before start rs) rs)).removed ≡ 0
    → Apart start stop rs
unfolding skip_before merge_touching
Apart-of_none_removed low start stop [] n e = tt
Apart-of_none_removed low start stop (r ∷ rs) n e = elim (Bool-cases (ltb r.stop start)) [
  | inl before ↦
      let rest = Apart-of_none_removed (suc r.stop) start stop rs n.2 (rw before at e) in
      (inl (ltb→lt _ _ before), rest)
  | inr here ↦
      let far : stop < r.start = ground arith in
      (inr far, Apart-above (suc r.stop) start stop rs n.2 (omega arith))
]

-- Adding a non-empty range to ranges in normal form that are at most `max_nak_ranges`: either the
-- result is in normal form, is at most `max_nak_ranges` ranges and at most one more than before,
-- and covers exactly what the ranges and the new one cover; or the table is full, no range overlaps
-- or touches the new one, and the call fails with BUFFER_TOO_SMALL.
pub add_lem :
    (rs : Ranges) (start stop : ℕ)
    → IsNormal rs
    → length rs ≤ max_nak_ranges
    → start < stop
    → ((out : Ranges) × (add rs start stop ≡ done out)
        × IsNormal out
        × (length out ≤ max_nak_ranges)
        × (length out ≤ suc (length rs))
        × ((x : ℕ) → covers out x ≡ (within start stop x || covers rs x)))
      ⊎ ((add rs start stop ≡ fail buffer_too_small)
          × (length rs ≡ max_nak_ranges)
          × All (λ r. (r.stop < start) ⊎ (stop < r.start)) rs)
add_lem rs start stop n le p =
    elim (Bool-cases ((merged.removed == 0) && (length rs == max_nak_ranges))) [
      | inl full ↦
          let none_removed : merged.removed ≡ 0 = ground arith in
          let at_max : length rs ≡ max_nak_ranges = ground arith in
          inr (
            unfold add in rw (enters, full),
            at_max,
            Apart-of_none_removed 0 start stop rs n none_removed,
          )
      | inr room ↦
          let size = length-store rs first merged (skip_before-le start rs) (removed-le _ _ _ _) in
          inl (
            store rs first merged,
            unfold add in rw (enters, room),
            union.normal,
            ground (arith, size),
            ground (arith, size),
            union.cover,
          )
    ]
  where
    first : ℕ
    first = skip_before start rs

    merged : Merged
    merged = merge_touching stop start stop (drop first rs)

    union : IsUnion 0 start stop rs (store rs first merged)
    union = store-IsUnion 0 start stop rs n (omega arith) p

    enters : (not (range_is_valid start stop) || ltb max_nak_ranges (length rs)) ≡ false
    enters = ground arith
