-- ===== src/Tm/Rounds.antt =====
-- The rounds of the loop that fills the data field, one equation for each way they go.
use akira_ccsds.Base.{ℕ, zero, suc, ◌+◌, ◌-◌, ◌≤◌, ◌<◌, min}
use akira_ccsds.Base.{◌≡◌, refl, ap, ◌⊎◌, inl, inr, arith}
use akira_ccsds.Base.{◌&&◌, List, ◌++◌}
use akira_ccsds.Base.{ltb, leb, ◌==◌, if◌then◌else◌, Bool-cases}
use akira_ccsds.Base.{length}
use akira_ccsds.Base.{u16}
use akira_ccsds.Base.{Result, ok}
use akira_ccsds.Tm.State.{Config}
use akira_ccsds.Tm.State.{data_len, PipeOps, Vc}
use akira_ccsds.Tm.Pending.{sub_size, read_pending_bytes}
use akira_ccsds.Tm.Build.{no_first_header_pointer, packet_total_len}
use akira_ccsds.Tm.Build.{Filled, fill_data}

le_or_lt : (a b : ℕ) → (a ≤ b) ⊎ (b < a)
le_or_lt a b = elim (Bool-cases (leb a b)) [
  | inl e ↦ inl (ground arith)
  | inr e ↦ inr (ground arith)
]

-- The three ways that a round of the loop goes.
pub round_cases :
    (used len rem pending : ℕ)
    → ((len ≤ used) ⊎ ((rem ≡ 0) × ((pending ≡ 0) ⊎ (len < used + 6))))
      ⊎ (((used < len) × (0 < rem)) ⊎ ((used + 6 ≤ len) × (rem ≡ 0) × (0 < pending)))
round_cases used len zero pending = elim (le_or_lt (used + 6) len) [
  | inl room ↦ elim (le_or_lt pending 0) [
    | inl e ↦ inl (inr (refl, inl (omega arith)))
    | inr e ↦ inr (inr (room, refl, e))
  ]
  | inr e ↦ inl (inr (refl, inr e))
]
round_cases used len (suc rem) pending = elim (le_or_lt len used) [
  | inl e ↦ inl (inl e)
  | inr e ↦ inr (inl (e, omega arith))
]

module _ {P : Type 0} (ops : PipeOps P) (c : Config) where
  abbrev Out : Type 0
  Out = Result Filled × Vc P

  pub fill_data-stay :
      (fuel : ℕ) (used : List ℕ) (fhp : ℕ) (vc : Vc P)
      → (data_len c ≤ length used)
        ⊎ ((vc.packet_rem ≡ 0) × ((vc.pending_len ≡ 0) ⊎ (data_len c < length used + 6)))
      → fill_data ops c fuel used fhp vc
        ≡ (ok (record { used = used; first_header_pointer = fhp }), vc)
  unfolding fill_data
  fill_data-stay zero used fhp vc h = refl
  fill_data-stay (suc fuel) used fhp vc (inl h) = ground arith
  fill_data-stay (suc fuel) used fhp vc (inr (h, inl e)) = ground arith
  fill_data-stay (suc fuel) used fhp vc (inr (h, inr e)) = ground arith

  pub fill_data-continued :
      (fuel : ℕ) (used : List ℕ) (fhp : ℕ) (vc : Vc P) (bytes : List ℕ) (next : Vc P)
      → length used < data_len c
      → 0 < vc.packet_rem
      → read_pending_bytes ops (min vc.packet_rem (data_len c - length used)) vc ≡ (ok bytes, next)
      → fill_data ops c (suc fuel) used fhp vc
        ≡ fill_data ops c fuel (used ++ bytes) fhp (record next {
          packet_rem = sub_size next.packet_rem (min vc.packet_rem (data_len c - length used));
        })
  unfolding fill_data
  fill_data-continued fuel used fhp vc bytes next h r e = ground (
    arith,
    ap (λ (o : Result (List ℕ) × Vc P). o.0) e,
    ap (λ (o : Result (List ℕ) × Vc P). o.1) e,
  )

  pub fill_data-opened :
      (fuel : ℕ) (used : List ℕ) (fhp : ℕ) (vc : Vc P) (bytes : List ℕ) (next : Vc P)
      → length used + 6 ≤ data_len c
      → vc.packet_rem ≡ 0
      → 6 ≤ vc.pending_len
      → read_pending_bytes ops 6 vc ≡ (ok bytes, next)
      → fill_data ops c (suc fuel) used fhp vc
        ≡ fill_data ops c fuel
            (used ++ bytes)
            (if fhp == no_first_header_pointer then u16 (length used) else fhp)
            (record next { packet_rem = packet_total_len bytes - 6 })
  unfolding fill_data
  fill_data-opened fuel used fhp vc bytes next h r p e = ground (
    arith,
    ap (λ (o : Result (List ℕ) × Vc P). o.0) e,
    ap (λ (o : Result (List ℕ) × Vc P). o.1) e,
  )

  -- Where the first packet starts, given the pointer so far, the bytes used, those of the started
  -- packet that are left and those queued.
  abbrev pub pointer_of : ℕ → ℕ → ℕ → ℕ → ℕ
  pointer_of fhp used rem queued_len =
      if fhp == no_first_header_pointer
      then if ltb rem queued_len && leb (used + rem + 6) (data_len c)
        then used + rem
        else no_first_header_pointer
      else fhp

  pub pointer_moved :
      (used fhp rem n left from to : ℕ)
      → rem - n ≡ left
      → n ≤ rem
      → from ≡ n + to
      → pointer_of fhp (used + n) left to ≡ pointer_of fhp (used) rem from
  pointer_moved used fhp rem n left from to e le split = ground arith

  pub pointer_set :
      (used fhp rem n left from to : ℕ)
      → data_len c ≤ 2047
      → rem ≡ 0
      → n ≡ 6
      → used + 6 ≤ data_len c
      → from ≡ n + to
      → pointer_of (if fhp == no_first_header_pointer then u16 (used) else fhp) (used + n) left to
        ≡ pointer_of fhp (used) rem from
  pointer_set used fhp rem n left from to small e six room split = ground arith
