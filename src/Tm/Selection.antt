-- ===== src/Tm/Selection.antt =====
-- Which virtual channel the generator serves.
use akira_ccsds.Base.{ℕ, zero, suc, ◌+◌, ◌≤◌, ◌<◌}
use akira_ccsds.Base.{◌≡◌, refl, ap, ◌⊎◌, inl, inr, arith}
use akira_ccsds.Base.{true, false, Option, none, some, List, [], ◌∷◌}
use akira_ccsds.Base.{length, get_or, take, All}
use akira_ccsds.Tm.State.{Vc}
use akira_ccsds.Tm.Generator.{vc_has_pending_bytes, select_from}

zero_offset : (n : ℕ) → some n ≡ some (n + zero)
zero_offset n = ap some (omega arith)

one_on : (n k : ℕ) → some (suc n + k) ≡ some (n + suc k)
one_on n k = ap some (omega arith)

module _ {P : Type 0} where
  -- A channel with no bytes in its queue and no packet to finish, and one with either.
  abbrev pub IsIdle : Vc P → Type 0
  IsIdle vc = (vc.pending_len ≡ 0) × (vc.packet_rem ≡ 0)

  abbrev pub IsBusy : Vc P → Type 0
  IsBusy vc = (1 ≤ vc.pending_len) ⊎ (1 ≤ vc.packet_rem)

  vc_has_pending_bytes_lem :
      (vc : Vc P)
      → ((vc_has_pending_bytes vc ≡ true) × IsBusy vc)
        ⊎ ((vc_has_pending_bytes vc ≡ false) × IsIdle vc)
  unfolding vc_has_pending_bytes
  vc_has_pending_bytes_lem vc = ground arith

  -- Every channel before the selected one is idle and that one is not, or none is selected and all
  -- are idle.
  abbrev pub Selected : List (Vc P) → ℕ → Option ℕ → Type 0
  Selected vcs i sel =
      ((sel ≡ none) × All IsIdle vcs)
      ⊎ ((k : ℕ) × (sel ≡ some (i + k))
          × (k < length vcs)
          × All IsIdle (take k vcs)
          × ((d : Vc P) → IsBusy (get_or vcs k d)))

  -- From channel `i` on, the search selects the first channel that has bytes in its queue or a
  -- packet to finish, and none only if no channel has either.
  pub select_from-Selected : (vcs : List (Vc P)) (i : ℕ) → Selected vcs i (select_from i vcs)
  unfolding select_from
  select_from-Selected [] i = inl (refl, tt)
  select_from-Selected (vc ∷ vcs) i = elim (vc_has_pending_bytes_lem vc) [
    | inl (busy, some_bytes) ↦
        inr (zero, ground (arith, busy, zero_offset i), omega arith, tt, λ d. some_bytes)
    | inr (idle, no_bytes) ↦ elim (select_from-Selected vcs (suc i)) [
      | inl (e, rest) ↦ inl (ground (arith, idle, e), (no_bytes, rest))
      | inr (k, e, inside, before, here) ↦
          inr (suc k, ground (arith, idle, e, one_on i k), omega arith, (no_bytes, before), here)
    ]
  ]
