-- ===== src/Router/Examples.antt =====
-- A table of two entries, whose handlers are numbers that a call puts on a trace.
use akira_ccsds.Base.{ℕ, ◌≤◌, ◌<◌}
use akira_ccsds.Base.{◌≡◌, refl, ◌↔◌}
use akira_ccsds.Base.{true, none, some, [], ◌∷◌}
use akira_ccsds.Base.{◌==◌, if◌then◌else◌}
use akira_ccsds.Base.{einval, enospc, enoent, ok, err}
use akira_ccsds.SpacePacket.{apid_max}
use akira_ccsds.Router.{Router, cleared, init, replace_handler, take_free, register_apid}
use akira_ccsds.Router.{unregister_apid}
use akira_ccsds.Router.Lookup.{lookup, IsValid, is_full, register_apid_lem}
use akira_ccsds.Router.Lookup.{unregister_apid_lem}
use akira_ccsds.Router.Invariant.{Reach, start, registered, Reach-IsValid}

abbrev Table : Type 0
Table = Router ℕ ℕ

abbrev one_apid : Table
one_apid = record { apid = 5; handler = some 1; user_data = none; active = true } ∷ cleared ∷ []

register_first : register_apid {H = ℕ} {U = ℕ} (init 2) 5 1 none ≡ ok one_apid
unfolding register_apid replace_handler take_free init
register_first = refl

one_apid-Reach : Reach 2 one_apid
one_apid-Reach = registered 5 1 none one_apid start register_first

Reach-IsValid_example : IsValid one_apid
Reach-IsValid_example = Reach-IsValid 2 one_apid-Reach

register_apid_lem_example :
    ((r' : Table)
      → register_apid one_apid 6 2 none ≡ ok r'
      → (b : ℕ) → lookup b r' ≡ (if 6 == b then some (some 2, none) else lookup b one_apid))
    × (6 ≤ apid_max
        → (register_apid one_apid 6 2 none ≡ err enospc)
          ↔ ((lookup 6 one_apid ≡ none) × (is_full one_apid ≡ true)))
    × (apid_max < 6 → register_apid one_apid 6 2 none ≡ err einval)
register_apid_lem_example = register_apid_lem one_apid 6 2 none

unregister_apid_lem_example :
    ((r' : Table)
      → unregister_apid one_apid 5 ≡ ok r'
      → (b : ℕ) → lookup b r' ≡ (if 5 == b then none else lookup b one_apid))
    × (5 ≤ apid_max → (unregister_apid one_apid 5 ≡ err enoent) ↔ (lookup 5 one_apid ≡ none))
unregister_apid_lem_example = unregister_apid_lem one_apid 5 (Reach-IsValid 2 one_apid-Reach)
