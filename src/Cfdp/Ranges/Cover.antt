-- ===== src/Cfdp/Ranges/Cover.antt =====
-- What a list of ranges means: the set of offsets that it covers, and its normal form.
use akira_ccsds.Base.{ℕ, suc, ◌≤◌, ◌<◌}
use akira_ccsds.Base.{◌≡◌, refl, arith}
use akira_ccsds.Base.{Bool, false, ◌&&◌, ◌||◌, [], ◌∷◌}
use akira_ccsds.Base.{ltb, leb}
use akira_ccsds.Cfdp.Ranges.{Ranges}

abbrev pub within : ℕ → ℕ → ℕ → Bool
within start stop x = leb start x && ltb x stop

-- The offset lies in one of the ranges.
abbrev pub covers : Ranges → ℕ → Bool
covers [] x = false
covers (r ∷ rs) x = within r.start r.stop x || covers rs x

-- The ranges are not empty, in ascending order, from `low` on, and with a gap between any two.
abbrev pub IsNormalFrom : ℕ → Ranges → Type 0
IsNormalFrom low [] = Unit
IsNormalFrom low (r ∷ rs) = (low ≤ r.start) × (r.start < r.stop) × IsNormalFrom (suc r.stop) rs

abbrev pub IsNormal : Ranges → Type 0
IsNormal = IsNormalFrom 0

pub IsNormalFrom-le :
    {low low' : ℕ} (rs : Ranges) → low' ≤ low → IsNormalFrom low rs → IsNormalFrom low' rs
IsNormalFrom-le [] h n = tt
IsNormalFrom-le (r ∷ rs) h n = (omega arith, n.1, n.2)

-- Nothing below the first range is covered.
pub covers-below :
    {low : ℕ} (rs : Ranges) (x : ℕ) → IsNormalFrom low rs → x < low → covers rs x ≡ false
covers-below [] x n h = refl
covers-below (r ∷ rs) x n h = ground (arith, covers-below rs x n.2 (omega arith))
