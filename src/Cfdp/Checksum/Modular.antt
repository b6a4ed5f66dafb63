-- ===== src/Cfdp/Checksum/Modular.antt =====
-- The modular checksum as a sum of 32-bit words, whatever the order of the segments.
use mathlib.Core.Path.{subst}
use akira_ccsds.Base.{ℕ, suc, ◌+◌, ◌-◌, ◌*◌, ◌%◌, ◌^◌, ◌≤◌, ◌<◌}
use akira_ccsds.Base.{◌≡◌, refl, sym, ap, ◌∙◌, arith}
use akira_ccsds.Base.{Bool, false, List, [], ◌∷◌, ◌++◌}
use akira_ccsds.Base.{length, All, length-append, concat}
use akira_ccsds.Base.{u32, shl}
use akira_ccsds.Cfdp.{Outcome, done, modular, ◌>>=◌}
use akira_ccsds.Cfdp.Checksum.{
  Checksum, checksum_type_is_supported, update_range_is_valid, init, add_bytes, accumulate, update,
}
use akira_ccsds.Cfdp.Checksum.{result_of, finish}
use mathlib.Core.List.{Permᴰ}

-- What the bytes from offset `o` on add to the checksum.
abbrev pub sum_from : ℕ → List ℕ → ℕ
sum_from o [] = 0
sum_from o (b ∷ bytes) = shl b ((3 - o % 4) * 8) + sum_from (suc o) bytes

-- The big-endian 32-bit words of a file, the last one padded with zeros.
abbrev pub word_sum : List ℕ → ℕ
word_sum [] = 0
word_sum (a ∷ []) = a * 2 ^ 24
word_sum (a ∷ b ∷ []) = a * 2 ^ 24 + b * 2 ^ 16
word_sum (a ∷ b ∷ c ∷ []) = a * 2 ^ 24 + b * 2 ^ 16 + c * 2 ^ 8
word_sum (a ∷ b ∷ c ∷ d ∷ rest) = a * 2 ^ 24 + b * 2 ^ 16 + c * 2 ^ 8 + d + word_sum rest

shift_at : (o r b : ℕ) → o % 4 ≡ r → shl b ((3 - o % 4) * 8) ≡ shl b ((3 - r) * 8)
shift_at o r b h = ap (λ t. shl b ((3 - t) * 8)) h

sum_from-words : (o : ℕ) (bytes : List ℕ) → o % 4 ≡ 0 → sum_from o bytes ≡ word_sum bytes
sum_from-words o [] h = refl
sum_from-words o (a ∷ []) h = omega (arith, shift_at o 0 a h)
sum_from-words o (a ∷ b ∷ []) h =
    omega (arith, shift_at o 0 a h, shift_at (suc o) 1 b (omega arith))
sum_from-words o (a ∷ b ∷ c ∷ []) h = omega (
  arith,
  shift_at o 0 a h,
  shift_at (suc o) 1 b (omega arith),
  shift_at (suc (suc o)) 2 c (omega arith),
)
sum_from-words o (a ∷ b ∷ c ∷ d ∷ rest) h = omega (
  arith,
  shift_at o 0 a h,
  shift_at (suc o) 1 b (omega arith),
  shift_at (suc (suc o)) 2 c (omega arith),
  shift_at (suc (suc (suc o))) 3 d (omega arith),
  sum_from-words (suc (suc (suc (suc o)))) rest (omega arith),
)

sum_at : (a b : ℕ) (bytes : List ℕ) → a ≡ b → sum_from a bytes ≡ sum_from b bytes
sum_at a b bytes h = ap (λ t. sum_from t bytes) h

sum_from-append :
    (o : ℕ) (xs ys : List ℕ) → sum_from o (xs ++ ys) ≡ sum_from o xs + sum_from (o + length xs) ys
sum_from-append o [] ys = omega (arith, sum_at o (o + 0) ys (omega arith))
sum_from-append o (x ∷ xs) ys = omega (
  arith,
  sum_from-append (suc o) xs ys,
  sum_at (suc o + length xs) (o + suc (length xs)) ys (omega arith),
)

lane : (o i b : ℕ) → shl b ((3 - u32 (o + i) % 4) * 8) ≡ shl b ((3 - (o + i) % 4) * 8)
lane o i b = ap (λ t. shl b ((3 - t) * 8)) (omega arith)

add_bytes_lem :
    (o i : ℕ) (bytes : List ℕ) (v : ℕ)
    → v < 2 ^ 32
    → add_bytes o i bytes v ≡ u32 (v + sum_from (o + i) bytes)
unfolding add_bytes
add_bytes_lem o i [] v small = omega arith
add_bytes_lem o i (b ∷ bytes) v small = omega (
  arith,
  lane o i b,
  add_bytes_lem o (suc i) bytes (u32 (v + u32 (shl b ((3 - u32 (o + i) % 4) * 8)))) (omega arith),
  sum_at (o + suc i) (suc (o + i)) bytes (omega arith),
)

-- A segment of file data: its offset and its bytes.
abbrev pub Segment : Type 0
Segment = ℕ × List ℕ

-- The segments that cut a file into the given pieces, from offset `o` on.
abbrev pub segments : ℕ → List (List ℕ) → List Segment
segments o [] = []
segments o (p ∷ pieces) = (o, p) ∷ segments (o + length p) pieces

abbrev total : List Segment → ℕ
total [] = 0
total (s ∷ ss) = sum_from s.0 s.1 + total ss

total-zero : (xs : List Segment) → 0 + total xs ≡ total xs
total-zero xs = omega arith

total-Perm : {xs ys : List Segment} → Permᴰ xs ys → total xs ≡ total ys
total-Perm Permᴰ.nil = refl
total-Perm (Permᴰ.cons e d) = omega (arith, ap (λ (s : Segment). sum_from s.0 s.1) e, total-Perm d)
total-Perm (Permᴰ.swap e f) =
    omega
      (arith, ap (λ (s : Segment). sum_from s.0 s.1) e, ap (λ (s : Segment). sum_from s.0 s.1) f)
total-Perm (Permᴰ.trans d e) = total-Perm d ∙ total-Perm e

abbrev InRange : Segment → Type 0
InRange s = s.0 + length s.1 ≤ 2 ^ 32

All-Perm : {xs ys : List Segment} → Permᴰ xs ys → All InRange ys → All InRange xs
All-Perm Permᴰ.nil h = h
All-Perm (Permᴰ.cons e d) h = (subst InRange (sym e) h.0, All-Perm d h.1)
All-Perm (Permᴰ.swap e f) h = (subst InRange (sym e) h.1.0, (subst InRange (sym f) h.0, h.1.1))
All-Perm (Permᴰ.trans d e) h = All-Perm d (All-Perm e h)

total-segments : (o : ℕ) (ps : List (List ℕ)) → total (segments o ps) ≡ sum_from o (concat ps)
total-segments o [] = refl
total-segments o (p ∷ ps) =
    omega (arith, sum_from-append o p (concat ps), total-segments (o + length p) ps)

segments-InRange :
    (o : ℕ) (ps : List (List ℕ)) → o + length (concat ps) ≤ 2 ^ 32 → All InRange (segments o ps)
segments-InRange o [] h = tt
segments-InRange o (p ∷ ps) h = (
  omega (arith, length-append p (concat ps)),
  segments-InRange (o + length p) ps (omega (arith, length-append p (concat ps))),
)

abbrev at : ℕ → Checksum
at v = record { type = modular; value = v; next_offset = 0; crc_started = false; deferred = false }

sum_from-empty : (o : ℕ) (bytes : List ℕ) → length bytes ≡ 0 → sum_from o bytes ≡ 0
sum_from-empty o [] h = refl
sum_from-empty o (b ∷ bytes) h = absurd (omega arith)

module _ (crc32_c : ℕ → List ℕ → Bool → Bool → ℕ) (crc32_ieee_update : ℕ → List ℕ → ℕ) where
  update_lem :
      (v : ℕ) (s : Segment)
      → v < 2 ^ 32
      → InRange s
      → update crc32_c crc32_ieee_update (at v) s.0 s.1 ≡ done (at (u32 (v + sum_from s.0 s.1)))
  unfolding update accumulate update_range_is_valid checksum_type_is_supported
  update_lem v s small h = ground (
    arith,
    add_bytes_lem s.0 0 s.1 v small,
    sum_at (s.0 + 0) s.0 s.1 (omega arith),
    sum_from-empty s.0 s.1,
    ap at,
  )

  -- The segments are accounted one after the other.
  abbrev pub receive : Checksum → List Segment → Outcome Checksum
  receive state [] = done state
  receive state (s ∷ ss) =
      update crc32_c crc32_ieee_update state s.0 s.1 >>= λ next. receive next ss

  receive_lem :
      (v : ℕ) (ss : List Segment)
      → v < 2 ^ 32
      → All InRange ss
      → receive (at v) ss ≡ done (at (u32 (v + total ss)))
  receive_lem v [] small h = ap (λ t. done (at t)) (omega arith)
  receive_lem v (s ∷ ss) small h =
      ap (λ m. m >>= λ next. receive next ss) (update_lem v s small h.0)
      ∙ (receive_lem (u32 (v + sum_from s.0 s.1)) ss (omega arith) h.1
          ∙ ap (λ t. done (at t)) (omega arith))

  -- A file of at most 2^32 bytes is cut into pieces anywhere and the segments arrive in any order:
  -- the modular checksum that is initialised, updated with each and finished is the sum, modulo
  -- 2^32, of the file's big-endian 32-bit words, the last one padded with zeros.
  pub modular-any_order :
      (received : List Segment) (pieces : List (List ℕ))
      → length (concat pieces) ≤ 2 ^ 32
      → Permᴰ received (segments 0 pieces)
      → (init modular >>= λ state. receive state received >>= finish)
        ≡ done (u32 (word_sum (concat pieces)))
  unfolding init finish result_of checksum_type_is_supported
  modular-any_order received pieces fits perm =
      ap (λ m. m >>= finish)
        (receive_lem 0 received (omega arith)
          (All-Perm perm (segments-InRange 0 pieces (omega arith))))
      ∙ ap (λ t. done (u32 t))
          (total-zero received
            ∙ total-Perm perm
            ∙ (total-segments 0 pieces ∙ sum_from-words 0 (concat pieces) refl))
