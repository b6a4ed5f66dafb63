-- ===== src/Router/Lookup.antt =====
-- The router as a partial map from APIDs to registrations: what each operation does to that map,
-- and which handler a dispatch calls.
use akira_ccsds.Base.{ℕ, ◌≤◌, ◌<◌}
use akira_ccsds.Base.{◌≡◌, refl, ◌≢◌, ◌↔◌, inl, inr, arith}
use akira_ccsds.Base.{Bool, true, ◌&&◌, not, Option, none, some, [], ◌∷◌}
use akira_ccsds.Base.{◌==◌, if◌then◌else◌, Bool-cases, Option-cases}
use akira_ccsds.Base.{prepend-eq-some}
use akira_ccsds.Base.{einval, enospc, enoent, ok, err, Code, failure}
use akira_ccsds.SpacePacket.{apid_max, SpacePacket}
use akira_ccsds.Router.{Router, serves, replace_handler, take_free, register_apid}
use akira_ccsds.Router.{clear_entry, unregister_apid, dispatch_entries}

module _ {H U : Type 0} where
  -- The abstract view: the registration of an APID.
  abbrev pub lookup : ℕ → Router H U → Option (Option H × Option U)
  lookup a [] = none
  lookup a (e ∷ es) =
      let rest = lookup a es in if serves e a then some (e.handler, e.user_data) else rest

  -- No two active entries have the same APID, every active entry has a handler, and its APID is an
  -- 11-bit number.
  abbrev pub IsValid : Router H U → Type 0
  IsValid [] = Unit
  IsValid (e ∷ es) =
      (e.active ≡ true → (lookup e.apid es ≡ none) × (e.apid ≤ apid_max) × (e.handler ≢ none))
      × IsValid es

  -- No entry is left.
  abbrev pub is_full : Router H U → Bool
  is_full [] = true
  is_full (e ∷ es) = e.active && is_full es

  pub replace_handler-none :
      (a : ℕ) (h : H) (u : Option U) (r : Router H U)
      → (replace_handler a h u r ≡ none) ↔ (lookup a r ≡ none)
  unfolding replace_handler
  replace_handler-none a h u [] = ground arith
  replace_handler-none a h u (e ∷ es) = ground (arith, replace_handler-none a h u es)

  pub lookup-replace_handler :
      (a : ℕ) (h : H) (u : Option U) (r : Router H U) {r' : Router H U}
      → replace_handler a h u r ≡ some r'
      → (b : ℕ) → lookup b r' ≡ (if a == b then some (some h, u) else lookup b r)
  unfolding replace_handler
  lookup-replace_handler a h u [] q b = ground arith
  lookup-replace_handler a h u (e ∷ es) {r'} q b = elim (Bool-cases (serves e a)) [
    | inl s ↦ ground arith
    | inr n ↦
        let (t, p, eq) = prepend-eq-some e (replace_handler a h u es) (rw n at q) in
        ground (arith, lookup-replace_handler a h u es p b, eq)
  ]

  take_free-none :
      (a : ℕ) (h : H) (u : Option U) (r : Router H U)
      → (take_free a h u r ≡ none) ↔ (is_full r ≡ true)
  unfolding take_free
  take_free-none a h u [] = ground arith
  take_free-none a h u (e ∷ es) = ground (arith, take_free-none a h u es)

  pub lookup-take_free :
      (a : ℕ) (h : H) (u : Option U) (r : Router H U) {r' : Router H U}
      → take_free a h u r ≡ some r'
      → lookup a r ≡ none
      → (b : ℕ) → lookup b r' ≡ (if a == b then some (some h, u) else lookup b r)
  unfolding take_free
  lookup-take_free a h u [] q f b = ground arith
  lookup-take_free a h u (e ∷ es) {r'} q f b = elim (Bool-cases (not e.active)) [
    | inl s ↦ ground arith
    | inr n ↦
        let (t, p, eq) = prepend-eq-some e (take_free a h u es) (rw n at q) in
        let free : lookup a es ≡ none = ground arith in
        ground (arith, lookup-take_free a h u es p free b, eq)
  ]

  clear_entry-none : (a : ℕ) (r : Router H U) → (clear_entry a r ≡ none) ↔ (lookup a r ≡ none)
  unfolding clear_entry
  clear_entry-none a [] = ground arith
  clear_entry-none a (e ∷ es) = ground (arith, clear_entry-none a es)

  pub lookup-clear_entry :
      (a : ℕ) (r : Router H U) {r' : Router H U}
      → IsValid r
      → clear_entry a r ≡ some r'
      → (b : ℕ) → lookup b r' ≡ (if a == b then none else lookup b r)
  unfolding clear_entry
  lookup-clear_entry a [] v q b = ground arith
  lookup-clear_entry a (e ∷ es) {r'} v q b = elim (Bool-cases (serves e a)) [
    | inl s ↦ ground arith
    | inr n ↦
        let (t, p, eq) = prepend-eq-some e (clear_entry a es) (rw n at q) in
        ground (arith, lookup-clear_entry a es v.1 p b, eq)
  ]

  lookup-register_apid :
      (r : Router H U) (a : ℕ) (h : H) (u : Option U) (r' : Router H U)
      → register_apid r a h u ≡ ok r'
      → (b : ℕ) → lookup b r' ≡ (if a == b then some (some h, u) else lookup b r)
  unfolding register_apid
  lookup-register_apid r a h u r' q b = elim (Option-cases (replace_handler a h u r)) [
    | inr (t, e) ↦ ground (arith, lookup-replace_handler a h u r e b)
    | inl n ↦ elim (Option-cases (take_free a h u r)) [
      | inl m ↦ ground arith
      | inr (t, e) ↦
          ground (arith, lookup-take_free a h u r e ((replace_handler-none a h u r).0 n) b)
    ]
  ]

  register_apid-enospc :
      (r : Router H U) (a : ℕ) (h : H) (u : Option U)
      → a ≤ apid_max
      → (register_apid r a h u ≡ err enospc) ↔ ((lookup a r ≡ none) × (is_full r ≡ true))
  unfolding register_apid
  register_apid-enospc r a h u le =
      ground (arith, replace_handler-none a h u r, take_free-none a h u r)

  -- After a successful registration the APID has the new handler and every other APID is served as
  -- before. An 11-bit APID is refused with ENOSPC exactly when it is not registered and no inactive
  -- entry is left. A larger APID is refused with EINVAL.
  pub register_apid_lem :
      (r : Router H U) (a : ℕ) (h : H) (u : Option U)
      → ((r' : Router H U)
          → register_apid r a h u ≡ ok r'
          → (b : ℕ) → lookup b r' ≡ (if a == b then some (some h, u) else lookup b r))
        × (a ≤ apid_max
            → (register_apid r a h u ≡ err enospc) ↔ ((lookup a r ≡ none) × (is_full r ≡ true)))
        × (apid_max < a → register_apid r a h u ≡ err einval)
  register_apid_lem r a h u = (
    lookup-register_apid r a h u,
    register_apid-enospc r a h u,
    λ big. unfold register_apid in ground arith,
  )

  -- Of a valid table, after a successful removal the APID has no handler and every other APID is
  -- served as before. Removing an 11-bit APID fails with ENOENT exactly when it is not registered.
  pub unregister_apid_lem :
      (r : Router H U) (a : ℕ)
      → IsValid r
      → ((r' : Router H U)
          → unregister_apid r a ≡ ok r'
          → (b : ℕ) → lookup b r' ≡ (if a == b then none else lookup b r))
        × (a ≤ apid_max → (unregister_apid r a ≡ err enoent) ↔ (lookup a r ≡ none))
  unregister_apid_lem r a v =
      (gone, λ le. unfold unregister_apid in ground (arith, clear_entry-none a r))
    where
      gone :
          (r' : Router H U)
          → unregister_apid r a ≡ ok r'
          → (b : ℕ) → lookup b r' ≡ (if a == b then none else lookup b r)
      gone r' q b = elim (Option-cases (clear_entry a r)) [
        | inl n ↦ absurd (unfold unregister_apid in ground arith)
        | inr (t, e) ↦ unfold unregister_apid in ground (arith, lookup-clear_entry a r v e b)
      ]

  module _ {W : Type 0} (call : Option H → SpacePacket → Option U → W → Code × W) where
    pub dispatch_entries-lookup :
        (r : Router H U) (p : SpacePacket) (w : W)
        → dispatch_entries call r p w
          ≡ elim (lookup p.apid r) [ none ↦ (failure enoent, w) | some reg ↦ call reg.0 p reg.1 w ]
    unfolding dispatch_entries
    dispatch_entries-lookup [] p w = refl
    dispatch_entries-lookup (e ∷ es) p w = elim (Bool-cases (serves e p.apid)) [
      | inl s ↦ rw s refl
      | inr n ↦ rw n (dispatch_entries-lookup es p w)
    ]
