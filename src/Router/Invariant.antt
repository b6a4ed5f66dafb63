-- ===== src/Router/Invariant.antt =====
-- The invariant of the routing table, and what a packet that arrives as bytes meets.
use akira_ccsds.Base.{ℕ, zero, suc, ◌≤◌}
use akira_ccsds.Base.{◌≡◌, inl, inr, arith}
use akira_ccsds.Base.{true, not, Option, none, some, List, [], ◌∷◌, ◌++◌}
use akira_ccsds.Base.{ltb, ◌==◌, if◌then◌else◌, ltb→ge, ge→ltb, Bool-cases, Option-cases}
use akira_ccsds.Base.{length, prepend-eq-some}
use akira_ccsds.Base.{enoent, ok, Code, failure}
use akira_ccsds.SpacePacket.{apid_max, SpacePacket, encoded_len, decode}
use akira_ccsds.SpacePacket.{encode}
use akira_ccsds.SpacePacket.RoundTrip.{IsWellFormed, decode-encode}
use akira_ccsds.Router.{Router, cleared, serves, init, replace_handler, take_free, register_apid}
use akira_ccsds.Router.{clear_entry, unregister_apid, dispatch, dispatch_bytes}
use akira_ccsds.Router.Lookup.{
  lookup, IsValid, replace_handler-none, lookup-replace_handler, lookup-take_free,
  lookup-clear_entry,
}
use akira_ccsds.Router.Lookup.{dispatch_entries-lookup}

init-IsValid : (H U : Type 0) (n : ℕ) → IsValid {H = H} {U = U} (init n)
unfolding init
init-IsValid H U zero = tt
init-IsValid H U (suc n) = (λ on. absurd (ground arith), init-IsValid H U n)

module _ {H U : Type 0} where
  replace_handler-IsValid :
      (a : ℕ) (h : H) (u : Option U) (r : Router H U) {r' : Router H U}
      → IsValid r
      → replace_handler a h u r ≡ some r'
      → IsValid r'
  unfolding replace_handler
  replace_handler-IsValid a h u [] v q = absurd (ground arith)
  replace_handler-IsValid a h u (e ∷ es) {r'} v q = elim (Bool-cases (serves e a)) [
    | inl s ↦
        let same : r' ≡ record e { handler = some h; user_data = u } ∷ es = ground arith in
        rw same (λ on. let x = v.0 on in (x.0, x.1, ground arith), v.1)
    | inr n ↦
        let (t, p, eq) = prepend-eq-some e (replace_handler a h u es) (rw n at q) in
        let off : lookup e.apid t ≡ (if a == e.apid then some (some h, u) else lookup e.apid es) =
          lookup-replace_handler a h u es p e.apid in
        rw eq (
          λ on. (ground (arith, v.0 on, off), (v.0 on).1, (v.0 on).2),
          replace_handler-IsValid a h u es v.1 p,
        )
  ]

  take_free-IsValid :
      (a : ℕ) (h : H) (u : Option U) (r : Router H U) {r' : Router H U}
      → a ≤ apid_max
      → lookup a r ≡ none
      → IsValid r
      → take_free a h u r ≡ some r'
      → IsValid r'
  unfolding take_free
  take_free-IsValid a h u [] le f v q = absurd (ground arith)
  take_free-IsValid a h u (e ∷ es) {r'} le f v q = elim (Bool-cases (not e.active)) [
    | inl s ↦
        let same : r' ≡ record { apid = a; handler = some h; user_data = u; active = true } ∷ es =
          ground arith in
        rw same (λ on. (ground arith, le, ground arith), v.1)
    | inr n ↦
        let (t, p, eq) = prepend-eq-some e (take_free a h u es) (rw n at q) in
        let free : lookup a es ≡ none = ground arith in
        let off : lookup e.apid t ≡ (if a == e.apid then some (some h, u) else lookup e.apid es) =
          lookup-take_free a h u es p free e.apid in
        rw eq (
          λ on. (ground (arith, v.0 on, off), (v.0 on).1, (v.0 on).2),
          take_free-IsValid a h u es le free v.1 p,
        )
  ]

  clear_entry-IsValid :
      (a : ℕ) (r : Router H U) {r' : Router H U}
      → IsValid r
      → clear_entry a r ≡ some r'
      → IsValid r'
  unfolding clear_entry
  clear_entry-IsValid a [] v q = absurd (ground arith)
  clear_entry-IsValid a (e ∷ es) {r'} v q = elim (Bool-cases (serves e a)) [
    | inl s ↦
        let same : r' ≡ cleared ∷ es = ground arith in rw same (λ on. absurd (ground arith), v.1)
    | inr n ↦
        let (t, p, eq) = prepend-eq-some e (clear_entry a es) (rw n at q) in
        let off : lookup e.apid t ≡ (if a == e.apid then none else lookup e.apid es) =
          lookup-clear_entry a es v.1 p e.apid in
        rw eq (
          λ on. (ground (arith, v.0 on, off), (v.0 on).1, (v.0 on).2),
          clear_entry-IsValid a es v.1 p,
        )
  ]

  register_apid-IsValid :
      (r : Router H U) (a : ℕ) (h : H) (u : Option U) (r' : Router H U)
      → IsValid r
      → register_apid r a h u ≡ ok r'
      → IsValid r'
  unfolding register_apid
  register_apid-IsValid r a h u r' v q = elim (Bool-cases (ltb apid_max a)) [
    | inl big ↦ absurd (ground arith)
    | inr le ↦ elim (Option-cases (replace_handler a h u r)) [
      | inr (t, e) ↦
          let same : r' ≡ t = ground arith in rw same (replace_handler-IsValid a h u r v e)
      | inl n ↦ elim (Option-cases (take_free a h u r)) [
        | inl m ↦ absurd (ground arith)
        | inr (t, e) ↦
            let same : r' ≡ t = ground arith in
            rw same
              (take_free-IsValid a h u r (ltb→ge _ _ le) ((replace_handler-none a h u r).0 n) v e)
      ]
    ]
  ]

  unregister_apid-IsValid :
      (r : Router H U) (a : ℕ) (r' : Router H U)
      → IsValid r
      → unregister_apid r a ≡ ok r'
      → IsValid r'
  unfolding unregister_apid
  unregister_apid-IsValid r a r' v q = elim (Option-cases (clear_entry a r)) [
    | inl n ↦ absurd (ground arith)
    | inr (t, e) ↦ let same : r' ≡ t = ground arith in rw same (clear_entry-IsValid a r v e)
  ]

  -- The tables that successful calls make out of a new one.
  pub data Reach (n : ℕ) : Router H U → Type 0 where
    start : Reach n (init n)
    registered :
        {r : Router H U} (a : ℕ) (h : H) (u : Option U) (r' : Router H U)
        → Reach n r
        → register_apid r a h u ≡ ok r'
        → Reach n r'
    unregistered :
        {r : Router H U} (a : ℕ) (r' : Router H U)
        → Reach n r
        → unregister_apid r a ≡ ok r'
        → Reach n r'

  -- In every table that calls of `register_apid` and `unregister_apid` make out of a new one, no
  -- two active entries have the same APID, and each has a handler and an 11-bit APID.
  pub Reach-IsValid : (n : ℕ) {r : Router H U} → Reach n r → IsValid r
  Reach-IsValid n start = init-IsValid H U n
  Reach-IsValid n (registered a h u r' before done) =
      register_apid-IsValid _ a h u r' (Reach-IsValid n before) done
  Reach-IsValid n (unregistered a r' before done) =
      unregister_apid-IsValid _ a r' (Reach-IsValid n before) done

  dispatch_bytes-decoded :
      {W : Type 0} (call : Option H → SpacePacket → Option U → W → Code × W) (r : Router H U)
      (p : SpacePacket) (bytes : List ℕ) (w : W)
      → decode bytes ≡ ok p
      → p.apid ≤ apid_max
      → dispatch_bytes call r bytes w
        ≡ elim (lookup p.apid r) [ none ↦ (failure enoent, w) | some reg ↦ call reg.0 p reg.1 w ]
  unfolding dispatch_bytes dispatch
  dispatch_bytes-decoded call r p bytes w read le =
      rw (read, dispatch_bytes) (rw (ge→ltb _ _ le) (dispatch_entries-lookup call r p w))

  -- A well-formed packet that is encoded and then dispatched as bytes, with anything behind them,
  -- is handed unchanged to the handler registered for its APID, with that handler's user pointer,
  -- and the handler's code is returned; without a registration the result is ENOENT and nothing
  -- is called.
  pub dispatch_bytes-encode :
      {W : Type 0} (call : Option H → SpacePacket → Option U → W → Code × W) (r : Router H U)
      (p : SpacePacket) (cap : ℕ) (rest : List ℕ) (w : W)
      → IsWellFormed p
      → encoded_len (length p.payload) ≤ cap
      → (bytes : List ℕ) × (encode p cap ≡ ok bytes)
        × (dispatch_bytes call r (bytes ++ rest) w ≡ elim (lookup p.apid r) [
          | none ↦ (failure enoent, w)
          | some reg ↦ call reg.0 p reg.1 w
        ])
  dispatch_bytes-encode call r p cap rest w ok_p room =
      let (bytes, stored, read) = decode-encode p cap rest ok_p room in
      (bytes, stored, dispatch_bytes-decoded call r p (bytes ++ rest) w read ok_p.apid_fits)
