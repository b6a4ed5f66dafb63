-- ===== src/Router.antt =====
-- The APID router: connectivity/ccsds/ccsds_router.c and .h. The table is the list of its entries;
-- a handler is a function pointer `H` that is called with a packet, the user pointer and the state
-- `W` of everything that it may change.
pub mod Invariant
pub mod Lookup
mod Examples
use akira_ccsds.Base.{
  ℕ, zero, suc, ◌+◌, ◌-◌, ◌*◌, ◌/◌, ◌%◌, ◌^◌, ◌≤◌, ◌<◌, min, max, bit_or, bit_xor,
}
use akira_ccsds.Base.{◌≡◌, refl, sym, ap, ap₂, ◌∙◌, ◌≢◌, ◌↔◌, ◌⊎◌, inl, inr, arith}
use akira_ccsds.Base.{
  Bool, true, false, ◌&&◌, ◌||◌, not, Option, none, some, List, [], ◌∷◌, ◌++◌, map, append_assoc,
  append-nil,
}
use akira_ccsds.Base.{
  ltb, leb, ◌==◌, if◌then◌else◌, ltb→lt, ltb→ge, lt→ltb, ge→ltb, ==_iff, ==_refl, Bool-cases,
  all_below, all_below_sound,
}
use akira_ccsds.Base.{
  length, get_or, set, take, drop, replicate, All, length-append, length-set, length-take,
  length-drop, length-replicate, take-append-drop, take-append, drop-append, take_all, prepend,
  prepend-eq-some, get_or-set_self, get_or-set_ne, get_or_ext, All-append, All-take, All-drop,
}
use akira_ccsds.Base.{
  IsByte, AllBytes, u8, u16, u32, shr, shl, low_bits, test_bit, byte_at, get_be16, be16, be32,
  byte_at-IsByte,
}
use akira_ccsds.Base.{
  Errno, einval, emsgsize, enospc, enoent, eio, eacces, enotsup, Result, ok, err, ◌>>=◌, Code,
  success, failure, other,
}
use akira_ccsds.SpacePacket.{
  apid_max, primary_hdr_len, sequence_unsegmented, SpacePacket, encoded_len, decode, header_word0,
  header_word1,
}
use akira_ccsds.SpacePacket.{encode}

-- `struct ccsds_router_entry`; a NULL pointer is `none`.
pub record Entry (H U : Type 0) : Type 0 where
  pub apid : ℕ
  pub handler : Option H
  pub user_data : Option U
  pub active : Bool

-- `struct ccsds_router`
abbrev pub Router : Type 0 → Type 0 → Type 0
Router H U = List (Entry H U)

module _ {H U : Type 0} where
  -- `memset(entry, 0, sizeof(*entry))`
  abbrev pub cleared : Entry H U
  cleared = record { apid = 0; handler = none; user_data = none; active = false }

  -- `router->entries[i].active && router->entries[i].apid == apid`
  abbrev pub serves : Entry H U → ℕ → Bool
  serves e apid = e.active && e.apid == apid

  -- The capacity is CONFIG_AKIRA_CCSDS_ROUTER_MAX_APIDS.
  unfoldable pub init : ℕ → Router H U
  init capacity = replicate capacity cleared

  -- The first loop of `register_apid`: the active entry of the APID gets the new handler.
  unfoldable pub replace_handler : ℕ → H → Option U → Router H U → Option (Router H U)
  replace_handler apid h u [] = none
  replace_handler apid h u (e ∷ es) =
      let rest = replace_handler apid h u es in
      if serves e apid
      then some (record e { handler = some h; user_data = u } ∷ es)
      else prepend e rest

  -- The second loop: the first inactive entry is taken.
  unfoldable pub take_free : ℕ → H → Option U → Router H U → Option (Router H U)
  take_free apid h u [] = none
  take_free apid h u (e ∷ es) =
      let rest = take_free apid h u es in
      if not e.active
      then some (record { apid = apid; handler = some h; user_data = u; active = true } ∷ es)
      else prepend e rest

  unfoldable pub register_apid : Router H U → ℕ → H → Option U → Result (Router H U)
  register_apid router apid h u =
      if ltb apid_max apid then err einval else elim (replace_handler apid h u router) [
        | some r ↦ ok r
        | none ↦ elim (take_free apid h u router) [ some r ↦ ok r | none ↦ err enospc ]
      ]

  unfoldable pub clear_entry : ℕ → Router H U → Option (Router H U)
  clear_entry apid [] = none
  clear_entry apid (e ∷ es) =
      let rest = clear_entry apid es in
      if serves e apid then some (cleared ∷ es) else prepend e rest

  unfoldable pub unregister_apid : Router H U → ℕ → Result (Router H U)
  unregister_apid router apid =
      if ltb apid_max apid
      then err einval
      else elim (clear_entry apid router) [ some r ↦ ok r | none ↦ err enoent ]

  -- `handler(packet, user_data)`, as the state before the call gives a code and the state after.
  module _ {W : Type 0} (call : Option H → SpacePacket → Option U → W → Code × W) where
    -- The loop of `dispatch`.
    unfoldable pub dispatch_entries : Router H U → SpacePacket → W → Code × W
    dispatch_entries [] p w = (failure enoent, w)
    dispatch_entries (e ∷ es) p w =
        let rest = dispatch_entries es p w in
        if serves e p.apid then call e.handler p e.user_data w else rest

    unfoldable pub dispatch : Router H U → SpacePacket → W → Code × W
    dispatch router p w =
        if ltb apid_max p.apid then (failure einval, w) else dispatch_entries router p w

    unfoldable pub dispatch_bytes : Router H U → List ℕ → W → Code × W
    dispatch_bytes router bytes w = elim (decode bytes) [
      | err e ↦ (failure e, w)
      | ok p ↦ dispatch router p w
    ]
