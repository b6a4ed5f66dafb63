-- ===== src/Tm/State.antt =====
-- The state of the TM generator and its configuration.
use akira_ccsds.Base.{ℕ, ◌-◌}
use akira_ccsds.Base.{Bool, true, false, Option, none, List}
use akira_ccsds.Base.{if◌then◌else◌}
use akira_ccsds.Base.{get_or, replicate}
use akira_ccsds.Base.{Result}

-- The build's configuration. CCSDS_TM_FRAME_LEN is `frame_len` (with Reed-Solomon it is the length
-- of the interleaved data); the three flags are CONFIG_AKIRA_CCSDS_TM_FECF, ..._RS and ..._TM_RND.
pub record Config : Type 0 where
  pub spacecraft_id : ℕ
  pub frame_len : ℕ
  pub fecf : Bool
  pub rs : Bool
  pub rnd : Bool
  pub queue_depth : ℕ
  pub max_space_packet_len : ℕ

abbrev pub max_vc_id : ℕ
max_vc_id = 7

abbrev pub vc_count : ℕ
vc_count = 8

abbrev pub route_count : ℕ
route_count = 32

abbrev pub space_packet_min_len : ℕ
space_packet_min_len = 7

abbrev pub tm_primary_hdr_len : ℕ
tm_primary_hdr_len = 6

abbrev pub ocf_len : ℕ
ocf_len = 4

abbrev pub fecf_len : Config → ℕ
fecf_len c = if c.fecf then 2 else 0

-- The bytes of a frame between its header and the operational control field.
abbrev pub data_len : Config → ℕ
data_len c = c.frame_len - tm_primary_hdr_len - ocf_len - fecf_len c

-- `k_pipe` of Zephyr: a byte queue. A read of at most `n` bytes and a write return the count, here
-- with the bytes that were read, or a negated errno.
pub record PipeOps (P : Type 0) : Type 0 where
  pub fresh : P
  pub read : ℕ → P → Result (List ℕ) × P
  pub write : List ℕ → P → Result ℕ × P

-- `struct ccsds_tm_vc` without its mutex: every access holds it.
pub record Vc (P : Type 0) : Type 0 where
  pub pending : P
  pub pending_len : ℕ
  pub packet_rem : ℕ
  pub packet_is_idle : Bool
  pub vcfc : ℕ
  pub route_mask : ℕ

-- The module's static variables, for route callbacks `R` and CLCW providers `C`, each with its user
-- pointer. Delays are `k_timeout_t` values.
pub record Tm (P R C : Type 0) : Type 0 where
  pub vcs : List (Vc P)
  pub routes : List (Option R)
  pub clcw_provider : Option C
  pub mcfc : ℕ
  pub active_delay : ℕ
  pub idle_delay : ℕ
  pub last_vcid : ℕ
  pub running : Bool
  pub last_cycle_active : Bool
  pub initialized : Bool

-- A request to the kernel's work queue.
pub data WorkRequest : Type 0 where
  schedule : ℕ → WorkRequest
  cancel : WorkRequest

-- `K_NO_WAIT`
abbrev pub no_wait : ℕ
no_wait = 0

module _ {P : Type 0} (ops : PipeOps P) where
  abbrev pub fresh_vc : Vc P
  fresh_vc = record {
    pending = ops.fresh;
    pending_len = 0;
    packet_rem = 0;
    packet_is_idle = false;
    vcfc = 0;
    route_mask = 0;
  }

  -- `vcs[vcid]`
  abbrev pub vc_at : {R C : Type 0} → Tm P R C → ℕ → Vc P
  vc_at tm vcid = get_or tm.vcs vcid fresh_vc

  -- `ccsds_tm_frame_init`, with the request of the stop that it makes.
  unfoldable pub init : {R C : Type 0} → Tm P R C × WorkRequest
  init = (
    record {
      vcs = replicate vc_count fresh_vc;
      routes = replicate route_count none;
      clcw_provider = none;
      mcfc = 0;
      active_delay = no_wait;
      idle_delay = no_wait;
      last_vcid = max_vc_id;
      running = false;
      last_cycle_active = false;
      initialized = true;
    },
    cancel,
  )

unfoldable pub start : {P R C : Type 0} → Tm P R C → ℕ → ℕ → Tm P R C × WorkRequest
start tm active idle =
    (record tm { active_delay = active; idle_delay = idle; running = true }, schedule no_wait)

unfoldable pub stop : {P R C : Type 0} → Tm P R C → Tm P R C × WorkRequest
stop tm = (record tm { running = false }, cancel)

unfoldable pub set_clcw_provider : {P R C : Type 0} → Tm P R C → Option C → Tm P R C
set_clcw_provider tm fn = record tm { clcw_provider = fn }
