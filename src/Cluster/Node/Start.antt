-- ===== src/Cluster/Node/Start.antt =====
-- The configuration of a node, its views channel and its answer to a probe: New, notify and Probe of
-- cluster/node.go. A duration and a number of failures are integers that may be negative.
use gor.Prelude.{
  zero, suc, Option, none, some, Bool, true, false, not, ◌||◌, ◌≡◌, ◌≢◌, ◌⊎◌, inl, inr, refl, ite,
  if◌then◌else◌, ℤ, pos, negsuc, ltb_ℤ, ◌<ℤ◌, ℤ-discrete, arith, Bool-cases,
}
use mathlib.Core.Logic.{if_pos, if_neg}
use gor.Store.{Duration, MemberId}
use gor.Cluster.Ring.{View}
use gor.Cluster.Node.{State}

-- The fields of Config that New checks, and whether Prober is not nil.
pub record Settings : Type 0 where
  pub has_prober : Bool
  pub probe_interval : Duration
  pub probe_timeout : Duration
  pub probe_failures : ℤ
  pub vote_ttl : Duration
  pub max_tick_gap : Duration
  pub max_table_latency : Duration

pub data StartError : Type 0 where
  prober_required invalid_config : StartError

abbrev pub is_negative : ℤ → Bool
is_negative x = ltb_ℤ x (pos 0)

unfoldable pub any_negative : Settings → Bool
any_negative s =
    is_negative s.probe_interval
    || (is_negative s.probe_timeout
        || (is_negative s.probe_failures
            || (is_negative s.vote_ttl
                || (is_negative s.max_tick_gap || is_negative s.max_table_latency))))

-- if value == 0 { value = default }
unfoldable pub or_default : ℤ → ℤ → ℤ
or_default default x = ite (ℤ-discrete x (pos 0)) default x

-- The defaults of New, in nanoseconds.
unfoldable pub with_defaults : Settings → Settings
unfolding or_default
with_defaults s = record {
  has_prober = s.has_prober;
  probe_interval = or_default (pos 1000000000) s.probe_interval;
  probe_timeout = or_default (pos 500000000) s.probe_timeout;
  probe_failures = or_default (pos 3) s.probe_failures;
  vote_ttl = or_default (pos 6000000000) s.vote_ttl;
  max_tick_gap = or_default (pos 2000000000) s.max_tick_gap;
  max_table_latency = or_default (pos 500000000) s.max_table_latency;
}

-- New, up to its node.
unfoldable pub check_settings : Settings → StartError ⊎ Settings
unfolding any_negative with_defaults
check_settings s =
    if not s.has_prober
    then inl prober_required
    else if any_negative s
    then inl invalid_config
    else inr (with_defaults s)

-- notify, on the channel of one place.
abbrev pub notify : Option View → View → Option View
notify old view = some view

-- Probe; `ended` tells whether done is closed.
unfoldable pub probe_node : State → Bool → MemberId → Option MemberId
probe_node State.state_joining ended id = none
probe_node State.state_active ended id = if ended then none else some id
probe_node State.state_dead ended id = none

-- A setting that New takes: positive, and the given one where that is not zero.
abbrev pub Taken : ℤ → ℤ → Type 0
Taken given x = (pos 0 <ℤ x) × (given ≢ pos 0 → x ≡ given)

not_negative : (x : ℤ) → is_negative x ≡ false → x ≢ pos 0 → pos 0 <ℤ x
not_negative (pos zero) n m = absurd (m refl)
not_negative (pos (suc k)) n m = ground arith
not_negative (negsuc k) n m = ground arith

or_parts : (a b : Bool) → (a || b) ≡ false → (a ≡ false) × (b ≡ false)
or_parts true b h = ground arith
or_parts false b h = (refl, h)

or_default-Taken :
    (default x : ℤ) → pos 0 <ℤ default → is_negative x ≡ false → Taken x (or_default default x)
unfolding or_default
or_default-Taken default x d n = elim (ℤ-discrete x (pos 0)) [
  | yes z ↦ rw (if_pos (ℤ-discrete x (pos 0)) z default x) (d, λ m. absurd (m z))
  | no m ↦ rw (if_neg (ℤ-discrete x (pos 0)) m default x) (not_negative x n m, λ _. refl)
]

pub record Ready (given taken : Settings) : Type 0 where
  pub probe_interval : Taken given.probe_interval taken.probe_interval
  pub probe_timeout : Taken given.probe_timeout taken.probe_timeout
  pub probe_failures : Taken given.probe_failures taken.probe_failures
  pub vote_ttl : Taken given.vote_ttl taken.vote_ttl
  pub max_tick_gap : Taken given.max_tick_gap taken.max_tick_gap
  pub max_table_latency : Taken given.max_table_latency taken.max_table_latency

with_defaults-Ready : (s : Settings) → any_negative s ≡ false → Ready s (with_defaults s)
unfolding any_negative with_defaults
with_defaults-Ready s h =
    let (a, h1) = or_parts _ _ h in
    let (b, h2) = or_parts _ _ h1 in
    let (c, h3) = or_parts _ _ h2 in
    let (d, h4) = or_parts _ _ h3 in
    let (e, f) = or_parts _ _ h4 in
    record {
      probe_interval = or_default-Taken _ s.probe_interval (ground arith) a;
      probe_timeout = or_default-Taken _ s.probe_timeout (ground arith) b;
      probe_failures = or_default-Taken _ s.probe_failures (ground arith) c;
      vote_ttl = or_default-Taken _ s.vote_ttl (ground arith) d;
      max_tick_gap = or_default-Taken _ s.max_tick_gap (ground arith) e;
      max_table_latency = or_default-Taken _ s.max_table_latency (ground arith) f;
    }

-- New refuses a configuration without a prober, then one with a negative setting; any other is
-- taken, and each of its six settings is then positive, and the given one where that is not zero.
pub check_settings_lem :
    (s : Settings)
    → (s.has_prober ≡ false) × (check_settings s ≡ inl prober_required)
      ⊎ (s.has_prober ≡ true) × (any_negative s ≡ true) × (check_settings s ≡ inl invalid_config)
      ⊎ (s.has_prober ≡ true)
        × (any_negative s ≡ false)
        × ((taken : Settings) × (check_settings s ≡ inr taken) × Ready s taken)
unfolding check_settings
check_settings_lem s = elim (Bool-cases s.has_prober) [
  | inr p ↦ inl (p, rw p refl)
  | inl p ↦ elim (Bool-cases (any_negative s)) [
    | inl n ↦ inr (inl (p, n, rw (p, n) refl))
    | inr n ↦ inr (inr (p, n, (with_defaults s, rw (p, n) refl, with_defaults-Ready s n)))
  ]
]
