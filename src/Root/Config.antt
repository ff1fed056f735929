-- ===== src/Root/Config.antt =====
-- Config, the options and New of the root package (gor.go). The stores, the transport, the clock and the
-- callbacks are values of types of their own; none is nil.
use gor.Prelude.{
  Option, none, some, Bool, true, false, List, [], ◌∷◌, if◌then◌else◌, ℤ, pos, ltb_ℤ, Text, bytes,
}
use gor.Store.{Duration}
use gor.Root.Errors.{opaque, wrap, Returned, value, failure}

-- The types of the clock, the stores, the transport and the callbacks.
pub record Parts : Type 1 where
  pub Clock : Type 0
  pub Store : Type 0
  pub Reminders : Type 0
  pub Members : Type 0
  pub Transport : Type 0
  pub OnError : Type 0
  pub OnCall : Type 0

pub record Config (p : Parts) : Type 0 where
  pub clock : p.Clock
  pub store : p.Store
  pub reminder_store : Option p.Reminders
  pub transport : Option p.Transport
  pub member_store : Option p.Members
  pub on_error : Option p.OnError
  pub on_call : Option p.OnCall
  pub mailbox_capacity : ℤ
  pub idle_timeout : Duration
  pub eviction_interval : Duration
  pub reminder_interval : Duration
  pub node_addr : Text
  pub generation : Text
  pub heartbeat_interval : Duration
  pub view_interval : Duration
  pub probe_interval : Duration
  pub probe_timeout : Duration
  pub probe_failures : ℤ
  pub vote_ttl : Duration
  pub max_tick_gap : Duration
  pub max_table_latency : Duration

module _ (p : Parts) where
  -- Option
  abbrev pub ConfigOption : Type 0
  ConfigOption = Config p → Config p

  unfoldable pub with_clock : p.Clock → ConfigOption
  with_clock v c = record c { clock = v }

  unfoldable pub with_store : p.Store → ConfigOption
  with_store v c = record c { store = v }

  unfoldable pub with_reminder_store : Option p.Reminders → ConfigOption
  with_reminder_store v c = record c { reminder_store = v }

  unfoldable pub with_transport : Option p.Transport → ConfigOption
  with_transport v c = record c { transport = v }

  unfoldable pub with_member_store : Option p.Members → ConfigOption
  with_member_store v c = record c { member_store = v }

  unfoldable pub with_on_error : Option p.OnError → ConfigOption
  with_on_error v c = record c { on_error = v }

  unfoldable pub with_on_call : Option p.OnCall → ConfigOption
  with_on_call v c = record c { on_call = v }

  unfoldable pub with_mailbox_capacity : ℤ → ConfigOption
  with_mailbox_capacity v c = record c { mailbox_capacity = v }

  unfoldable pub with_idle_timeout : Duration → ConfigOption
  with_idle_timeout v c = record c { idle_timeout = v }

  unfoldable pub with_eviction_interval : Duration → ConfigOption
  with_eviction_interval v c = record c { eviction_interval = v }

  unfoldable pub with_reminder_interval : Duration → ConfigOption
  with_reminder_interval v c = record c { reminder_interval = v }

  unfoldable pub with_node_addr : Text → ConfigOption
  with_node_addr v c = record c { node_addr = v }

  unfoldable pub with_generation : Text → ConfigOption
  with_generation v c = record c { generation = v }

  unfoldable pub with_heartbeat_interval : Duration → ConfigOption
  with_heartbeat_interval v c = record c { heartbeat_interval = v }

  unfoldable pub with_view_interval : Duration → ConfigOption
  with_view_interval v c = record c { view_interval = v }

  unfoldable pub with_probe_interval : Duration → ConfigOption
  with_probe_interval v c = record c { probe_interval = v }

  unfoldable pub with_probe_timeout : Duration → ConfigOption
  with_probe_timeout v c = record c { probe_timeout = v }

  unfoldable pub with_probe_failures : ℤ → ConfigOption
  with_probe_failures v c = record c { probe_failures = v }

  unfoldable pub with_vote_ttl : Duration → ConfigOption
  with_vote_ttl v c = record c { vote_ttl = v }

  unfoldable pub with_max_tick_gap : Duration → ConfigOption
  with_max_tick_gap v c = record c { max_tick_gap = v }

  unfoldable pub with_max_table_latency : Duration → ConfigOption
  with_max_table_latency v c = record c { max_table_latency = v }

  -- The Config that New starts from.
  unfoldable pub default_config : p.Clock → p.Store → Config p
  default_config real memory = record {
    clock = real;
    store = memory;
    reminder_store = none;
    transport = none;
    member_store = none;
    on_error = none;
    on_call = none;
    mailbox_capacity = pos 16;
    idle_timeout = pos 60000000000;
    eviction_interval = pos 1000000000;
    reminder_interval = pos 1000000000;
    node_addr = [];
    generation = [];
    heartbeat_interval = pos 1000000000;
    view_interval = pos 1000000000;
    probe_interval = pos 0;
    probe_timeout = pos 0;
    probe_failures = pos 0;
    vote_ttl = pos 0;
    max_tick_gap = pos 0;
    max_table_latency = pos 0;
  }

  unfoldable pub apply_options : List ConfigOption → Config p → Config p
  apply_options [] c = c
  apply_options (option ∷ options) c = apply_options options (option c)

  abbrev pub or_derived : {A : Type 0} → Option A → Option A → Option A
  or_derived (some a) b = some a
  or_derived none b = b

  -- What New starts: the cluster node, with its first view, and the transport that serves with it; and the
  -- poller.
  pub record Started (V : Type 0) : Type 0 where
    pub config : Config p
    pub view : Option V
    pub serves : Bool
    pub polls : Bool

  abbrev pub is_some : {A : Type 0} → Option A → Bool
  is_some none = false
  is_some (some a) = true

  abbrev pub polls_reminders : Config p → Bool
  polls_reminders c = if is_some c.reminder_store then ltb_ℤ (pos 0) c.reminder_interval else false

  module _ {V : Type 0} (as_reminders : p.Store → Option p.Reminders)
      (start_node : Config p → Returned V) where
    abbrev pub started : Config p → Returned V → Returned (Started V)
    started c (failure e) = failure (wrap (bytes "start cluster node: ") e [])
    started c (value view) =
        value (record { config = c; view = some view; serves = true; polls = polls_reminders c })

    -- New, behind the options. `as_reminders` is the type assertion on the store, and `start_node` is
    -- cluster.New with the first view.
    unfoldable pub start : Option p.Members → Option p.Transport → Config p → Returned (Started V)
    start none none c =
        value (record { config = c; view = none; serves = false; polls = polls_reminders c })
    start (some m) (some t) c = started c (start_node c)
    start _ _ c = failure (opaque (bytes "member store and transport must be configured together"))

    -- if config.ReminderStore == nil
    unfoldable pub derive_reminders : Config p → Config p
    derive_reminders c = record c {
      reminder_store = or_derived c.reminder_store (as_reminders c.store);
    }

    unfoldable pub new_runtime : p.Clock → p.Store → List ConfigOption → Returned (Started V)
    unfolding start default_config apply_options derive_reminders
    new_runtime real memory options =
        let c = apply_options options (default_config real memory) in
        start c.member_store c.transport (derive_reminders c)
