-- ===== src/Tests/Configs.antt =====
-- The settings of a node, the shutdown of a Runtime, and the installed types.
use gor.Prelude.{some, true, false, [], ◌∷◌, ◌≡◌, inl, refl, pos, negsuc, bytes, Bool}
use gor.Cluster.Node.Start.{Settings, invalid_config, any_negative, check_settings}
use gor.Root.Shutdown.{
  Has, poller_close, node_close, wait_node, engine_begin_close, wait_engine, wait_drain,
  close_gracefully, close_transports, serve_stop, transport_close, transport_kill, wait_serve,
}
use gor.Root.Shutdown.Escalation.{total, is_close, is_kill, closes, kills, close_transports_lem}
use gor.Root.Config.{Parts, new_runtime, with_transport}
use gor.Root.Errors.{opaque, value, failure}

abbrev settings : Settings
settings = record {
  has_prober = true;
  probe_interval = pos 0;
  probe_timeout = pos 7;
  probe_failures = pos 0;
  vote_ttl = pos 9;
  max_tick_gap = pos 0;
  max_table_latency = pos 0;
}

refused : check_settings (record settings { vote_ttl = negsuc 0 }) ≡ inl invalid_config
unfolding check_settings any_negative
refused = refl

abbrev has_all : Has
has_all = record { poller = true; node = true; transport = true }

graceful_commands :
    close_gracefully has_all
    ≡ poller_close ∷ node_close ∷ wait_node ∷ engine_begin_close ∷ wait_engine ∷ wait_drain ∷ []
unfolding close_gracefully
graceful_commands = refl

-- Close, and then Kill twice.
escalated :
    close_transports has_all (true ∷ false ∷ false ∷ []) false
    ≡ serve_stop ∷ transport_close ∷ wait_serve ∷ transport_kill ∷ wait_serve ∷ transport_kill
      ∷ wait_serve ∷ []
unfolding close_transports
escalated = refl

close_transports_lem_example :
    (total is_close (close_transports has_all (true ∷ false ∷ false ∷ []) false) ≡ 1)
    × (total is_kill (close_transports has_all (true ∷ false ∷ false ∷ []) false) ≡ 2)
unfolding closes kills
close_transports_lem_example = close_transports_lem has_all (true ∷ false ∷ false ∷ []) refl

abbrev parts : Parts
parts = record {
  Clock = Bool;
  Store = Bool;
  Reminders = Bool;
  Members = Bool;
  Transport = Bool;
  OnError = Bool;
  OnCall = Bool;
}

transport_alone :
    new_runtime parts {V = Bool}
      (λ s. some s)
      (λ c. value true)
      true
      true
      (with_transport parts (some true) ∷ [])
    ≡ failure (opaque (bytes "member store and transport must be configured together"))
unfolding new_runtime with_transport
transport_alone = refl
