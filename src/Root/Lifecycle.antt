-- ===== src/Root/Lifecycle.antt =====
-- The lifecycle of the root Runtime (gor.go): admission, the stop transitions and the drain. Each function
-- is one section under lifecycleMu. Go's int is unbounded here. The stop code is empty while running.
pub mod Invariant
pub mod Drain
use gor.Prelude.{
  ℕ, suc, Option, none, some, Bool, true, false, not, ◌&&◌, ◌||◌, List, [], ◌∷◌, ite, if◌then◌else◌,
  ℤ, pos, ◌+ℤ◌, ◌-ℤ◌, ℤ-discrete,
}
use gor.Runtime.Engine.{Channel, channel_open, channel_closed}
use gor.Root.Errors.{Code, GoError, err_runtime_closed, err_node_dead, stop_rejection}

pub data RootState : Type 0 where
  root_running root_closing root_killing root_dead root_stopped : RootState

abbrev pub is_running : RootState → Bool
is_running root_running = true
is_running _ = false

-- `drained` tells whether the field is not nil, and `drained_channel` is the channel that leaveRunning
-- made, which a waiter may still hold. `panicked` tells whether a channel was closed twice.
pub record Root : Type 0 where
  pub state : RootState
  pub stop_code : Code
  pub inflight : ℤ
  pub drained : Bool
  pub drained_channel : Option Channel
  pub done : Channel
  pub panicked : Bool

-- The lifecycle fields of the Runtime that New returns.
unfoldable pub new_root : Root
new_root = record {
  state = root_running;
  stop_code = [];
  inflight = pos 0;
  drained = false;
  drained_channel = none;
  done = channel_open;
  panicked = false;
}

abbrev pub is_closed : Channel → Bool
is_closed channel_open = false
is_closed channel_closed = true

-- leaveRunning
unfoldable pub leave_running : RootState → Code → Root → Root
leave_running next code r = record r {
  state = next;
  stop_code = code;
  drained = true;
  drained_channel = some (ite (ℤ-discrete r.inflight (pos 0)) channel_closed channel_open);
  done = channel_closed;
  panicked = r.panicked || is_closed r.done;
}

-- beginClose
unfoldable pub begin_close : Root → Bool × Root
unfolding leave_running
begin_close r =
    if is_running r.state
    then (true, leave_running root_closing err_runtime_closed r)
    else (false, r)

-- The switch of beginKill.
unfoldable pub kill_from : RootState → Root → Bool × Root
unfolding leave_running
kill_from root_running r = (true, leave_running root_killing err_runtime_closed r)
kill_from root_closing r = (true, record r { state = root_killing })
kill_from _ r = (false, r)

unfoldable pub begin_kill : Root → Bool × Root
unfolding kill_from
begin_kill r = kill_from r.state r

-- becomeDead
unfoldable pub become_dead : Root → Bool × Root
unfolding leave_running
become_dead r =
    if is_running r.state then (true, leave_running root_dead err_node_dead r) else (false, r)

abbrev pub stopped_from : RootState → RootState
stopped_from root_running = root_running
stopped_from _ = root_stopped

-- finishStop
unfoldable pub finish_stop : Root → Root
finish_stop r = record r { state = stopped_from r.state }

-- admit: none stands for the release function, some for the stop error.
unfoldable pub admit : Root → Option GoError × Root
unfolding stop_rejection
admit r =
    if is_running r.state
    then (none, record r { inflight = r.inflight +ℤ pos 1 })
    else (some (stop_rejection r.stop_code), r)

-- The close(rt.drained) of release, with the panic of a second close.
abbrev pub drain_panics : Option Channel → Bool
drain_panics none = true
drain_panics (some c) = is_closed c

unfoldable pub close_drained : Root → Root
close_drained r = record r {
  drained = false;
  drained_channel = some channel_closed;
  panicked = r.panicked || drain_panics r.drained_channel;
}

abbrev pub is_last : Root → Bool
is_last r =
    ite (ℤ-discrete r.inflight (pos 0)) true false && (not (is_running r.state) && r.drained)

unfoldable pub release : Root → Root
unfolding close_drained
release r =
    let r' = record r { inflight = r.inflight -ℤ pos 1 } in
    if is_last r' then close_drained r' else r'

-- Whether waitDrained returns: it read a nil field, or its channel is closed.
abbrev pub channel_ready : Option Channel → Bool
channel_ready none = false
channel_ready (some c) = is_closed c

unfoldable pub wait_drained : Root → Bool
wait_drained r = not r.drained || channel_ready r.drained_channel
