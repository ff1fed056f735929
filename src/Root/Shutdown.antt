-- ===== src/Root/Shutdown.antt =====
-- How the root Runtime takes its parts down (gor.go): the commands of Close and Kill in their order, and the
-- reports of background errors. A wait is a command like the others.
pub mod Escalation
use gor.Prelude.{
  Option, none, some, Bool, true, false, not, ◌&&◌, List, [], ◌∷◌, ◌++◌, ◌≡◌, refl, ap, ◌∙◌,
  if◌then◌else◌, Text, arith,
}
use gor.Store.{GrainId}
use gor.Runtime.Engine.{DeactivationReason}
use gor.Root.Errors.{GoError, is_nil}

pub data Command : Type 0 where
  poller_close node_close node_kill wait_node engine_begin_close engine_begin_kill wait_engine
        wait_drain serve_stop transport_close transport_kill wait_serve finish :
      Command

pub record Has : Type 0 where
  pub poller : Bool
  pub node : Bool
  pub transport : Bool

abbrev pub only : Bool → List Command → List Command
only b cs = if b then cs else []

abbrev pub stop_transport : Bool → Command
stop_transport graceful = if graceful then transport_close else transport_kill

-- The commands of closeTransport, and transportClosing afterwards; a transport that serves has a context
-- to stop and a channel to wait on.
unfoldable pub close_transport : Has → Bool → Bool → List Command × Bool
close_transport has graceful closing =
    if not has.transport
    then ([], closing)
    else if not closing
    then (serve_stop ∷ stop_transport graceful ∷ wait_serve ∷ [], true)
    else if not graceful
    then (transport_kill ∷ wait_serve ∷ [], true)
    else (wait_serve ∷ [], true)

-- closeGracefully, closeImmediately and the collapse of watchCluster, up to closeTransport.
unfoldable pub close_gracefully : Has → List Command
close_gracefully has =
    only has.poller (poller_close ∷ [])
    ++ (only has.node (node_close ∷ wait_node ∷ [])
        ++ (engine_begin_close ∷ wait_engine ∷ wait_drain ∷ []))

unfoldable pub close_immediately : Has → List Command
close_immediately has =
    only has.poller (poller_close ∷ [])
    ++ (only has.node (node_kill ∷ wait_node ∷ []) ++ (engine_begin_kill ∷ wait_engine ∷ []))

unfoldable pub collapse : Has → List Command
collapse has = only has.poller (poller_close ∷ []) ++ (engine_begin_kill ∷ wait_engine ∷ [])

-- The calls of closeTransport that Close, Kill and the collapse make, in any order, from the flag on.
unfoldable pub close_transports : Has → List Bool → Bool → List Command
unfolding close_transport
close_transports has [] closing = []
close_transports has (graceful ∷ calls) closing =
    let (commands, closing') = close_transport has graceful closing in
    commands ++ close_transports has calls closing'

pub data ErrorSource : Type 0 where
  reminder_invocation : Text → ErrorSource
  deactivation : DeactivationReason → ErrorSource

pub record BackgroundError : Type 0 where
  pub id : GrainId
  pub err : GoError
  pub source : ErrorSource

abbrev pub report : Bool → BackgroundError → Option BackgroundError
report told e = if told then some e else none

-- The report of reminderInvoker.Invoke: `ended` tells whether the poller's context has ended.
unfoldable pub reminder_report : Bool → Bool → GrainId → Text → GoError → Option BackgroundError
reminder_report on_error ended id method err =
    report (not (is_nil err) && (not ended && on_error))
      (record { id = id; err = err; source = reminder_invocation method })

-- The report of Register's OnDeactivate: `hook` is what the hook returned, none without a hook.
unfoldable pub deactivation_report :
    Bool → GrainId → DeactivationReason → Option GoError → Option BackgroundError
deactivation_report on_error id reason none = none
deactivation_report on_error id reason (some err) =
    report (not (is_nil err) && on_error)
      (record { id = id; err = err; source = deactivation reason })
