-- ===== src/Transport/Connection.antt =====
-- The owner loop of a connection (transport/connection.go): each event is a case that its select may take,
-- and a case that is not ready changes nothing. A request object is named by its place in the order of
-- acceptance. The goroutines of the handlers are the list of their frames' ids; reading and writing the
-- socket is outside.
pub mod Completion
pub mod Closing
use gor.Prelude.{
  ℕ, zero, suc, ◌+◌, ◌%◌, ◌^◌, Option, none, some, Bool, true, false, not, ◌&&◌, List, [], ◌∷◌,
  ◌++◌, Map, get, put, delete, ite, if◌then◌else◌, ℕ_discrete, ℤ, pos, ◌+ℤ◌, ◌-ℤ◌, ℤ-discrete, ◌==◌,
  Text,
}
use gor.Transport.Frame.{Frame, frame_request, frame_response, frame_error}

-- How the loop has ended: by finishGraceful, or by stopWith for a Kill or a dead wire.
pub data Ending : Type 0 where
  graceful killed wire_dead : Ending

-- `request_ids` has the id of each request object. `completed` has the requests whose result channel was
-- sent to, with the frame, newest first; `writes` the frames that the writer took, in order.
pub record Connection : Type 0 where
  pub has_handler : Bool
  pub pending : Map ℕ ℕ
  pub queue : List Frame
  pub next_id : ℕ
  pub inflight : ℤ
  pub closing : Bool
  pub accepted : ℕ
  pub request_ids : Map ℕ ℕ
  pub completed : List (ℕ × Frame)
  pub running : List ℕ
  pub writes : List Frame
  pub ending : Option Ending

-- newConnectionState, and the locals of ownerLoop.
unfoldable pub new_connection : Bool → Connection
new_connection has_handler = record {
  has_handler = has_handler;
  pending = [];
  queue = [];
  next_id = 1;
  inflight = pos 0;
  closing = false;
  accepted = 0;
  request_ids = [];
  completed = [];
  running = [];
  writes = [];
  ending = none;
}

-- sendResult: the error is made of the payload's text.
pub data SendResult : Type 0 where
  sent_reply : List ℕ → SendResult
  sent_error : Text → SendResult

abbrev pub send_result : Frame → SendResult
send_result frame =
    if frame.type == frame_error then sent_error frame.payload else sent_reply frame.payload

-- What a handler returns: a payload, or an error with its text.
pub data Handled : Type 0 where
  handled_ok : List ℕ → Handled
  handled_error : Text → Handled

-- The response of startHandler.
abbrev pub response_of : ℕ → Handled → Frame
response_of id (handled_ok payload) = record { id = id; type = frame_response; payload = payload }
response_of id (handled_error text) = record { id = id; type = frame_error; payload = text }

-- complete
abbrev pub complete_row : Frame → Option ℕ → Connection → Connection
complete_row frame none c = c
complete_row frame (some request) c = record c {
  pending = delete ℕ_discrete frame.id c.pending;
  completed = (request, frame) ∷ c.completed;
}

unfoldable pub complete : Frame → Connection → Connection
complete frame c = complete_row frame (get ℕ_discrete frame.id c.pending) c

pub data Event : Type 0 where
  requests : List ℕ → Event
  writer_takes : Event
  arrives : Frame → Event
  handler_ends : ℕ → Handled → Event
  cancels : ℕ → Event
  close_asked kill_asked wire_dies : Event

-- The frame of a request, and the frames that an event appends to the queue.
abbrev pub request_frame : List ℕ → Connection → Frame
request_frame payload c = record { id = c.next_id; type = frame_request; payload = payload }

unfoldable pub accept : List ℕ → Connection → Connection
accept payload c = record c {
  next_id = (c.next_id + 1) % 2 ^ 64;
  pending = put ℕ_discrete c.next_id c.accepted c.pending;
  queue = c.queue ++ request_frame payload c ∷ [];
  accepted = c.accepted + 1;
  request_ids = put ℕ_discrete c.accepted c.next_id c.request_ids;
}

abbrev pub take_head : List Frame → Connection → Connection
take_head [] c = c
take_head (head ∷ queue) c = record c { queue = queue; writes = c.writes ++ head ∷ [] }

unfoldable pub start_handler : Frame → Connection → Connection
start_handler frame c = record c {
  inflight = c.inflight +ℤ pos 1;
  running = c.running ++ frame.id ∷ [];
}

-- The switch on frame.Type.
unfoldable pub receive : Frame → Connection → Connection
unfolding complete start_handler
receive frame c =
    if frame.type == frame_request
    then (if c.has_handler && not c.closing then start_handler frame c else c)
    else (if frame.type == frame_response
        then complete frame c
        else (if frame.type == frame_error then complete frame c else c))

abbrev pub behind : ℕ → Option (ℕ × List ℕ) → Option (ℕ × List ℕ)
behind id none = none
behind id (some (found, rest)) = some (found, id ∷ rest)

-- The handler at a place of the list, and the others.
unfoldable pub take_running : ℕ → List ℕ → Option (ℕ × List ℕ)
take_running k [] = none
take_running zero (id ∷ ids) = some (id, ids)
take_running (suc k) (id ∷ ids) = behind id (take_running k ids)

abbrev pub finish_handler : Handled → Option (ℕ × List ℕ) → Connection → Connection
finish_handler result none c = c
finish_handler result (some (id, rest)) c = record c {
  inflight = c.inflight -ℤ pos 1;
  running = rest;
  queue = c.queue ++ response_of id result ∷ [];
}

abbrev pub drop_pending : Option ℕ → Connection → Connection
drop_pending none c = c
drop_pending (some id) c = record c { pending = delete ℕ_discrete id c.pending }

-- One case of the select.
unfoldable pub select_case : Event → Connection → Connection
unfolding accept receive take_running
select_case (requests payload) c = if c.closing then c else accept payload c
select_case writer_takes c = take_head c.queue c
select_case (arrives frame) c = receive frame c
select_case (handler_ends k result) c = finish_handler result (take_running k c.running) c
select_case (cancels request) c = drop_pending (get ℕ_discrete request c.request_ids) c
select_case close_asked c = record c { closing = true }
select_case kill_asked c = record c { ending = some killed }
select_case wire_dies c = record c { ending = some wire_dead }

abbrev pub is_empty : List Frame → Bool
is_empty [] = true
is_empty (f ∷ fs) = false

-- if closing && inflight == 0 && len(queue) == 0
abbrev pub may_finish : Connection → Bool
may_finish c = c.closing && (ite (ℤ-discrete c.inflight (pos 0)) true false && is_empty c.queue)

unfoldable pub check_finish : Option Ending → Connection → Connection
check_finish none c = if may_finish c then record c { ending = some graceful } else c
check_finish (some ending) c = c

-- One round of ownerLoop; none follows once it has ended.
unfoldable pub round_from : Option Ending → Event → Connection → Connection
unfolding select_case check_finish
round_from none e c = let c' = select_case e c in check_finish c'.ending c'
round_from (some ending) e c = c

unfoldable pub owner_round : Event → Connection → Connection
unfolding round_from
owner_round e c = round_from c.ending e c

unfoldable pub owner_loop : List Event → Connection → Connection
unfolding owner_round
owner_loop [] c = c
owner_loop (e ∷ es) c = owner_loop es (owner_round e c)
