-- ===== src/Tests/Connections.antt =====
-- A connection that sends a request, serves one and closes.
use gor.Prelude.{
  ℕ, ◌≤◌, some, true, [], ◌∷◌, ◌≡◌, refl, All, List, ℤ-discrete, ◌+ℤ◌, ◌-ℤ◌, ℕ_discrete, get, put,
}
use gor.Transport.Frame.{frame_request, frame_response}
use gor.Transport.Connection.{
  Event, requests, writer_takes, arrives, handler_ends, close_asked, handled_ok, graceful,
  new_connection, owner_loop, owner_round, round_from, select_case, check_finish, accept, receive,
  start_handler, complete, take_running,
}
use gor.Transport.Connection.Completion.{count, wire_id, owner_loop_lem}
use gor.Transport.Connection.Closing.{owed, graceful_lem}

abbrev events : List Event
events =
    requests (7 ∷ [])
    ∷ arrives (record { id = 9; type = frame_request; payload = 1 ∷ [] })
    ∷ close_asked
    ∷ arrives (record { id = 1; type = frame_response; payload = 8 ∷ [] })
    ∷ writer_takes
    ∷ handler_ends 0 (handled_ok (2 ∷ []))
    ∷ writer_takes
    ∷ []

owner_loop_lem_example :
    ((n : ℕ) → count n (owner_loop events (new_connection true)) ≤ 1)
    × All (λ e. e.1.id ≡ wire_id e.0) (owner_loop events (new_connection true)).completed
owner_loop_lem_example = owner_loop_lem true events

closed_gracefully : (owner_loop events (new_connection true)).ending ≡ some graceful
unfolding owner_loop owner_round round_from select_case check_finish accept receive start_handler
    complete take_running new_connection ℤ-discrete ◌+ℤ◌ ◌-ℤ◌ ℕ_discrete get put
closed_gracefully = refl

graceful_lem_example :
    ((owner_loop events (new_connection true)).closing ≡ true)
    × ((owner_loop events (new_connection true)).running ≡ [])
    × ((owner_loop events (new_connection true)).writes ≡ owed events (new_connection true))
graceful_lem_example = graceful_lem true events closed_gracefully
