-- ===== src/Transport/Connection/Closing.antt =====
-- A graceful close of a connection owes its peer nothing (transport/connection.go).
use mathlib.Core.List.{append_assoc, append-nil}
use gor.Prelude.{
  ℕ, zero, suc, Option, none, some, Bool, true, false, not, ◌&&◌, List, [], ◌∷◌, ◌++◌, get, ite,
  if◌then◌else◌, ℕ_discrete, ℤ, pos, ℤ-discrete, ◌==◌, ◌≡◌, ◌≢◌, refl, sym, ap, ◌∙◌, arith, length,
  Bool-cases, if_both, inl, inr, count_up, count_down, length-append,
}
use gor.Transport.Frame.{Frame, frame_request, frame_response, frame_error}
use gor.Transport.Connection.{
  Connection, Event, requests, writer_takes, arrives, handler_ends, cancels, close_asked,
  kill_asked, wire_dies, Ending, graceful, Handled, new_connection, accept, take_head, receive,
  start_handler, complete, complete_row, finish_handler, take_running, drop_pending, select_case,
  check_finish, round_from, owner_round, owner_loop, may_finish, request_frame, response_of,
  is_empty, behind,
}

abbrev response_frames : Handled → Option (ℕ × List ℕ) → List Frame
response_frames r none = []
response_frames r (some (id, rest)) = response_of id r ∷ []

-- The frames that the loop owes to the wire by an event: a request, or the reply of a handler.
abbrev owed_by : Event → Connection → List Frame
owed_by (requests payload) c = if c.closing then [] else request_frame payload c ∷ []
owed_by writer_takes c = []
owed_by (arrives f) c = []
owed_by (handler_ends k r) c = response_frames r (take_running k c.running)
owed_by (cancels r) c = []
owed_by close_asked c = []
owed_by kill_asked c = []
owed_by wire_dies c = []

abbrev owed_from : Option Ending → Event → Connection → List Frame
owed_from none e c = owed_by e c
owed_from (some ending) e c = []

unfoldable pub owed : List Event → Connection → List Frame
owed [] c = []
owed (e ∷ es) c = owed_from c.ending e c ++ owed es (owner_round e c)

-- The written frames, and the queued ones behind them.
abbrev sent : Connection → List Frame
sent c = c.writes ++ c.queue

-- The count is that of the handlers, and a loop that ended gracefully was closing with none of them left
-- and nothing queued.
record IsOpen (c : Connection) : Type 0 where
  counts : c.inflight ≡ pos (length c.running)
  ended : c.ending ≡ some graceful → (c.closing ≡ true) × (c.running ≡ []) × (c.queue ≡ [])

-- What a case keeps while the loop runs.
record Goes (new : List Frame) (c d : Connection) : Type 0 where
  counts : d.inflight ≡ pos (length d.running)
  order : sent d ≡ sent c ++ new
  not_graceful : d.ending ≢ some graceful

behind-length :
    (i n id : ℕ) (rest : List ℕ) (o : Option (ℕ × List ℕ))
    → ((rest : List ℕ) → o ≡ some (id, rest) → n ≡ suc (length rest))
    → behind i o ≡ some (id, rest)
    → suc n ≡ suc (length rest)
behind-length i n id rest none f h = ground arith
behind-length i n id rest (some (found, others)) f h = ground (arith, f others)

length-take_running :
    (k : ℕ) (ids : List ℕ) (id : ℕ) (rest : List ℕ)
    → take_running k ids ≡ some (id, rest)
    → length ids ≡ suc (length rest)
unfolding take_running
length-take_running k [] id rest h = ground arith
length-take_running zero (i ∷ ids) id rest h = ground arith
length-take_running (suc k) (i ∷ ids) id rest h =
    behind-length i (length ids) id rest (take_running k ids) (length-take_running k ids id) h

module _ (c : Connection) (counts : c.inflight ≡ pos (length c.running))
    (running : c.ending ≡ none) where
  not_graceful : c.ending ≢ some graceful
  not_graceful h = ground arith

  same-Goes : Goes [] c c
  same-Goes = record {
    counts = counts;
    order = sym (append-nil (sent c));
    not_graceful = not_graceful;
  }

  take_head-Goes : (q : List Frame) → q ≡ c.queue → Goes [] c (take_head q c)
  take_head-Goes [] e = same-Goes
  take_head-Goes (f ∷ q) e = record {
    counts = counts;
    order = append_assoc c.writes (f ∷ []) q ∙ ap (◌++◌ c.writes) e ∙ sym (append-nil (sent c));
    not_graceful = not_graceful;
  }

  start_handler-Goes : (f : Frame) → Goes [] c (start_handler f c)
  unfolding start_handler
  start_handler-Goes f = record {
    counts =
        count_up c.inflight (length c.running) counts
        ∙ ap pos (sym (length-append c.running (f.id ∷ []) ∙ ground arith));
    order = sym (append-nil (sent c));
    not_graceful = not_graceful;
  }

  complete-Goes : (f : Frame) (o : Option ℕ) → Goes [] c (complete_row f o c)
  complete-Goes f none = same-Goes
  complete-Goes f (some r) = record {
    counts = counts;
    order = sym (append-nil (sent c));
    not_graceful = not_graceful;
  }

  receive-Goes : (f : Frame) → Goes [] c (receive f c)
  unfolding receive complete
  receive-Goes f =
      let completed = complete-Goes f (get ℕ_discrete f.id c.pending) in
      if_both (Goes [] c) (f.type == frame_request)
        (if_both (Goes [] c) (c.has_handler && not c.closing) (start_handler-Goes f) same-Goes)
        (if_both (Goes [] c) (f.type == frame_response) completed
          (if_both (Goes [] c) (f.type == frame_error) completed same-Goes))

  finish_handler-Goes :
      (r : Handled) (k : ℕ) (o : Option (ℕ × List ℕ))
      → take_running k c.running ≡ o
      → Goes (response_frames r o) c (finish_handler r o c)
  finish_handler-Goes r k none e = same-Goes
  finish_handler-Goes r k (some (id, rest)) e = record {
    counts =
        count_down c.inflight (length rest)
          (counts ∙ ap pos (length-take_running k c.running id rest e));
    order = sym (append_assoc c.writes c.queue (response_of id r ∷ []));
    not_graceful = not_graceful;
  }

  drop_pending-Goes : (o : Option ℕ) → Goes [] c (drop_pending o c)
  drop_pending-Goes none = same-Goes
  drop_pending-Goes (some id) = record {
    counts = counts;
    order = sym (append-nil (sent c));
    not_graceful = not_graceful;
  }

  accept-Goes :
      (payload : List ℕ)
      → Goes (owed_by (requests payload) c) c (if c.closing then c else accept payload c)
  unfolding accept
  accept-Goes payload =
      elim c.closing
        as (λ b.
          Goes (if b then [] else request_frame payload c ∷ []) c
            (if b then c else accept payload c)) [
              | true ↦ same-Goes
              | false ↦ record {
                counts = counts;
                order = sym (append_assoc c.writes c.queue (request_frame payload c ∷ []));
                not_graceful = not_graceful;
              }
            ]

  select_case-Goes : (e : Event) → Goes (owed_by e c) c (select_case e c)
  unfolding select_case
  select_case-Goes (requests payload) = accept-Goes payload
  select_case-Goes writer_takes = take_head-Goes c.queue refl
  select_case-Goes (arrives f) = receive-Goes f
  select_case-Goes (handler_ends k r) = finish_handler-Goes r k (take_running k c.running) refl
  select_case-Goes (cancels r) = drop_pending-Goes (get ℕ_discrete r c.request_ids)
  select_case-Goes close_asked = record {
    counts = counts;
    order = sym (append-nil (sent c));
    not_graceful = not_graceful;
  }
  select_case-Goes kill_asked = record {
    counts = counts;
    order = sym (append-nil (sent c));
    not_graceful = λ h. ground arith;
  }
  select_case-Goes wire_dies = record {
    counts = counts;
    order = sym (append-nil (sent c));
    not_graceful = λ h. ground arith;
  }

-- What a round keeps, with the frames that it owes.
record Rounds (new : List Frame) (c d : Connection) : Type 0 where
  valid : IsOpen d
  order : sent d ≡ sent c ++ new

no_length : (l : List ℕ) (x : ℤ) → x ≡ pos (length l) → x ≡ pos 0 → l ≡ []
no_length [] x h z = refl
no_length (n ∷ l) x h z = ground arith

and_parts : (a b : Bool) → (a && b) ≡ true → (a ≡ true) × (b ≡ true)
and_parts true true h = (refl, refl)
and_parts true false h = ground arith
and_parts false b h = ground arith

zero_is : (x : ℤ) → ite (ℤ-discrete x (pos 0)) true false ≡ true → x ≡ pos 0
zero_is x h = ground arith

empty_is : (q : List Frame) → is_empty q ≡ true → q ≡ []
empty_is [] h = refl
empty_is (f ∷ q) h = ground arith

finished_state :
    (c : Connection)
    → c.inflight ≡ pos (length c.running)
    → may_finish c ≡ true
    → (c.closing ≡ true) × (c.running ≡ []) × (c.queue ≡ [])
finished_state c counts m =
    let (closing, rest) = and_parts c.closing _ m in
    let (zero_count, empty) = and_parts _ (is_empty c.queue) rest in
    (
      closing,
      no_length c.running c.inflight counts (zero_is c.inflight zero_count),
      empty_is c.queue empty,
    )

check_finish-Rounds :
    (new : List Frame) (c d : Connection) (o : Option Ending)
    → d.ending ≡ o
    → Goes new c d
    → Rounds new c (check_finish o d)
unfolding check_finish
check_finish-Rounds new c d none e g = elim (Bool-cases (may_finish d)) [
  | inl m ↦ rw m (record {
    valid = record { counts = g.counts; ended = λ _. finished_state d g.counts m };
    order = g.order;
  })
  | inr m ↦ rw m (record {
    valid = record { counts = g.counts; ended = λ h. absurd (g.not_graceful h) };
    order = g.order;
  })
]
check_finish-Rounds new c d (some ending) e g = record {
  valid = record { counts = g.counts; ended = λ h. absurd (g.not_graceful h) };
  order = g.order;
}

round_from-Rounds :
    (e : Event) (c : Connection) (o : Option Ending)
    → c.ending ≡ o
    → IsOpen c
    → Rounds (owed_from o e c) c (round_from o e c)
unfolding round_from
round_from-Rounds e c none h i =
    check_finish-Rounds (owed_by e c) c (select_case e c) _ refl (select_case-Goes c i.counts h e)
round_from-Rounds e c (some ending) h i = record { valid = i; order = sym (append-nil (sent c)) }

owner_loop-Rounds :
    (es : List Event) (c : Connection) → IsOpen c → Rounds (owed es c) c (owner_loop es c)
unfolding owner_loop owner_round owed
owner_loop-Rounds [] c i = record { valid = i; order = sym (append-nil (sent c)) }
owner_loop-Rounds (e ∷ es) c i =
    let one = round_from-Rounds e c c.ending refl i in
    let more = owner_loop-Rounds es (owner_round e c) one.valid in
    record {
      valid = more.valid;
      order =
          more.order
          ∙ ap (λ l. l ++ owed es (owner_round e c)) one.order
          ∙ append_assoc (sent c) (owed_from c.ending e c) (owed es (owner_round e c));
    }

-- A connection that has closed gracefully was asked to, has no handler left, and has handed to its
-- writer every request and every handler's reply, in the order in which they came.
pub graceful_lem :
    (h : Bool) (es : List Event)
    → (owner_loop es (new_connection h)).ending ≡ some graceful
    → ((owner_loop es (new_connection h)).closing ≡ true)
      × ((owner_loop es (new_connection h)).running ≡ [])
      × ((owner_loop es (new_connection h)).writes ≡ owed es (new_connection h))
graceful_lem h es e =
    let rounds =
      owner_loop-Rounds es (new_connection h)
        (unfold new_connection in record { counts = refl; ended = λ g. ground arith }) in
    let (closing, running, queue) = rounds.valid.ended e in
    (
      closing,
      running,
      sym (append-nil _)
          ∙ ap (◌++◌ (owner_loop es (new_connection h)).writes) (sym queue)
          ∙ rounds.order
          ∙ (unfold new_connection in refl),
    )
