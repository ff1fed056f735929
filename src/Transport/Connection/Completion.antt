-- ===== src/Transport/Connection/Completion.antt =====
-- Each request of a connection is completed at most once, and by a frame with its own id
-- (transport/connection.go).
use gor.Prelude.{
  ℕ, suc, ◌+◌, ◌%◌, ◌^◌, ◌≤◌, ◌<◌, Option, none, some, Bool, true, not, ◌&&◌, List, [], ◌∷◌, Map,
  get, put, delete, get-put, get-delete, if◌then◌else◌, ℕ_discrete, ◌==◌, ◌≡◌, refl, sym, ap, ◌∙◌,
  arith, All, if_both,
}
use gor.Transport.Frame.{Frame, frame_request, frame_response, frame_error}
use gor.Transport.Connection.{
  Connection, Event, requests, writer_takes, arrives, handler_ends, cancels, close_asked,
  kill_asked, wire_dies, Ending, graceful, killed, wire_dead, Handled, new_connection, accept,
  take_head, receive, start_handler, complete, complete_row, finish_handler, take_running,
  drop_pending, select_case, check_finish, round_from, owner_round, owner_loop, may_finish,
}

-- The pending entries of a request, and its completions.
unfoldable pub pending_count : ℕ → Map ℕ ℕ → ℕ
pending_count n [] = 0
pending_count n ((id, r) ∷ m) = let rest = pending_count n m in if r == n then suc rest else rest

unfoldable pub completed_count : ℕ → List (ℕ × Frame) → ℕ
completed_count n [] = 0
completed_count n ((r, f) ∷ l) = let rest = completed_count n l in if r == n then suc rest else rest

pending_count-delete-le :
    (n id : ℕ) (m : Map ℕ ℕ) → pending_count n (delete ℕ_discrete id m) ≤ pending_count n m
unfolding pending_count delete
pending_count-delete-le n id [] = omega arith
pending_count-delete-le n id ((j, r) ∷ m) = ground (arith, pending_count-delete-le n id m)

pending_count-delete :
    (n id : ℕ) (m : Map ℕ ℕ)
    → get ℕ_discrete id m ≡ some n
    → suc (pending_count n (delete ℕ_discrete id m)) ≤ pending_count n m
unfolding pending_count delete get
pending_count-delete n id [] h = ground arith
pending_count-delete n id ((j, r) ∷ m) h =
    ground (arith, pending_count-delete n id m, pending_count-delete-le n id m)

-- A completion moves the request.
moved-le :
    (n id r : ℕ) (f : Frame) (m : Map ℕ ℕ) (l : List (ℕ × Frame))
    → get ℕ_discrete id m ≡ some r
    → pending_count n (delete ℕ_discrete id m) + completed_count n ((r, f) ∷ l)
      ≤ pending_count n m + completed_count n l
unfolding completed_count
moved-le n id r f m l e = elim (ℕ_discrete r n) [
  | yes q ↦ ground (arith, pending_count-delete n id m (e ∙ ap some q))
  | no q ↦ ground (arith, pending_count-delete-le n id m)
]

pending_count-put-le :
    (n id r : ℕ) (m : Map ℕ ℕ)
    → pending_count n (put ℕ_discrete id r m) ≤ (if r == n then 1 else 0) + pending_count n m
unfolding pending_count put
pending_count-put-le n id r m = ground (arith, pending_count-delete-le n id m)

-- The wire id of a request.
abbrev pub wire_id : ℕ → ℕ
wire_id n = (n + 1) % 2 ^ 64

abbrev pub count : ℕ → Connection → ℕ
count n c = pending_count n c.pending + completed_count n c.completed

pub record IsMatched (c : Connection) : Type 0 where
  pub next : c.next_id ≡ wire_id c.accepted
  pub waiting :
      (id n : ℕ) → get ℕ_discrete id c.pending ≡ some n → (n < c.accepted) × (id ≡ wire_id n)
  pub once : (n : ℕ) → count n c ≤ 1
  pub fresh : (n : ℕ) → c.accepted ≤ n → count n c ≡ 0
  pub answered : All (λ e. (e.0 < c.accepted) × (e.1.id ≡ wire_id e.0)) c.completed

new_connection-IsMatched : (h : Bool) → IsMatched (new_connection h)
unfolding new_connection pending_count completed_count get
new_connection-IsMatched h = record {
  next = refl;
  waiting = λ id n g. ground arith;
  once = λ n. omega arith;
  fresh = λ n l. refl;
  answered = tt;
}

-- Dropping a pending entry.
dropped-IsMatched :
    (id : ℕ) (c : Connection)
    → IsMatched c
    → IsMatched (record c { pending = delete ℕ_discrete id c.pending })
dropped-IsMatched id c i = record {
  next = i.next;
  waiting = λ j n g. i.waiting j n (ground (arith, get-delete ℕ_discrete j id c.pending));
  once = λ n. omega (arith, i.once n, pending_count-delete-le n id c.pending);
  fresh = λ n l. omega (arith, i.fresh n l, pending_count-delete-le n id c.pending);
  answered = i.answered;
}

complete-IsMatched :
    (f : Frame) (o : Option ℕ) (c : Connection)
    → get ℕ_discrete f.id c.pending ≡ o
    → IsMatched c
    → IsMatched (complete_row f o c)
complete-IsMatched f none c e i = i
complete-IsMatched f (some r) c e i = record {
  next = i.next;
  waiting = λ j n g. i.waiting j n (ground (arith, get-delete ℕ_discrete j f.id c.pending));
  once = λ n. omega (arith, i.once n, moved-le n f.id r f c.pending c.completed e);
  fresh = λ n l. omega (arith, i.fresh n l, moved-le n f.id r f c.pending c.completed e);
  answered = (i.waiting f.id r e, i.answered);
}

All-later :
    (a b : ℕ) (l : List (ℕ × Frame))
    → a ≤ b
    → All (λ e. (e.0 < a) × (e.1.id ≡ wire_id e.0)) l
    → All (λ e. (e.0 < b) × (e.1.id ≡ wire_id e.0)) l
All-later a b [] h t = tt
All-later a b (e ∷ l) h t = ((omega arith, t.0.1), All-later a b l h t.1)

next_wire_id : (a k : ℕ) → k ≡ wire_id a → (k + 1) % 2 ^ 64 ≡ wire_id (a + 1)
next_wire_id a k h = omega arith

All-ids :
    (a : ℕ) (l : List (ℕ × Frame))
    → All (λ e. (e.0 < a) × (e.1.id ≡ wire_id e.0)) l
    → All (λ e. e.1.id ≡ wire_id e.0) l
All-ids a [] t = tt
All-ids a (e ∷ l) t = (t.0.1, All-ids a l t.1)

accept-IsMatched : (payload : List ℕ) (c : Connection) → IsMatched c → IsMatched (accept payload c)
unfolding accept
accept-IsMatched payload c i = record {
  next = next_wire_id c.accepted c.next_id i.next;
  waiting = λ j n g.
      ground (arith, get-put ℕ_discrete j c.next_id c.accepted c.pending, i.waiting j n, i.next);
  once = λ n.
      ground (arith, pending_count-put-le n c.next_id c.accepted c.pending, i.once n, i.fresh n);
  fresh = λ n l. ground (arith, pending_count-put-le n c.next_id c.accepted c.pending, i.fresh n);
  answered = All-later c.accepted (c.accepted + 1) c.completed (omega arith) i.answered;
}

-- A change of the other fields.
pub same-IsMatched :
    (c d : Connection)
    → d.pending ≡ c.pending
    → d.completed ≡ c.completed
    → d.next_id ≡ c.next_id
    → d.accepted ≡ c.accepted
    → IsMatched c
    → IsMatched d
same-IsMatched c d p q r s i = record {
  next = r ∙ i.next ∙ ap wire_id (sym s);
  waiting = λ id n g. ground (arith, i.waiting id n, p, s);
  once = λ n. rw (p, q) (i.once n);
  fresh = λ n l. rw (p, q) (i.fresh n (ground (arith, s)));
  answered = rw (q, s) i.answered;
}

take_head-IsMatched : (q : List Frame) (c : Connection) → IsMatched c → IsMatched (take_head q c)
take_head-IsMatched [] c i = i
take_head-IsMatched (f ∷ q) c i = same-IsMatched c (take_head (f ∷ q) c) refl refl refl refl i

receive-IsMatched : (f : Frame) (c : Connection) → IsMatched c → IsMatched (receive f c)
unfolding receive complete start_handler
receive-IsMatched f c i =
    let completed = complete-IsMatched f (get ℕ_discrete f.id c.pending) c refl i in
    if_both IsMatched (f.type == frame_request)
      (if_both IsMatched (c.has_handler && not c.closing)
        (same-IsMatched c (start_handler f c) refl refl refl refl i) i)
      (if_both IsMatched (f.type == frame_response) completed
        (if_both IsMatched (f.type == frame_error) completed i))

finish_handler-IsMatched :
    (r : Handled) (o : Option (ℕ × List ℕ)) (c : Connection)
    → IsMatched c
    → IsMatched (finish_handler r o c)
finish_handler-IsMatched r none c i = i
finish_handler-IsMatched r (some (id, rest)) c i =
    same-IsMatched c (finish_handler r (some (id, rest)) c) refl refl refl refl i

drop_pending-IsMatched :
    (o : Option ℕ) (c : Connection) → IsMatched c → IsMatched (drop_pending o c)
drop_pending-IsMatched none c i = i
drop_pending-IsMatched (some id) c i = dropped-IsMatched id c i

select_case-IsMatched : (e : Event) (c : Connection) → IsMatched c → IsMatched (select_case e c)
unfolding select_case
select_case-IsMatched (requests payload) c i =
    if_both IsMatched c.closing i (accept-IsMatched payload c i)
select_case-IsMatched writer_takes c i = take_head-IsMatched c.queue c i
select_case-IsMatched (arrives f) c i = receive-IsMatched f c i
select_case-IsMatched (handler_ends k r) c i =
    finish_handler-IsMatched r (take_running k c.running) c i
select_case-IsMatched (cancels r) c i = drop_pending-IsMatched (get ℕ_discrete r c.request_ids) c i
select_case-IsMatched close_asked c i =
    same-IsMatched c (record c { closing = true }) refl refl refl refl i
select_case-IsMatched kill_asked c i =
    same-IsMatched c (record c { ending = some killed }) refl refl refl refl i
select_case-IsMatched wire_dies c i =
    same-IsMatched c (record c { ending = some wire_dead }) refl refl refl refl i

check_finish-IsMatched :
    (o : Option Ending) (c : Connection) → IsMatched c → IsMatched (check_finish o c)
unfolding check_finish
check_finish-IsMatched none c i =
    if_both IsMatched (may_finish c)
      (same-IsMatched c (record c { ending = some graceful }) refl refl refl refl i) i
check_finish-IsMatched (some ending) c i = i

round_from-IsMatched :
    (o : Option Ending) (e : Event) (c : Connection) → IsMatched c → IsMatched (round_from o e c)
unfolding round_from
round_from-IsMatched none e c i =
    check_finish-IsMatched _ (select_case e c) (select_case-IsMatched e c i)
round_from-IsMatched (some ending) e c i = i

owner_loop-IsMatched :
    (es : List Event) (c : Connection) → IsMatched c → IsMatched (owner_loop es c)
unfolding owner_loop owner_round
owner_loop-IsMatched [] c i = i
owner_loop-IsMatched (e ∷ es) c i =
    owner_loop-IsMatched es (owner_round e c) (round_from-IsMatched c.ending e c i)

-- However requests, frames, cancellations and stops interleave, the result channel of a request is
-- sent to at most once, and the frame that it was sent for has the request's own id, modulo 2 ^ 64.
pub owner_loop_lem :
    (h : Bool) (es : List Event)
    → ((n : ℕ) → count n (owner_loop es (new_connection h)) ≤ 1)
      × All (λ e. e.1.id ≡ wire_id e.0) (owner_loop es (new_connection h)).completed
owner_loop_lem h es =
    let i = owner_loop-IsMatched es (new_connection h) (new_connection-IsMatched h) in
    (i.once, All-ids _ _ i.answered)
