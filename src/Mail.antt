-- ===== src/Mail.antt =====
-- The mailbox of an activation (mail/mail.go): a bounded queue with one consumer. A call is named by a
-- number. The sections under Box.mu and the channel operations of the consumer are the steps.
pub mod Order
use gor.Prelude.{
  ℕ, ◌+◌, Option, none, some, Bool, true, false, ◌&&◌, List, [], ◌∷◌, ◌++◌, if◌then◌else◌, ltb,
  length, map,
}

-- Result: what the function returned, or ErrClosed.
pub data Answer : Type 0 where
  returned : ℕ → Answer
  closed_error : Answer

-- Where run stands: at its receive, behind it, in the function of a call, behind the reply, in
-- rejectQueued, or returned with `done` closed.
pub data Consumer : Type 0 where
  receiving : Consumer
  received calling : ℕ → Consumer
  answered rejecting finished : Consumer

pub record Box : Type 0 where
  pub capacity : ℕ
  pub queue : List ℕ
  pub closed : Bool
  pub consumer : Consumer
  pub answers : List (ℕ × Answer)

-- New.
unfoldable pub new_box : ℕ → Box
new_box capacity = record {
  capacity = capacity;
  queue = [];
  closed = false;
  consumer = receiving;
  answers = [];
}

-- How the locked section of Call ends.
pub data Submitted : Type 0 where
  accepted overloaded box_closed : Submitted

abbrev pub is_receiving : Consumer → Bool
is_receiving receiving = true
is_receiving (received n) = false
is_receiving (calling n) = false
is_receiving answered = false
is_receiving rejecting = false
is_receiving finished = false

abbrev pub is_empty : List ℕ → Bool
is_empty [] = true
is_empty (n ∷ q) = false

-- The locked section of Call. `blocked` tells whether the consumer is already blocked in its receive,
-- to which a send then goes directly.
unfoldable pub submit : ℕ → Bool → Box → Submitted × Box
submit n blocked b =
    if b.closed
    then (box_closed, b)
    else (if blocked && is_receiving b.consumer && is_empty b.queue
        then (accepted, record b { consumer = received n })
        else (if ltb (length b.queue) b.capacity
            then (accepted, record b { queue = b.queue ++ n ∷ [] })
            else (overloaded, b)))

-- Close: idempotent.
unfoldable pub close : Box → Box
close b = record b { closed = true }

-- c.reply <- result
abbrev pub reply : ℕ → Answer → Box → Box
reply n answer b = record b { answers = b.answers ++ (n, answer) ∷ [] }

-- One step of run; `result` is what a called function returns.
unfoldable pub consume : ℕ → Box → Box
consume result b = elim b.consumer [
  | receiving ↦ elim b.queue [
    | [] ↦ record b { consumer = if b.closed then rejecting else receiving }
    | n ∷ q ↦ record b { consumer = received n; queue = q }
  ]
  | received n ↦
      if b.closed
      then record (reply n closed_error b) { consumer = rejecting }
      else record b { consumer = calling n }
  | calling n ↦ record (reply n (returned result) b) { consumer = answered }
  | answered ↦ record b { consumer = if b.closed then rejecting else receiving }
  | rejecting ↦ elim b.queue [
    | [] ↦ record b { consumer = finished }
    | n ∷ q ↦ record (reply n closed_error b) { queue = q }
  ]
  | finished ↦ b
]

pub data BoxEvent : Type 0 where
  submits : ℕ → Bool → BoxEvent
  closes : BoxEvent
  consumes : ℕ → BoxEvent

abbrev pub accepted_of : ℕ → Submitted → List ℕ
accepted_of n accepted = n ∷ []
accepted_of n overloaded = []
accepted_of n box_closed = []

-- The calls that a step accepts, and the box after it.
unfoldable pub box_step : BoxEvent → Box → List ℕ × Box
box_step (submits n blocked) b = let (s, b') = submit n blocked b in (accepted_of n s, b')
box_step closes b = ([], close b)
box_step (consumes result) b = ([], consume result b)

unfoldable pub box_steps : List BoxEvent → Box → List ℕ × Box
box_steps [] b = ([], b)
box_steps (e ∷ es) b =
    let (now, b') = box_step e b in let (later, b'') = box_steps es b' in (now ++ later, b'')
