-- ===== src/Tests/Mailboxes.antt =====
-- A mailbox of one place, closed with a call in hand.
use gor.Prelude.{◌≤◌, true, false, List, [], ◌∷◌, ◌++◌, ◌≡◌, length}
use gor.Mail.{finished, BoxEvent, submits, closes, consumes, new_box, box_steps}
use gor.Mail.Order.{in_hand, answered_ids, box_steps_lem}

abbrev day : List BoxEvent
day =
    submits 7 true
    ∷ submits 8 false
    ∷ submits 9 false
    ∷ consumes 0
    ∷ closes
    ∷ consumes 5
    ∷ consumes 0
    ∷ consumes 0
    ∷ consumes 0
    ∷ submits 10 false
    ∷ []

box_steps_lem_example :
    let (calls, b) = box_steps day (new_box 1) in
    (calls ≡ answered_ids b ++ (in_hand b.consumer ++ b.queue))
    × (length b.queue ≤ b.capacity)
    × (b.consumer ≡ finished → (b.closed ≡ true) × (calls ≡ answered_ids b))
box_steps_lem_example = box_steps_lem 1 day
