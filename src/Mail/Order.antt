-- ===== src/Mail/Order.antt =====
-- The mailbox answers each accepted call once, in the order of acceptance.
use mathlib.Core.List.{append_assoc, append-nil}
use gor.Prelude.{
  ℕ, ◌≤◌, ◌<◌, Bool, true, false, ◌&&◌, List, [], ◌∷◌, ◌++◌, ◌≡◌, refl, sym, ap, ◌∙◌, arith, ltb,
  length, map, Bool-cases, inl, inr, length-append,
}
use gor.Mail.{
  Box, Consumer, receiving, received, calling, answered, rejecting, finished, Answer, returned,
  closed_error, new_box, submit, close, consume, BoxEvent, submits, closes, consumes, box_step,
  box_steps, accepted_of, is_receiving, is_empty,
}

-- The call that the consumer has in hand.
abbrev pub in_hand : Consumer → List ℕ
in_hand receiving = []
in_hand (received n) = n ∷ []
in_hand (calling n) = n ∷ []
in_hand answered = []
in_hand rejecting = []
in_hand finished = []

abbrev pub answered_ids : Box → List ℕ
answered_ids b = map (λ x. x.0) b.answers

-- All calls that the box has accepted, in order.
abbrev pub calls_of : Box → List ℕ
calls_of b = answered_ids b ++ (in_hand b.consumer ++ b.queue)

abbrev pub EndsWell : Consumer → Bool → List ℕ → Type 0
EndsWell receiving closed queue = Unit
EndsWell (received n) closed queue = Unit
EndsWell (calling n) closed queue = Unit
EndsWell answered closed queue = Unit
EndsWell rejecting closed queue = closed ≡ true
EndsWell finished closed queue = (closed ≡ true) × (queue ≡ [])

pub record IsBox (b : Box) : Type 0 where
  pub bounded : length b.queue ≤ b.capacity
  pub ending : EndsWell b.consumer b.closed b.queue

ids-append :
    (l : List (ℕ × Answer)) (n : ℕ) (a : Answer) (rest : List ℕ)
    → map (λ x. x.0) (l ++ (n, a) ∷ []) ++ rest ≡ map (λ x. x.0) l ++ n ∷ rest
ids-append [] n a rest = refl
ids-append (x ∷ l) n a rest = ap (◌∷◌ x.0) (ids-append l n a rest)

-- What a step keeps: the invariant, and the calls so far with the new ones behind them.
pub record Kept (b : Box) (new : List ℕ) (b' : Box) : Type 0 where
  pub valid : IsBox b'
  pub order : calls_of b' ≡ calls_of b ++ new

same_calls : (b b' : Box) → IsBox b' → calls_of b' ≡ calls_of b → Kept b [] b'
same_calls b b' v e = record { valid = v; order = e ∙ sym (append-nil (calls_of b)) }

module _ (capacity : ℕ) (answers : List (ℕ × Answer)) where
  abbrev box : List ℕ → Bool → Consumer → Box
  box queue closed consumer = record {
    capacity = capacity;
    queue = queue;
    closed = closed;
    consumer = consumer;
    answers = answers;
  }

  consume-box :
      (result : ℕ) (c : Consumer) (q : List ℕ) (closed : Bool)
      → IsBox (box q closed c)
      → Kept (box q closed c) [] (consume result (box q closed c))
  unfolding consume
  consume-box result receiving [] true i =
      same_calls _ _ (record { bounded = i.bounded; ending = refl }) refl
  consume-box result receiving [] false i =
      same_calls _ _ (record { bounded = i.bounded; ending = tt }) refl
  consume-box result receiving (n ∷ q) closed i =
      same_calls _ _ (record { bounded = omega (arith, i.bounded); ending = tt }) refl
  consume-box result (received n) q true i =
      same_calls _ _ (record { bounded = i.bounded; ending = refl })
        (ids-append answers n closed_error q)
  consume-box result (received n) q false i =
      same_calls _ _ (record { bounded = i.bounded; ending = tt }) refl
  consume-box result (calling n) q closed i =
      same_calls _ _ (record { bounded = i.bounded; ending = tt })
        (ids-append answers n (returned result) q)
  consume-box result answered q true i =
      same_calls _ _ (record { bounded = i.bounded; ending = refl }) refl
  consume-box result answered q false i =
      same_calls _ _ (record { bounded = i.bounded; ending = tt }) refl
  consume-box result rejecting [] closed i =
      same_calls _ _ (record { bounded = i.bounded; ending = (i.ending, refl) }) refl
  consume-box result rejecting (n ∷ q) closed i =
      same_calls _ _ (record { bounded = omega (arith, i.bounded); ending = i.ending })
        (ids-append answers n closed_error q)
  consume-box result finished q closed i = same_calls _ _ i refl

consume-Kept : (result : ℕ) (b : Box) → IsBox b → Kept b [] (consume result b)
consume-Kept result b i = consume-box b.capacity b.answers result b.consumer b.queue b.closed i

-- A call that is put at the end of the queue.
enqueued :
    (n : ℕ) (b : Box)
    → IsBox b
    → b.closed ≡ false
    → length b.queue < b.capacity
    → Kept b (n ∷ []) (record b { queue = b.queue ++ n ∷ [] })
enqueued n b i o l = record {
  valid = record {
    bounded = omega (arith, length-append b.queue (n ∷ []), l);
    ending = still b.consumer i.ending;
  };
  order =
      ap (◌++◌ (answered_ids b)) (sym (append_assoc (in_hand b.consumer) b.queue (n ∷ [])))
      ∙ sym (append_assoc (answered_ids b) (in_hand b.consumer ++ b.queue) (n ∷ []));
}
  where
    still : (c : Consumer) → EndsWell c b.closed b.queue → EndsWell c b.closed (b.queue ++ n ∷ [])
    still receiving e = tt
    still (received m) e = tt
    still (calling m) e = tt
    still answered e = tt
    still rejecting e = e
    still finished e = absurd (cc (e.0, o))

-- A call that the blocked consumer takes.
handed :
    (n : ℕ) (c : Consumer) (q : List ℕ) (b : Box)
    → b.consumer ≡ c
    → b.queue ≡ q
    → is_receiving c && is_empty q ≡ true
    → IsBox b
    → Kept b (n ∷ []) (record b { consumer = received n })
handed n receiving [] b c q h i = record {
  valid = record { bounded = i.bounded; ending = tt };
  order = rw (c, q) (ap (λ l. l ++ n ∷ []) (sym (append-nil (answered_ids b))));
}
handed n receiving (m ∷ q) b c e h i = absurd (cc h)
handed n (received m) q b c e h i = absurd (cc h)
handed n (calling m) q b c e h i = absurd (cc h)
handed n answered q b c e h i = absurd (cc h)
handed n rejecting q b c e h i = absurd (cc h)
handed n finished q b c e h i = absurd (cc h)

submit-box :
    (capacity : ℕ) (answers : List (ℕ × Answer)) (n : ℕ) (blocked : Bool) (c : Consumer)
    (q : List ℕ) (closed : Bool)
    → IsBox (box capacity answers q closed c)
    → Kept
        (box capacity answers q closed c)
        (accepted_of n (submit n blocked (box capacity answers q closed c)).0)
        (submit n blocked (box capacity answers q closed c)).1
unfolding submit
submit-box capacity answers n blocked c q true i = same_calls _ _ i refl
submit-box capacity answers n blocked c q false i =
    elim (Bool-cases (blocked && is_receiving c && is_empty q)) [
      | inl t ↦ rw t (handed n c q _ refl refl (ground (arith, t)) i)
      | inr t ↦ elim (Bool-cases (ltb (length q) capacity)) [
        | inl l ↦ rw (t, l) (enqueued n _ i refl (ground (arith, l)))
        | inr l ↦ rw (t, l) (same_calls _ _ i refl)
      ]
    ]

submit-Kept :
    (n : ℕ) (blocked : Bool) (b : Box)
    → IsBox b
    → Kept b (accepted_of n (submit n blocked b).0) (submit n blocked b).1
submit-Kept n blocked b i = submit-box b.capacity b.answers n blocked b.consumer b.queue b.closed i

step-Kept : (e : BoxEvent) (b : Box) → IsBox b → Kept b (box_step e b).0 (box_step e b).1
unfolding box_step close
step-Kept (submits n blocked) b i = submit-Kept n blocked b i
step-Kept closes b i =
    same_calls b _ (record { bounded = i.bounded; ending = shut b.consumer i.ending }) refl
  where
    shut : (c : Consumer) → EndsWell c b.closed b.queue → EndsWell c true b.queue
    shut receiving e = tt
    shut (received m) e = tt
    shut (calling m) e = tt
    shut answered e = tt
    shut rejecting e = refl
    shut finished e = (refl, e.1)
step-Kept (consumes result) b i = consume-Kept result b i

steps-Kept : (es : List BoxEvent) (b : Box) → IsBox b → Kept b (box_steps es b).0 (box_steps es b).1
unfolding box_steps
steps-Kept [] b i = same_calls b b i refl
steps-Kept (e ∷ es) b i =
    let now = step-Kept e b i in
    let later = steps-Kept es (box_step e b).1 now.valid in
    record {
      valid = later.valid;
      order =
          later.order
          ∙ ap (λ l. l ++ (box_steps es (box_step e b).1).0) now.order
          ∙ append_assoc (calls_of b) (box_step e b).0 (box_steps es (box_step e b).1).0;
    }

drained :
    (b : Box) → IsBox b → b.consumer ≡ finished → (b.closed ≡ true) × (calls_of b ≡ answered_ids b)
drained b i f = at_end b.consumer f i.ending
  where
    at_end :
        (c : Consumer)
        → c ≡ finished
        → EndsWell c b.closed b.queue
        → (b.closed ≡ true) × (answered_ids b ++ (in_hand c ++ b.queue) ≡ answered_ids b)
    at_end finished g e = (e.0, rw e.1 (append-nil (answered_ids b)))
    at_end receiving g e = absurd (cc g)
    at_end (received m) g e = absurd (cc g)
    at_end (calling m) g e = absurd (cc g)
    at_end answered g e = absurd (cc g)
    at_end rejecting g e = absurd (cc g)

new_box-IsBox : (capacity : ℕ) → IsBox (new_box capacity)
unfolding new_box
new_box-IsBox capacity = record { bounded = omega arith; ending = tt }

-- Through any calls, closes and steps of its consumer, a new mailbox has answered, has in hand and
-- has queued exactly the calls that it accepted, each once and in the order of acceptance; its queue
-- stays within its capacity; and when its consumer has finished, the box is closed and every
-- accepted call is answered.
pub box_steps_lem :
    (capacity : ℕ) (es : List BoxEvent)
    → let (calls, b) = box_steps es (new_box capacity) in
      (calls ≡ answered_ids b ++ (in_hand b.consumer ++ b.queue))
      × (length b.queue ≤ b.capacity)
      × (b.consumer ≡ finished → (b.closed ≡ true) × (calls ≡ answered_ids b))
box_steps_lem capacity es =
    let start : IsBox (new_box capacity) = new_box-IsBox capacity in
    let k = steps-Kept es (new_box capacity) start in
    let all : calls_of (box_steps es (new_box capacity)).1 ≡ (box_steps es (new_box capacity)).0 =
      k.order ∙ unfold new_box in refl in
    (
      sym all,
      k.valid.bounded,
      λ f.
          let (closed, e) = drained (box_steps es (new_box capacity)).1 k.valid f in
          (closed, sym all ∙ e),
    )
