-- ===== src/Root/Lifecycle/Invariant.antt =====
-- The invariant of the root Runtime's lifecycle (gor.go), over any interleaving of calls and stops.
use gor.Prelude.{
  ℕ, zero, suc, Option, none, some, Bool, true, false, not, ◌&&◌, ite, ◌≡◌, ◌≢◌, ◌⊎◌, inl, inr,
  refl, sym, ap, arith, ◌==◌, if◌then◌else◌, ℤ, pos, ◌-ℤ◌, ℤ-discrete, negsuc, ◌∙◌, subst, count_up,
  count_down, ℕ_discrete, Bool-cases,
}
use mathlib.Core.Logic.{if_pos, if_neg}
use gor.Runtime.Engine.{Channel, channel_open, channel_closed}
use gor.Root.Errors.{Code, GoError, err_runtime_closed, err_node_dead}
use gor.Root.Lifecycle.{
  RootState, root_running, root_closing, root_killing, root_dead, root_stopped, is_running, Root,
  new_root, leave_running, begin_close, begin_kill, kill_from, become_dead, finish_stop,
  stopped_from, admit, release, close_drained, is_last,
}

-- A root with the number of admitted calls that have not been released.
pub data Step : ℕ → Root → ℕ → Root → Type 0 where
  admits : (n : ℕ) (r : Root) → (admit r).0 ≡ none → Step n r (suc n) (admit r).1
  rejects : (n : ℕ) (r : Root) (e : GoError) → (admit r).0 ≡ some e → Step n r n (admit r).1
  releases : (n : ℕ) (r : Root) → Step (suc n) r n (release r)
  closes : (n : ℕ) (r : Root) → Step n r n (begin_close r).1
  kills : (n : ℕ) (r : Root) → Step n r n (begin_kill r).1
  dies : (n : ℕ) (r : Root) → Step n r n (become_dead r).1
  finishes : (n : ℕ) (r : Root) → Step n r n (finish_stop r)

pub data Steps : ℕ → Root → ℕ → Root → Type 0 where
  end : {n : ℕ} {r : Root} → Steps n r n r
  step : {a b c : ℕ} {r s t : Root} → Step a r b s → Steps b s c t → Steps a r c t

abbrev pub drain_state : Bool → ℕ → Option Channel
drain_state true n = none
drain_state false zero = some channel_closed
drain_state false (suc n) = some channel_open

abbrev done_state : Bool → Channel
done_state true = channel_open
done_state false = channel_closed

-- The count is that of the calls; done is open exactly while running; the drain channel exists exactly
-- when not, and is then closed exactly when no call is left; and the field still holds it if one is.
pub record IsRoot (n : ℕ) (r : Root) : Type 0 where
  pub counts : r.inflight ≡ pos n
  pub calm : r.panicked ≡ false
  pub finished : r.done ≡ done_state (is_running r.state)
  pub drains : r.drained_channel ≡ drain_state (is_running r.state) n
  pub held : is_running r.state ≡ false → n ≢ 0 → r.drained ≡ true
  pub unheld : is_running r.state ≡ true → r.drained ≡ false

new_root-IsRoot : IsRoot 0 new_root
unfolding new_root
new_root-IsRoot = record {
  counts = refl;
  calm = refl;
  finished = refl;
  drains = refl;
  held = λ h. ground arith;
  unheld = λ h. refl;
}

abbrev nat_part : ℤ → ℕ
nat_part (pos n) = n
nat_part (negsuc n) = 0

-- The test of a count for zero.
if_zero :
    {A : Type 0} (x : ℤ) (n : ℕ) (a b : A)
    → x ≡ pos n
    → ite (ℤ-discrete x (pos 0)) a b ≡ (if n == 0 then a else b)
if_zero x n a b h = elim (ℕ_discrete n 0) [
  | yes z ↦ rw (if_pos (ℤ-discrete x (pos 0)) (h ∙ ap pos z) a b, z) refl
  | no z ↦ rw (if_neg (ℤ-discrete x (pos 0)) (λ q. z (ap nat_part (sym h ∙ q))) a b) (ground arith)
]

eq_false : (n : ℕ) → n ≢ 0 → (n == 0) ≡ false
eq_false n h = ground arith

drained_at :
    (x : ℤ) (n : ℕ)
    → x ≡ pos n
    → some (ite (ℤ-discrete x (pos 0)) channel_closed channel_open) ≡ drain_state false n
drained_at x zero h = ap some (if_zero x 0 channel_closed channel_open h)
drained_at x (suc n) h = ap some (
    if_zero x (suc n) channel_closed channel_open h
    ∙ rw (eq_false (suc n) (λ z. ground arith)) refl)

leave_running-IsRoot :
    (next : RootState) (code : Code) (n : ℕ) (r : Root)
    → is_running next ≡ false
    → is_running r.state ≡ true
    → IsRoot n r
    → IsRoot n (leave_running next code r)
unfolding leave_running
leave_running-IsRoot next code n r s h i = record {
  counts = i.counts;
  calm = rw (i.calm, i.finished, h) refl;
  finished = rw s refl;
  drains = rw s (drained_at r.inflight n i.counts);
  held = λ _ _. refl;
  unheld = λ k. ground arith;
}

is_last_lem :
    (n : ℕ) (r : Root)
    → IsRoot (suc n) r
    → is_last (record r { inflight = r.inflight -ℤ pos 1 }) ≡ ((n == 0) && not (is_running r.state))
is_last_lem n r i =
    rw (if_zero (r.inflight -ℤ pos 1) n true false (count_down r.inflight n i.counts))
      (elim (Bool-cases (is_running r.state)) [
        | inl h ↦ rw h (ground arith)
        | inr h ↦ rw (h, i.held h (λ z. ground arith)) (ground arith)
      ])

and_false : (b : Bool) → (b && false) ≡ false
and_false true = refl
and_false false = refl

drain_later : (b : Bool) (n : ℕ) → n ≢ 0 → drain_state b (suc n) ≡ drain_state b n
drain_later true n z = refl
drain_later false zero z = absurd (z refl)
drain_later false (suc n) z = refl

-- A release that does not close the channel.
lowered-IsRoot :
    (n : ℕ) (r : Root)
    → (is_running r.state ≡ true) ⊎ (n ≢ 0)
    → IsRoot (suc n) r
    → IsRoot n (record r { inflight = r.inflight -ℤ pos 1 })
lowered-IsRoot n r c i = record {
  counts = count_down r.inflight n i.counts;
  calm = i.calm;
  finished = i.finished;
  drains = elim c [
    | inl h ↦ rw h (i.drains ∙ ap (λ b. drain_state b (suc n)) h)
    | inr z ↦ i.drains ∙ drain_later (is_running r.state) n z
  ];
  held = λ h z. i.held h (λ q. ground arith);
  unheld = i.unheld;
}

last-IsRoot :
    (r : Root)
    → is_running r.state ≡ false
    → IsRoot 1 r
    → IsRoot 0 (close_drained (record r { inflight = r.inflight -ℤ pos 1 }))
unfolding close_drained
last-IsRoot r h i = record {
  counts = count_down r.inflight 0 i.counts;
  calm = rw (i.calm, i.drains, h) refl;
  finished = i.finished;
  drains = rw h refl;
  held = λ _ z. absurd (z refl);
  unheld = λ k. refl;
}

release-IsRoot : (n : ℕ) (r : Root) → IsRoot (suc n) r → IsRoot n (release r)
unfolding release
release-IsRoot n r i = elim (Bool-cases (is_running r.state)) [
  | inl h ↦ rw (is_last_lem n r i, h, and_false (n == 0)) (lowered-IsRoot n r (inl h) i)
  | inr h ↦ elim (ℕ_discrete n 0) [
    | yes z ↦ rw (is_last_lem n r i, h, z) (last-IsRoot r h (subst (λ k. IsRoot (suc k) r) z i))
    | no z ↦ rw (is_last_lem n r i, h, eq_false n z) (lowered-IsRoot n r (inr z) i)
  ]
]

-- A transition that stays on its side of running.
same_side-IsRoot :
    (n : ℕ) (r : Root) (next : RootState)
    → is_running next ≡ is_running r.state
    → IsRoot n r
    → IsRoot n (record r { state = next })
same_side-IsRoot n r next e i = record {
  counts = i.counts;
  calm = i.calm;
  finished = rw e i.finished;
  drains = rw e i.drains;
  held = λ h. i.held (sym e ∙ h);
  unheld = λ h. i.unheld (sym e ∙ h);
}

kill_from-IsRoot :
    (n : ℕ) (s : RootState) (r : Root) → s ≡ r.state → IsRoot n r → IsRoot n (kill_from s r).1
unfolding kill_from
kill_from-IsRoot n root_running r e i =
    leave_running-IsRoot root_killing err_runtime_closed n r refl (sym (ap is_running e)) i
kill_from-IsRoot n root_closing r e i = same_side-IsRoot n r root_killing (ap is_running e) i
kill_from-IsRoot n root_killing r e i = i
kill_from-IsRoot n root_dead r e i = i
kill_from-IsRoot n root_stopped r e i = i

pub stopped_from_side : (s : RootState) → is_running (stopped_from s) ≡ is_running s
stopped_from_side root_running = refl
stopped_from_side root_closing = refl
stopped_from_side root_killing = refl
stopped_from_side root_dead = refl
stopped_from_side root_stopped = refl

admit-IsRoot : (n : ℕ) (r : Root) → (admit r).0 ≡ none → IsRoot n r → IsRoot (suc n) (admit r).1
unfolding admit
admit-IsRoot n r a i = elim (Bool-cases (is_running r.state)) [
  | inl h ↦ rw h (record {
    counts = count_up r.inflight n i.counts;
    calm = i.calm;
    finished = i.finished;
    drains = rw h (i.drains ∙ ap (λ b. drain_state b n) h);
    held = λ k. ground arith;
    unheld = i.unheld;
  })
  | inr h ↦ ground arith
]

pub admit_rejects : (r : Root) (e : GoError) → (admit r).0 ≡ some e → (admit r).1 ≡ r
unfolding admit
admit_rejects r e h = ground arith

Step-IsRoot : {m : ℕ} {r : Root} {n : ℕ} {s : Root} → Step m r n s → IsRoot m r → IsRoot n s
unfolding begin_close begin_kill become_dead finish_stop
Step-IsRoot (admits n r a) i = admit-IsRoot n r a i
Step-IsRoot (rejects n r e h) i = subst (IsRoot n) (sym (admit_rejects r e h)) i
Step-IsRoot (releases n r) i = release-IsRoot n r i
Step-IsRoot (closes n r) i = elim (Bool-cases (is_running r.state)) [
  | inl h ↦ rw h (leave_running-IsRoot root_closing err_runtime_closed n r refl h i)
  | inr h ↦ rw h i
]
Step-IsRoot (kills n r) i = kill_from-IsRoot n r.state r refl i
Step-IsRoot (dies n r) i = elim (Bool-cases (is_running r.state)) [
  | inl h ↦ rw h (leave_running-IsRoot root_dead err_node_dead n r refl h i)
  | inr h ↦ rw h i
]
Step-IsRoot (finishes n r) i =
    same_side-IsRoot n r (stopped_from r.state) (stopped_from_side r.state) i

pub Steps-IsRoot : {m : ℕ} {r : Root} {n : ℕ} {s : Root} → Steps m r n s → IsRoot m r → IsRoot n s
Steps-IsRoot end i = i
Steps-IsRoot (step one more) i = Steps-IsRoot more (Step-IsRoot one i)

-- Whatever calls and stops interleave, the root's count is that of its admitted calls, no channel is
-- closed twice, done is closed exactly when the root has left running, and the drain channel is then
-- closed exactly when no call is left.
pub reached-IsRoot : {n : ℕ} {r : Root} → Steps 0 new_root n r → IsRoot n r
reached-IsRoot more = Steps-IsRoot more new_root-IsRoot
