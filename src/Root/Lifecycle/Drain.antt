-- ===== src/Root/Lifecycle/Drain.antt =====
-- Admission and drain of the root Runtime (gor.go), over any interleaving of calls and stops.
use gor.Prelude.{
  ℕ, zero, suc, ◌+◌, some, true, false, ◌≡◌, ◌↔◌, inl, inr, refl, sym, ap, arith, pos, ◌-ℤ◌, ◌∙◌,
  subst, Bool-cases,
}
use gor.Root.Errors.{Code, stop_rejection}
use gor.Root.Lifecycle.{
  RootState, root_running, root_closing, root_killing, root_dead, root_stopped, is_running, Root,
  new_root, begin_close, begin_kill, kill_from, become_dead, finish_stop, admit, release,
  close_drained, wait_drained, is_last,
}
use gor.Root.Lifecycle.Invariant.{
  Step, admits, rejects, releases, closes, kills, dies, finishes, Steps, end, step, IsRoot,
  reached-IsRoot, Steps-IsRoot, admit_rejects, stopped_from_side,
}

-- Releases among the steps.
unfoldable pub releases_in : {m : ℕ} {r : Root} {n : ℕ} {s : Root} → Steps m r n s → ℕ
releases_in end = 0
releases_in (step (releases n r) more) = suc (releases_in more)
releases_in (step (admits n r a) more) = releases_in more
releases_in (step (rejects n r e h) more) = releases_in more
releases_in (step (closes n r) more) = releases_in more
releases_in (step (kills n r) more) = releases_in more
releases_in (step (dies n r) more) = releases_in more
releases_in (step (finishes n r) more) = releases_in more

-- What holds of a root that has left running, and of every root after it.
record Stopped (code : Code) (r : Root) : Type 0 where
  out : is_running r.state ≡ false
  code_is : r.stop_code ≡ code

Stopped-admit :
    (code : Code) (r : Root) → Stopped code r → admit r ≡ (some (stop_rejection code), r)
unfolding admit
Stopped-admit code r h = rw (h.out, h.code_is) refl

kill_from-Stopped :
    (code : Code) (s : RootState) (r : Root)
    → s ≡ r.state
    → Stopped code r
    → Stopped code (kill_from s r).1
unfolding kill_from
kill_from-Stopped code root_running r e h = absurd (ground (arith, ap is_running e, h.out))
kill_from-Stopped code root_closing r e h = record { out = refl; code_is = h.code_is }
kill_from-Stopped code root_killing r e h = h
kill_from-Stopped code root_dead r e h = h
kill_from-Stopped code root_stopped r e h = h

release_same : (r : Root) → ((release r).state ≡ r.state) × ((release r).stop_code ≡ r.stop_code)
unfolding release close_drained
release_same r = elim (Bool-cases (is_last (record r { inflight = r.inflight -ℤ pos 1 }))) [
  | inl h ↦ rw h (refl, refl)
  | inr h ↦ rw h (refl, refl)
]

Step-Stopped :
    {m : ℕ} {r : Root} {n : ℕ} {s : Root} (code : Code)
    → Step m r n s
    → Stopped code r
    → Stopped code s
unfolding begin_close begin_kill become_dead finish_stop
Step-Stopped code (admits n r a) h = ground (arith, Stopped-admit code r h)
Step-Stopped code (rejects n r e a) h = subst (Stopped code) (sym (admit_rejects r e a)) h
Step-Stopped code (releases n r) h = record {
  out = ap is_running (release_same r).0 ∙ h.out;
  code_is = (release_same r).1 ∙ h.code_is;
}
Step-Stopped code (closes n r) h = rw h.out h
Step-Stopped code (kills n r) h = kill_from-Stopped code r.state r refl h
Step-Stopped code (dies n r) h = rw h.out h
Step-Stopped code (finishes n r) h = record {
  out = stopped_from_side r.state ∙ h.out;
  code_is = h.code_is;
}

Steps-Stopped :
    {m : ℕ} {r : Root} {n : ℕ} {s : Root} (code : Code)
    → Steps m r n s
    → Stopped code r
    → Stopped code s
Steps-Stopped code end h = h
Steps-Stopped code (step one more) h = Steps-Stopped code more (Step-Stopped code one h)

-- Once out of running, the calls that are left go down by the releases.
calls_left :
    {m : ℕ} {r : Root} {n : ℕ} {s : Root} (code : Code)
    → (more : Steps m r n s) → Stopped code r
    → n + releases_in more ≡ m
unfolding releases_in
calls_left code end h = ground arith
calls_left code (step (admits n r a) more) h = ground (arith, Stopped-admit code r h)
calls_left code (step (rejects n r e a) more) h =
    calls_left code more (Step-Stopped code (rejects n r e a) h)
calls_left code (step (releases n r) more) h =
    ground (arith, calls_left code more (Step-Stopped code (releases n r) h))
calls_left code (step (closes n r) more) h = calls_left code more (Step-Stopped code (closes n r) h)
calls_left code (step (kills n r) more) h = calls_left code more (Step-Stopped code (kills n r) h)
calls_left code (step (dies n r) more) h = calls_left code more (Step-Stopped code (dies n r) h)
calls_left code (step (finishes n r) more) h =
    calls_left code more (Step-Stopped code (finishes n r) h)

wait_drained_iff :
    (n : ℕ) (r : Root) → IsRoot n r → is_running r.state ≡ false → (wait_drained r ≡ true) ↔ (n ≡ 0)
unfolding wait_drained
wait_drained_iff zero r i h = (λ _. refl, λ _. rw (i.drains, h) (ground arith))
wait_drained_iff (suc n) r i h = rw (i.drains, h, i.held h (λ z. ground arith)) (ground arith)

module _ {m : ℕ} {r : Root} (before : Steps 0 new_root m r) (out : is_running r.state ≡ false) where
  -- From a new root, once any steps have led out of running, every later admit is refused with the
  -- code of that stop, which no later transition rewrites, and changes nothing.
  pub admit_after_stop :
      {n : ℕ} {s : Root} (after : Steps m r n s) → admit s ≡ (some (stop_rejection r.stop_code), s)
  admit_after_stop after =
      Stopped-admit r.stop_code _
        (Steps-Stopped r.stop_code after (record { out = out; code_is = refl }))

  -- From a new root, once any steps have led out of running, waitDrained returns in a later state
  -- exactly when as many calls have been released since as were admitted and not released at that
  -- point, whatever kills, deaths and refused calls come between.
  pub wait_drained_lem :
      {n : ℕ} {s : Root} (after : Steps m r n s) → (wait_drained s ≡ true) ↔ (releases_in after ≡ m)
  wait_drained_lem {n = n} {s = s} after =
      let st : Stopped r.stop_code r = record { out = out; code_is = refl } in
      let left = calls_left r.stop_code after st in
      let iff =
        wait_drained_iff n s (Steps-IsRoot after (reached-IsRoot before))
          (Steps-Stopped r.stop_code after st).out in
      ground (arith, left, iff)
