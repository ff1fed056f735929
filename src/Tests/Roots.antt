-- ===== src/Tests/Roots.antt =====
-- A root Runtime with two calls that is closed, and one that routes calls.
use gor.Prelude.{none, some, true, false, [], ◌∷◌, ◌≡◌, ◌↔◌, ◌⊎◌, refl, bytes, Text}
use gor.Cluster.Ring.{new_view}
use gor.Cluster.Members.{active_members}
use gor.Root.Errors.{Returned, value, failure, stop_rejection}
use gor.Root.Lifecycle.{
  Root, is_running, new_root, admit, begin_close, begin_kill, release, wait_drained, leave_running,
}
use gor.Root.Lifecycle.Invariant.{
  admits, releases, closes, kills, Steps, end, step, IsRoot, reached-IsRoot,
}
use gor.Root.Lifecycle.Drain.{releases_in, wait_drained_lem, admit_after_stop}
use gor.Root.Routing.{route, no_owner, owns}
use gor.Root.Routing.Owners.{Forwards, route_cases, view}
use gor.Tests.Ring.{node_a, node_b}
use gor.Store.{GrainId}

abbrev one_call : Root
one_call = (admit new_root).1

abbrev two_calls : Root
two_calls = (admit one_call).1

abbrev closed : Root
closed = (begin_close two_calls).1

first : (admit new_root).0 ≡ none
unfolding admit new_root
first = refl

second : (admit one_call).0 ≡ none
unfolding admit new_root
second = refl

before : Steps 0 new_root 2 closed
before =
    step (admits 0 new_root first) (step (admits 1 one_call second) (step (closes 2 two_calls) end))

left_running : is_running closed.state ≡ false
unfolding begin_close leave_running admit new_root
left_running = refl

abbrev killed_later : Root
killed_later = (begin_kill (release closed)).1

after : Steps 2 closed 0 (release killed_later)
after =
    step (releases 1 closed) (step (kills 1 (release closed)) (step (releases 0 killed_later) end))

reached-IsRoot_example : IsRoot 2 closed
reached-IsRoot_example = reached-IsRoot before

wait_drained_lem_example : (wait_drained (release killed_later) ≡ true) ↔ (releases_in after ≡ 2)
wait_drained_lem_example = wait_drained_lem before left_running after

admit_after_stop_example :
    admit (release killed_later) ≡ (some (stop_rejection closed.stop_code), release killed_later)
admit_after_stop_example = admit_after_stop before left_running after

abbrev grain : GrainId
grain = record { grain_type = bytes "account"; grain_key = bytes "1" }

abbrev at_node : Text → Returned Text
at_node addr = value addr

route_cases_example :
    (active_members (node_a ∷ node_b ∷ []) ≡ [])
      × (route node_a.node_addr
            (value (bytes "here"))
            at_node
            (view node_a.node_addr (value (bytes "here")) at_node (node_a ∷ node_b ∷ []) grain)
            grain
          ≡ failure no_owner)
      × (owns node_a.node_addr (some (new_view (node_a ∷ node_b ∷ []))) grain ≡ false)
    ⊎ (owns node_a.node_addr (some (new_view (node_a ∷ node_b ∷ []))) grain ≡ true)
      × (route node_a.node_addr
            (value (bytes "here"))
            at_node
            (some (new_view (node_a ∷ node_b ∷ [])))
            grain
          ≡ value (bytes "here"))
    ⊎ Forwards node_a.node_addr (value (bytes "here")) at_node (node_a ∷ node_b ∷ []) grain
route_cases_example =
    route_cases node_a.node_addr (value (bytes "here")) at_node (node_a ∷ node_b ∷ []) grain
