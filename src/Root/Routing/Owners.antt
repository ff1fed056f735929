-- ===== src/Root/Routing/Owners.antt =====
-- The ownership decision of Invoke and Owns (gor.go), under a view that the cluster built.
use gor.Prelude.{
  Option, none, some, true, false, List, [], ◌≡◌, ◌≢◌, ◌⊎◌, inl, inr, refl, ap, ◌∙◌, Text,
  Text-discrete, arith, Option-cases, Bool-cases, if◌then◌else◌,
}
use mathlib.Core.List.{Memᴰ}
use mathlib.Core.Logic.{if_pos, if_neg}
use gor.Store.{GrainId, Member, MemberStatus}
use gor.Cluster.Members.{active_members}
use gor.Cluster.Ring.{View, owner, new_view}
use gor.Cluster.Ring.Ownership.{owner-active, owner-none_iff}
use gor.Root.Errors.{Returned, failure, stop_rejection}
use gor.Root.Lifecycle.{Root, is_running, admit}
use gor.Root.Routing.{no_owner, route, invoke, to_owner, owns, is_addr}

module _ {R : Type 0} (node_addr : Text) (local : Returned R) (remote : Text → Returned R)
    (s : List Member) (id : GrainId) where
  abbrev pub view : Option View
  view = some (new_view s)

  -- The call goes to an address of another node, which owns the grain: an active row has the address, and
  -- no other address owns the grain.
  pub record Forwards : Type 0 where
    pub target : Text
    pub elsewhere : target ≢ node_addr
    pub forwarded : route node_addr local remote view id ≡ remote target
    pub owned : owns target view id ≡ true
    pub by_one : (addr : Text) → owns addr view id ≡ true → addr ≡ target
    pub row : (m : Member) × Memᴰ m s × (m.status ≡ MemberStatus.active) × (m.node_addr ≡ target)

  owner-owns : (addr : Text) → owner (new_view s) id ≡ some addr → owns addr view id ≡ true
  unfolding owns
  owner-owns addr h = rw h (ground arith)

  owns-owner :
      (addr target : Text)
      → owner (new_view s) id ≡ some target
      → owns addr view id ≡ true
      → addr ≡ target
  unfolding owns
  owns-owner addr target h o = ground arith

  route_of :
      (o : Option Text)
      → owner (new_view s) id ≡ o
      → route node_addr local remote view id ≡ to_owner node_addr local remote o
  unfolding route
  route_of o h = ap (to_owner node_addr local remote) h

  -- Under the view of a snapshot, a call fails with ErrNoOwner when the snapshot has no active row,
  -- runs locally when this node owns the grain, and else goes to another address, which is that of
  -- an active row and the only one that owns the grain.
  pub route_cases :
      (active_members s ≡ [])
        × (route node_addr local remote view id ≡ failure no_owner)
        × (owns node_addr view id ≡ false)
      ⊎ (owns node_addr view id ≡ true) × (route node_addr local remote view id ≡ local)
      ⊎ Forwards
  unfolding owns
  route_cases = elim (Option-cases (owner (new_view s) id)) [
    | inl h ↦ inl ((owner-none_iff s id).0 h, route_of none h, ap (is_addr node_addr) h)
    | inr (target, h) ↦ elim (Text-discrete target node_addr) [
      | yes e ↦ inr (
          inl (
            owner-owns node_addr (h ∙ ap some e),
            route_of (some target) h ∙ if_pos (Text-discrete target node_addr) e _ _,
          ))
      | no e ↦ inr (
          inr (record {
            target = target;
            elsewhere = e;
            forwarded = route_of (some target) h ∙ if_neg (Text-discrete target node_addr) e _ _;
            owned = owner-owns target h;
            by_one = λ addr o. owns-owner addr target h o;
            row = owner-active s id h;
          }))
    ]
  ]

  -- A root that has left running refuses the call with its stop error, whoever owns the grain; a running
  -- one takes the way of the ownership decision.
  pub invoke_lem :
      (root : Root)
      → (invoke node_addr local remote view id root).0 ≡ (
          if is_running root.state
          then route node_addr local remote view id
          else failure (stop_rejection root.stop_code))
  unfolding invoke admit
  invoke_lem root = elim (Bool-cases (is_running root.state)) [
    | inl h ↦ rw h refl
    | inr h ↦ rw h refl
  ]
