-- ===== src/Root/Routing.antt =====
-- The way of a call through the root Runtime (gor.go): admission, the ownership decision, and the local
-- or forwarded invocation. `view` is none where no cluster node is configured, and else what clusterView
-- holds; `local` and `remote` are what invokeLocal, and forward for an owner, return.
pub mod Owners
use gor.Prelude.{
  Option, none, some, Bool, true, false, not, List, [], ◌∷◌, ◌++◌, ite, if◌then◌else◌, Text,
  Text-discrete, bytes, select, ◌-ℤ◌,
}
use gor.Store.{GrainId, Time, Duration}
use gor.Cluster.Ring.{View, owner}
use gor.Root.Errors.{
  Code, GoError, nil, code, wrap, Returned, value, failure, err_no_owner, public_error,
}
use gor.Root.Lifecycle.{Root, admit}

-- fmt.Errorf("%w: identity currently has no active owner", ErrNoOwner)
abbrev pub no_owner : GoError
no_owner = wrap [] (code err_no_owner) (bytes ": identity currently has no active owner")

module _ {R : Type 0} (node_addr : Text) (local : Returned R) (remote : Text → Returned R) where
  abbrev pub to_owner : Option Text → Returned R
  to_owner none = failure no_owner
  to_owner (some addr) = ite (Text-discrete addr node_addr) local (remote addr)

  -- The part of invoke behind admit.
  unfoldable pub route : Option View → GrainId → Returned R
  route none id = local
  route (some view) id = to_owner (owner view id)

  abbrev pub behind_admit : Option GoError → Returned R → Returned R
  behind_admit none r = r
  behind_admit (some e) r = failure e

  -- invoke, up to its deferred release.
  unfoldable pub invoke : Option View → GrainId → Root → Returned R × Root
  unfolding route admit
  invoke view id root = (behind_admit (admit root).0 (route view id), (admit root).1)

abbrev pub public_result {ℓ} : {R : Type ℓ} → Returned R → Returned R
public_result (value r) = value r
public_result (failure e) = failure (public_error e)

abbrev pub error_of {ℓ} : {R : Type ℓ} → Returned R → GoError
error_of (value r) = nil
error_of (failure e) = e

pub record CallObservation : Type 0 where
  pub grain_type : Text
  pub method : Text
  pub duration : Duration
  pub err : GoError

-- Invoke, with what onCall is told where there is one: `started` and `ended` are the readings of the
-- clock.
unfoldable pub public_invoke {ℓ} :
    {R : Type ℓ}
    → Bool
    → GrainId
    → Text
    → Time
    → Time
    → Returned R
    → Returned R × Option CallObservation
public_invoke observed id method started ended r =
    let result = public_result r in
    if observed
    then (
      result,
      some (record {
        grain_type = id.grain_type;
        method = method;
        duration = ended -ℤ started;
        err = error_of result;
      }),
    )
    else (result, none)

abbrev pub is_addr : Text → Option Text → Bool
is_addr node_addr none = false
is_addr node_addr (some addr) = ite (Text-discrete addr node_addr) true false

-- Owns
unfoldable pub owns : Text → Option View → GrainId → Bool
owns node_addr none id = true
owns node_addr (some view) id = is_addr node_addr (owner view id)

-- The ids that deactivateMovedActivations deactivates, of those that the engine lists.
unfoldable pub moved_activations : Text → View → List GrainId → List GrainId
moved_activations node_addr view ids = select (λ id. not (is_addr node_addr (owner view id))) ids
