-- ===== src/Root/Errors.antt =====
-- The errors that calls return: errors.go, and the error envelopes of forward.go. A Go error is a tree; a
-- nil error is `nil`. `wrap` is fmt.Errorf with one %w between two texts, `discard` runtime.Discard,
-- `joined` what errors.Join returns for a list that is not all nil. An error type of an application's own
-- is the constructor here that has its Code and Unwrap methods.
pub mod Codes
use gor.Prelude.{
  Bool, true, false, ◌||◌, if◌then◌else◌, Option, none, some, List, [], ◌∷◌, ◌++◌, ite, Text,
  Text-discrete, bytes,
}

abbrev pub Code : Type 0
Code = Text

-- The sentinels of the packages that a call runs through: each is one value, equal to itself only.
pub data Sentinel : Type 0 where
  canceled deadline_exceeded node_dead runtime_closed mail_closed overloaded type_not_registered
        conflict panicked call_cycle :
      Sentinel

mutual
  pub data GoError : Type 0 where
    nil : GoError
    opaque : Text → GoError
    sentinel : Sentinel → GoError
    code : Code → GoError
    coded : Code → GoError → GoError
    remote : Code → Text → GoError
    wrap : Text → GoError → Text → GoError
    discard : GoError → GoError
    joined : GoErrors → GoError

  pub data GoErrors : Type 0 where
    no_errors : GoErrors
    also : GoError → GoErrors → GoErrors

-- A value, or a non-nil error.
pub data Returned {ℓ} (A : Type ℓ) : Type ℓ where
  value : A → Returned A
  failure : GoError → Returned A

abbrev pub is_nil : GoError → Bool
is_nil nil = true
is_nil _ = false

unfoldable pub same_sentinel : Sentinel → Sentinel → Bool
same_sentinel canceled canceled = true
same_sentinel deadline_exceeded deadline_exceeded = true
same_sentinel node_dead node_dead = true
same_sentinel runtime_closed runtime_closed = true
same_sentinel mail_closed mail_closed = true
same_sentinel overloaded overloaded = true
same_sentinel type_not_registered type_not_registered = true
same_sentinel conflict conflict = true
same_sentinel panicked panicked = true
same_sentinel call_cycle call_cycle = true
same_sentinel _ _ = false

abbrev pub sentinel_text : Sentinel → Text
sentinel_text canceled = bytes "context canceled"
sentinel_text deadline_exceeded = bytes "context deadline exceeded"
sentinel_text node_dead = bytes "cluster node is dead"
sentinel_text runtime_closed = bytes "runtime closed"
sentinel_text mail_closed = bytes "mailbox closed"
sentinel_text overloaded = bytes "mailbox overloaded"
sentinel_text type_not_registered = bytes "entity type is not registered"
sentinel_text conflict = bytes "store: etag conflict"
sentinel_text panicked = bytes "runtime panic"
sentinel_text call_cycle = bytes "call cycle detected"

abbrev pub or_text : Bool → Text → Text → Text
or_text b t u = if b then t else u

-- Error()
unfoldable mutual
  pub message : GoError → Text
  message nil = []
  message (opaque t) = t
  message (sentinel s) = sentinel_text s
  message (code c) = c
  message (coded c e) = or_text (is_nil e) c (message e)
  message (remote c t) = t
  message (wrap before e after) = before ++ message e ++ after
  message (discard e) = or_text (is_nil e) (bytes "activation discarded") (message e)
  message (joined es) = messages es

  pub messages : GoErrors → Text
  messages no_errors = []
  messages (also e no_errors) = message e
  messages (also e (also f es)) = message e ++ 10 ∷ messages (also f es)

-- What errors.Is looks for.
pub data Target : Type 0 where
  a_sentinel : Sentinel → Target
  a_code : Code → Target

abbrev pub hits_code : Target → Code → Bool
hits_code (a_sentinel s) c = false
hits_code (a_code d) c = ite (Text-discrete d c) true false

abbrev pub hits_sentinel : Target → Sentinel → Bool
unfolding same_sentinel
hits_sentinel (a_sentinel s) r = same_sentinel s r
hits_sentinel (a_code d) r = false

-- errors.Is, with the Is methods of Code, codedError and remoteCodedError.
unfoldable mutual
  pub is_error : Target → GoError → Bool
  is_error t nil = false
  is_error t (opaque m) = false
  is_error t (sentinel s) = hits_sentinel t s
  is_error t (code c) = hits_code t c
  is_error t (coded c e) = hits_code t c || is_error t e
  is_error t (remote c m) = hits_code t c
  is_error t (wrap before e after) = is_error t e
  is_error t (discard e) = is_error t e
  is_error t (joined es) = is_any t es

  pub is_any : Target → GoErrors → Bool
  is_any t no_errors = false
  is_any t (also e es) = is_error t e || is_any t es

-- codes[c] = struct{}{}
unfoldable pub holds_code : Code → List Code → Bool
holds_code c [] = false
holds_code c (d ∷ ds) = let rest = holds_code c ds in ite (Text-discrete d c) true rest

unfoldable pub add_code : Code → List Code → List Code
unfolding holds_code
add_code c cs = if holds_code c cs then cs else c ∷ cs

-- The walk of CodeOf, with the set of the codes so far.
unfoldable mutual
  pub walk : GoError → List Code → List Code
  walk nil cs = cs
  walk (opaque t) cs = cs
  walk (sentinel s) cs = cs
  walk (code c) cs = add_code c cs
  walk (coded c e) cs = walk e (add_code c cs)
  walk (remote c t) cs = add_code c cs
  walk (wrap before e after) cs = walk e cs
  walk (discard e) cs = walk e cs
  walk (joined es) cs = walk_all es cs

  pub walk_all : GoErrors → List Code → List Code
  walk_all no_errors cs = cs
  walk_all (also e es) cs = walk_all es (walk e cs)

abbrev pub sole : List Code → Option Code
sole [] = none
sole (c ∷ []) = some c
sole (c ∷ d ∷ cs) = none

-- CodeOf
unfoldable pub code_of : GoError → Option Code
unfolding walk
code_of e = sole (walk e [])

abbrev pub err_no_owner : Code
err_no_owner = bytes "gor.no_owner"

abbrev pub err_node_dead : Code
err_node_dead = bytes "gor.node_dead"

abbrev pub err_runtime_closed : Code
err_runtime_closed = bytes "gor.runtime_closed"

abbrev pub err_overloaded : Code
err_overloaded = bytes "gor.overloaded"

abbrev pub err_type_not_installed : Code
err_type_not_installed = bytes "gor.type_not_installed"

abbrev pub err_unknown_method : Code
err_unknown_method = bytes "gor.unknown_method"

abbrev pub err_invalid_request : Code
err_invalid_request = bytes "gor.invalid_request"

abbrev pub err_persistence_conflict : Code
err_persistence_conflict = bytes "gor.persistence_conflict"

abbrev pub err_panic : Code
err_panic = bytes "gor.panic"

abbrev pub err_request_encode_failed : Code
err_request_encode_failed = bytes "gor.request_encode_failed"

abbrev pub err_reply_encode_failed : Code
err_reply_encode_failed = bytes "gor.reply_encode_failed"

abbrev pub err_transport_failed : Code
err_transport_failed = bytes "gor.transport_failed"

abbrev pub err_call_cycle : Code
err_call_cycle = bytes "gor.call_cycle"

-- withCode
abbrev pub with_code : Code → GoError → GoError
with_code c e = coded c e

-- The switch of publicError, over errors.Is.
unfoldable pub classify : GoError → GoError
unfolding is_error
classify e =
    if is_error (a_sentinel node_dead) e
    then with_code err_node_dead e
    else if is_error (a_sentinel runtime_closed) e || is_error (a_sentinel mail_closed) e
    then with_code err_runtime_closed e
    else if is_error (a_sentinel overloaded) e
    then with_code err_overloaded e
    else if is_error (a_sentinel type_not_registered) e
    then with_code err_type_not_installed e
    else if is_error (a_sentinel conflict) e
    then with_code err_persistence_conflict e
    else if is_error (a_sentinel panicked) e
    then with_code err_panic e
    else if is_error (a_sentinel call_cycle) e
    then with_code err_call_cycle e
    else e

abbrev pub code_or : Option Code → GoError → GoError → GoError
code_or (some c) e f = e
code_or none e f = f

-- The first test of publicError.
unfoldable pub is_kept : GoError → Bool
unfolding is_error
is_kept e =
    is_nil e || (is_error (a_sentinel canceled) e || is_error (a_sentinel deadline_exceeded) e)

-- publicError
unfoldable pub public_error : GoError → GoError
unfolding is_kept code_of classify
public_error e = if is_kept e then e else code_or (code_of e) e (classify e)

-- stopRejection
unfoldable pub stop_rejection : Code → GoError
stop_rejection c =
    ite (Text-discrete c err_node_dead)
      (with_code err_node_dead (opaque (bytes "node declared dead")))
      (with_code err_runtime_closed (opaque (bytes "runtime is not accepting calls")))

pub record ErrorEnvelope : Type 0 where
  pub code : Text
  pub message : Text

abbrev pub code_text : Option Code → Text
code_text none = []
code_text (some c) = c

-- errorEnvelopeFor; none is the nil envelope.
unfoldable pub error_envelope_for : GoError → Option ErrorEnvelope
unfolding message code_of
error_envelope_for e =
    if is_nil e then none else some (record { code = code_text (code_of e); message = message e })

-- errorFromEnvelope
unfoldable pub error_from_envelope : Option ErrorEnvelope → GoError
error_from_envelope none = nil
error_from_envelope (some v) =
    ite (Text-discrete v.code []) (opaque v.message) (remote v.code v.message)
