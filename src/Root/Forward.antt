-- ===== src/Root/Forward.antt =====
-- Calls between nodes: forward.go and prober.go. encoding/json and the transport are arguments. V is the
-- type of arguments and replies (any); none is a nil `any`. A raw JSON message is its bytes, and C is the
-- request context that a call carries.
pub mod Delivery
pub mod Probes
use gor.Prelude.{
  Option, none, some, Bool, true, false, ◌&&◌, List, [], ◌∷◌, ◌++◌, Map, get, ite, if◌then◌else◌,
  Text, Text-discrete, bytes, map,
}
use gor.Store.{GrainId, MemberId}
use gor.Root.Errors.{
  Code, GoError, nil, opaque, sentinel, canceled, node_dead, code, wrap, with_code, is_error,
  a_sentinel, Returned, value, failure, public_error, stop_rejection, ErrorEnvelope,
  error_envelope_for, error_from_envelope, err_request_encode_failed, err_transport_failed,
  err_invalid_request, err_type_not_installed, err_unknown_method, err_reply_encode_failed,
}

-- occupiedIdentity
pub record OccupiedIdentity : Type 0 where
  pub grain_type : Text
  pub grain_key : Text

pub record CallRequest : Type 0 where
  pub kind : Text
  pub grain_type : Text
  pub grain_key : Text
  pub method : Text
  pub args : Text
  pub occupied : List OccupiedIdentity
  pub request_context : Text

pub record CallResponse : Type 0 where
  pub reply : Text
  pub err : Option ErrorEnvelope

-- occupiedToWire, occupiedFromWire
unfoldable pub occupied_to_wire : List GrainId → List OccupiedIdentity
occupied_to_wire [] = []
occupied_to_wire (id ∷ chain) =
    record { grain_type = id.grain_type; grain_key = id.grain_key } ∷ occupied_to_wire chain

unfoldable pub occupied_from_wire : List OccupiedIdentity → List GrainId
occupied_from_wire [] = []
occupied_from_wire (id ∷ wire) =
    record { grain_type = id.grain_type; grain_key = id.grain_key } ∷ occupied_from_wire wire

abbrev pub request_kind_invoke : Text
request_kind_invoke = bytes "invoke"

abbrev pub request_kind_probe : Text
request_kind_probe = bytes "probe"

-- json.Marshal and json.Unmarshal of the types that cross the network; a value is decoded into one of its
-- type. `quote` is the %q of package fmt.
pub record Json (V : Type 0) : Type 0 where
  pub encode : Option V → Returned Text
  pub decode : Text → V → Returned V
  pub encode_request : CallRequest → Returned Text
  pub decode_request : Text → Returned CallRequest
  pub encode_response : CallResponse → Returned Text
  pub decode_response : Text → Returned CallResponse
  pub encode_probe : Text → Returned Text
  pub encode_id : MemberId → Returned Text
  pub decode_id : Text → Returned MemberId
  pub quote : Text → Text

-- v, err := ...; if err != nil { return ..., withCode(code, fmt.Errorf("...: %w", err)) }
abbrev pub or_fail {ℓ κ} : {A : Type ℓ} {B : Type κ} → Returned A → (GoError → B) → (A → B) → B
or_fail (value a) fail next = next a
or_fail (failure e) fail next = fail e

abbrev pub coded_failure {ℓ} : {A : Type ℓ} → Code → Text → GoError → Returned A
coded_failure c before e = failure (with_code c (wrap before e []))

module _ {V : Type 0} (json : Json V) where
  -- encodeCallResponse
  unfoldable pub encode_call_response : CallResponse → Returned Text
  encode_call_response response =
      or_fail (json.encode_response response)
        (λ e. failure (wrap (bytes "encode invocation response: ") e [])) value

  -- errorResponse
  unfoldable pub error_response : GoError → Returned Text
  unfolding encode_call_response
  error_response e =
      encode_call_response (record { reply = []; err = error_envelope_for (public_error e) })

  abbrev pub coded_response : Code → Text → GoError → Returned Text
  unfolding error_response
  coded_response c before e = error_response (with_code c (wrap before e []))

  -- The last part of forward: `reply` is the value to decode into, or none for a nil reply.
  unfoldable pub decode_reply : Text → Option V → Text → Returned (Option V)
  decode_reply method none raw = value none
  decode_reply method (some blank) raw =
      or_fail (json.decode raw blank)
        (coded_failure err_transport_failed (bytes "decode " ++ method ++ bytes " reply: "))
        (λ v. value (some v))

  abbrev pub read_response : Text → Option V → CallResponse → Returned (Option V)
  unfolding decode_reply
  read_response method blank response = elim response.err [
    | none ↦ decode_reply method blank response.reply
    | some envelope ↦ failure (error_from_envelope (some envelope))
  ]

  -- The error of Send: that of the context, if it has ended.
  abbrev pub send_failed : Option GoError → GoError → GoError
  send_failed (some ctx_err) e = ctx_err
  send_failed none e = with_code err_transport_failed e

  -- forward. `context` is what requestContextPayload returns, `send` the transport's Send to the owner, and
  -- `ctx_err` the error of the context behind it.
  unfoldable pub forward :
      Returned Text
      → List GrainId
      → (Text → Returned Text)
      → Option GoError
      → GrainId
      → Text
      → Option V
      → Option V
      → Returned (Option V)
  unfolding read_response
  forward context occupied send ctx_err id method args blank =
      or_fail (json.encode args)
        (coded_failure err_request_encode_failed
          (bytes "encode " ++ method ++ bytes " arguments: "))
        (λ encoded_args.
          or_fail context
            (coded_failure err_request_encode_failed (bytes "encode request context: "))
            (λ encoded_context.
              or_fail
                (json.encode_request (record {
                  kind = request_kind_invoke;
                  grain_type = id.grain_type;
                  grain_key = id.grain_key;
                  method = method;
                  args = encoded_args;
                  occupied = occupied_to_wire occupied;
                  request_context = encoded_context;
                }))
                (coded_failure err_request_encode_failed (bytes "encode invocation request: "))
                (λ payload.
                  or_fail (send payload) (λ e. failure (send_failed ctx_err e))
                    (λ encoded.
                      or_fail (json.decode_response encoded)
                        (coded_failure err_transport_failed (bytes "decode invocation response: "))
                        (read_response method blank)))))

  -- What the serving Runtime is at a request: the error of its admit, the newCall of each type, the
  -- decoding of the request context, the engine's Invoke, and the stop code where done is closed once
  -- Invoke has returned.
  pub record Server (C : Type 0) : Type 0 where
    pub admission : Option GoError
    pub types : Map Text (Text → Option V × Option V)
    pub decode_context : Text → Returned C
    pub engine : C → List GrainId → GrainId → Text → Option V → Option V → Returned (Option V)
    pub stop : Option Code

  -- A cancellation once the serving Runtime is stopping is that of the stop.
  unfoldable pub stopped_error : Option Code → GoError → GoError
  unfolding is_error
  stopped_error none e = e
  stopped_error (some c) e = if is_error (a_sentinel canceled) e then stop_rejection c else e

  module _ {C : Type 0} (server : Server C) where
    -- handleInvoke, behind the engine's Invoke.
    unfoldable pub answer : Text → Returned (Option V) → Returned Text
    unfolding error_response coded_response encode_call_response stopped_error
    answer method (failure e) = error_response (stopped_error server.stop (public_error e))
    answer method (value reply) =
        or_fail (json.encode reply)
          (coded_response err_reply_encode_failed (bytes "encode " ++ method ++ bytes " reply: "))
          (λ encoded. encode_call_response (record { reply = encoded; err = none }))

    -- if args != nil { json.Unmarshal }
    abbrev pub decode_args : Text → Option V → Returned (Option V)
    decode_args raw none = value none
    decode_args raw (some blank) = or_fail (json.decode raw blank) failure (λ v. value (some v))

    -- args == nil && reply == nil
    abbrev pub is_unknown : Option V × Option V → Bool
    is_unknown (none, none) = true
    is_unknown (none, some r) = false
    is_unknown (some a, r) = false

    unfoldable pub run_call : CallRequest → C → Option V × Option V → Returned Text
    unfolding answer coded_response error_response
    run_call request ctx call =
        if is_unknown call
        then error_response (
            with_code err_unknown_method
              (opaque (bytes "unknown method " ++ json.quote request.method)))
        else or_fail (decode_args request.args call.0)
            (coded_response err_invalid_request
              (bytes "decode " ++ request.method ++ bytes " arguments: "))
            (λ args. answer request.method (
              server.engine ctx (occupied_from_wire request.occupied)
                (record { grain_type = request.grain_type; grain_key = request.grain_key })
                request.method args call.1))

    unfoldable pub typed_call :
        CallRequest → C → Option (Text → Option V × Option V) → Returned Text
    unfolding run_call error_response
    typed_call request ctx none =
        error_response (wrap [] (code err_type_not_installed) (bytes ": " ++ request.grain_type))
    typed_call request ctx (some new_call) = run_call request ctx (new_call request.method)

    unfoldable pub admitted_call : Option GoError → CallRequest → Returned Text
    unfolding typed_call error_response
    admitted_call (some e) request = error_response e
    admitted_call none request =
        or_fail (server.decode_context request.request_context)
          (λ e. error_response (with_code err_invalid_request e))
          (λ ctx. typed_call request ctx (get Text-discrete request.grain_type server.types))

    -- handleInvoke
    unfoldable pub handle_invoke : CallRequest → Returned Text
    unfolding admitted_call
    handle_invoke request = admitted_call server.admission request

    -- handle; `probe` is what handleProbe returns.
    unfoldable pub handle : Returned Text → Text → Returned Text
    unfolding handle_invoke coded_response error_response
    handle probe payload =
        or_fail (json.decode_request payload)
          (coded_response err_invalid_request (bytes "decode invocation request: "))
          (λ request.
            if ite (Text-discrete request.kind request_kind_invoke) true false
            then handle_invoke request
            else if ite (Text-discrete request.kind request_kind_probe) true false
            then probe
            else error_response (
                with_code err_invalid_request
                  (opaque (bytes "unknown request kind " ++ json.quote request.kind))))
