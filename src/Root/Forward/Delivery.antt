-- ===== src/Root/Forward/Delivery.antt =====
-- A call from one node to another (forward.go): forward on the one side, handle on the other.
use gor.Prelude.{
  Option, none, some, true, false, List, [], ◌∷◌, get, ◌≡◌, ◌≢◌, refl, ap, ◌∙◌, ite, Text,
  Text-discrete,
}
use gor.Store.{GrainId}
use gor.Root.Errors.{
  GoError, Returned, value, failure, public_error, is_nil, code_of, error_envelope_for,
  error_from_envelope,
}
use gor.Root.Errors.Codes.{
  Received, error_from_envelope_lem, is_nil-public_error, error_envelope_for-public_error,
}
use gor.Root.Forward.{
  Json, Server, CallRequest, CallResponse, forward, handle, handle_invoke, admitted_call,
  typed_call, run_call, answer, decode_args, is_unknown, request_kind_invoke, occupied_to_wire,
  occupied_from_wire, error_response, encode_call_response, decode_reply, read_response,
}

pub occupied_from_wire-occupied_to_wire :
    (chain : List GrainId) → occupied_from_wire (occupied_to_wire chain) ≡ chain
unfolding occupied_from_wire occupied_to_wire
occupied_from_wire-occupied_to_wire [] = refl
occupied_from_wire-occupied_to_wire (id ∷ chain) =
    ap (◌∷◌ id) (occupied_from_wire-occupied_to_wire chain)

module _ {V : Type 0} (json : Json V) where
  -- The response is encoded, and decoded as it was.
  pub record Crosses (response : CallResponse) : Type 0 where
    pub wire : Text
    pub encoded : json.encode_response response ≡ value wire
    pub decoded : json.decode_response wire ≡ value response

  -- The request as forward builds it.
  abbrev pub request_of : List GrainId → GrainId → Text → Text → Text → CallRequest
  request_of occupied id method args context = record {
    kind = request_kind_invoke;
    grain_type = id.grain_type;
    grain_key = id.grain_key;
    method = method;
    args = args;
    occupied = occupied_to_wire occupied;
    request_context = context;
  }

  read_error :
      (method : Text) (blank : Option V) (e : GoError)
      → is_nil e ≡ false
      → read_response json method blank (record { reply = []; err = error_envelope_for e })
        ≡ failure (error_from_envelope (error_envelope_for e))
  unfolding read_response error_envelope_for
  read_error method blank e h = rw h refl

  module _ {C : Type 0} (server : Server json C) (context : Returned Text) (occupied : List GrainId)
      (id : GrainId) (method : Text) (args : Option V) where
    -- The request reaches the engine of a Runtime that runs and has the type and the method: both sides
    -- encode and decode the arguments and the context of this request without loss.
    pub record Reaches : Type 0 where
      pub raw_args : Text
      pub raw_context : Text
      pub payload : Text
      pub ctx : C
      pub new_call : Text → Option V × Option V
      pub args_encoded : json.encode args ≡ value raw_args
      pub context_encoded : context ≡ value raw_context
      pub request_encoded :
          json.encode_request (request_of occupied id method raw_args raw_context) ≡ value payload
      pub request_decoded :
          json.decode_request payload ≡ value (request_of occupied id method raw_args raw_context)
      pub admitted : server.admission ≡ none
      pub context_decoded : server.decode_context raw_context ≡ value ctx
      pub installed : get Text-discrete id.grain_type server.types ≡ some new_call
      pub known : is_unknown json server (new_call method) ≡ false
      pub args_decoded : decode_args json server raw_args (new_call method).0 ≡ value args

    module _ (g : Reaches) (probe : Returned Text) (ctx_err : Option GoError) where
      abbrev outcome : Returned (Option V)
      outcome = server.engine g.ctx occupied id method args (g.new_call method).1

      invoke_kind : ite (Text-discrete request_kind_invoke request_kind_invoke) true false ≡ true
      unfolding Text-discrete
      invoke_kind = refl

      handled : handle json server probe g.payload ≡ answer json server method outcome
      unfolding handle handle_invoke admitted_call typed_call run_call
      handled =
          rw
            (
              g.request_decoded,
              invoke_kind,
              g.admitted,
              g.context_decoded,
              g.installed,
              g.known,
              g.args_decoded,
              occupied_from_wire-occupied_to_wire occupied,
            )
            refl

      delivered :
          (response : CallResponse) (blank : Option V)
          → (c : Crosses response) → answer json server method outcome ≡ value c.wire
          → forward json context occupied (handle json server probe) ctx_err id method args blank
            ≡ read_response json method blank response
      unfolding forward
      delivered response blank c a =
          rw (g.args_encoded, g.context_encoded, g.request_encoded, handled, a, c.decoded) refl

      -- Where the request reaches the engine of a serving Runtime, and JSON carries the request, the
      -- response and the reply, forward on the one node and handle on the other return to the caller
      -- the reply that the engine there gives.
      pub forward_returns :
          (v blank : V) (raw : Text)
          → outcome ≡ value (some v)
          → json.encode (some v) ≡ value raw
          → json.decode raw blank ≡ value v
          → Crosses (record { reply = raw; err = none })
          → forward json context occupied
              (handle json server probe)
              ctx_err
              id
              method
              args
              (some blank)
            ≡ value (some v)
      unfolding answer encode_call_response decode_reply
      forward_returns v blank raw o encoded decoded c =
          delivered (record { reply = raw; err = none }) (some blank) c
            (rw (o, encoded, c.encoded) refl)
          ∙ rw decoded refl

      -- Where the request reaches the engine of a serving Runtime that is not stopping, JSON carries
      -- the request and the error's response, and what publicError makes of the engine's error has
      -- no determined code or one that is not empty, the caller of forward gets an error with the
      -- text of what publicError makes and with that code, if there is one, and no other code or
      -- sentinel.
      pub forward_fails :
          (e : GoError)
          → outcome ≡ failure e
          → is_nil e ≡ false
          → server.stop ≡ none
          → code_of (public_error e) ≢ some []
          → Crosses (record { reply = []; err = error_envelope_for (public_error e) })
          → (blank : Option V)
          → (r : GoError) × (forward json context occupied
                (handle json server probe)
                ctx_err
                id
                method
                args
                blank
              ≡ failure r)
            × Received (public_error e) r
      unfolding answer error_response encode_call_response
      forward_fails e o some_error s not_empty c blank = (
        error_from_envelope (error_envelope_for (public_error e)),
        delivered (record { reply = []; err = error_envelope_for (public_error e) }) blank c
              (rw (o, s, error_envelope_for-public_error e, c.encoded) refl)
            ∙ read_error method blank (public_error e) (is_nil-public_error e ∙ some_error),
        error_from_envelope_lem (public_error e) (is_nil-public_error e ∙ some_error) not_empty,
      )
