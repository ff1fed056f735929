-- ===== src/Tests/Forwards.antt =====
-- A call of node a that node b answers, and probes of node b.
use gor.Prelude.{
  Option, none, some, true, false, List, [], ◌∷◌, ◌≡◌, ◌≢◌, refl, arith, bytes, Text, Text-discrete,
  get, length, take, drop, ◌++◌, zero, suc,
}
use gor.Store.{MemberId, GrainId}
use gor.Root.Errors.{
  GoError, opaque, coded, Returned, value, failure, public_error, error_envelope_for,
  stop_rejection, code_of, walk, add_code, holds_code, message, is_kept, is_error, ErrorEnvelope,
}
use gor.Root.Errors.Codes.{Received}
use gor.Root.Lifecycle.{Root, new_root, is_running, begin_close, leave_running}
use gor.Root.Forward.{
  Json, Server, CallRequest, CallResponse, forward, handle, request_kind_invoke, request_kind_probe,
  occupied_to_wire, OccupiedIdentity,
}
use gor.Root.Forward.Delivery.{Crosses, Reaches, forward_returns, forward_fails}

abbrev grain : GrainId
grain = record { grain_type = bytes "account"; grain_key = bytes "1" }

abbrev node_id : MemberId
node_id = record { node_addr = bytes "b"; generation = bytes "1" }

abbrev probe_request : CallRequest
probe_request = record {
  kind = request_kind_probe;
  grain_type = [];
  grain_key = [];
  method = [];
  args = [];
  occupied = [];
  request_context = [];
}

abbrev short : GoError
short = opaque (bytes "unexpected end of JSON input")

-- Chunks of text behind their lengths.
abbrev chunk : Text → Text
chunk t = length t ∷ t

abbrev first_chunk : Text → Text
first_chunk [] = []
first_chunk (n ∷ t) = take n t

abbrev later_chunks : Text → Text
later_chunks [] = []
later_chunks (n ∷ t) = drop n t

abbrev encode_err : Option ErrorEnvelope → Text → Text
encode_err none reply = 0 ∷ reply
encode_err (some e) reply = 1 ∷ chunk e.code ++ e.message

abbrev decode_response : Text → Returned CallResponse
decode_response [] = failure short
decode_response (zero ∷ reply) = value (record { reply = reply; err = none })
decode_response (suc k ∷ t) =
    value (record {
      reply = [];
      err = some (record { code = first_chunk t; message = later_chunks t });
    })

abbrev encode_occupied : CallRequest → List OccupiedIdentity → Returned Text
encode_occupied r [] = value (
    chunk r.kind
    ++ (chunk r.grain_type
        ++ (chunk r.grain_key ++ (chunk r.method ++ (chunk r.args ++ r.request_context)))))
encode_occupied r (o ∷ os) = failure short

abbrev decode_request : Text → Returned CallRequest
decode_request t =
    let a = later_chunks t in
    let b = later_chunks a in
    let c = later_chunks b in
    let d = later_chunks c in
    value (record {
      kind = first_chunk t;
      grain_type = first_chunk a;
      grain_key = first_chunk b;
      method = first_chunk c;
      args = first_chunk d;
      occupied = [];
      request_context = later_chunks d;
    })

abbrev or_empty : Option Text → Text
or_empty none = []
or_empty (some t) = t

-- An encoding of texts as they are.
abbrev json : Json Text
json = record {
  encode = λ v. value (or_empty v);
  decode = λ t blank. value t;
  encode_request = λ r. encode_occupied r r.occupied;
  decode_request = decode_request;
  encode_response = λ r. value (encode_err r.err r.reply);
  decode_response = decode_response;
  encode_probe = λ kind. value (chunk kind);
  encode_id = λ id. value (chunk id.node_addr ++ id.generation);
  decode_id = λ t. value (record { node_addr = first_chunk t; generation = later_chunks t });
  quote = λ t. t;
}

abbrev new_call : Text → Option Text × Option Text
new_call method = (some [], some [])

abbrev refused : GoError
refused = coded (bytes "app.limit") (opaque (bytes "over the limit"))

-- A Runtime whose account doubles the argument, or refuses it.
abbrev server : Returned (Option Text) → Server json Text
server result = record {
  admission = none;
  types = (bytes "account", new_call) ∷ [];
  decode_context = value;
  engine = λ ctx occupied id method args reply. result;
  stop = none;
}

reaches :
    (result : Returned (Option Text))
    → Reaches json (server result) (value []) [] grain (bytes "Add") (some (5 ∷ []))
unfolding get Text-discrete occupied_to_wire
reaches result = record {
  raw_args = 5 ∷ [];
  raw_context = [];
  payload =
      chunk request_kind_invoke
      ++ (chunk (bytes "account")
          ++ (chunk (bytes "1") ++ (chunk (bytes "Add") ++ chunk (5 ∷ []))));
  ctx = [];
  new_call = new_call;
  args_encoded = refl;
  context_encoded = refl;
  request_encoded = refl;
  request_decoded = refl;
  admitted = refl;
  context_decoded = refl;
  installed = refl;
  known = refl;
  args_decoded = refl;
}

forward_returns_example :
    forward json
      (value [])
      []
      (handle json (server (value (some (10 ∷ [])))) (failure short))
      none
      grain
      (bytes "Add")
      (some (5 ∷ []))
      (some [])
    ≡ value (some (10 ∷ []))
forward_returns_example =
    forward_returns json (server (value (some (10 ∷ [])))) (value []) [] grain (bytes "Add")
      (some (5 ∷ [])) (reaches (value (some (10 ∷ [])))) (failure short) none (10 ∷ []) [] (10 ∷ [])
      refl refl refl (record { wire = 0 ∷ 10 ∷ []; encoded = refl; decoded = refl })

refused_code : code_of (public_error refused) ≢ some []
unfolding code_of walk add_code holds_code public_error is_kept is_error Text-discrete
refused_code h = ground arith

refused-Crosses :
    Crosses json (record { reply = []; err = error_envelope_for (public_error refused) })
unfolding error_envelope_for code_of walk add_code holds_code public_error is_kept is_error
    Text-discrete message
refused-Crosses = record {
  wire = 1 ∷ chunk (bytes "app.limit") ++ bytes "over the limit";
  encoded = refl;
  decoded = refl;
}

forward_fails_example :
    (r : GoError) × (forward json
        (value [])
        []
        (handle json (server (failure refused)) (failure short))
        none
        grain
        (bytes "Add")
        (some (5 ∷ []))
        (some [])
      ≡ failure r)
    × Received (public_error refused) r
forward_fails_example =
    forward_fails json (server (failure refused)) (value []) [] grain (bytes "Add") (some (5 ∷ []))
      (reaches (failure refused)) (failure short) none refused refl refl refl refused_code
      refused-Crosses (some [])

running : is_running new_root.state ≡ true
unfolding new_root
running = refl

abbrev closed : Root
closed = (begin_close new_root).1

left : is_running closed.state ≡ false
unfolding begin_close leave_running new_root
left = refl

stop-Crosses : Crosses json (record {
  reply = [];
  err = error_envelope_for (public_error (stop_rejection closed.stop_code));
})
unfolding error_envelope_for code_of walk add_code holds_code public_error is_kept is_error
    Text-discrete message stop_rejection begin_close leave_running new_root
stop-Crosses = record {
  wire = 1 ∷ chunk (bytes "gor.runtime_closed") ++ bytes "runtime is not accepting calls";
  encoded = refl;
  decoded = refl;
}
