-- ===== src/Root/Forward/Probes.antt =====
-- A probe between nodes: handleProbe (forward.go) and transportProber.Probe (prober.go).
use gor.Prelude.{
  Option, none, some, true, false, [], ◌++◌, ◌≡◌, refl, ap, ◌∙◌, if◌then◌else◌, Text, Text-discrete,
  bytes,
}
use mathlib.Core.Logic.{if_pos, if_neg}
use gor.Store.{MemberId}
use gor.Root.Errors.{
  GoError, opaque, sentinel, node_dead, wrap, with_code, message, Returned, value, failure,
  public_error, stop_rejection, error_envelope_for, err_invalid_request, err_node_dead,
  err_reply_encode_failed, is_nil,
}
use gor.Root.Errors.Codes.{is_nil-public_error, message-public_error}
use gor.Root.Lifecycle.{Root, is_running}
use gor.Root.Forward.{
  Json, CallRequest, CallResponse, Server, handle, or_fail, error_response, encode_call_response,
  coded_response, request_kind_probe,
}
use gor.Root.Forward.Delivery.{Crosses}

module _ {V : Type 0} (json : Json V) where
  -- The reply of handleProbe, behind clusterNode.Probe.
  unfoldable pub probe_reply : Option MemberId → Returned Text
  unfolding error_response coded_response encode_call_response
  probe_reply none = error_response json (sentinel node_dead)
  probe_reply (some id) =
      or_fail (json.encode_id id)
        (coded_response json err_reply_encode_failed (bytes "encode probe reply: "))
        (λ reply. encode_call_response json (record { reply = reply; err = none }))

  -- handleProbe. `node` is what the cluster node's Probe returns; none where there is no cluster node.
  unfoldable pub handle_probe : Option (Option MemberId) → Root → Returned Text
  unfolding probe_reply error_response
  handle_probe none root =
      error_response json
        (with_code err_invalid_request (opaque (bytes "cluster node is not configured")))
  handle_probe (some node) root =
      if is_running root.state
      then probe_reply node
      else error_response json (stop_rejection root.stop_code)

  -- probeResponseError
  abbrev pub probe_response_error : Text → GoError
  probe_response_error text = opaque (bytes "probe response error: " ++ text)

  abbrev pub probe_failure : Text → GoError → Returned MemberId
  probe_failure before e = failure (wrap before e [])

  unfoldable pub probe_result : CallResponse → Returned MemberId
  probe_result response = elim response.err [
    | some envelope ↦ failure (probe_response_error envelope.message)
    | none ↦
        or_fail (json.decode_id response.reply) (probe_failure (bytes "decode probe reply: ")) value
  ]

  -- The one result that Probe sends; `send` is the transport's Send to the target's address.
  unfoldable pub probe : (Text → Returned Text) → Text → Returned MemberId
  unfolding probe_result
  probe send node_addr =
      or_fail (json.encode_probe request_kind_probe)
        (probe_failure (bytes "encode probe request: "))
        (λ payload.
          or_fail (send payload)
            (probe_failure (bytes "send probe to " ++ json.quote node_addr ++ bytes ": "))
            (λ encoded.
              or_fail (json.decode_response encoded)
                (probe_failure (bytes "decode probe response: ")) probe_result))

  is_nil-stop_rejection : (c : Text) → is_nil (stop_rejection c) ≡ false
  unfolding stop_rejection
  is_nil-stop_rejection c = elim (Text-discrete c err_node_dead) [
    | yes h ↦ ap is_nil (if_pos (Text-discrete c err_node_dead) h _ _)
    | no h ↦ ap is_nil (if_neg (Text-discrete c err_node_dead) h _ _)
  ]

  probe_error :
      (e : GoError)
      → is_nil e ≡ false
      → probe_result (record { reply = []; err = error_envelope_for e })
        ≡ failure (probe_response_error (message e))
  unfolding probe_result error_envelope_for
  probe_error e h = rw h refl

  module _ {C : Type 0} (server : Server json C) (node_addr : Text) (root : Root) (payload : Text)
      (request : CallRequest) (encoded : json.encode_probe request_kind_probe ≡ value payload)
      (decoded : json.decode_request payload ≡ value request)
      (same_kind : request.kind ≡ request_kind_probe) where
    asked : (r : Returned Text) → handle json server r payload ≡ r
    unfolding handle Text-discrete
    asked r = rw (decoded, same_kind) refl

    answered :
        (response : CallResponse) (r : Returned Text)
        → (c : Crosses json response) → r ≡ value c.wire
        → probe (handle json server r) node_addr ≡ probe_result response
    unfolding probe
    answered response r c h = rw (encoded, asked r, h, c.decoded) refl

    -- Where JSON carries the probe, its reply and the id, a probe of a running Runtime gives the id
    -- of its cluster node, if that one answers.
    pub probe_alive :
        (id : MemberId) (reply : Text)
        → is_running root.state ≡ true
        → json.encode_id id ≡ value reply
        → json.decode_id reply ≡ value id
        → Crosses json (record { reply = reply; err = none })
        → probe (handle json server (handle_probe (some (some id)) root)) node_addr ≡ value id
    unfolding handle_probe probe_reply encode_call_response probe_result
    probe_alive id reply r e d c =
        answered (record { reply = reply; err = none }) (handle_probe (some (some id)) root) c
          (rw (r, e, c.encoded) refl)
        ∙ rw d refl

    -- Where JSON carries the probe and its response, a probe of a Runtime that has left running
    -- fails with the text of its stop, whatever its cluster node is.
    pub probe_stopped :
        (node : Option MemberId)
        → is_running root.state ≡ false
        → Crosses json (record {
          reply = [];
          err = error_envelope_for (public_error (stop_rejection root.stop_code));
        })
        → probe (handle json server (handle_probe (some node) root)) node_addr
          ≡ failure (probe_response_error (message (stop_rejection root.stop_code)))
    unfolding handle_probe error_response encode_call_response
    probe_stopped node r c =
        answered _ (handle_probe (some node) root) c (rw (r, c.encoded) refl)
        ∙ probe_error (public_error (stop_rejection root.stop_code))
            (is_nil-public_error _ ∙ is_nil-stop_rejection root.stop_code)
        ∙ ap (λ t. failure (probe_response_error t)) (message-public_error _)
