-- ===== src/Wire/Outcomes.antt =====
-- A client of src/tunnel.rs with the server of src/tunnel.rs as its peer.
use Prim.Native.String.{◌++◌ as push_str}
use mathlib.Core.List.{append-nil}
use punchgate.Common.{
  ℕ, ◌+◌, ◌≤◌, ◌≡◌, ◌∙◌, refl, sym, ap, subst, String, if◌then◌else◌, Option, none, some, List, [],
  length, Result, ok, err, ◌>>=◌, map_err,
}
use punchgate.Types.{ServiceName, ServiceAddr, service_name_eq}
use punchgate.Collections.HashMap.{HashMap, get}
use punchgate.Wire.Frames.{
  Json, Sink, WireError, unexpected_eof, read_exact, max_message_size, write_message, read_message,
}
use punchgate.Wire.Framing.{write_then_read}
use punchgate.Wire.Sessions.{
  TunnelRequest, TunnelResponse, SessionError, wire, connecting, tunnel_rejected, Outside, Handled,
  accepted_response, unknown_service, answer, reason_text, handle_tunnel, client_tunnel_session,
}

abbrev pub fresh : ℕ → Sink
fresh room = record { bytes = []; room = room }

-- The message is encoded and decoded, is short enough, and the connection has room for it.
abbrev pub IsCarried : {T : Type 0} → Json T → ℕ → T → Type 0
IsCarried codec room msg =
    (b : List ℕ) × (codec.to_vec msg ≡ ok b)
    × (codec.from_slice b ≡ ok msg)
    × length b ≤ max_message_size
    × 4 + length b ≤ room

-- What is written on a fresh connection, and read on the other side.
abbrev pub Exchanged : {T : Type 0} → Json T → ℕ → T → Type 0
Exchanged codec room msg =
    (sent : Sink) × (write_message codec msg (fresh room) ≡ ok sent)
    × (read_message codec sent.bytes ≡ ok (msg, []))

exchange :
    {T : Type 0} (codec : Json T) (room : ℕ) (msg : T)
    → IsCarried codec room msg
    → Exchanged codec room msg
exchange codec room msg (b, e, d, h, r) =
    let (sent, w, k) = write_then_read codec msg b [] room e d h r in
    (sent, w, ap (λ s. read_message codec s) (sym (append-nil sent.bytes)) ∙ k)

module _ (outside : Outside) (room : ℕ) where
  open outside use {request_json, response_json, connect}

  abbrev sent_by : Result SessionError Handled → List ℕ
  sent_by (ok handled) = handled.sent.bytes
  sent_by (err e) = []

  -- The server as a peer: what comes back for the bytes that arrive.
  abbrev pub server : HashMap ServiceName ServiceAddr → Sink → List ℕ
  server services sent = sent_by (handle_tunnel outside services sent.bytes (fresh room))

  module _ (name : ServiceName) where
    abbrev request : TunnelRequest
    request = record { service_name = name }

    abbrev unknown_text : String
    unknown_text = push_str "unknown service: " name.text

    -- How the client's session ends where the server holds the name, by whether the server
    -- reaches the service.
    abbrev expected_at : Result String (Unit {0}) → Sink → Result SessionError Sink
    expected_at (ok reached) sent = ok sent
    expected_at (err why) sent = err (wire unexpected_eof)

    abbrev pub expected : Option ServiceAddr → Sink → Result SessionError Sink
    expected none sent = err (tunnel_rejected unknown_text)
    expected (some addr) sent = expected_at (connect addr) sent

    -- The server copies to the service that it holds, where it reaches it.
    abbrev IsBridgedAt :
        ServiceAddr → Result String (Unit {0}) → Result SessionError Handled → Type 0
    IsBridgedAt addr (ok reached) (ok handled) = handled.bridged ≡ some addr
    IsBridgedAt addr (err why) (err e) = e ≡ connecting why
    IsBridgedAt addr _ _ = ⊥

    abbrev pub IsBridged : Option ServiceAddr → Result SessionError Handled → Type 0
    IsBridged none (ok handled) = handled.bridged ≡ none
    IsBridged none (err e) = ⊥
    IsBridged (some addr) handled = IsBridgedAt addr (connect addr) handled

    -- The client's session behind the answer.
    abbrev read_response :
        Sink → Result WireError (TunnelResponse × List ℕ) → Result SessionError Sink
    read_response sent m =
        map_err wire m
        >>= (λ r. if r.0.accepted then ok sent else err (tunnel_rejected (reason_text r.0.reason)))

    abbrev ends : Option ServiceAddr → Sink → Result SessionError Handled
    ends bridged sent = ok (record { sent = sent; bridged = bridged })

    read_nothing : read_message response_json [] ≡ err unexpected_eof
    unfolding read_message read_exact
    read_nothing = refl

    abbrev AgreesAt :
        ServiceAddr → Sink → Result String (Unit {0}) → Result SessionError Handled → Type 0
    AgreesAt addr sent c handled =
        (read_response sent (read_message response_json (sent_by handled)) ≡ expected_at c sent)
        × IsBridgedAt addr c handled

    outcome_at :
        (addr : ServiceAddr) (sent yes_sent : Sink)
        → read_message response_json yes_sent.bytes ≡ ok (accepted_response, [])
        → (c : Result String (Unit {0}))
        → AgreesAt addr sent c (map_err connecting c >>= (λ _. ends (some addr) yes_sent))
    outcome_at addr sent yes_sent k (ok reached) = (ap (read_response sent) k, refl)
    outcome_at addr sent yes_sent k (err why) = (ap (read_response sent) read_nothing, refl)

    abbrev AgreesWith : Option ServiceAddr → Sink → Result SessionError Handled → Type 0
    AgreesWith found sent handled =
        (read_response sent (read_message response_json (sent_by handled)) ≡ expected found sent)
        × IsBridged found handled

    outcome :
        (found : Option ServiceAddr) (sent : Sink)
        → Exchanged response_json room accepted_response
        → Exchanged response_json room (unknown_service name)
        → AgreesWith found sent (answer outside name found (fresh room))
    unfolding answer
    outcome none sent yes_sent (no_sent, w, k) =
        subst (λ m. AgreesWith none sent (map_err wire m >>= ends none)) (sym w)
          (ap (read_response sent) k, refl)
    outcome (some addr) sent (yes_sent, w, k) no_sent =
        subst
          (λ m.
            AgreesAt addr sent (connect addr)
              (map_err connecting (connect addr) >>= (λ _. map_err wire m >>= ends (some addr))))
          (sym w) (outcome_at addr sent yes_sent k (connect addr))

    handled_eq :
        (services : HashMap ServiceName ServiceAddr) (bytes : List ℕ)
        → read_message request_json bytes ≡ ok (request, [])
        → handle_tunnel outside services bytes (fresh room)
          ≡ answer outside name (get name services) (fresh room)
    unfolding handle_tunnel
    handled_eq services bytes k =
        ap
          (λ (m : Result WireError (TunnelRequest × List ℕ)).
            map_err wire m
            >>= (λ r. answer outside r.0.service_name (get r.0.service_name services) (fresh room)))
          k

    client_eq :
        (peer : Sink → List ℕ) (sent : Sink)
        → write_message request_json request (fresh room) ≡ ok sent
        → client_tunnel_session outside peer none name (fresh room)
          ≡ read_response sent (read_message response_json (peer sent))
    unfolding client_tunnel_session
    client_eq peer sent w =
        ap
          (λ (m : Result WireError Sink).
            map_err wire m >>= (λ s. read_response s (read_message response_json (peer s))))
          w

    -- A client with this server as its peer: where the server holds the name and reaches the
    -- service, the session reaches the copying, and the server copies to that service; where it
    -- does not hold the name, the session fails with the server's reason, which names the
    -- service; where it cannot reach the service, the server sends nothing and the session
    -- ends at the end of the stream. For messages that the codecs carry.
    pub session_outcome :
        (services : HashMap ServiceName ServiceAddr)
        → IsCarried request_json room request
        → IsCarried response_json room accepted_response
        → IsCarried response_json room (unknown_service name)
        → (sent : Sink) × (client_tunnel_session outside (server services) none name (fresh room)
            ≡ expected (get name services) sent)
          × IsBridged (get name services) (handle_tunnel outside services sent.bytes (fresh room))
    session_outcome services q yes_response no_response =
        let (sent, w, k) = exchange request_json room request q in
        let agreed =
          outcome (get name services) sent
            (exchange response_json room accepted_response yes_response)
            (exchange response_json room (unknown_service name) no_response) in
        let h = handled_eq services sent.bytes k in
        (
          sent,
          client_eq (server services) sent w
              ∙ ap (λ x. read_response sent (read_message response_json (sent_by x))) h
              ∙ agreed.0,
          subst (IsBridged (get name services)) (sym h) agreed.1,
        )
