-- ===== src/Wire/Sessions.antt =====
-- `handle_tunnel` and `client_tunnel_session` of src/tunnel.rs, with the bytes that each side
-- receives and sends.
use Prim.Native.String.{◌++◌ as push_str}
use punchgate.Common.{
  ℕ, Bool, true, false, Option, none, some, String, List, if◌then◌else◌, Result, ok, err, ◌>>=◌,
  map_err,
}
use punchgate.Types.{ServiceName, ServiceAddr, service_name_eq}
use punchgate.Collections.HashMap.{HashMap, get}
use punchgate.Wire.Frames.{WireError, Json, Sink, write_message, read_message}

pub record TunnelRequest : Type 0 where
  pub service_name : ServiceName

pub record TunnelResponse : Type 0 where
  pub accepted : Bool
  pub reason : Option String

pub data SessionError : Type 0 where
  wire : WireError → SessionError
  -- `TcpStream::connect` and `copy_bidirectional` fail, with the error's text.
  connecting copying : String → SessionError
  tunnel_rejected : String → SessionError

-- What the source takes from outside: the two codecs, and whether a local service can be
-- reached.
pub record Outside : Type 0 where
  pub request_json : Json TunnelRequest
  pub response_json : Json TunnelResponse
  pub connect : ServiceAddr → Result String (Unit {0})

-- How `handle_tunnel` ends: what it sent, and the service that it copied to, if any. An error
-- of the copying is only logged there.
pub record Handled : Type 0 where
  pub sent : Sink
  pub bridged : Option ServiceAddr

abbrev pub accepted_response : TunnelResponse
accepted_response = record { accepted = true; reason = none }

abbrev pub unknown_service : ServiceName → TunnelResponse
unknown_service name = record {
  accepted = false;
  reason = some (push_str "unknown service: " name.text);
}

abbrev pub reason_text : Option String → String
reason_text none = "unknown"
reason_text (some reason) = reason

module _ (outside : Outside) where
  open outside use {request_json, response_json, connect}

  -- Behind the request, with what `services` holds for the name.
  unfoldable pub answer : ServiceName → Option ServiceAddr → Sink → Result SessionError Handled
  unfolding write_message
  answer name none sink = do
    sent ← map_err wire (write_message response_json (unknown_service name) sink)
    ok (record { sent = sent; bridged = none })
  answer name (some local_addr) sink = do
    tcp_stream ← map_err connecting (connect local_addr)
    sent ← map_err wire (write_message response_json accepted_response sink)
    ok (record { sent = sent; bridged = some local_addr })

  unfoldable pub handle_tunnel :
      HashMap ServiceName ServiceAddr → List ℕ → Sink → Result SessionError Handled
  unfolding read_message get answer
  handle_tunnel services stream sink = do
    (request, rest) ← map_err wire (read_message request_json stream)
    answer request.service_name (get request.service_name services) sink

  -- The peer answers what it was sent with bytes, and the copying ends with an error or not.
  unfoldable pub client_tunnel_session :
      (Sink → List ℕ) → Option String → ServiceName → Sink → Result SessionError Sink
  unfolding write_message read_message
  client_tunnel_session peer copied service_name sink = do
    sent ← map_err wire (write_message request_json (record { service_name = service_name }) sink)
    (response, rest) ← map_err wire (read_message response_json (peer sent))
    if response.accepted
        then elim copied [ none ↦ ok sent | some e ↦ err (copying e) ]
        else err (tunnel_rejected (reason_text response.reason))
