-- ===== src/Tests/Messages.antt =====
-- The messages and registries of src/tunnel.rs at concrete inputs. The codecs know the messages
-- that the tests send.
use punchgate.Common.{
  ℕ, zero, suc, ◌≡◌, ◌≢◌, refl, true, false, none, some, String, List, [], ◌∷◌, ◌++◌, length, arith,
  Result, ok, err, nat_eq,
}
use punchgate.Types.{ServiceName, ServiceAddr, service_name_eq}
use punchgate.Collections.HashMap.{HashMap, get}
use punchgate.Wire.Frames.{Json, Sink, message_too_large, write_message, read_message}
use punchgate.Wire.Framing.{write_then_read, write_then_refuse}
use punchgate.Wire.Sessions.{
  TunnelRequest, TunnelResponse, Outside, accepted_response, unknown_service, handle_tunnel,
  client_tunnel_session,
}
use punchgate.Wire.Outcomes.{IsBridged, expected, fresh, server, session_outcome}
use punchgate.Wire.Registries.{
  TunnelRegistry, new_registry, register_step, unregister_step, registry_run, register_tunnel,
  active_count, register-registry_run,
}
use punchgate.Tests.Toy.{web, local}

abbrev web_request : TunnelRequest
web_request = record { service_name = web }

abbrev toy_requests : Json TunnelRequest
toy_requests = record {
  to_vec = λ request. ok (1 ∷ 2 ∷ 3 ∷ []);
  from_slice = λ bytes. ok web_request;
}

abbrev read_response : List ℕ → Result String TunnelResponse
read_response (zero ∷ []) = ok (unknown_service web)
read_response _ = ok accepted_response

abbrev write_response : TunnelResponse → Result String (List ℕ)
write_response response = elim response.accepted [ true ↦ ok (1 ∷ 1 ∷ []) | false ↦ ok (0 ∷ []) ]

abbrev toy_outside : Outside
toy_outside = record {
  request_json = toy_requests;
  response_json = record { to_vec = write_response; from_slice = read_response };
  connect = λ addr. ok tt;
}

abbrev services : HashMap ServiceName ServiceAddr
services = (web, local) ∷ []

write_then_read_example :
    (sent : Sink) × (write_message toy_requests web_request (record { bytes = []; room = 100 })
      ≡ ok sent)
    × (read_message toy_requests (sent.bytes ++ 7 ∷ []) ≡ ok (web_request, 7 ∷ []))
write_then_read_example =
    write_then_read toy_requests web_request (1 ∷ 2 ∷ 3 ∷ []) (7 ∷ []) 100 refl refl (omega arith)
      (omega arith)

-- 65537 bytes.
abbrev zeros : ℕ → List ℕ
zeros zero = []
zeros (suc n) = 0 ∷ zeros n

length-zeros : (n : ℕ) → length (zeros n) ≡ n
length-zeros zero = refl
length-zeros (suc n) = omega (arith, length-zeros n)

abbrev long_codec : List ℕ → Json String
long_codec bytes = record { to_vec = λ s. ok bytes; from_slice = λ b. ok "long" }

write_then_refuse_example :
    (sent : Sink) × (write_message
        (long_codec (zeros 65537))
        "long"
        (record { bytes = []; room = 70000 })
      ≡ ok sent)
    × (read_message (long_codec (zeros 65537)) (sent.bytes ++ [])
        ≡ err (message_too_large (length (zeros 65537))))
write_then_refuse_example =
    write_then_refuse (long_codec (zeros 65537)) "long" (zeros 65537) [] 70000 refl
      (omega (arith, length-zeros 65537)) (omega (arith, length-zeros 65537))
      (omega (arith, length-zeros 65537))

read_one : read_message toy_requests (0 ∷ 0 ∷ 0 ∷ 1 ∷ 9 ∷ 8 ∷ []) ≡ ok (web_request, 8 ∷ [])
unfolding read_message
read_one = refl

session_outcome_example :
    (sent : Sink) × (client_tunnel_session toy_outside
        (server toy_outside 100 services)
        none
        web
        (fresh 100)
      ≡ expected toy_outside 100 web (get web services) sent)
    × IsBridged toy_outside 100 web
        (get web services)
        (handle_tunnel toy_outside services sent.bytes (fresh 100))
session_outcome_example =
    session_outcome toy_outside 100 web services
      (1 ∷ 2 ∷ 3 ∷ [], refl, refl, omega arith, omega arith)
      (1 ∷ 1 ∷ [], refl, refl, omega arith, omega arith)
      (0 ∷ [], refl, refl, omega arith, omega arith)

abbrev one_left : TunnelRegistry ℕ
one_left = record { tunnels = (1, ("ssh", 11)) ∷ []; next_id = 2 }

run_steps :
    registry_run
      (register_step "web" 10 ∷ register_step "ssh" 11 ∷ unregister_step 0 ∷ [])
      new_registry
    ≡ some one_left
unfolding registry_run new_registry nat_eq
run_steps = refl

abbrev two_left : TunnelRegistry ℕ
two_left = record { tunnels = (1, ("ssh", 11)) ∷ (2, ("web", 12)) ∷ []; next_id = 3 }

register_third : register_tunnel "web" 12 one_left ≡ some (2, two_left)
unfolding register_tunnel nat_eq
register_third = refl

register-registry_run_example :
    (get 2 one_left.tunnels ≡ none)
    × (get 2 two_left.tunnels ≡ some ("web", 12))
    × ((j : ℕ) → j ≢ 2 → get j two_left.tunnels ≡ get j one_left.tunnels)
    × (active_count two_left ≡ suc (active_count one_left))
register-registry_run_example =
    register-registry_run (register_step "web" 10 ∷ register_step "ssh" 11 ∷ unregister_step 0 ∷ [])
      one_left two_left "web" 12 2 run_steps register_third
