-- ===== src/Tests/Clients.antt =====
-- WebSocket clients that come, are sent frames and go.
use homeserver_rust.Prelude.{
  ℕ, ◌%◌, ◌^◌, ◌≡◌, refl, true, false, ◌&&◌, List, [], ◌∷◌, ◌++◌, Option, none, some, String,
}
use homeserver_rust.Models.{FullSystemSnapshot}
use homeserver_rust.Routes.Ws.{
  StreamEvent, ServerEvent, joined, client, Server, greeted, streamed, OpCode, send_frame, is_close,
  stream_turn, stream_turns, stream_system, client_turn, settled, at_client, server_turn,
  server_turns, fetch_add, fetch_sub, Frame, PumpEvent, pump_turn, pump_periodic,
}
use homeserver_rust.Routes.Ws.Frames.{
  texts, json_of, json_goes, jsons, all_go_on, Delivered, stream_system-Delivered,
}
use homeserver_rust.Routes.Ws.Clients.{alive, server_turns-alive}
use homeserver_rust.History.Db.{statement, touch}
use homeserver_rust.Routes.App.{
  Status, system_route, app, ping, health_handler, rejected, upgrade, ws_system,
}
use homeserver_rust.Tests.Loop.{empty_world}
use homeserver_rust.Tests.Setup.{sample}

program : Unit {0}
unfolding send_frame is_close stream_turn stream_turns stream_system client_turn settled at_client
    server_turn server_turns fetch_add fetch_sub pump_turn pump_periodic
program = tt

abbrev to_string : FullSystemSnapshot ℕ → Option String
to_string s = some "{}"

-- The second snapshot cannot be sent.
abbrev events : List (StreamEvent ℕ)
events =
    StreamEvent.received (sample 1_000 5) true
    ∷ StreamEvent.lagged 3
    ∷ StreamEvent.received (sample 9_000 5) false
    ∷ StreamEvent.pinged true
    ∷ []

sent_once : texts (stream_system to_string (some "hello") true events).frames ≡ "hello" ∷ "{}" ∷ []
unfolding program
sent_once = refl

stream_system-Delivered_example :
    ((stream_system to_string (some "hello") true events).running
      ≡ (json_goes (some "hello") true && all_go_on to_string events))
    × Delivered
        (json_goes (some "hello") true && all_go_on to_string events)
        (texts (stream_system to_string (some "hello") true events).frames)
        (json_of (some "hello") ++ jsons to_string events)
stream_system-Delivered_example = stream_system-Delivered to_string (some "hello") true events

fetch_failed :
    pump_periodic {T = ℕ}
      (λ n. some "{}")
      (record { frames = []; running = true })
      (PumpEvent.ticked (some 3) true ∷ PumpEvent.ticked none true ∷ PumpEvent.pinged true ∷ [])
    ≡ record { frames = Frame.text "{}" ∷ []; running = false }
unfolding program
fetch_failed = refl

abbrev no_clients : Server
no_clients = record { ws_system_connections = 0; clients = [] }

abbrev server_events : List (ServerEvent ℕ)
server_events =
    joined
    ∷ joined
    ∷ client 0 (greeted (some "hello") true)
    ∷ client 1 (greeted (some "hello") false)
    ∷ client 0 (streamed (StreamEvent.incoming (some OpCode.close)))
    ∷ joined
    ∷ []

one_left : (server_turns to_string no_clients server_events).ws_system_connections ≡ 1
unfolding program
one_left = refl

server_turns-alive_example :
    (server_turns to_string no_clients server_events).ws_system_connections
    ≡ alive (server_turns to_string no_clients server_events).clients % 2 ^ 64
server_turns-alive_example = server_turns-alive to_string no_clients server_events refl

system_path : app "/ws/system" ≡ some system_route
unfolding app
system_path = refl

-- The database refuses the query of the probe.
unhealthy :
    (health_handler (record empty_world { faults = true ∷ [] })).0
    ≡ (Status.service_unavailable, "database unavailable")
unfolding health_handler ping touch statement
unhealthy = refl

refused_client : ws_system to_string rejected (some "{}") true [] ≡ (Status.bad_request, none)
unfolding ws_system upgrade
refused_client = refl
