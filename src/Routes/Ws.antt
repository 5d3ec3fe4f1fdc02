-- ===== src/Routes/Ws.antt =====
-- src/routes/ws.rs: what is pushed to a WebSocket client, and the number of clients. `select!` takes
-- whichever branch is ready, so a loop sees the events in any order. Serializing is a parameter, and
-- so is whether a frame can be sent in time.
pub mod Frames
pub mod Clients
use homeserver_rust.Prelude.{
  ℕ, zero, suc, ◌+◌, ◌-◌, ◌%◌, ◌^◌, Bool, true, false, not, ◌&&◌, List, [], ◌∷◌, ◌++◌, Option, none,
  some, String, if◌then◌else◌,
}
use homeserver_rust.Models.{FullSystemSnapshot, SystemInfo}

-- A frame that is sent, and the kind of one that comes in.
pub data Frame : Type 0 where
  text : String → Frame
  ping : Frame

pub data OpCode : Type 0 where
  close other : OpCode

-- What a client has been sent, and whether its loop still runs.
pub record Stream : Type 0 where
  pub frames : List Frame
  pub running : Bool

-- `send_frame`, and the `break` when it fails.
unfoldable pub send_frame : Stream → Frame → Bool → Stream
send_frame st frame sent =
    if sent then record st { frames = st.frames ++ frame ∷ [] } else record st { running = false }

abbrev pub break : Stream → Stream
break st = record st { running = false }

unfoldable pub is_close : Option OpCode → Bool
is_close none = true
is_close (some OpCode.close) = true
is_close (some OpCode.other) = false

abbrev pub send_json : Stream → Option String → Bool → Stream
send_json st none sent = break st
send_json st (some json) sent = send_frame st (text json) sent

-- In `ticked`, the fetched statistics or a failure.
pub data PumpEvent (T : Type 0) : Type 0 where
  ticked : Option T → Bool → PumpEvent T
  pinged : Bool → PumpEvent T
  incoming : Option OpCode → PumpEvent T

module _ {T : Type 0} (to_string : T → Option String) where
  abbrev pub send_stats : Stream → Option T → Bool → Stream
  send_stats st none sent = break st
  send_stats st (some stats) sent = send_json st (to_string stats) sent

  -- One turn of the loop of `pump_periodic`.
  unfoldable pub pump_turn : Stream → PumpEvent T → Stream
  unfolding send_frame is_close
  pump_turn st (PumpEvent.ticked stats sent) = send_stats st stats sent
  pump_turn st (PumpEvent.pinged sent) = send_frame st ping sent
  pump_turn st (PumpEvent.incoming frame) = if is_close frame then break st else st

  -- The loop takes events as long as it runs.
  unfoldable pub pump_periodic : Stream → List (PumpEvent T) → Stream
  unfolding pump_turn
  pump_periodic st [] = st
  pump_periodic st (e ∷ events) =
      let rest = pump_periodic (pump_turn st e) events in if st.running then rest else st

-- What `rx.recv()` gives.
pub data StreamEvent (F : Type 0) : Type 0 where
  received : FullSystemSnapshot F → Bool → StreamEvent F
  lagged : ℕ → StreamEvent F
  channel_closed : StreamEvent F
  pinged : Bool → StreamEvent F
  incoming : Option OpCode → StreamEvent F

module _ {F : Type 0} (to_string : FullSystemSnapshot F → Option String) where
  -- One turn of the loop of `stream_system`.
  unfoldable pub stream_turn : Stream → StreamEvent F → Stream
  unfolding send_frame is_close
  stream_turn st (StreamEvent.received snapshot sent) = send_json st (to_string snapshot) sent
  stream_turn st (StreamEvent.lagged n) = st
  stream_turn st StreamEvent.channel_closed = break st
  stream_turn st (StreamEvent.pinged sent) = send_frame st ping sent
  stream_turn st (StreamEvent.incoming frame) = if is_close frame then break st else st

  unfoldable pub stream_turns : Stream → List (StreamEvent F) → Stream
  unfolding stream_turn
  stream_turns st [] = st
  stream_turns st (e ∷ events) =
      let rest = stream_turns (stream_turn st e) events in if st.running then rest else st

  -- The welcome, and then the loop.
  unfoldable pub stream_system : Option String → Bool → List (StreamEvent F) → Stream
  unfolding send_frame stream_turns
  stream_system welcome sent events =
      stream_turns (send_json (record { frames = []; running = true }) welcome sent) events

-- A client of `/ws/system`, and what happens to it.
pub record Client : Type 0 where
  pub stream : Stream
  pub welcomed : Bool

pub data ClientEvent (F : Type 0) : Type 0 where
  greeted : Option String → Bool → ClientEvent F
  streamed : StreamEvent F → ClientEvent F

pub data ServerEvent (F : Type 0) : Type 0 where
  joined : ServerEvent F
  client : ℕ → ClientEvent F → ServerEvent F

-- The counter, a `usize`, and the clients in the order of their coming.
pub record Server : Type 0 where
  pub ws_system_connections : ℕ
  pub clients : List Client

-- `fetch_add(1)`, and `fetch_sub(1)` of the guard's `drop`
unfoldable pub fetch_add : ℕ → ℕ
fetch_add n = (n + 1) % 2 ^ 64

unfoldable pub fetch_sub : ℕ → ℕ
fetch_sub n = (n + (2 ^ 64 - 1)) % 2 ^ 64

module _ {F : Type 0} (to_string : FullSystemSnapshot F → Option String) where
  unfoldable pub client_turn : Client → ClientEvent F → Client
  unfolding send_frame stream_turn
  client_turn c (greeted json sent) =
      if c.stream.running && not c.welcomed
      then record { stream = send_json c.stream json sent; welcomed = true }
      else c
  client_turn c (streamed e) =
      if c.stream.running && c.welcomed
      then record { stream = stream_turn to_string c.stream e; welcomed = true }
      else c

  -- The guard is dropped when the loop is left, however it is left.
  unfoldable pub settled : Client → Client → ℕ → ℕ
  unfolding fetch_sub
  settled before after n =
      if before.stream.running && not after.stream.running then fetch_sub n else n

  unfoldable pub at_client : ℕ → ClientEvent F → List Client → ℕ → List Client × ℕ
  unfolding client_turn settled
  at_client i e [] n = ([], n)
  at_client zero e (c ∷ cs) n = let after = client_turn c e in (after ∷ cs, settled c after n)
  at_client (suc i) e (c ∷ cs) n = let (rest, m) = at_client i e cs n in (c ∷ rest, m)

  unfoldable pub server_turn : Server → ServerEvent F → Server
  unfolding at_client fetch_add
  server_turn s joined = record {
    ws_system_connections = fetch_add s.ws_system_connections;
    clients =
        s.clients
        ++ record { stream = record { frames = []; running = true }; welcomed = false } ∷ [];
  }
  server_turn s (client i e) =
      let (clients, n) = at_client i e s.clients s.ws_system_connections in
      record { ws_system_connections = n; clients = clients }

  unfoldable pub server_turns : Server → List (ServerEvent F) → Server
  unfolding server_turn
  server_turns s [] = s
  server_turns s (e ∷ events) = server_turns (server_turn s e) events
