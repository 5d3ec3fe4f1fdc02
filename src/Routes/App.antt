-- ===== src/Routes/App.antt =====
-- src/routes/mod.rs, the handlers of src/routes/ws.rs, and the short ones of src/routes/http.rs: which
-- answer a path has. The crate yawc upgrades a connection, and its answer is an argument.
use homeserver_rust.Prelude.{
  Bool, true, String, List, [], ◌∷◌, Option, none, some, ◌=s=◌, if◌then◌else◌,
}
use homeserver_rust.Prelude.Result.{Result, ok, err}
use homeserver_rust.Models.{FullSystemSnapshot, SystemInfo, CpuStats, RamStats}
use homeserver_rust.History.Db.{World, DbError, Exec, touch}
use homeserver_rust.Routes.Ws.{Stream, PumpEvent, StreamEvent, pump_periodic, stream_system}

-- The routes, all of them GET.
pub data Route : Type 0 where
  hello_route health_route version_route info_route history_route cpu_route ram_route system_route :
      Route

-- `Router::new().route(…)`; a path without a route is not found.
unfoldable pub app : String → Option Route
app path =
    if path =s= "/"
    then some hello_route
    else if path =s= "/health"
    then some health_route
    else if path =s= "/version"
    then some version_route
    else if path =s= "/api/info"
    then some info_route
    else if path =s= "/api/history"
    then some history_route
    else if path =s= "/ws/cpu"
    then some cpu_route
    else if path =s= "/ws/ram"
    then some ram_route
    else if path =s= "/ws/system"
    then some system_route
    else none

-- A status with a text, or what a handler gives as JSON.
pub data Status : Type 0 where
  success bad_request service_unavailable switching_protocols : Status

-- `SELECT 1`, which changes no row.
unfoldable pub ping : {F : Type 0} → Exec F (Unit {0})
unfolding touch
ping = touch

abbrev health_answer : Result DbError (Unit {0}) → Status × String
health_answer (ok u) = (success, "ok")
health_answer (err e) = (service_unavailable, "database unavailable")

unfoldable pub health_handler : {F : Type 0} → World F → (Status × String) × World F
unfolding ping
health_handler w = let (r, w') = ping w in (health_answer r, w')

-- The package's name and version are those of the build.
unfoldable pub version_handler : String → String → List (String × String)
version_handler name version = ("name", name) ∷ ("version", version) ∷ []

unfoldable pub api_info_handler : SystemInfo → SystemInfo
api_info_handler system_info = system_info

-- What the crate yawc makes of a request: it is refused, or answered and the handshake then fails or
-- gives a socket.
pub data Upgrade : Type 0 where
  rejected handshake_failed connected : Upgrade

-- The response, and what the spawned task does with the socket.
unfoldable pub upgrade : {A : Type 0} → Upgrade → A → Status × Option A
upgrade rejected run = (bad_request, none)
upgrade handshake_failed run = (switching_protocols, none)
upgrade connected run = (switching_protocols, some run)

abbrev opened : Stream
opened = record { frames = []; running = true }

module _ {F : Type 0} where
  -- The events carry what `get_cpu_stats` gave at each tick.
  unfoldable pub ws_cpu :
      (CpuStats F → Option String)
      → Upgrade
      → List (PumpEvent (CpuStats F))
      → Status × Option Stream
  unfolding upgrade pump_periodic
  ws_cpu to_string ws events = upgrade ws (pump_periodic to_string opened events)

  unfoldable pub ws_ram :
      (RamStats F → Option String)
      → Upgrade
      → List (PumpEvent (RamStats F))
      → Status × Option Stream
  unfolding upgrade pump_periodic
  ws_ram to_string ws events = upgrade ws (pump_periodic to_string opened events)

  -- The subscriber sees the snapshots from the connection on.
  unfoldable pub ws_system :
      (FullSystemSnapshot F → Option String)
      → Upgrade
      → Option String
      → Bool
      → List (StreamEvent F)
      → Status × Option Stream
  unfolding upgrade stream_system
  ws_system to_string ws welcome sent events =
      upgrade ws (stream_system to_string welcome sent events)
