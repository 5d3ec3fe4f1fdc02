-- ===== src/Routes/Ws/Clients.antt =====
-- The counter of src/routes/ws.rs counts the clients whose stream runs.
use homeserver_rust.Prelude.{
  ℕ, zero, suc, ◌+◌, ◌%◌, ◌^◌, ◌≡◌, refl, true, false, List, [], ◌∷◌, ◌++◌, Option, String, arith,
  Bool-cases, inl, inr, if◌then◌else◌,
}
use homeserver_rust.Models.{FullSystemSnapshot}
use homeserver_rust.Routes.Ws.{
  Client, ClientEvent, ServerEvent, joined, client, Server, greeted, streamed, fetch_add, fetch_sub,
  client_turn, settled, at_client, server_turn, server_turns,
}

abbrev pub alive : List Client → ℕ
alive [] = 0
alive (c ∷ cs) = let rest = alive cs in if c.stream.running then suc rest else rest

alive-append : (cs ds : List Client) → alive (cs ++ ds) ≡ alive cs + alive ds
alive-append [] ds = omega arith
alive-append (c ∷ cs) ds = ground (arith, alive-append cs ds)

module _ {F : Type 0} (to_string : FullSystemSnapshot F → Option String) where
  -- A loop that was left is not entered again.
  client_turn-ended :
      (c : Client) (e : ClientEvent F)
      → c.stream.running ≡ false
      → (client_turn to_string c e).stream.running ≡ false
  unfolding client_turn
  client_turn-ended c (greeted json sent) h = rw h refl
  client_turn-ended c (streamed e) h = rw h refl

  settled-alive :
      (c d : Client) (others k n : ℕ)
      → (c.stream.running ≡ false → d.stream.running ≡ false)
      → n ≡ (k + (if c.stream.running then suc others else others)) % 2 ^ 64
      → settled to_string c d n ≡ (k + (if d.stream.running then suc others else others)) % 2 ^ 64
  unfolding settled fetch_sub
  settled-alive c d others k n ended h = ground (arith, ended, h)

  at_client-alive :
      (i : ℕ) (e : ClientEvent F) (cs : List Client) (k n : ℕ)
      → n ≡ (k + alive cs) % 2 ^ 64
      → (at_client to_string i e cs n).1 ≡ (k + alive (at_client to_string i e cs n).0) % 2 ^ 64
  unfolding at_client
  at_client-alive i e [] k n h = h
  at_client-alive zero e (c ∷ cs) k n h =
      settled-alive c (client_turn to_string c e) (alive cs) k n (client_turn-ended c e) h
  at_client-alive (suc i) e (c ∷ cs) k n h = elim (Bool-cases c.stream.running) [
    | inl runs ↦
        rw runs (omega (arith, at_client-alive i e cs (suc k) n (omega (arith, counted runs h))))
    | inr ended ↦ rw ended (at_client-alive i e cs k n (rw ended at h))
  ]
    where
      counted :
          c.stream.running ≡ true
          → n ≡ (k + alive (c ∷ cs)) % 2 ^ 64
          → n ≡ (k + suc (alive cs)) % 2 ^ 64
      counted runs h = rw runs at h

  server_turn-alive :
      (s : Server) (e : ServerEvent F)
      → s.ws_system_connections ≡ alive s.clients % 2 ^ 64
      → (server_turn to_string s e).ws_system_connections
        ≡ alive (server_turn to_string s e).clients % 2 ^ 64
  unfolding server_turn fetch_add
  server_turn-alive s joined h = omega (
    arith,
    h,
    alive-append s.clients
        (record { stream = record { frames = []; running = true }; welcomed = false } ∷ []),
  )
  server_turn-alive s (client i e) h =
      omega (arith, at_client-alive i e s.clients 0 s.ws_system_connections (omega (arith, h)))

  -- Whatever happens to whichever clients, in any order, the counter stays the number of those
  -- whose stream runs, modulo the width of a `usize`: each client is counted from its connection
  -- until its loop is left, for whatever reason, and is taken off once.
  pub server_turns-alive :
      (s : Server) (events : List (ServerEvent F))
      → s.ws_system_connections ≡ alive s.clients % 2 ^ 64
      → (server_turns to_string s events).ws_system_connections
        ≡ alive (server_turns to_string s events).clients % 2 ^ 64
  unfolding server_turns
  server_turns-alive s [] h = h
  server_turns-alive s (e ∷ events) h =
      server_turns-alive (server_turn to_string s e) events (server_turn-alive s e h)
