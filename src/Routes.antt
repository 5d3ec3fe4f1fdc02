-- ===== src/Routes.antt =====
-- src/routes: the HTTP interface.
pub mod Http
pub mod Ws
pub mod App
