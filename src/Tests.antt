-- ===== src/Tests.antt =====
-- Tests: runs of the definitions, and the theorems at concrete inputs.
pub mod Codecs
pub mod Setup
pub mod Alerts
pub mod Configuration
pub mod Store
pub mod Flow
pub mod Upgrade
pub mod Loop
mod Containers
mod Machine
mod Clients
mod Cards
mod Readings
pub mod Services
mod Start
