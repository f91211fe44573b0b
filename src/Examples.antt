-- ===== src/Examples.antt =====
-- The theorems at concrete inputs.
mod Pools
mod Races
mod Routes
mod Streams
mod Gateways
mod Services
mod Servers
mod Web
mod Settings
