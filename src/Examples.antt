-- ===== src/Examples.antt =====
-- Runs of the modelled code at concrete inputs, and the theorems applied to them.
mod Frames
mod Clients
mod Gates
mod Transports
mod Managers
mod Connections
mod Recoveries
mod Pools
mod DataPlanes
