-- ===== src/Tests.antt =====
-- Concrete inputs.
mod Stores
mod Logs
mod Requests
mod Loop
mod Restart
mod Server
mod Eviction
mod Start
mod Client
mod Disk
mod Shutdown
