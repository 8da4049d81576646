-- ===== src/Tests.antt =====
-- A server, services and worlds to evaluate on, and the theorems at concrete inputs.
mod Sample
mod Store
mod Limits
mod Pool
mod Requests
mod Engines
mod Outside
mod Tables
mod Settings
mod Checkpoints
mod Served
mod Published
mod Runs
