-- ===== src/Tests.antt =====
-- Runs of the model on concrete inputs, and each property at an input that meets its conditions.
mod Inputs
mod Shaping
mod Telemetry
mod Resolve
mod Exits
mod Node
mod Panel
mod Billing
mod Rules
mod Counting
mod Login
mod Pool
mod Upgrade
mod Socks
mod StateStore
mod Relay
mod Concurrent
mod Dispatch
