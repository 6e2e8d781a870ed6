-- ===== src/Tests.antt =====
-- Tests, and the theorems of the library at concrete inputs.
mod Registrations
mod Streams
mod Ipv6
mod Caches
mod Pending
mod Endpoints
mod Connections
mod Closures
mod Events
mod Policy
mod Counters
