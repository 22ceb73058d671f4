-- ===== src/Examples.antt =====
-- The theorems at concrete inputs, and tests of the definitions.
mod Params
mod JobPages
mod VideoPages
mod Charts
mod Pages
mod Ids
mod Worlds
mod Workers
mod Service
mod Caches
mod Streams
mod Gateways
mod Batches
