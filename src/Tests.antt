-- ===== src/Tests.antt =====
-- The theorems at concrete inputs.
mod Data
mod Codec
mod Receiver
mod Hits
mod Gun
mod Game
mod Flash
mod Browsers
mod Panel
mod Station
mod Names
mod Portal
mod Setup
mod Joining
