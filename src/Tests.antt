-- ===== src/Tests.antt =====
-- Runs of the code on concrete inputs, and the properties at inputs where their hypotheses hold.
mod Inputs
mod Connections
mod Sessions
mod Codecs
mod Payloads
mod Ciphers
mod Hashes
mod Sealed
mod Containers
mod Addresses
