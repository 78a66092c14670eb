-- ===== src/Examples.antt =====
-- The theorems at concrete inputs, and runs of the model.
mod Sample
mod Segments
mod Stack
mod Texts
mod Conversions
mod Bytes
mod Records
mod Vps
mod Steps
mod Rounds
mod Runs
