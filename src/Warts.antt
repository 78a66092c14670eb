-- ===== src/Warts.antt =====
-- warts/: the parser of scamper's warts files.
--
-- A byte is a number below 256, and a Go string is its bytes. What a failed reader returns beside
-- its error is left out, since each caller drops it.
pub mod Reader
pub mod Address
pub mod Flags
pub mod Lists
pub mod Cycles
pub mod Extensions
pub mod Traceroute
pub mod Ping
pub mod Parse
