-- ===== src/Runner.antt =====
-- revtr/runner/revtr_runner.go: the steps that run a reverse traceroute.
--
-- As in Revtr, `cm` is `ClusterMap.Get`, `now` the clock's reading, and `none` is a panic.
-- Log entries and spans of time are left out.
pub mod ProcessRr
pub mod Symmetric
pub mod Run
pub mod Engine
pub mod Issue
pub mod Tunnel
pub mod RecordRoute
pub mod TrToSource
pub mod Slots
pub mod Stamps
pub mod Timestamp
pub mod Traceroutes
pub mod Whole
