-- ===== src/Lane.antt =====
-- src/discord_state_lane.rs: the queue of notification reports. The mutex makes each operation one
-- step, so an operation is a function of the lane. `IoOutcome` says what the file system did in
-- that call; the hash function of the `sha2` crate and `serde_json` are parameters. The operations stand
-- in Operations, opening and restoring in Loading, the decoding of reports in Decode.
pub mod Decode
pub mod Loading
pub mod Clock
pub mod State
pub mod Queueing
pub mod Operations
pub mod Request
pub mod Fence
pub mod Queue
pub mod Effects
pub mod Reachable
pub mod Cadence
pub mod Delivery
