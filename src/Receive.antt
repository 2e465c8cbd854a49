-- ===== src/Receive.antt =====
-- The receive path behind the buffers, src/t7xx_hif_dpmaif_rx.c: the packet information table (PIT) in
-- which the modem reports what it has written, the packets that are put together from it, and the NAPI
-- poll. `State` holds the structures; the other modules prove what they are named for.
pub mod State
pub mod Payload
pub mod Pits
pub mod Collect
pub mod Poll
pub mod Frag
pub mod Refill
pub mod Setup
mod Frames
mod Runs
mod Contract
mod Leak
mod Order
mod Packets
mod Rounds
mod Whole
mod Refilled
mod Search
mod Examples
