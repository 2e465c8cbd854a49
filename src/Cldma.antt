-- ===== src/Cldma.antt =====
-- The queues of the control path, src/t7xx_hif_cldma.c: rings of descriptors (GPDs) through which the
-- ports exchange messages with the modem.
-- `State` holds the structures, `Tx` sending and collecting, `Rx` receiving, `Ctrl` what is done to
-- all queues; the other modules prove what they are named for.
pub mod State
pub mod Tx
pub mod Send
pub mod Rx
pub mod Setup
pub mod Ctrl
pub mod Slots
mod Gaps
pub mod Holds
mod Linked
mod Cleared
pub mod Fresh
mod Refine
mod Lost
pub mod Sending
mod Examples
