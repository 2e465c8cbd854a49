-- ===== src/DpmaifTx.antt =====
-- The uplink of the data path (src/t7xx_hif_dpmaif_tx.c): packets are queued per TX queue, described
-- to the modem by DRBs in a circular buffer, and released when the modem has read them.
-- `State` holds the structures, `Fill` writes a packet into the ring, `Release` takes done DRBs
-- back, `Queue` is the software queue, the pushing thread and the work handler.
pub mod State
pub mod Fill
pub mod Release
pub mod Queue
pub mod Descriptor
pub mod Account
pub mod Filling
pub mod Releasing
pub mod Burst
pub mod Unmap
mod Examples
