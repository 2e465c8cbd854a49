-- ===== src/DpmaifRx.antt =====
-- The downlink's buffers, src/t7xx_hif_dpmaif_rx.c: the ring of buffer address table (BAT) entries
-- through which the modem is given memory for received packets.
-- `State` holds the structures, `Bat` the functions; the other modules prove what they are named for.
pub mod State
pub mod Bat
pub mod Release
mod Index
mod Loop
mod Buffers
mod Armed
mod Refused
mod Examples
