-- ===== src/Pm.antt =====
-- Power management of the PCI device, src/t7xx_pci.c.
-- `State` holds the device and its entities, `Sleep` the deep sleep lock, `Suspend` and `Resume` the
-- system's and the runtime's suspend and resume; the other modules prove what they are named for.
pub mod State
pub mod Sleep
pub mod Suspend
pub mod Resume
mod Entities
mod Aborted
mod Bounded
mod Streak
mod Examples
