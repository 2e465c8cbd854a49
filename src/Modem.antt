-- ===== src/Modem.antt =====
-- The modem's handshakes and its exception recovery, src/t7xx_modem_ops.c.
-- `Features` holds the runtime feature messages, `Exception` the recovery, which drives both CLDMA
-- controllers; the other modules prove what they are named for.
pub mod Features
pub mod Exception
pub mod Handshake
mod Listing
mod Recovery
mod Ready
mod Examples
