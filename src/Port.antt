-- ===== src/Port.antt =====
-- The ports: src/t7xx_port_proxy.c (channels, sequence numbers, dispatch), src/t7xx_port_ctrl_msg.c
-- (the control channel), src/t7xx_port_wwan.c and src/t7xx_port_trace.c (the operations of the
-- other ports).
-- `State` holds the structures and the two port tables, `Wwan` and `Write` the port operations,
-- `Send` and `Proxy` the two directions of the proxy, `Setup` the operations on all ports, `Control`
-- the control messages. The other modules prove what they are named for.
pub mod State
pub mod Send
pub mod Wwan
pub mod Write
pub mod Proxy
pub mod Setup
pub mod Control
mod Lookup
mod Headers
mod Gate
mod Fragments
mod Dispatch
mod Backlog
mod Reach
mod Events
mod Freeing
mod Examples
