-- ===== src/Fsm.antt =====
-- The modem's state machine (src/t7xx_state_monitor.c, with the reset of src/t7xx_modem_ops.c):
-- commands and events queued by other threads, and one thread that takes the commands.
-- `State` holds the structures, `Queues` the two queues, `Notify` the broadcasts, `Routines` one
-- routine for each command, `Thread` the thread's round and the entry points of the interrupts.
pub mod State
pub mod Queues
pub mod Notify
pub mod Routines
pub mod Thread
pub mod Frames
pub mod Started
pub mod Transitions
pub mod Refcount
pub mod Events
pub mod Broadcasts
pub mod Reach
mod Examples
