-- ===== src/Lib.antt =====
-- Verification of the t7xx modem driver (the Linux WWAN driver for MediaTek T700 modems), the C code
-- below src/ of the repository.
--
-- The program. A PCIe function carries two host interfaces. CLDMA moves control messages between
-- queues of the host and of the modem; the ports sit on it. DPMAIF moves network packets through
-- circular buffers of descriptors that the host and the modem both index. A state machine of its own
-- thread boots the modem, notices its crashes and stops it; it tells the ports and the network
-- devices of every modem state, and commands and events reach it from interrupts, from the ports
-- and from power management.
--
-- The files.
--   Prelude            names that all modules share; Tests, Lists, Words (machine words and the
--                      bit-field macros) and Status (return codes) stand below it.
--   Ring               the index arithmetic of the buffers: t7xx_ring_buf_get_next_wr_idx and
--                      t7xx_ring_buf_rd_wr_count of src/t7xx_hif_dpmaif.c.
--   Cldma              the queues of the control path, src/t7xx_hif_cldma.c: State (struct cldma_ctrl, its
--                      queues, rings and descriptors), Tx and Send (t7xx_cldma_send_skb,
--                      t7xx_cldma_gpd_tx_collect), Rx (t7xx_cldma_gpd_rx_from_q and the work of a
--                      receive queue), Setup (building, linking, clearing and freeing rings), Ctrl
--                      (start, stop, reset, suspend, resume, configuration, interrupt).
--   DpmaifTx           the uplink, src/t7xx_hif_dpmaif_tx.c: State (struct dpmaif_tx_queue and its
--                      descriptors), Fill (t7xx_dpmaif_add_skb_to_ring), Release
--                      (t7xx_dpmaif_tx_release, t7xx_dpmaif_txq_flush_rel), Queue
--                      (t7xx_dpmaif_tx_send_skb, t7xx_do_tx_hw_push, t7xx_dpmaif_tx_done).
--   DpmaifRx           the downlink's buffers, src/t7xx_hif_dpmaif_rx.c: State (struct
--                      dpmaif_bat_request), Bat (t7xx_dpmaif_rx_buf_alloc,
--                      t7xx_dpmaif_update_bat_wr_idx), Release (t7xx_dpmaif_release_bat_entry).
--   Receive            the downlink behind its buffers, src/t7xx_hif_dpmaif_rx.c: State (struct
--                      dpmaif_rx_queue, struct dpmaif_pit, the fragment ring), Payload (the buffers of
--                      a packet), Pits (t7xx_dpmaif_check_pit_seq, t7xx_dpmaifq_release_pit_entry),
--                      Collect (t7xx_dpmaif_rx_start), Poll (t7xx_dpmaif_napi_rx_poll, which takes the
--                      sleep lock of Pm), Frag (t7xx_dpmaif_rx_frag_alloc), Refill
--                      (t7xx_dpmaif_bat_release_and_add), Setup (t7xx_dpmaif_stop_rxq).
--   Fsm                the state machine, src/t7xx_state_monitor.c with the reset of
--                      src/t7xx_modem_ops.c: State (struct t7xx_fsm_ctl), Queues (commands and
--                      events), Notify (broadcasts), Routines (one for each command), Thread
--                      (fsm_main_thread and the interrupt entry).
--   Modem              the handshakes, src/t7xx_modem_ops.c: Features (t7xx_parse_host_rt_data,
--                      t7xx_prepare_device_rt_data), Handshake (t7xx_core_hk_handler, the two
--                      handshake works, t7xx_pci_mhccif_isr, t7xx_md_event_notify), Exception
--                      (t7xx_md_exception_handshake, which clears and restarts both controllers of
--                      Cldma).
--   Pm                 power management of the PCI device, src/t7xx_pci.c: State (struct t7xx_pci_dev and
--                      struct md_pm_entity), Sleep (t7xx_pci_disable_sleep, t7xx_pci_enable_sleep),
--                      Suspend (__t7xx_pci_pm_suspend), Resume (__t7xx_pci_pm_resume, t7xx_pci_reprobe).
--   Port               the ports: State (struct t7xx_port and the tables of src/t7xx_port_proxy.c), Send
--                      (t7xx_port_send_skb and the headers it puts on), Proxy (channel lookup and
--                      t7xx_port_proxy_recv_skb), Setup (the operations on all ports), Wwan and Write
--                      (the operations of src/t7xx_port_wwan.c and src/t7xx_port_trace.c), Control
--                      (control_msg_handler of src/t7xx_port_ctrl_msg.c, which appends events to Fsm).
-- The modules below each component prove what they are named for, and its Examples module holds the
-- tests.
--
-- How the code is read. A C function that changes a structure is a function that returns the new
-- record; an `int` result is a `Ret`. Machine words are native numbers with the wrap-around written
-- out. Calls that leave a component (DMA, registers, notifications) are recorded, the latest first,
-- in the list `calls` of its state; what such calls answer is an argument: the DMA mapping as a
-- function, polls and waits as a record of answers. Logging, locks and memory barriers have no
-- counterpart: each function runs as one step, and interleavings are sequences of steps (Fsm.Reach,
-- Port.Reach).
--
-- Loops recur on the list or the count they run through. t7xx_do_tx_hw_push and fsm_wait_for_event
-- run for as many rounds as the environment grants or the retries say, and so do the loops of
-- t7xx_cldma_send_skb and t7xx_cldma_gpd_rx_from_q: their rounds are a list of what the environment
-- answers, and a list that is too short leaves a caller that still waits. The collector of a CLDMA
-- queue makes at most as many rounds as its ring has descriptors, after which none can be full. The
-- loop of t7xx_dpmaif_napi_rx_poll has as many rounds as its budget, and a round after which it goes on
-- has used a part of the budget. The loop of t7xx_port_fastboot_tx alone has fuel, one round more than
-- there are bytes to write; a packet size of 0, with which the code never ends, spends it, and the call
-- then has no result.
--
-- Not modelled: the network devices (src/t7xx_netdev.c), which the data path reaches by its callbacks;
-- the control of the data path (src/t7xx_hif_dpmaif.c), which starts and stops the modelled queues; the
-- probe and removal of the PCI device; register programming (src/t7xx_dpmaif.c, src/t7xx_cldma.c,
-- src/t7xx_mhccif.c, src/t7xx_pcie_mac.c), whose effect is the hardware's; the set-up and teardown of
-- kernel objects, and the shell scripts.
pub mod Prelude
pub mod Ring
pub mod Cldma
pub mod DpmaifTx
pub mod DpmaifRx
pub mod Receive
pub mod Fsm
pub mod Modem
pub mod Pm
pub mod Port
