-- ===== src/Port/Wwan.antt =====
-- The operations of the ports: src/t7xx_port_wwan.c, the control port's of
-- src/t7xx_port_ctrl_msg.c and the trace port's of src/t7xx_port_trace.c.
use mtk_t7xx_fix.Prelude.{
  ℕ, ◌+◌, ◌-◌, Bool, true, false, not, ◌||◌, List, [], ◌∷◌, ◌++◌, length, leb, ◌==◌, u32, Ret, ok,
  fail, einval, enobufs, ebusy, if◌then◌else◌,
}
use mtk_t7xx_fix.Fsm.State.{MdState, md_ready}
use mtk_t7xx_fix.Port.State.{
  CldmaId, PortOps, wwan_sub_port_ops, ctl_port_ops, trace_port_ops, PortType, port_adb, port_mipc,
  port_fastboot, SkBuff, Port, Call, wake_up_rx, dev_kfree_skb, wwan_create_port, wwan_remove_port,
  wwan_port_rx, relay_open, relay_close, relay_write, kthread_run, kthread_stop, call,
}
use mtk_t7xx_fix.Port.Send.{get_queue_no}

-- RX_QUEUE_MAXLEN and CTRL_QUEUE_MAXLEN
abbrev pub rx_queue_maxlen : ℕ
rx_queue_maxlen = 32

abbrev pub ctrl_queue_maxlen : ℕ
ctrl_queue_maxlen = 16

unfoldable pub enqueue_skb : Port → SkBuff → Ret × Port
enqueue_skb port skb =
    if leb port.rx_length_th (length port.rx_skb_list)
    then (fail enobufs, port)
    else (ok, call (record port { rx_skb_list = port.rx_skb_list ++ (skb ∷ []) }) wake_up_rx)

unfoldable pub wwan_start : Port → Ret × Port
wwan_start port =
    if port.usage_cnt == 0 then (ok, record port { usage_cnt = 1 }) else (fail ebusy, port)

-- The WWAN core stops a port only after it has started it.
unfoldable pub wwan_stop : Port → Port
wwan_stop port = record port { usage_cnt = port.usage_cnt - 1 }

unfoldable pub wwan_recv_skb : Port → SkBuff → Ret × Port
wwan_recv_skb port skb =
    if port.usage_cnt == 0 || not port.chan_enable
    then (ok, call port (dev_kfree_skb skb.id))
    else (ok, call port (wwan_port_rx skb.bytes))

unfoldable pub trace_recv_skb : Port → SkBuff → Ret × Port
trace_recv_skb port skb =
    if port.has_relaych
    then (ok, call (call port (relay_write skb.bytes)) (dev_kfree_skb skb.id))
    else (fail einval, port)

-- `port_conf->ops->recv_skb`
unfoldable pub recv_op : PortOps → Port → SkBuff → Ret × Port
unfolding enqueue_skb wwan_recv_skb trace_recv_skb
recv_op wwan_sub_port_ops port skb = wwan_recv_skb port skb
recv_op ctl_port_ops port skb = enqueue_skb port skb
recv_op trace_port_ops port skb = trace_recv_skb port skb

-- The ports that exist before the modem is ready.
abbrev pub is_early : PortType → Bool
is_early port_fastboot = true
is_early port_adb = true
is_early port_mipc = true
is_early _ = false

abbrev pub is_fastboot_type : PortType → Bool
is_fastboot_type port_fastboot = true
is_fastboot_type _ = false

abbrev is_ready_state : MdState → Bool
is_ready_state md_ready = true
is_ready_state _ = false

-- `mtu` gives the packet size of each transmit queue, `relay_opens` whether debugfs and the relay
-- channel could be set up.
module _ (mtu : CldmaId → ℕ → ℕ) (md_state : MdState) (relay_opens : Bool) where
  unfoldable pub port_mtu : Port → ℕ
  port_mtu port = mtu port.conf.path_id (get_queue_no port md_state)

  unfoldable pub wwan_create : Port → Port
  unfolding port_mtu
  wwan_create port =
      if port.has_wwan_port
      then port
      else call (record port { has_wwan_port = true })
          (wwan_create_port port.conf.port_type (u32 (port_mtu port + 4294967296 - 16)))

  unfoldable pub wwan_init : Port → Port
  wwan_init port = record (if is_early port.conf.port_type then wwan_create port else port) {
    rx_length_th = rx_queue_maxlen;
  }

  unfoldable pub wwan_md_state_notify : Port → MdState → Port
  wwan_md_state_notify port state =
      if is_early port.conf.port_type || not (is_ready_state state) then port else wwan_create port

  unfoldable pub trace_md_state_notify : Port → MdState → Port
  trace_md_state_notify port state =
      if not (is_ready_state state) || port.has_relaych
      then port
      else if relay_opens
      then call (record port { has_relaych = true }) relay_open
      else port

  -- `kthread_run` succeeds.
  unfoldable pub ctl_init : Port → Port
  ctl_init port =
      call (record port { has_thread = true; rx_length_th = ctrl_queue_maxlen }) kthread_run

  -- `ops->init`, which the trace port lacks.
  unfoldable pub init_op : PortOps → Port → Port
  unfolding wwan_init ctl_init
  init_op wwan_sub_port_ops port = wwan_init port
  init_op ctl_port_ops port = ctl_init port
  init_op trace_port_ops port = port

  -- `ops->md_state_notify`, which the control port lacks.
  unfoldable pub notify_op : PortOps → Port → MdState → Port
  unfolding wwan_md_state_notify trace_md_state_notify
  notify_op wwan_sub_port_ops port state = wwan_md_state_notify port state
  notify_op ctl_port_ops port state = port
  notify_op trace_port_ops port state = trace_md_state_notify port state

unfoldable pub wwan_uninit : Port → Port
wwan_uninit port =
    if port.has_wwan_port
    then call (record port { rx_length_th = 0; has_wwan_port = false }) wwan_remove_port
    else port

unfoldable pub trace_uninit : Port → Port
trace_uninit port =
    if port.has_relaych then call (record port { has_relaych = false }) relay_close else port

-- The skbs that are left in the list are freed.
abbrev free_skbs : List SkBuff → List Call → List Call
free_skbs [] calls = calls
free_skbs (skb ∷ rest) calls = free_skbs rest (dev_kfree_skb skb.id ∷ calls)

unfoldable pub ctl_uninit : Port → Port
ctl_uninit port =
    let port₁ =
      if port.has_thread then call (record port { has_thread = false }) kthread_stop else port in
    record port₁ {
      rx_length_th = 0;
      rx_skb_list = [];
      calls = free_skbs port₁.rx_skb_list port₁.calls;
    }

-- `ops->uninit`
unfoldable pub uninit_op : PortOps → Port → Port
unfolding wwan_uninit ctl_uninit trace_uninit
uninit_op wwan_sub_port_ops port = wwan_uninit port
uninit_op ctl_port_ops port = ctl_uninit port
uninit_op trace_port_ops port = trace_uninit port

-- `ops->enable_chl` and `ops->disable_chl`, which the WWAN ports alone have.
unfoldable pub enable_op : PortOps → Bool → Port → Port
enable_op wwan_sub_port_ops en_flag port = record port { chan_enable = en_flag }
enable_op ctl_port_ops en_flag port = port
enable_op trace_port_ops en_flag port = port
