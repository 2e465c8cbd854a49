-- ===== src/Port/Control.antt =====
-- The control port of src/t7xx_port_ctrl_msg.c: messages of the modem become events of the state
-- machine, enable and disable ports, and are answered.
use mtk_t7xx_fix.Prelude.{
  ℕ, zero, suc, ◌+◌, Bool, true, false, not, ◌||◌, List, [], ◌∷◌, get_or, take, drop, ◌==◌,
  field_get, test_bit, if◌then◌else◌, Ret, ok, fail, einval, enomem, efault,
}
use mtk_t7xx_fix.Fsm.State.{
  EventId, md_hs2, ap_hs2, md_ex, md_ex_rec_ok, md_ex_pass, MdState, md_exception, Ctl,
}
use mtk_t7xx_fix.Fsm.Queues.{append_event}
use mtk_t7xx_fix.Port.State.{
  CldmaId, SkBuff, Port, dev_kfree_skb, dev_kfree_own, call, get_le32, zero_port,
}
use mtk_t7xx_fix.Port.Send.{send_ctl_skb}
use mtk_t7xx_fix.Port.Proxy.{PortProxy, set_port, chl_enable_disable}

-- The state machine and the ports together. A port is named by its place in the table.
pub record Host : Type 0 where
  pub fsm : Ctl
  pub prox : PortProxy

-- A name that stands for no port reads as a port of zeroed memory.
abbrev pub port_at : Host → ℕ → Port
port_at host p = get_or host.prox.ports p zero_port

abbrev pub put_port : Host → ℕ → Port → Host
put_port host p port = record host { prox = set_port host.prox p port }

-- The CTL_ID numbers that the handler knows.
pub data CtlId : Type 0 where
  hs2_msg ex_msg drv_ver_error ex_ack ex_pass port_enum : CtlId
  unknown_msg : CtlId

unfoldable pub ctl_id : ℕ → CtlId
ctl_id n =
    if n == 1
    then hs2_msg
    else if n == 4
    then ex_msg
    else if n == 5
    then drv_ver_error
    else if n == 6
    then ex_ack
    else if n == 8
    then ex_pass
    else if n == 9
    then port_enum
    else unknown_msg

-- What the handler is answered from outside: whether an skb and an event can be allocated, and the
-- modem queues.
pub record Answers : Type 0 where
  pub alloc_skb : Bool
  pub alloc_event : Bool
  pub cldma : CldmaId → ℕ → List ℕ → Ret

module _ (env : Answers) where
  abbrev pub end_send : Host → ℕ → Ret × Port → Ret × Host
  end_send host p (ok, port) = (ok, put_port host p port)
  end_send host p (fail e, port) = (fail e, put_port host p (call port dev_kfree_own))

  unfoldable pub send_msg_to_md : Host → ℕ → ℕ → ℕ → Ret × Host
  send_msg_to_md host p msg ex =
      let skb : SkBuff = record { id = 0; bytes = [] } in
      if env.alloc_skb
      then end_send host p (send_ctl_skb env.cldma host.fsm.md_state (port_at host p) skb msg ex)
      else (fail enomem, host)

  abbrev with_fsm : Host → Ret × Ctl → Ret × Host
  with_fsm host (ret, ctl) = (ret, record host { fsm = ctl })

  unfoldable pub append : Host → EventId → ℕ → List ℕ → Ret × Host
  append host id n bytes = with_fsm host (append_event env.alloc_event id n bytes host.fsm)

  abbrev pub then_append : EventId → Ret × Host → Ret × Host
  then_append id (ok, host) = append host id 0 []
  then_append id (fail e, host) = (fail e, host)

  -- `switch` of fsm_ee_message_handler; the second number is the header's `ex_msg`.
  unfoldable pub ee_message : CtlId → ℕ → Host → ℕ → Ret × Host
  unfolding send_msg_to_md append
  ee_message ex_msg ex host p =
      if ex == 0x45584350
      then then_append md_ex (send_msg_to_md host p 4 0x45584350)
      else (fail einval, host)
  ee_message ex_ack ex host p =
      if ex == 0x45524543 then append host md_ex_rec_ok 0 [] else (fail einval, host)
  ee_message ex_pass ex host p = append host md_ex_pass 0 []
  ee_message _ ex host p = (fail einval, host)

  abbrev pub is_md_exception : MdState → Bool
  is_md_exception md_exception = true
  is_md_exception _ = false

  unfoldable pub ee_message_handler : CtlId → ℕ → Host → ℕ → Ret × Host
  unfolding ee_message
  ee_message_handler id ex host p =
      if is_md_exception host.fsm.md_state then ee_message id ex host p else (fail einval, host)

  -- The loop over the port entries: `left` of them are to come, the next one at byte `off`.
  unfoldable pub enum_ports : ℕ → ℕ → List ℕ → PortProxy → PortProxy
  enum_ports zero off bytes prox = prox
  enum_ports (suc left) off bytes prox =
      let port_info = get_le32 bytes off in
      let prox₁ = (chl_enable_disable prox (field_get 0 15 port_info) (test_bit 15 port_info)).1 in
      enum_ports left (off + 4) bytes prox₁

  -- `bytes` is a `struct port_msg`.
  unfoldable pub port_enum_msg_handler : List ℕ → PortProxy → Ret × PortProxy
  unfolding enum_ports
  port_enum_msg_handler bytes prox =
      let info = get_le32 bytes 4 in
      if not (field_get 16 16 info == 0)
        || not (get_le32 bytes 0 == 0x5a5a5a5a)
        || not (get_le32 bytes 8 == 0xa5a5a5a5)
      then (fail efault, prox)
      else (ok, enum_ports (field_get 0 16 info) 12 bytes prox)

  -- The answer to an enumeration: a failure is told to the modem.
  unfoldable pub answer_enum : ℕ → Host → Ret × PortProxy → Ret × Host
  answer_enum p host (ok, prox) = send_msg_to_md (record host { prox = prox }) p 9 0
  answer_enum p host (fail e, prox) = send_msg_to_md (record host { prox = prox }) p 9 0x00657272

  abbrev pub free : ℕ → SkBuff → Ret × Host → Ret × Host
  free p skb (ret, host) = (ret, put_port host p (call (port_at host p) (dev_kfree_skb skb.id)))

  -- The event of a handshake message by the port's receive channel.
  unfoldable pub hs2_event : Host → ℕ → SkBuff → Ret × Host
  unfolding append
  hs2_event host p skb =
      let n = get_le32 skb.bytes 8 in
      let rx_ch = (port_at host p).conf.rx_ch in
      if rx_ch == 0x2000
      then append host md_hs2 n (take n (drop 12 skb.bytes))
      else if rx_ch == 0x1000
      then append host ap_hs2 n (take n (drop 12 skb.bytes))
      else (ok, host)

  -- `switch` of control_msg_handler.
  unfoldable pub control_msg : CtlId → Host → ℕ → SkBuff → Ret × Host
  unfolding hs2_event ee_message_handler answer_enum
  control_msg hs2_msg host p skb = free p skb (hs2_event host p skb)
  control_msg port_enum host p skb =
      answer_enum p host (port_enum_msg_handler (drop 12 skb.bytes) host.prox)
  control_msg unknown_msg host p skb = (fail einval, host)
  control_msg id host p skb = free p skb (ee_message_handler id (get_le32 skb.bytes 4) host p)

  unfoldable pub control_msg_handler : Host → ℕ → SkBuff → Ret × Host
  unfolding ctl_id control_msg
  control_msg_handler host p skb = control_msg (ctl_id (get_le32 skb.bytes 0)) host p skb

  -- A round of port_ctl_rx_thread at a list that is not empty.
  unfoldable pub ctl_rx_round : ℕ → Host → List SkBuff → Host
  unfolding control_msg_handler
  ctl_rx_round p host [] = host
  ctl_rx_round p host (skb ∷ rest) =
      let host₁ = put_port host p (record (port_at host p) { rx_skb_list = rest }) in
      (control_msg_handler host₁ p skb).1
