-- ===== src/Port/Send.antt =====
-- Sending: the CCCI header, the control message header, and which modem states let a port send
-- (src/t7xx_port_proxy.c).
use mtk_t7xx_fix.Prelude.{
  ℕ, ◌+◌, Bool, true, false, List, ◌++◌, length, ◌==◌, field_prep, u16, u32, Ret, ok, fail, ebusy,
  enodev, if◌then◌else◌,
}
use mtk_t7xx_fix.Fsm.State.{FsmState, pre_start, MdState, md_ready, md_exception}
use mtk_t7xx_fix.Port.State.{CldmaId, SkBuff, Port, cldma_send_skb, call, le32}

-- CCCI_HEADER_NO_DATA
abbrev pub ccci_header_no_data : ℕ
ccci_header_no_data = 0xffffffff

-- `struct ccci_header` in memory.
abbrev pub ccci_header : ℕ → ℕ → ℕ → ℕ → List ℕ
ccci_header packet_header packet_len status ex_msg =
    le32 packet_header ++ (le32 packet_len ++ (le32 status ++ le32 ex_msg))

-- `struct ctrl_msg_header` in memory.
abbrev pub ctrl_msg_header : ℕ → ℕ → ℕ → List ℕ
ctrl_msg_header ctrl_msg_id ex_msg data_length =
    le32 ctrl_msg_id ++ (le32 ex_msg ++ le32 data_length)

unfoldable pub get_queue_no : Port → MdState → ℕ
get_queue_no port md_exception = port.conf.txq_exp_index
get_queue_no port _ = port.conf.txq_index

-- What `FIELD_PREP` of the channel, of the sequence number and the assert bit give.
abbrev pub ccci_status : ℕ → ℕ → ℕ
ccci_status tx_ch seq = field_prep 0 16 tx_ch + field_prep 16 15 seq + field_prep 31 1 1

-- The modem queues' answer to t7xx_cldma_send_skb.
module _ (cldma : CldmaId → ℕ → List ℕ → Ret) (md_state : MdState) where
  -- An answer and the port after it.
  abbrev pub sent : Ret → CldmaId → ℕ → List ℕ → Port → Ret × Port
  sent ok path tx_qno bytes port = (ok, call port (cldma_send_skb path tx_qno bytes))
  sent (fail e) path tx_qno bytes port = (fail e, port)

  unfoldable pub send_raw_skb : Port → SkBuff → Ret × Port
  unfolding get_queue_no
  send_raw_skb port skb =
      let path_id = port.conf.path_id in
      let tx_qno = get_queue_no port md_state in
      sent (cldma path_id tx_qno skb.bytes) path_id tx_qno skb.bytes port

  abbrev pub counted : Ret × Port → Ret × Port
  counted (ok, port) = (ok, record port { seq_tx = u16 (port.seq_tx + 1) })
  counted (fail e, port) = (fail e, port)

  unfoldable pub send_ccci_skb : Port → SkBuff → ℕ → ℕ → Ret × Port
  send_ccci_skb port skb pkt_header ex_msg = counted (
      send_raw_skb port (record skb {
        bytes =
            ccci_header pkt_header (u32 (length skb.bytes + 16))
              (ccci_status port.conf.tx_ch port.seq_tx) ex_msg
            ++ skb.bytes;
      }))

  unfoldable pub send_ctl_skb : Port → SkBuff → ℕ → ℕ → Ret × Port
  send_ctl_skb port skb msg ex_msg =
      let msg_len = length skb.bytes in
      send_ccci_skb port (record skb { bytes = ctrl_msg_header msg ex_msg msg_len ++ skb.bytes })
        (if msg_len == 0 then ccci_header_no_data else 0) ex_msg

  -- `switch (md_state)` of t7xx_port_send_skb.
  unfoldable pub send_by_state : MdState → Port → SkBuff → ℕ → ℕ → Ret × Port
  send_by_state md_exception port skb pkt_header ex_msg =
      if port.conf.tx_ch == 0x202b
      then send_ccci_skb port skb pkt_header ex_msg
      else (fail ebusy, port)
  send_by_state md_ready port skb pkt_header ex_msg = send_ccci_skb port skb pkt_header ex_msg
  send_by_state _ port skb pkt_header ex_msg = (fail enodev, port)

  abbrev pub is_pre_start : FsmState → Bool
  is_pre_start pre_start = true
  is_pre_start _ = false

  unfoldable pub send_skb : FsmState → Port → SkBuff → ℕ → ℕ → Ret × Port
  unfolding send_by_state
  send_skb fsm_state port skb pkt_header ex_msg =
      if is_pre_start fsm_state
      then send_ccci_skb port skb pkt_header ex_msg
      else send_by_state md_state port skb pkt_header ex_msg
