-- ===== src/Port/Gate.antt =====
-- When a port may send, and what a send that is refused leaves behind: t7xx_port_send_skb and
-- t7xx_port_send_ccci_skb of src/t7xx_port_proxy.c.
use mtk_t7xx_fix.Prelude.{
  ℕ, ◌+◌, ◌≡◌, refl, Bool, true, false, List, Bool-cases, ◌⊎◌, inl, inr, u16, Ret, ok, fail, Errno,
  ebusy, enodev, ◌==◌, if◌then◌else◌,
}
use mtk_t7xx_fix.Fsm.State.{
  FsmState, init, starting, ready, exception, stopping, stopped, MdState, md_ready, md_exception,
  pre_start, md_invalid, waiting_for_hs1, waiting_for_hs2, waiting_to_stop, md_stopped,
}
use mtk_t7xx_fix.Port.State.{CldmaId, SkBuff, Port, cldma_send_skb, call}
use mtk_t7xx_fix.Port.Send.{sent, counted, send_raw_skb, send_ccci_skb, send_by_state, send_skb}

-- The states in which a channel may send: before the modem is started, when it is ready, and its
-- log channel also after an exception.
abbrev by_md_state : MdState → ℕ → Bool
by_md_state md_ready tx_ch = true
by_md_state md_exception tx_ch = tx_ch == 0x202b
by_md_state _ tx_ch = false

abbrev pub may_send : FsmState → MdState → ℕ → Bool
may_send pre_start md_state tx_ch = true
may_send _ md_state tx_ch = by_md_state md_state tx_ch

-- The error of a channel that may not send.
abbrev pub refusal : MdState → Errno
refusal md_exception = ebusy
refusal _ = enodev

-- One buffer was handed over and one sequence number was used, or an error leaves the port as it was.
abbrev pub OneOrNothing : Port → Ret × Port → Type 0
OneOrNothing port a =
    ((bytes : List ℕ) × (qno : ℕ) × (a ≡ (
      ok,
      record (call port (cldma_send_skb port.conf.path_id qno bytes)) {
        seq_tx = u16 (port.seq_tx + 1);
      },
    )))
    ⊎ ((e : Errno) × (a ≡ (fail e, port)))

module _ (cldma : CldmaId → ℕ → List ℕ → Ret) (md_state : MdState) where
  counted-OneOrNothing :
      (r : Ret) (qno : ℕ) (bytes : List ℕ) (port : Port)
      → OneOrNothing port
          (counted cldma md_state (sent cldma md_state r port.conf.path_id qno bytes port))
  counted-OneOrNothing ok qno bytes port = inl (bytes, qno, refl)
  counted-OneOrNothing (fail e) qno bytes port = inr (e, refl)

  pub send_ccci_skb-OneOrNothing :
      (port : Port) (skb : SkBuff) (h ex : ℕ)
      → OneOrNothing port (send_ccci_skb cldma md_state port skb h ex)
  unfolding send_ccci_skb send_raw_skb
  send_ccci_skb-OneOrNothing port skb h ex = counted-OneOrNothing _ _ _ port

  send_by_state_gate :
      (s : MdState) (port : Port) (skb : SkBuff) (h ex : ℕ)
      → send_by_state cldma md_state s port skb h ex ≡ (
          if may_send init s port.conf.tx_ch
          then send_ccci_skb cldma md_state port skb h ex
          else (fail (refusal s), port))
  unfolding send_by_state
  send_by_state_gate md_invalid port skb h ex = refl
  send_by_state_gate waiting_for_hs1 port skb h ex = refl
  send_by_state_gate waiting_for_hs2 port skb h ex = refl
  send_by_state_gate md_ready port skb h ex = refl
  send_by_state_gate md_exception port skb h ex = refl
  send_by_state_gate waiting_to_stop port skb h ex = refl
  send_by_state_gate md_stopped port skb h ex = refl

  send_skb_gate :
      (f : FsmState) (port : Port) (skb : SkBuff) (h ex : ℕ)
      → send_skb cldma md_state f port skb h ex ≡ (
          if may_send f md_state port.conf.tx_ch
          then send_ccci_skb cldma md_state port skb h ex
          else (fail (refusal md_state), port))
  unfolding send_skb
  send_skb_gate pre_start port skb h ex = refl
  send_skb_gate init port skb h ex = send_by_state_gate md_state port skb h ex
  send_skb_gate starting port skb h ex = send_by_state_gate md_state port skb h ex
  send_skb_gate ready port skb h ex = send_by_state_gate md_state port skb h ex
  send_skb_gate exception port skb h ex = send_by_state_gate md_state port skb h ex
  send_skb_gate stopping port skb h ex = send_by_state_gate md_state port skb h ex
  send_skb_gate stopped port skb h ex = send_by_state_gate md_state port skb h ex

  -- In a state in which the port's channel may send, sending either hands one buffer to the port's
  -- modem interface and uses up one sequence number, or returns the queues' error and leaves the port
  -- as it was; in every other state it returns -EBUSY after an exception and -ENODEV otherwise,
  -- and leaves the port as it was.
  pub send_skb-OneOrNothing :
      (fsm_state : FsmState) (port : Port) (skb : SkBuff) (pkt_header ex_msg : ℕ)
      → ((may_send fsm_state md_state port.conf.tx_ch ≡ true)
          × OneOrNothing port (send_skb cldma md_state fsm_state port skb pkt_header ex_msg))
        ⊎ ((may_send fsm_state md_state port.conf.tx_ch ≡ false)
            × (send_skb cldma md_state fsm_state port skb pkt_header ex_msg
                ≡ (fail (refusal md_state), port)))
  send_skb-OneOrNothing fsm_state port skb pkt_header ex_msg =
      let gate = send_skb_gate fsm_state port skb pkt_header ex_msg in
      elim (Bool-cases (may_send fsm_state md_state port.conf.tx_ch)) [
        | inl e ↦ inl (e, rw (gate, e) (send_ccci_skb-OneOrNothing port skb pkt_header ex_msg))
        | inr e ↦ inr (e, rw (gate, e))
      ]
