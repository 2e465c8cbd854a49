-- ===== src/Port/Events.antt =====
-- Which events the control messages of src/t7xx_port_ctrl_msg.c append to the state machine.
use mtk_t7xx_fix.Prelude.{
  ℕ, ◌≡◌, refl, ap, arith, true, List, [], ◌∷◌, ◌++◌, Bool-cases, ◌⊎◌, inl, inr, Ret, ok, fail,
  ◌==◌, ==_iff,
}
use mtk_t7xx_fix.Fsm.State.{
  EventId, md_hs2, ap_hs2, md_ex, md_ex_rec_ok, md_ex_pass, Event, MdState, md_exception,
  md_invalid, waiting_for_hs1, waiting_for_hs2, md_ready, waiting_to_stop, md_stopped, Ctl,
}
use mtk_t7xx_fix.Fsm.Queues.{append_event, new_event, event_is_bad}
use mtk_t7xx_fix.Port.State.{SkBuff, Port, get_le32}
use mtk_t7xx_fix.Port.Proxy.{PortProxy}
use mtk_t7xx_fix.Port.Control.{
  Host, port_at, CtlId, hs2_msg, ex_msg, drv_ver_error, ex_ack, ex_pass, port_enum, unknown_msg,
  ctl_id, Answers, end_send, send_msg_to_md, append, then_append, ee_message, ee_message_handler,
  is_md_exception, answer_enum, hs2_event, control_msg, control_msg_handler,
}

-- What has to hold of the host, and of the message's port, when an event of a number is appended.
abbrev pub Origin : Host → ℕ → EventId → Type 0
Origin host p md_hs2 = (port_at host p).conf.rx_ch ≡ 0x2000
Origin host p ap_hs2 = (port_at host p).conf.rx_ch ≡ 0x1000
Origin host p md_ex = host.fsm.md_state ≡ md_exception
Origin host p md_ex_rec_ok = host.fsm.md_state ≡ md_exception
Origin host p md_ex_pass = host.fsm.md_state ≡ md_exception
Origin host p _ = ⊥

-- The event queue grew by no event, or by one that has its origin, and nothing else in the state
-- machine has changed.
abbrev pub OneEvent : Host → ℕ → Host → Type 0
OneEvent host p after =
    (after.fsm ≡ host.fsm)
    ⊎ ((ev : Event) × (after.fsm
          ≡ record host.fsm { event_queue = host.fsm.event_queue ++ (ev ∷ []) })
        × Origin host p ev.event_id)

module _ (env : Answers) where
  append-OneEvent :
      (host : Host) (p : ℕ) (id : EventId) (n : ℕ) (bytes : List ℕ)
      → Origin host p id
      → OneEvent host p (append env host id n bytes).1
  unfolding append append_event
  append-OneEvent host p id n bytes o = elim (Bool-cases (event_is_bad id)) [
    | inl e ↦ rw e (inl refl)
    | inr e ↦ elim (Bool-cases env.alloc_event) [
      | inl a ↦ rw (e, a) (inr (new_event id n bytes, refl, o))
      | inr a ↦ rw (e, a) (inl refl)
    ]
  ]

  end_send-fsm : (host : Host) (p : ℕ) (a : Ret × Port) → (end_send env host p a).1.fsm ≡ host.fsm
  end_send-fsm host p (ok, port) = refl
  end_send-fsm host p (fail e, port) = refl

  send_msg_to_md-fsm : (host : Host) (p m x : ℕ) → (send_msg_to_md env host p m x).1.fsm ≡ host.fsm
  unfolding send_msg_to_md
  send_msg_to_md-fsm host p m x = elim (Bool-cases env.alloc_skb) [
    | inl e ↦ rw e (end_send-fsm host p _)
    | inr e ↦ rw e
  ]

  -- The event that follows an answer to an exception.
  then_append-OneEvent :
      (host : Host) (p : ℕ) (a : Ret × Host)
      → a.1.fsm ≡ host.fsm
      → host.fsm.md_state ≡ md_exception
      → OneEvent host p (then_append env md_ex a).1
  unfolding append append_event
  then_append-OneEvent host p (ok, after) e x = elim (Bool-cases env.alloc_event) [
    | inl a ↦ rw a (
        inr (
          new_event md_ex 0 [],
          ap {A = Ctl}
              (λ f. record f { event_queue = f.event_queue ++ (new_event md_ex 0 [] ∷ []) }) e,
          x,
        ))
    | inr a ↦ rw a (inl e)
  ]
  then_append-OneEvent host p (fail r, after) e x = inl e

  ee_message-OneEvent :
      (id : CtlId) (ex : ℕ) (host : Host) (p : ℕ)
      → host.fsm.md_state ≡ md_exception
      → OneEvent host p (ee_message env id ex host p).1
  unfolding ee_message
  ee_message-OneEvent ex_msg ex host p h = elim (Bool-cases (ex == 0x45584350)) [
    | inl e ↦ rw e (then_append-OneEvent host p _ (send_msg_to_md-fsm host p _ _) h)
    | inr e ↦ rw e (inl refl)
  ]
  ee_message-OneEvent ex_ack ex host p h = elim (Bool-cases (ex == 0x45524543)) [
    | inl e ↦ rw e (append-OneEvent host p md_ex_rec_ok 0 [] h)
    | inr e ↦ rw e (inl refl)
  ]
  ee_message-OneEvent ex_pass ex host p h = append-OneEvent host p md_ex_pass 0 [] h
  ee_message-OneEvent hs2_msg ex host p h = inl refl
  ee_message-OneEvent drv_ver_error ex host p h = inl refl
  ee_message-OneEvent port_enum ex host p h = inl refl
  ee_message-OneEvent unknown_msg ex host p h = inl refl

  is_md_exception_lem : (s : MdState) → is_md_exception env s ≡ true → s ≡ md_exception
  is_md_exception_lem md_exception h = refl
  is_md_exception_lem md_invalid h = absurd (ground arith)
  is_md_exception_lem waiting_for_hs1 h = absurd (ground arith)
  is_md_exception_lem waiting_for_hs2 h = absurd (ground arith)
  is_md_exception_lem md_ready h = absurd (ground arith)
  is_md_exception_lem waiting_to_stop h = absurd (ground arith)
  is_md_exception_lem md_stopped h = absurd (ground arith)

  ee_message_handler-OneEvent :
      (id : CtlId) (ex : ℕ) (host : Host) (p : ℕ)
      → OneEvent host p (ee_message_handler env id ex host p).1
  unfolding ee_message_handler
  ee_message_handler-OneEvent id ex host p =
      elim (Bool-cases (is_md_exception env host.fsm.md_state)) [
        | inl e ↦ rw e (ee_message-OneEvent id ex host p (is_md_exception_lem host.fsm.md_state e))
        | inr e ↦ rw e (inl refl)
      ]

  hs2_event-OneEvent :
      (host : Host) (p : ℕ) (skb : SkBuff) → OneEvent host p (hs2_event env host p skb).1
  unfolding hs2_event
  hs2_event-OneEvent host p skb = elim (Bool-cases ((port_at host p).conf.rx_ch == 0x2000)) [
    | inl e ↦ rw e (append-OneEvent host p md_hs2 _ _ ((==_iff _ _).0 e))
    | inr e ↦ elim (Bool-cases ((port_at host p).conf.rx_ch == 0x1000)) [
      | inl f ↦ rw (e, f) (append-OneEvent host p ap_hs2 _ _ ((==_iff _ _).0 f))
      | inr f ↦ rw (e, f) (inl refl)
    ]
  ]

  answer_enum-OneEvent :
      (host : Host) (p : ℕ) (a : Ret × PortProxy) → OneEvent host p (answer_enum env p host a).1
  unfolding answer_enum
  answer_enum-OneEvent host p (ok, prox) = inl (send_msg_to_md-fsm _ p _ _)
  answer_enum-OneEvent host p (fail e, prox) = inl (send_msg_to_md-fsm _ p _ _)

  control_msg-OneEvent :
      (id : CtlId) (host : Host) (p : ℕ) (skb : SkBuff)
      → OneEvent host p (control_msg env id host p skb).1
  unfolding control_msg
  control_msg-OneEvent hs2_msg host p skb = hs2_event-OneEvent host p skb
  control_msg-OneEvent port_enum host p skb = answer_enum-OneEvent host p _
  control_msg-OneEvent unknown_msg host p skb = inl refl
  control_msg-OneEvent ex_msg host p skb =
      ee_message_handler-OneEvent ex_msg (get_le32 skb.bytes 4) host p
  control_msg-OneEvent drv_ver_error host p skb =
      ee_message_handler-OneEvent drv_ver_error (get_le32 skb.bytes 4) host p
  control_msg-OneEvent ex_ack host p skb =
      ee_message_handler-OneEvent ex_ack (get_le32 skb.bytes 4) host p
  control_msg-OneEvent ex_pass host p skb =
      ee_message_handler-OneEvent ex_pass (get_le32 skb.bytes 4) host p

  -- Whatever bytes a control message holds and whatever fails while it is handled, the state machine
  -- changes by at most one appended event: a modem handshake event only for a message on channel
  -- 0x2000, an application-core handshake event only on channel 0x1000, and an exception event
  -- only while the modem state is the exception state; no other event is ever appended.
  pub control_msg_handler-OneEvent :
      (host : Host) (p : ℕ) (skb : SkBuff) → OneEvent host p (control_msg_handler env host p skb).1
  unfolding control_msg_handler
  control_msg_handler-OneEvent host p skb =
      control_msg-OneEvent (ctl_id (get_le32 skb.bytes 0)) host p skb
