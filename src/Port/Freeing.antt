-- ===== src/Port/Freeing.antt =====
-- Which control messages are freed by control_msg_handler of src/t7xx_port_ctrl_msg.c, whose caller,
-- the port's thread, does not free them.
use mtk_t7xx_fix.Prelude.{
  ℕ, zero, suc, ◌+◌, ◌<◌, ◌≡◌, refl, sym, ap, ◌∙◌, arith, Bool, Option, none, some, Option-cases,
  List, [], ◌∷◌, length, length-set, get_or, get_or-set_self, get_or-set_ne, ℕ_discrete, get_elem?,
  set, Bool-cases, inl, inr, field_get, Ret, ok, fail, if◌then◌else◌, ◌==◌, ==_iff, not, ◌||◌,
}
use mtk_t7xx_fix.Fsm.State.{EventId, md_ex, md_ex_rec_ok, md_ex_pass}
use mtk_t7xx_fix.Port.State.{
  PortOps, wwan_sub_port_ops, ctl_port_ops, trace_port_ops, SkBuff, Port, Call, dev_kfree_skb,
  zero_port, get_le32, call,
}
use mtk_t7xx_fix.Port.Send.{send_ctl_skb}
use mtk_t7xx_fix.Port.Gate.{OneOrNothing, send_ccci_skb-OneOrNothing}
use mtk_t7xx_fix.Port.Wwan.{enable_op}
use mtk_t7xx_fix.Port.Proxy.{PortProxy, set_port, get_port_by_ch, enable_at, chl_enable_disable}
use mtk_t7xx_fix.Port.Control.{
  Host, port_at, CtlId, hs2_msg, ex_msg, drv_ver_error, ex_ack, ex_pass, port_enum, unknown_msg,
  ctl_id, Answers, end_send, send_msg_to_md, append, then_append, ee_message, ee_message_handler,
  is_md_exception, enum_ports, port_enum_msg_handler, answer_enum, free, hs2_event, control_msg,
  control_msg_handler,
}

-- How often an skb is freed in a history.
abbrev pub freed : ℕ → List Call → ℕ
freed id [] = 0
freed id (dev_kfree_skb n ∷ rest) =
    let later = freed id rest in if n == id then suc later else later
freed id (_ ∷ rest) = freed id rest

-- The count after a message of this kind was handled.
abbrev pub once_more : CtlId → ℕ → ℕ
once_more port_enum n = n
once_more unknown_msg n = n
once_more _ n = suc n

-- How often a port of the table has freed an skb, and that the port exists.
Frees : PortProxy → ℕ → ℕ → ℕ → Type 0
Frees c p id n = (p < length c.ports) × (freed id (get_or c.ports p zero_port).calls ≡ n)

module _ (id : ℕ) where
  set_port-Frees :
      (c : PortProxy) (p q n : ℕ) (port : Port)
      → Frees c p id n
      → freed id port.calls ≡ freed id (get_or c.ports q zero_port).calls
      → Frees (set_port c q port) p id n
  unfolding Frees
  set_port-Frees c p q n port (l, f) e = (
    omega (arith, length-set c.ports q port),
    elim (ℕ_discrete q p) [
      | yes s ↦
          ap (λ x. freed id x.calls)
            (ap (λ k. get_or (set c.ports q port) k zero_port) (sym s)
              ∙ get_or-set_self c.ports q port zero_port (omega arith))
          ∙ e
          ∙ ap (λ k. freed id (get_or c.ports k zero_port).calls) s
          ∙ f
      | no s ↦ ap (λ x. freed id x.calls) (get_or-set_ne c.ports q p port zero_port s) ∙ f
    ],
  )

  OneOrNothing-freed :
      (port : Port) (a : Ret × Port)
      → OneOrNothing port a
      → freed id a.1.calls ≡ freed id port.calls
  OneOrNothing-freed port a (inl o) = ap (λ b. freed id b.1.calls) o.2
  OneOrNothing-freed port a (inr o) = ap (λ b. freed id b.1.calls) o.1

  get_or-get_elem? :
      (l : List Port) (p : ℕ) (port : Port)
      → get_elem? l p ≡ some port
      → get_or l p zero_port ≡ port
  get_or-get_elem? [] p port e = absurd (ground arith)
  get_or-get_elem? (x ∷ l) zero port e = ground arith
  get_or-get_elem? (x ∷ l) (suc p) port e = get_or-get_elem? l p port e

  enable_op-freed :
      (o : PortOps) (en : Bool) (port : Port)
      → freed id (enable_op o en port).calls ≡ freed id port.calls
  unfolding enable_op
  enable_op-freed wwan_sub_port_ops en port = refl
  enable_op-freed ctl_port_ops en port = refl
  enable_op-freed trace_port_ops en port = refl

  enable_at-Frees :
      (c : PortProxy) (p n : ℕ) (en : Bool) (o : Option ℕ)
      → Frees c p id n
      → Frees (enable_at c en o).1 p id n
  enable_at-Frees c p n en none h = h
  enable_at-Frees c p n en (some q) h = elim (Option-cases (get_elem? c.ports q)) [
    | inl e ↦ rw (enable_at, e) h
    | inr e ↦
        rw (enable_at, e.1)
          (set_port-Frees c p q n _ h (
            enable_op-freed e.0.conf.ops en e.0
            ∙ ap (λ x. freed id x.calls) (sym (get_or-get_elem? c.ports q e.0 e.1))))
  ]

module _ (env : Answers) (id : ℕ) where
  enum_ports-Frees :
      (left off : ℕ) (bytes : List ℕ) (c : PortProxy) (p n : ℕ)
      → Frees c p id n
      → Frees (enum_ports env left off bytes c) p id n
  unfolding enum_ports chl_enable_disable
  enum_ports-Frees zero off bytes c p n h = h
  enum_ports-Frees (suc left) off bytes c p n h = enum_ports-Frees left (off + 4) bytes _ p n (
      enable_at-Frees id c p n _ (get_port_by_ch (field_get 0 15 (get_le32 bytes off)) 0 c.ports) h)

  port_enum-Frees :
      (bytes : List ℕ) (c : PortProxy) (p n : ℕ)
      → Frees c p id n
      → Frees (port_enum_msg_handler env bytes c).1 p id n
  unfolding port_enum_msg_handler
  port_enum-Frees bytes c p n h =
      elim (Bool-cases (
        not (field_get 16 16 (get_le32 bytes 4) == 0)
        || not (get_le32 bytes 0 == 0x5a5a5a5a)
        || not (get_le32 bytes 8 == 0xa5a5a5a5))) [
          | inl e ↦ rw e h
          | inr e ↦ rw e (enum_ports-Frees (field_get 0 16 (get_le32 bytes 4)) 12 bytes c p n h)
        ]

  send_msg-Frees :
      (host : Host) (p m x n : ℕ)
      → Frees host.prox p id n
      → Frees (send_msg_to_md env host p m x).1.prox p id n
  unfolding send_msg_to_md send_ctl_skb
  send_msg-Frees host p m x n h = elim (Bool-cases env.alloc_skb) [
    | inl e ↦ rw e (
        ended _ (
          OneOrNothing-freed id (port_at host p) _
            (send_ccci_skb-OneOrNothing env.cldma host.fsm.md_state (port_at host p) _ _ _)))
    | inr e ↦ rw e h
  ]
    where
      ended :
          (a : Ret × Port)
          → freed id a.1.calls ≡ freed id (port_at host p).calls
          → Frees (end_send env host p a).1.prox p id n
      ended (ok, port) e = set_port-Frees id host.prox p p n port h e
      ended (fail r, port) e = set_port-Frees id host.prox p p n _ h e

  append-Frees :
      (host : Host) (p n : ℕ) (ev : EventId) (k : ℕ) (bytes : List ℕ)
      → Frees host.prox p id n
      → Frees (append env host ev k bytes).1.prox p id n
  unfolding append
  append-Frees host p n ev k bytes h = h

  then_append-Frees :
      (p n : ℕ) (a : Ret × Host)
      → Frees a.1.prox p id n
      → Frees (then_append env md_ex a).1.prox p id n
  then_append-Frees p n (ok, host) h = append-Frees host p n md_ex 0 [] h
  then_append-Frees p n (fail e, host) h = h

  ee_message-Frees :
      (c : CtlId) (ex : ℕ) (host : Host) (p n : ℕ)
      → Frees host.prox p id n
      → Frees (ee_message env c ex host p).1.prox p id n
  unfolding ee_message
  ee_message-Frees ex_msg ex host p n h = elim (Bool-cases (ex == 0x45584350)) [
    | inl e ↦ rw e (then_append-Frees p n _ (send_msg-Frees host p _ _ n h))
    | inr e ↦ rw e h
  ]
  ee_message-Frees ex_ack ex host p n h = elim (Bool-cases (ex == 0x45524543)) [
    | inl e ↦ rw e (append-Frees host p n md_ex_rec_ok 0 [] h)
    | inr e ↦ rw e h
  ]
  ee_message-Frees ex_pass ex host p n h = append-Frees host p n md_ex_pass 0 [] h
  ee_message-Frees hs2_msg ex host p n h = h
  ee_message-Frees drv_ver_error ex host p n h = h
  ee_message-Frees port_enum ex host p n h = h
  ee_message-Frees unknown_msg ex host p n h = h

  ee_message_handler-Frees :
      (c : CtlId) (ex : ℕ) (host : Host) (p n : ℕ)
      → Frees host.prox p id n
      → Frees (ee_message_handler env c ex host p).1.prox p id n
  unfolding ee_message_handler
  ee_message_handler-Frees c ex host p n h =
      elim (Bool-cases (is_md_exception env host.fsm.md_state)) [
        | inl e ↦ rw e (ee_message-Frees c ex host p n h)
        | inr e ↦ rw e h
      ]

  hs2_event-Frees :
      (host : Host) (p n : ℕ) (skb : SkBuff)
      → Frees host.prox p id n
      → Frees (hs2_event env host p skb).1.prox p id n
  unfolding hs2_event append
  hs2_event-Frees host p n skb h = elim (Bool-cases ((port_at host p).conf.rx_ch == 0x2000)) [
    | inl e ↦ rw e h
    | inr e ↦ elim (Bool-cases ((port_at host p).conf.rx_ch == 0x1000)) [
      | inl f ↦ rw (e, f) h
      | inr f ↦ rw (e, f) h
    ]
  ]

  answer_enum-Frees :
      (host : Host) (p n : ℕ) (a : Ret × PortProxy)
      → Frees a.1 p id n
      → Frees (answer_enum env p host a).1.prox p id n
  unfolding answer_enum
  answer_enum-Frees host p n (ok, prox) h = send_msg-Frees _ p _ _ n h
  answer_enum-Frees host p n (fail e, prox) h = send_msg-Frees _ p _ _ n h

module _ (env : Answers) where
  free-Frees :
      (p n : ℕ) (skb : SkBuff) (a : Ret × Host)
      → Frees a.1.prox p skb.id n
      → Frees (free env p skb a).1.prox p skb.id (suc n)
  unfolding Frees
  free-Frees p n skb (r, host) (l, f) = (
    omega (
      arith,
      length-set host.prox.ports p (port_at host p),
      length-set host.prox.ports p (call (port_at host p) (dev_kfree_skb skb.id)),
    ),
    ap (λ x. freed skb.id x.calls) (get_or-set_self host.prox.ports p _ zero_port l)
        ∙ rw ((==_iff skb.id skb.id).1 refl) (ap suc f),
  )

  exception-Frees :
      (c : CtlId) (host : Host) (p n : ℕ) (skb : SkBuff)
      → Frees host.prox p skb.id n
      → Frees
          (free env p skb (ee_message_handler env c (get_le32 skb.bytes 4) host p)).1.prox
          p
          skb.id
          (suc n)
  exception-Frees c host p n skb h =
      let ex = get_le32 skb.bytes 4 in
      free-Frees p n skb (ee_message_handler env c ex host p)
        (ee_message_handler-Frees env skb.id c ex host p n h)

  control_msg-Frees :
      (c : CtlId) (host : Host) (p n : ℕ) (skb : SkBuff)
      → Frees host.prox p skb.id n
      → Frees (control_msg env c host p skb).1.prox p skb.id (once_more c n)
  unfolding control_msg
  control_msg-Frees hs2_msg host p n skb h =
      free-Frees p n skb (hs2_event env host p skb) (hs2_event-Frees env skb.id host p n skb h)
  control_msg-Frees port_enum host p n skb h =
      answer_enum-Frees env skb.id host p n _ (port_enum-Frees env skb.id _ host.prox p n h)
  control_msg-Frees unknown_msg host p n skb h = h
  control_msg-Frees ex_msg host p n skb h = exception-Frees ex_msg host p n skb h
  control_msg-Frees drv_ver_error host p n skb h = exception-Frees drv_ver_error host p n skb h
  control_msg-Frees ex_ack host p n skb h = exception-Frees ex_ack host p n skb h
  control_msg-Frees ex_pass host p n skb h = exception-Frees ex_pass host p n skb h

  -- Handling a control message at a port of the table frees the message's skb exactly once when it is
  -- a handshake or an exception message, but not at all when it is a port enumeration or of an unknown
  -- kind, whatever its bytes and whatever fails.
  pub control_msg_handler-freed :
      (host : Host) (p : ℕ) (skb : SkBuff)
      → p < length host.prox.ports
      → freed skb.id (port_at (control_msg_handler env host p skb).1 p).calls
        ≡ once_more (ctl_id (get_le32 skb.bytes 0)) (freed skb.id (port_at host p).calls)
  unfolding control_msg_handler Frees
  control_msg_handler-freed host p skb l =
      (control_msg-Frees (ctl_id (get_le32 skb.bytes 0)) host p _ skb (l, refl)).1
