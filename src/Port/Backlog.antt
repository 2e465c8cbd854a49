-- ===== src/Port/Backlog.antt =====
-- How many skbs wait at a port: the limits of t7xx_port_enqueue_skb through every operation on the
-- port table (src/t7xx_port_proxy.c, src/t7xx_port_ctrl_msg.c).
use mtk_t7xx_fix.Prelude.{
  subst, ℕ, ◌≤◌, ◌<◌, ◌≡◌, refl, sym, ◌∙◌, arith, Bool, true, false, not, ◌||◌, [], ◌∷◌, ◌++◌,
  length, length-append, Bool-cases, inl, inr, leb, Ret, if◌then◌else◌, ◌==◌,
}
use mtk_t7xx_fix.Fsm.State.{MdState}
use mtk_t7xx_fix.Port.State.{
  CldmaId, PortOps, wwan_sub_port_ops, ctl_port_ops, trace_port_ops, SkBuff, Port,
}
use mtk_t7xx_fix.Port.Wwan.{
  enqueue_skb, wwan_recv_skb, trace_recv_skb, recv_op, init_op, notify_op, uninit_op, enable_op,
  ctl_init, ctl_uninit, is_early, wwan_init, wwan_create, wwan_uninit, trace_uninit,
  wwan_md_state_notify, trace_md_state_notify,
}
use mtk_t7xx_fix.Port.Proxy.{struct_init}
use mtk_t7xx_fix.Port.Setup.{init_port}

-- The threshold of a control port.
abbrev pub Limited : PortOps → ℕ → Type 0
Limited ctl_port_ops th = th ≤ 16
Limited _ th = Unit

-- At most 16 skbs wait at a port, and a control port takes no more.
abbrev pub IsBounded : Port → Type 0
IsBounded port = (length port.rx_skb_list ≤ 16) × Limited port.conf.ops port.rx_length_th

-- A control port in a table is no debug port.
abbrev pub Fits : PortOps → Bool → Type 0
Fits ctl_port_ops debug = debug ≡ false
Fits _ debug = Unit

-- A branch that leaves a bounded port either way.
either :
    (b : Bool) (r s : Ret) (p q : Port)
    → IsBounded p
    → IsBounded q
    → IsBounded (if◌then◌else◌ {A = Ret × Port} b (r, p) (s, q)).1
either true r s p q hp hq = hp
either false r s p q hp hq = hq

pub zero_Limited : (o : PortOps) → Limited o 0
zero_Limited wwan_sub_port_ops = tt
zero_Limited ctl_port_ops = omega arith
zero_Limited trace_port_ops = tt

pub either_port :
    (b : Bool) (p q : Port) → IsBounded p → IsBounded q → IsBounded (if b then p else q)
either_port true p q hp hq = hp
either_port false p q hp hq = hq

threshold : (port : Port) → IsBounded port → port.conf.ops ≡ ctl_port_ops → port.rx_length_th ≤ 16
threshold port h e = subst (λ o. Limited o port.rx_length_th) e h.1

enqueue_skb-IsBounded :
    (port : Port) (skb : SkBuff)
    → port.conf.ops ≡ ctl_port_ops
    → IsBounded port
    → IsBounded (enqueue_skb port skb).1
unfolding enqueue_skb
enqueue_skb-IsBounded port skb e h =
    elim (Bool-cases (leb port.rx_length_th (length port.rx_skb_list))) [
      | inl b ↦ rw b h
      | inr b ↦ rw b (shorter b, h.1)
    ]
  where
    shorter :
        leb port.rx_length_th (length port.rx_skb_list) ≡ false
        → length (port.rx_skb_list ++ (skb ∷ [])) ≤ 16
    shorter b =
        let short : length port.rx_skb_list < port.rx_length_th = ground arith in
        omega (arith, threshold port h e, length-append port.rx_skb_list (skb ∷ []), short)

pub recv_op-IsBounded :
    (port : Port) (skb : SkBuff) → IsBounded port → IsBounded (recv_op port.conf.ops port skb).1
unfolding recv_op wwan_recv_skb trace_recv_skb
recv_op-IsBounded port skb h = by_ops port.conf.ops refl
  where
    by_ops : (o : PortOps) → port.conf.ops ≡ o → IsBounded (recv_op o port skb).1
    by_ops wwan_sub_port_ops e = either (port.usage_cnt == 0 || not port.chan_enable) _ _ _ _ h h
    by_ops ctl_port_ops e = enqueue_skb-IsBounded port skb e h
    by_ops trace_port_ops e = either port.has_relaych _ _ _ _ h h

pub uninit_op-IsBounded : (port : Port) → IsBounded port → IsBounded (uninit_op port.conf.ops port)
unfolding uninit_op wwan_uninit ctl_uninit trace_uninit
uninit_op-IsBounded port h = by_ops port.conf.ops refl
  where
    by_ops : (o : PortOps) → port.conf.ops ≡ o → IsBounded (uninit_op o port)
    by_ops wwan_sub_port_ops e =
        either_port port.has_wwan_port _ _ (h.0, zero_Limited port.conf.ops) h
    by_ops ctl_port_ops e = (omega arith, zero_Limited _)
    by_ops trace_port_ops e = either_port port.has_relaych _ _ h h

pub enable_op-IsBounded :
    (o : PortOps) (en_flag : Bool) (port : Port)
    → IsBounded port
    → IsBounded (enable_op o en_flag port)
unfolding enable_op
enable_op-IsBounded wwan_sub_port_ops en_flag port h = h
enable_op-IsBounded ctl_port_ops en_flag port h = h
enable_op-IsBounded trace_port_ops en_flag port h = h

module _ (mtu : CldmaId → ℕ → ℕ) (md_state : MdState) (relay_opens : Bool) where
  wwan_create-IsBounded :
      (port : Port) → IsBounded port → IsBounded (wwan_create mtu md_state relay_opens port)
  unfolding wwan_create
  wwan_create-IsBounded port h = either_port port.has_wwan_port _ _ h h

  wwan_create-ops :
      (port : Port)
      → ((wwan_create mtu md_state relay_opens port).conf.ops ≡ port.conf.ops)
        × ((wwan_create mtu md_state relay_opens port).rx_skb_list ≡ port.rx_skb_list)
  unfolding wwan_create
  wwan_create-ops port = elim (Bool-cases port.has_wwan_port) [
    | inl e ↦ rw e (refl, refl)
    | inr e ↦ rw e (refl, refl)
  ]

  early-ops :
      (b : Bool) (port : Port)
      → ((if b then wwan_create mtu md_state relay_opens port else port).conf.ops ≡ port.conf.ops)
        × ((if b then wwan_create mtu md_state relay_opens port else port).rx_skb_list
            ≡ port.rx_skb_list)
  early-ops true port = wwan_create-ops port
  early-ops false port = (refl, refl)

  -- The port's old threshold does not matter.
  pub init_op-IsBounded :
      (port : Port)
      → length port.rx_skb_list ≤ 16
      → IsBounded (init_op mtu md_state relay_opens port.conf.ops port)
  unfolding init_op wwan_init ctl_init
  init_op-IsBounded port h = by_ops port.conf.ops refl
    where
      by_ops :
          (o : PortOps) → port.conf.ops ≡ o → IsBounded (init_op mtu md_state relay_opens o port)
      by_ops wwan_sub_port_ops e =
          let (ops, list) = early-ops (is_early port.conf.port_type) port in
          (subst (λ l. length l ≤ 16) (sym list) h, subst (λ o. Limited o 32) (sym (ops ∙ e)) tt)
      by_ops ctl_port_ops e = (h, subst (λ o. Limited o 16) (sym e) (omega arith))
      by_ops trace_port_ops e = (h, subst (λ o. Limited o port.rx_length_th) (sym e) tt)

  pub notify_op-IsBounded :
      (port : Port) (state : MdState)
      → IsBounded port
      → IsBounded (notify_op mtu md_state relay_opens port.conf.ops port state)
  unfolding notify_op wwan_md_state_notify trace_md_state_notify
  notify_op-IsBounded port state h = by_ops port.conf.ops
    where
      by_ops : (o : PortOps) → IsBounded (notify_op mtu md_state relay_opens o port state)
      by_ops wwan_sub_port_ops = either_port _ _ _ h (wwan_create-IsBounded port h)
      by_ops ctl_port_ops = h
      by_ops trace_port_ops = either_port _ _ _ h (either_port relay_opens _ _ h h)

  pub init_port-IsBounded :
      (port : Port)
      → Fits port.conf.ops port.conf.debug
      → IsBounded (init_port mtu md_state relay_opens port)
  unfolding init_port struct_init
  init_port-IsBounded port h = elim (Bool-cases port.conf.debug) [
    | inl e ↦ rw e (omega arith, unlimited port.conf.ops (subst (λ b. Fits port.conf.ops b) e h))
    | inr e ↦ rw e (init_op-IsBounded _ (omega arith))
  ]
    where
      unlimited : (o : PortOps) → Fits o true → Limited o port.rx_length_th
      unlimited wwan_sub_port_ops h = tt
      unlimited ctl_port_ops h = absurd (ground arith)
      unlimited trace_port_ops h = tt
