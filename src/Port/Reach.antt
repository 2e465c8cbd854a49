-- ===== src/Port/Reach.antt =====
-- Everything that happens to the port table of src/t7xx_port_proxy.c as a sequence of steps: the
-- functions of the proxy, and a control port's thread taking an skb off its list.
use mtk_t7xx_fix.Prelude.{
  ℕ, ◌≡◌, refl, arith, Bool, true, false, Option, none, some, Option-cases, List, [], ◌∷◌, map,
  length, All, All-append, All-set, All-map, All-drop, All-replicate, All-get_elem?, get_elem?,
  length-drop, Bool-cases, inl, inr, drop, Ret, ok, fail, ◌==◌,
}
use mtk_t7xx_fix.Fsm.State.{MdState}
use mtk_t7xx_fix.Port.State.{
  CldmaId, PortConf, SkBuff, Port, zero_port, normal_port_conf, early_port_conf,
}
use mtk_t7xx_fix.Port.Proxy.{
  PortCfgId, cfg_early, cfg_normal, cfg_invalid, PortProxy, proxy_reset, setup_ch_mapping, recv_skb,
  dispatch, deliver, after_recv, find_port, is_md_invalid, is_fatal, end_dedicated,
  recv_skb_from_dedicated_queue, recv_dedicated, chl_enable_disable, get_port_by_ch, enable_at,
  proxy_uninit, set_port, skb_channel,
}
use mtk_t7xx_fix.Port.Setup.{
  md_status_notify, init_port, init_all_ports, debug_port_show, debug_ports_show, assign,
  port_table, proxy_set_cfg, proxy_alloc,
}
use mtk_t7xx_fix.Port.Wwan.{recv_op}
use mtk_t7xx_fix.Port.Backlog.{
  Fits, IsBounded, either_port, recv_op-IsBounded, uninit_op-IsBounded, enable_op-IsBounded,
  init_op-IsBounded, notify_op-IsBounded, init_port-IsBounded,
}

-- The skb at the head of a port's list is taken.
abbrev pub dequeued : Port → Port
dequeued port = record port { rx_skb_list = drop 1 port.rx_skb_list }

abbrev pub dequeue_at : PortProxy → ℕ → Option Port → PortProxy
dequeue_at prox p none = prox
dequeue_at prox p (some port) = set_port prox p (dequeued port)

-- One thing that happens to the table; `dbg` says whether the log port is compiled in.
pub data Step (dbg : Bool) (c : PortProxy) : PortProxy → Type 0 where
  set_cfg :
      (mtu : CldmaId → ℕ → ℕ) (md_state : MdState) (relay_opens : Bool) (cfg_id : PortCfgId)
      → Step dbg c (proxy_set_cfg mtu md_state relay_opens dbg cfg_id c)
  recv :
      (md_state : MdState) (hif_id : CldmaId) (skb : SkBuff)
      → Step dbg c (recv_skb c md_state hif_id skb).1
  recv_early :
      (queue_index : ℕ) (skb : SkBuff)
      → Step dbg c (recv_skb_from_dedicated_queue c queue_index skb).1
  enable : (ch : ℕ) (en_flag : Bool) → Step dbg c (chl_enable_disable c ch en_flag).1
  notify :
      (mtu : CldmaId → ℕ → ℕ) (md_state : MdState) (relay_opens : Bool) (state : MdState)
      → Step dbg c (md_status_notify mtu md_state relay_opens state c)
  show :
      (mtu : CldmaId → ℕ → ℕ) (md_state : MdState) (relay_opens : Bool) (on : Bool)
      → Step dbg c (debug_ports_show mtu md_state relay_opens on c)
  reset : Step dbg c (proxy_reset c)
  uninit : Step dbg c (proxy_uninit c)
  dequeue : (p : ℕ) → Step dbg c (dequeue_at c p (get_elem? c.ports p))

pub data Reach (dbg : Bool) : PortProxy → Type 0 where
  here : Reach dbg (proxy_alloc dbg)
  next : {c d : PortProxy} → Reach dbg c → Step dbg c d → Reach dbg d

abbrev pub IsBacklogged : PortProxy → Type 0
IsBacklogged c = All IsBounded c.ports × All IsBounded c.spare

set_port-IsBacklogged :
    (c : PortProxy) (p : ℕ) (port : Port)
    → IsBacklogged c
    → IsBounded port
    → IsBacklogged (set_port c p port)
set_port-IsBacklogged c p port h hp = (All-set IsBounded c.ports p port h.0 hp, h.1)

after_recv-IsBacklogged :
    (c : PortProxy) (p n : ℕ) (a : Ret × Port)
    → IsBacklogged c
    → IsBounded a.1
    → IsBacklogged (after_recv c p n a).1
unfolding after_recv
after_recv-IsBacklogged c p n (ok, port) h hp = set_port-IsBacklogged c p _ h hp
after_recv-IsBacklogged c p n (fail e, port) h hp = set_port-IsBacklogged c p _ h hp

deliver-IsBacklogged :
    (c : PortProxy) (skb : SkBuff) (p : ℕ) (o : Option Port)
    → IsBacklogged c
    → get_elem? c.ports p ≡ o
    → IsBacklogged (deliver c skb p o).1
unfolding deliver
deliver-IsBacklogged c skb p none h e = h
deliver-IsBacklogged c skb p (some port) h e =
    after_recv-IsBacklogged c p _ _ h
      (recv_op-IsBounded port _ (All-get_elem? IsBounded c.ports p port h.0 e))

recv_skb-IsBacklogged :
    (c : PortProxy) (s : MdState) (hif : CldmaId) (skb : SkBuff)
    → IsBacklogged c
    → IsBacklogged (recv_skb c s hif skb).1
unfolding recv_skb dispatch
recv_skb-IsBacklogged c s hif skb h = elim (Bool-cases (is_md_invalid s)) [
  | inl e ↦ rw e h
  | inr e ↦ rw e (found (find_port c hif (skb_channel skb)))
]
  where
    found : (o : Option ℕ) → IsBacklogged (dispatch c skb o).1
    found none = h
    found (some p) = deliver-IsBacklogged c skb p (get_elem? c.ports p) h refl

recv_dedicated-IsBacklogged :
    (c : PortProxy) (n : ℕ) (skb : SkBuff) (o : Option Port)
    → IsBacklogged c
    → get_elem? c.ports 0 ≡ o
    → IsBacklogged (recv_dedicated c n skb o).1
unfolding recv_dedicated
recv_dedicated-IsBacklogged c n skb none h e = h
recv_dedicated-IsBacklogged c n skb (some port) h e =
    let bounded = recv_op-IsBounded port skb (All-get_elem? IsBounded c.ports 0 port h.0 e) in
    elim (Bool-cases (port.conf.rxq_index == n)) [
      | inl b ↦ rw b (ended (recv_op port.conf.ops port skb) bounded)
      | inr b ↦ rw b h
    ]
  where
    ended : (a : Ret × Port) → IsBounded a.1 → IsBacklogged (end_dedicated c skb a).1
    ended (ret, q) hq = elim (Bool-cases (is_fatal ret)) [
      | inl b ↦ rw b (set_port-IsBacklogged c 0 q h hq)
      | inr b ↦ rw b (set_port-IsBacklogged c 0 q h hq)
    ]

enable_at-IsBacklogged :
    (c : PortProxy) (en : Bool) (o : Option ℕ) → IsBacklogged c → IsBacklogged (enable_at c en o).1
enable_at-IsBacklogged c en none h = h
enable_at-IsBacklogged c en (some p) h = elim (Option-cases (get_elem? c.ports p)) [
  | inl e ↦ rw (enable_at, e) h
  | inr e ↦
      rw (enable_at, e.1)
        (set_port-IsBacklogged c p _ h
          (enable_op-IsBounded e.0.conf.ops en e.0 (All-get_elem? IsBounded c.ports p e.0 h.0 e.1)))
]

dequeue_at-IsBacklogged :
    (c : PortProxy) (p : ℕ) (o : Option Port)
    → IsBacklogged c
    → get_elem? c.ports p ≡ o
    → IsBacklogged (dequeue_at c p o)
dequeue_at-IsBacklogged c p none h e = h
dequeue_at-IsBacklogged c p (some port) h e =
    let hp = All-get_elem? IsBounded c.ports p port h.0 e in
    set_port-IsBacklogged c p (dequeued port) h
      (omega (arith, length-drop 1 port.rx_skb_list, hp.0), hp.1)

FitsConf : PortConf → Type 0
FitsConf c = Fits c.ops c.debug

normal_port_conf-FitsConf : (dbg : Bool) → All FitsConf (normal_port_conf dbg)
unfolding FitsConf normal_port_conf
normal_port_conf-FitsConf true = (tt, (tt, (tt, (refl, (refl, (tt, (tt, tt)))))))
normal_port_conf-FitsConf false = (tt, (tt, (refl, (refl, (tt, (tt, tt))))))

port_table-FitsConf : (dbg : Bool) (id : PortCfgId) → All FitsConf (port_table dbg id)
unfolding FitsConf early_port_conf
port_table-FitsConf dbg cfg_early = (tt, tt)
port_table-FitsConf dbg cfg_normal = normal_port_conf-FitsConf dbg
port_table-FitsConf dbg cfg_invalid = normal_port_conf-FitsConf dbg

module _ (mtu : CldmaId → ℕ → ℕ) (md_state : MdState) (relay_opens : Bool) where
  assign-IsBounded :
      (table : List PortConf) (slots : List Port)
      → All FitsConf table
      → All IsBounded (map (init_port mtu md_state relay_opens) (assign table slots))
  unfolding assign FitsConf
  assign-IsBounded [] slots f = tt
  assign-IsBounded (c ∷ cs) [] f = tt
  assign-IsBounded (c ∷ cs) (port ∷ slots) f = (
    init_port-IsBounded mtu md_state relay_opens (record port { conf = c }) f.0,
    assign-IsBounded cs slots f.1,
  )

  proxy_set_cfg-IsBacklogged :
      (dbg : Bool) (id : PortCfgId) (c : PortProxy)
      → IsBacklogged c
      → IsBacklogged (proxy_set_cfg mtu md_state relay_opens dbg id c)
  unfolding proxy_set_cfg proxy_uninit init_all_ports setup_ch_mapping
  proxy_set_cfg-IsBacklogged dbg id c h = (
    assign-IsBounded _ _ (port_table-FitsConf dbg id),
    All-drop IsBounded _ _ (
        All-append IsBounded _ _
          (All-map IsBounded _ c.ports (λ port b. uninit_op-IsBounded port b) h.0) h.1),
  )

Step-IsBacklogged : (dbg : Bool) {c d : PortProxy} → Step dbg c d → IsBacklogged c → IsBacklogged d
unfolding chl_enable_disable md_status_notify debug_ports_show debug_port_show proxy_reset
    proxy_uninit recv_skb_from_dedicated_queue
Step-IsBacklogged dbg (set_cfg mtu s r id) h = proxy_set_cfg-IsBacklogged mtu s r dbg id _ h
Step-IsBacklogged dbg (recv s hif skb) h = recv_skb-IsBacklogged _ s hif skb h
Step-IsBacklogged dbg {c = c} (recv_early n skb) h =
    recv_dedicated-IsBacklogged c n skb (get_elem? c.ports 0) h refl
Step-IsBacklogged dbg {c = c} (enable ch en) h =
    enable_at-IsBacklogged c en (get_port_by_ch ch 0 c.ports) h
Step-IsBacklogged dbg {c = c} (notify mtu s r t) h =
    (All-map IsBounded _ c.ports (λ port b. notify_op-IsBounded mtu s r port t b) h.0, h.1)
Step-IsBacklogged dbg {c = c} (show mtu s r on) h = (All-map IsBounded _ c.ports shown h.0, h.1)
  where
    shown : (port : Port) → IsBounded port → IsBounded (debug_port_show mtu s r on port)
    shown port b =
        either_port port.conf.debug _ _
          (either_port on _ _ (init_op-IsBounded mtu s r port b.0) (uninit_op-IsBounded port b)) b
Step-IsBacklogged dbg {c = c} reset h = (All-map IsBounded _ c.ports (λ port b. b) h.0, h.1)
Step-IsBacklogged dbg {c = c} uninit h =
    (All-map IsBounded _ c.ports (λ port b. uninit_op-IsBounded port b) h.0, h.1)
Step-IsBacklogged dbg {c = c} (dequeue p) h =
    dequeue_at-IsBacklogged c p (get_elem? c.ports p) h refl

-- Whatever sequence of configurations, received skbs, state notifications, channel switches and
-- dequeues the ports have gone through since their allocation, at most 16 skbs wait at any port,
-- and no control port accepts more than 16.
pub Reach-IsBounded : (dbg : Bool) (c : PortProxy) → Reach dbg c → All IsBounded c.ports
unfolding proxy_alloc
Reach-IsBounded dbg c r = (all r).0
  where
    all : {d : PortProxy} → Reach dbg d → IsBacklogged d
    all here = (
      tt,
      All-replicate IsBounded (length (normal_port_conf dbg)) zero_port (omega arith, omega arith),
    )
    all (next r s) = Step-IsBacklogged dbg s (all r)
