-- ===== src/Port/Setup.antt =====
-- Setting the ports up and notifying them: src/t7xx_port_proxy.c.
use mtk_t7xx_fix.Prelude.{
  ℕ, Bool, false, List, [], ◌∷◌, ◌++◌, map, length, replicate, drop, if◌then◌else◌,
}
use mtk_t7xx_fix.Fsm.State.{MdState}
use mtk_t7xx_fix.Port.State.{CldmaId, PortConf, Port, normal_port_conf, early_port_conf, zero_port}
use mtk_t7xx_fix.Port.Wwan.{init_op, notify_op, uninit_op}
use mtk_t7xx_fix.Port.Proxy.{
  PortCfgId, cfg_invalid, cfg_early, PortProxy, struct_init, setup_ch_mapping, proxy_uninit,
}

-- `port_prox->ports[i].port_conf = &port_conf[i]` over a table.
unfoldable pub assign : List PortConf → List Port → List Port
assign [] slots = []
assign (c ∷ cs) [] = []
assign (c ∷ cs) (port ∷ slots) = record port { conf = c } ∷ assign cs slots

abbrev pub port_table : Bool → PortCfgId → List PortConf
port_table wwan_debugfs cfg_early = early_port_conf
port_table wwan_debugfs _ = normal_port_conf wwan_debugfs

module _ (mtu : CldmaId → ℕ → ℕ) (md_state : MdState) (relay_opens : Bool) where
  unfoldable pub md_status_notify : MdState → PortProxy → PortProxy
  md_status_notify state prox = record prox {
    ports =
        map (λ (port : Port). notify_op mtu md_state relay_opens port.conf.ops port state)
          (prox.ports);
  }

  -- One port in the loop of t7xx_proxy_init_all_ports.
  unfoldable pub init_port : Port → Port
  init_port port =
      let port₁ = record (struct_init port) { chan_enable = false } in
      if port.conf.debug then port₁ else init_op mtu md_state relay_opens port.conf.ops port₁

  unfoldable pub init_all_ports : PortProxy → PortProxy
  init_all_ports prox = setup_ch_mapping (record prox { ports = map init_port (prox.ports) })

  -- One port in the loop of t7xx_proxy_debug_ports_show.
  unfoldable pub debug_port_show : Bool → Port → Port
  debug_port_show show port =
      if port.conf.debug
      then if show
        then init_op mtu md_state relay_opens port.conf.ops port
        else uninit_op port.conf.ops port
      else port

  unfoldable pub debug_ports_show : Bool → PortProxy → PortProxy
  debug_ports_show show prox = record prox { ports = map (debug_port_show show) (prox.ports) }

  unfoldable pub proxy_set_cfg : Bool → PortCfgId → PortProxy → PortProxy
  unfolding assign early_port_conf normal_port_conf
  proxy_set_cfg wwan_debugfs cfg_id prox =
      let table = port_table wwan_debugfs cfg_id in
      let slots = (proxy_uninit prox).ports ++ prox.spare in
      init_all_ports (record prox {
        ports = assign table slots;
        spare = drop (length table) slots;
        cfg_id = cfg_id;
      })

-- The zeroed allocation, with T7XX_MAX_POSSIBLE_PORTS_NUM elements.
unfoldable pub proxy_alloc : Bool → PortProxy
unfolding normal_port_conf
proxy_alloc wwan_debugfs = record {
  ports = [];
  spare = replicate (length (normal_port_conf wwan_debugfs)) zero_port;
  rx_ch_ports = replicate 256 [];
  cfg_id = cfg_invalid;
  dropped = [];
}
