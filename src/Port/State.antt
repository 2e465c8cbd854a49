-- ===== src/Port/State.antt =====
-- The structures of src/t7xx_port.h and src/t7xx_port_proxy.h, and the tables of ports of
-- src/t7xx_port_proxy.c.
use mtk_t7xx_fix.Prelude.{
  ℕ, ◌+◌, ◌*◌, ◌/◌, ◌%◌, Bool, true, false, List, [], ◌∷◌, ◌++◌, get_or, if◌then◌else◌,
}

-- `enum cldma_id`
pub data CldmaId : Type 0 where
  cldma_id_md cldma_id_ap : CldmaId

unfoldable pub CldmaId-discrete : Discrete CldmaId
CldmaId-discrete = hlevel

-- Which `struct port_ops` a port has.
pub data PortOps : Type 0 where
  wwan_sub_port_ops ctl_port_ops trace_port_ops : PortOps

-- `enum wwan_port_type`, as far as it is used, and a port without one.
pub data PortType : Type 0 where
  port_at port_mbim port_adb port_mipc port_fastboot port_none : PortType

-- `struct t7xx_port_conf`
pub record PortConf : Type 0 where
  pub tx_ch : ℕ
  pub rx_ch : ℕ
  pub txq_index : ℕ
  pub rxq_index : ℕ
  pub txq_exp_index : ℕ
  pub rxq_exp_index : ℕ
  pub path_id : CldmaId
  pub ops : PortOps
  pub port_type : PortType
  pub debug : Bool

-- A `struct sk_buff`: its name, and the bytes from `skb->data` on.
pub record SkBuff : Type 0 where
  pub id : ℕ
  pub bytes : List ℕ

-- Calls that leave the ports; `dev_kfree_own` frees an skb that the caller itself has made.
pub data Call : Type 0 where
  cldma_send_skb : CldmaId → ℕ → List ℕ → Call
  wake_up_rx : Call
  dev_kfree_skb : ℕ → Call
  dev_kfree_own : Call
  wwan_create_port : PortType → ℕ → Call
  wwan_remove_port : Call
  wwan_port_rx : List ℕ → Call
  relay_open relay_close : Call
  relay_write : List ℕ → Call
  kthread_run kthread_stop : Call

-- `struct t7xx_port`: `has_wwan_port` and `has_relaych` say that the pointers are not NULL; `calls`
-- lists the calls made, the latest first.
pub record Port : Type 0 where
  pub conf : PortConf
  pub seq_rx : ℕ
  pub seq_tx : ℕ
  pub usage_cnt : ℕ
  pub rx_skb_list : List SkBuff
  pub rx_length_th : ℕ
  pub chan_enable : Bool
  pub has_thread : Bool
  pub has_wwan_port : Bool
  pub has_relaych : Bool
  pub calls : List Call

abbrev pub call : Port → Call → Port
call port c = record port { calls = c ∷ port.calls }

-- INVALID_SEQ_NUM
abbrev pub invalid_seq_num : ℕ
invalid_seq_num = 65535

-- A little-endian 32-bit word in memory, and the word at an offset; bytes out of range read as 0.
abbrev pub le32 : ℕ → List ℕ
le32 x = (x % 256) ∷ (x / 256 % 256) ∷ (x / 65536 % 256) ∷ (x / 16777216 % 256) ∷ []

abbrev pub get_le32 : List ℕ → ℕ → ℕ
get_le32 b i =
    get_or b i 0
    + 256 * get_or b (i + 1) 0
    + 65536 * get_or b (i + 2) 0
    + 16777216 * get_or b (i + 3) 0

-- The `t7xx_port_conf` table; the modem's log port is there with CONFIG_WWAN_DEBUGFS.
abbrev at_conf : PortConf
at_conf = record {
  tx_ch = 0x200c;
  rx_ch = 0x200a;
  txq_index = 5;
  rxq_index = 5;
  txq_exp_index = 0xff;
  rxq_exp_index = 0xff;
  path_id = cldma_id_md;
  ops = wwan_sub_port_ops;
  port_type = port_at;
  debug = false;
}

abbrev mbim_conf : PortConf
mbim_conf = record at_conf {
  tx_ch = 0x20d1;
  rx_ch = 0x20d0;
  txq_index = 2;
  rxq_index = 2;
  txq_exp_index = 0;
  rxq_exp_index = 0;
  port_type = port_mbim;
}

abbrev mdlog_conf : PortConf
mdlog_conf = record at_conf {
  tx_ch = 0x202b;
  rx_ch = 0x202a;
  txq_index = 7;
  rxq_index = 7;
  txq_exp_index = 7;
  rxq_exp_index = 7;
  ops = trace_port_ops;
  port_type = port_none;
}

abbrev pub ctrl_conf : PortConf
ctrl_conf = record at_conf {
  tx_ch = 0x2001;
  rx_ch = 0x2000;
  txq_index = 0;
  rxq_index = 0;
  txq_exp_index = 0;
  rxq_exp_index = 0;
  ops = ctl_port_ops;
  port_type = port_none;
}

abbrev ap_ctrl_conf : PortConf
ap_ctrl_conf = record ctrl_conf { tx_ch = 0x1001; rx_ch = 0x1000; path_id = cldma_id_ap }

abbrev adb_conf : PortConf
adb_conf = record mbim_conf {
  tx_ch = 0x100b;
  rx_ch = 0x100a;
  txq_index = 3;
  rxq_index = 3;
  path_id = cldma_id_ap;
  port_type = port_adb;
  debug = true;
}

abbrev mipc_conf : PortConf
mipc_conf = record mbim_conf { tx_ch = 0x20cf; rx_ch = 0x20ce; port_type = port_mipc; debug = true }

unfoldable pub normal_port_conf : Bool → List PortConf
normal_port_conf wwan_debugfs =
    at_conf
    ∷ mbim_conf
    ∷ ((if wwan_debugfs then mdlog_conf ∷ [] else [])
        ++ (ctrl_conf ∷ ap_ctrl_conf ∷ adb_conf ∷ mipc_conf ∷ []))

-- `t7xx_early_port_conf`: the fastboot port.
unfoldable pub early_port_conf : List PortConf
early_port_conf =
    record adb_conf {
      tx_ch = 0xffff;
      rx_ch = 0xffff;
      txq_index = 1;
      rxq_index = 1;
      txq_exp_index = 1;
      rxq_exp_index = 1;
      port_type = port_fastboot;
      debug = false;
    }
    ∷ []

-- A port of zeroed memory; its configuration is set before it is read.
abbrev pub zero_port : Port
zero_port = record {
  conf = ctrl_conf;
  seq_rx = 0;
  seq_tx = 0;
  usage_cnt = 0;
  rx_skb_list = [];
  rx_length_th = 0;
  chan_enable = false;
  has_thread = false;
  has_wwan_port = false;
  has_relaych = false;
  calls = [];
}
