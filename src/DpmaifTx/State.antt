-- ===== src/DpmaifTx/State.antt =====
-- The structures of src/t7xx_hif_dpmaif_tx.h and src/t7xx_hif_dpmaif.h for one TX queue.
use mtk_t7xx_fix.Prelude.{
  ℕ, Bool, false, Option, none, List, [], ◌∷◌, get_or, set, replicate, field_get,
}

-- `struct dpmaif_drb`; the union's two words are `pd.data_addr_l`/`pd.data_addr_h` or
-- `msg.msg_hdr`/`msg.reserved1`.
pub record Drb : Type 0 where
  pub header : ℕ
  pub word1 : ℕ
  pub word2 : ℕ

-- `struct dpmaif_drb_skb`; an skb is named by a number.
pub record DrbSkb : Type 0 where
  pub skb : Option ℕ
  pub bus_addr : ℕ
  pub data_len : ℕ
  pub index : ℕ
  pub is_msg : Bool
  pub is_frag : Bool
  pub is_last : Bool

-- What the TX path reads of a `struct sk_buff` and of its control block.
pub record Skb : Type 0 where
  pub id : ℕ
  pub len : ℕ
  pub head_len : ℕ
  pub frags : List ℕ
  pub netif_idx : ℕ

-- Calls that leave the TX path: DMA, skb, network callbacks, power management, registers.
pub data Call : Type 0 where
  dma_unmap_single : ℕ → ℕ → Call
  dev_kfree_skb : ℕ → Call
  notify_irq notify_full : ℕ → Call
  wake_tx_thread : Call
  queue_tx_work : ℕ → Call
  disable_sleep enable_sleep put_autosuspend : Call
  clr_ip_busy_sts : Call
  unmask_ulq_intr : ℕ → Call
  update_hw_drb_cnt : ℕ → ℕ → Call

-- `enum dpmaif_state`
pub data DpmaifState : Type 0 where
  min pwroff pwron exception max : DpmaifState

-- `struct dpmaif_tx_queue`. `tx_budget` is the 32-bit pattern of the atomic; `calls` lists the
-- calls made, the latest first.
pub record TxQueue : Type 0 where
  pub index : ℕ
  pub que_started : Bool
  pub tx_budget : ℕ
  pub drb_size_cnt : ℕ
  pub drb_wr_idx : ℕ
  pub drb_rd_idx : ℕ
  pub drb_release_rd_idx : ℕ
  pub drb_base : List Drb
  pub drb_skb_base : List DrbSkb
  pub tx_skb_head : List Skb
  pub tx_processing : Bool
  pub calls : List Call

abbrev pub drb_list_len : ℕ
drb_list_len = 6144

abbrev pub dtyp_pd : ℕ
dtyp_pd = 0

abbrev pub dtyp_msg : ℕ
dtyp_msg = 1

-- The fields of a DRB header.
abbrev pub hdr_dtyp : ℕ → ℕ
hdr_dtyp h = field_get 0 2 h

abbrev pub hdr_cont : ℕ → ℕ
hdr_cont h = field_get 2 1 h

abbrev pub hdr_data_len : ℕ → ℕ
hdr_data_len h = field_get 16 16 h

-- Zeroed memory, which a read out of range gives too.
abbrev pub zero_drb : Drb
zero_drb = record { header = 0; word1 = 0; word2 = 0 }

abbrev pub zero_drb_skb : DrbSkb
zero_drb_skb = record {
  skb = none;
  bus_addr = 0;
  data_len = 0;
  index = 0;
  is_msg = false;
  is_frag = false;
  is_last = false;
}

abbrev pub drb_at : TxQueue → ℕ → Drb
drb_at txq i = get_or txq.drb_base i zero_drb

abbrev pub drb_skb_at : TxQueue → ℕ → DrbSkb
drb_skb_at txq i = get_or txq.drb_skb_base i zero_drb_skb

abbrev pub set_drb : TxQueue → ℕ → Drb → TxQueue
set_drb txq i d = record txq { drb_base = set txq.drb_base i d }

abbrev pub set_drb_skb : TxQueue → ℕ → DrbSkb → TxQueue
set_drb_skb txq i d = record txq { drb_skb_base = set txq.drb_skb_base i d }

abbrev pub call : TxQueue → Call → TxQueue
call txq c = record txq { calls = c ∷ txq.calls }

-- t7xx_dpmaif_txq_init with t7xx_dpmaif_tx_drb_buf_init, where every allocation succeeds.
unfoldable pub txq_init : ℕ → TxQueue
txq_init index = record {
  index = index;
  que_started = false;
  tx_budget = drb_list_len;
  drb_size_cnt = drb_list_len;
  drb_wr_idx = 0;
  drb_rd_idx = 0;
  drb_release_rd_idx = 0;
  drb_base = replicate drb_list_len zero_drb;
  drb_skb_base = replicate drb_list_len zero_drb_skb;
  tx_skb_head = [];
  tx_processing = false;
  calls = [];
}
