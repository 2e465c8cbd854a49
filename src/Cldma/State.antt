-- ===== src/Cldma/State.antt =====
-- The structures of src/t7xx_hif_cldma.h.
use mtk_t7xx_fix.Prelude.{
  ℕ, suc, ◌+◌, ◌*◌, ◌/◌, Bool, true, false, Option, none, some, List, [], ◌∷◌, get_or, set, ◌==◌,
  if◌then◌else◌,
}

-- A `struct sk_buff` by its name, with `skb->len`.
pub record Skb : Type 0 where
  pub id : ℕ
  pub len : ℕ

-- `enum mtk_txrx`.
pub data Dir : Type 0 where
  tx rx : Dir

-- Calls that leave the queues.
pub data Call : Type 0 where
  dma_map_single : ℕ → Call
  dma_unmap_single : ℕ → ℕ → Call
  dev_kfree_skb : ℕ → Call
  wake_up_nr : ℕ → Call
  recv_skb : ℕ → ℕ → Call
  alloc_skb : ℕ → Call
  dma_pool_free : ℕ → Call
  dma_pool_create dma_pool_destroy : Call
  hw_init hw_reset hw_start hw_restore clear_ip_busy enable_irq disable_irq : Call
  hw_set_start_addr : Dir → ℕ → ℕ → Call
  -- a queue's number, or that of CLDMA_ALL_Q
  hw_start_queue hw_resume_queue hw_irq_dis_eq hw_irq_dis_txrx hw_irq_en_eq hw_irq_en_txrx :
      Dir → ℕ → Call
  hw_done : Dir → ℕ → Call
  hw_stop_all_qs hw_stop : Dir → Call
  queue_work flush_work cancel_work_sync : Dir → ℕ → Call
  pm_runtime_get pm_runtime_put : Call
  -- of D2H_SW_INT_MASK
  mhccif_mask_set mhccif_mask_clr : Call
  read_clear_l3 : Dir → Call

-- `struct cldma_request` with its `struct cldma_gpd`: `hwo` and `ioc` are the two bits of `flags`,
-- `hwo` says that the descriptor belongs to the hardware.
pub record Request : Type 0 where
  pub gpd_addr : ℕ
  pub hwo : Bool
  pub ioc : Bool
  pub rx_data_allow_len : ℕ
  pub next_gpd_ptr : ℕ
  pub data_ptr : ℕ
  pub data_buff_len : ℕ
  pub skb : Option Skb
  pub mapped_buff : ℕ

-- The values of `recv_skb` of a queue: t7xx_cldma_default_recv_skb, t7xx_port_proxy_recv_skb and
-- t7xx_port_proxy_recv_skb_from_dedicated_queue.
pub data Recv : Type 0 where
  default_recv proxy_recv dedicated_recv : Recv

-- `struct cldma_queue` with its ring. The pointers into the ring are places in the list; `attached`
-- says that they are not NULL. `calls` lists the calls made, the latest first.
pub record Queue : Type 0 where
  pub index : ℕ
  pub ring : List Request
  pub pkt_size : ℕ
  pub attached : Bool
  pub tr_done : ℕ
  pub rx_refill : ℕ
  pub tx_next : ℕ
  pub budget : ℕ
  pub recv_skb_by : Recv
  pub calls : List Call

abbrev pub no_request : Request
no_request = record {
  gpd_addr = 0;
  hwo = false;
  ioc = false;
  rx_data_allow_len = 0;
  next_gpd_ptr = 0;
  data_ptr = 0;
  data_buff_len = 0;
  skb = none;
  mapped_buff = 0;
}

abbrev pub req_at : Queue → ℕ → Request
req_at q i = get_or q.ring i no_request

abbrev pub set_req : Queue → ℕ → Request → Queue
set_req q i r = record q { ring = set q.ring i r }

abbrev pub call : Queue → Call → Queue
call q c = record q { calls = c ∷ q.calls }

-- list_next_entry_circular, in a ring of `len` entries.
abbrev pub next : ℕ → ℕ → ℕ
next len i = if suc i == len then 0 else suc i

-- `req->skb` is not NULL.
abbrev pub has_skb : Request → Bool
has_skb r = elim r.skb [ none ↦ false | some s ↦ true ]

-- `struct cldma_ctrl`; `hif_id` 0 is CLDMA_ID_MD. `hw_calls` lists the calls that belong to no queue,
-- the latest first.
pub record Ctrl : Type 0 where
  pub hif_id : ℕ
  pub txq : List Queue
  pub rxq : List Queue
  pub txq_active : ℕ
  pub rxq_active : ℕ
  pub txq_started : ℕ
  pub is_late_init : Bool
  pub hw_calls : List Call

-- CLDMA_TXQ_NUM and CLDMA_RXQ_NUM, CLDMA_ALL_Q, TXRX_STATUS_BITMASK.
abbrev pub cldma_q_num : ℕ
cldma_q_num = 8

abbrev pub cldma_all_q : ℕ
cldma_all_q = 255

-- `x | TXRX_STATUS_BITMASK` and `x & ~TXRX_STATUS_BITMASK`.
abbrev pub set_all_qs : ℕ → ℕ
set_all_qs x = x / 256 * 256 + 255

abbrev pub clear_all_bits : ℕ → ℕ
clear_all_bits x = x / 256 * 256

abbrev pub no_queue : Queue
no_queue = record {
  index = 0;
  ring = [];
  pkt_size = 0;
  attached = false;
  tr_done = 0;
  rx_refill = 0;
  tx_next = 0;
  budget = 0;
  recv_skb_by = default_recv;
  calls = [];
}

abbrev pub txq_at : Ctrl → ℕ → Queue
txq_at c i = get_or c.txq i no_queue

abbrev pub rxq_at : Ctrl → ℕ → Queue
rxq_at c i = get_or c.rxq i no_queue

abbrev pub set_txq : Ctrl → ℕ → Queue → Ctrl
set_txq c i q = record c { txq = set c.txq i q }

abbrev pub set_rxq : Ctrl → ℕ → Queue → Ctrl
set_rxq c i q = record c { rxq = set c.rxq i q }

abbrev pub hw : Ctrl → Call → Ctrl
hw c x = record c { hw_calls = x ∷ c.hw_calls }
