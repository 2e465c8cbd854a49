-- ===== src/Receive/State.antt =====
-- The structures of the receive path (src/t7xx_hif_dpmaif.h and src/t7xx_hif_dpmaif_rx.h).
use mtk_t7xx_fix.Prelude.{ℕ, Bool, false, Option, none, List, ◌∷◌, Ret}
use mtk_t7xx_fix.DpmaifRx.State.{BatRequest}

-- `struct dpmaif_pit`: the header and the three words of either member of the union.
pub record Pit : Type 0 where
  pub header : ℕ
  pub data_addr_l : ℕ
  pub data_addr_h : ℕ
  pub footer : ℕ

-- A page fragment in an skb.
pub record SkbFrag : Type 0 where
  pub page : ℕ
  pub offset : ℕ
  pub size : ℕ

-- An skb that is being put together; `len` counts its fragments too.
pub record RxSkb : Type 0 where
  pub id : ℕ
  pub len : ℕ
  pub frags : List SkbFrag

-- `struct dpmaif_cur_rx_skb_info`; `err_payload` is a truth value.
pub record SkbInfo : Type 0 where
  pub msg_pit_received : Bool
  pub cur_skb : Option RxSkb
  pub cur_chn_idx : ℕ
  pub check_sum : ℕ
  pub pit_dp : ℕ
  pub pkt_type : ℕ
  pub err_payload : Bool

abbrev pub no_info : SkbInfo
no_info = record {
  msg_pit_received = false;
  cur_skb = none;
  cur_chn_idx = 0;
  check_sum = 0;
  pit_dp = 0;
  pkt_type = 0;
  err_payload = false;
}

-- `struct dpmaif_bat_page`; a page is named by a number.
pub record BatPage : Type 0 where
  pub page : Option ℕ
  pub data_bus_addr : ℕ
  pub offset : ℕ
  pub data_len : ℕ

abbrev pub no_page : BatPage
no_page = record { page = none; data_bus_addr = 0; offset = 0; data_len = 0 }

-- The fragment ring: `bat_skb` of its request holds the pages.
pub record FragRing : Type 0 where
  pub bat : BatRequest
  pub pages : List BatPage

-- A packet handed to the network layer: the skb, whether the checksum passed, `netif_idx` and
-- `rx_pkt_type`.
pub record Packet : Type 0 where
  pub skb : RxSkb
  pub checked : Bool
  pub netif_idx : ℕ
  pub rx_pkt_type : ℕ

-- Calls that leave the receive path.
pub data RxCall : Type 0 where
  recv_skb : Packet → RxCall
  free_skb : RxSkb → RxCall
  skb_reserve : ℕ → ℕ → RxCall
  unmap_single unmap_page : ℕ → ℕ → RxCall
  queue_bat_release : RxCall
  add_pit_remain_cnt : ℕ → RxCall
  napi_complete_done : ℕ → RxCall
  napi_schedule napi_gro_flush clr_ip_busy_sts unmask_rx_done put_autosuspend : RxCall

-- `struct dpmaif_rx_queue` with the two rings that it points to, and the calls made, the latest first.
pub record Rxq : Type 0 where
  pub que_started : Bool
  pub pit_size_cnt : ℕ
  pub pit_rd_idx : ℕ
  pub pit_wr_idx : ℕ
  pub pit_release_rd_idx : ℕ
  pub expect_pit_seq : ℕ
  pub pit_remain_release_cnt : ℕ
  pub rx_data_info : SkbInfo
  pub rx_processing : Bool
  pub sleep_lock_pending : Bool
  pub bat_req : BatRequest
  pub bat_frag : FragRing
  pub calls : List RxCall

-- What the receive path is told: where the data of a newly allocated skb begins and where its buffer
-- ends, as offsets from the buffer's head, and what the hardware answers when PIT entries are given back.
pub record RxEnv : Type 0 where
  pub skb_data : ℕ → ℕ
  pub skb_end : ℕ → ℕ
  pub add_remain_cnt : ℕ → Ret

abbrev pub call : RxCall → Rxq → Rxq
call c rxq = record rxq { calls = c ∷ rxq.calls }
