-- ===== src/DpmaifRx/State.antt =====
-- The structures of the receive buffers (src/t7xx_hif_dpmaif.h).
use mtk_t7xx_fix.Prelude.{ℕ, Bool, Option, none, List, ◌∷◌, get_or, set}

-- `struct dpmaif_bat_skb`; an skb is named by a number.
pub record BatSkb : Type 0 where
  pub skb : Option ℕ
  pub data_bus_addr : ℕ
  pub data_len : ℕ

-- Calls that leave the driver.
pub data Call : Type 0 where
  dma_map_single : ℕ → ℕ → Call
  dma_unmap_single : ℕ → ℕ → Call
  dev_kfree_skb : ℕ → Call
  dl_snd_hw_bat_cnt : ℕ → Call
  dma_map_page : ℕ → ℕ → Call
  dma_unmap_page : ℕ → ℕ → Call
  put_page : ℕ → Call
  dl_snd_hw_frg_cnt : ℕ → Call

-- `struct dpmaif_bat_request`; `bat_base` holds the 64-bit bus address in each entry of the table,
-- `calls` the calls made, the latest first.
pub record BatRequest : Type 0 where
  pub bat_size_cnt : ℕ
  pub bat_wr_idx : ℕ
  pub bat_release_rd_idx : ℕ
  pub pkt_buf_sz : ℕ
  pub bat_skb : List BatSkb
  pub bat_base : List ℕ
  pub bat_bitmap : List Bool
  pub calls : List Call

abbrev pub no_skb : BatSkb
no_skb = record { skb = none; data_bus_addr = 0; data_len = 0 }

abbrev pub skb_at : BatRequest → ℕ → BatSkb
skb_at bat i = get_or bat.bat_skb i no_skb

abbrev pub set_skb : BatRequest → ℕ → BatSkb → BatRequest
set_skb bat i s = record bat { bat_skb = set bat.bat_skb i s }

abbrev pub call : BatRequest → Call → BatRequest
call bat c = record bat { calls = c ∷ bat.calls }
