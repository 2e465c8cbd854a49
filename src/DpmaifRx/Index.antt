-- ===== src/DpmaifRx/Index.antt =====
-- The flow check of t7xx_dpmaif_update_bat_wr_idx (src/t7xx_hif_dpmaif_rx.c) against the number of
-- free entries that t7xx_ring_buf_rd_wr_count reports.
use mtk_t7xx_fix.Prelude.{
  ℕ, ◌+◌, ◌-◌, ◌≤◌, ◌<◌, ◌≡◌, arith, true, length, leb, ok, fail, einval, if◌then◌else◌,
}
use mtk_t7xx_fix.Ring.{write, rd_wr_count, advance}
use mtk_t7xx_fix.Ring.Count.{max_len, rd_wr_count-write}
use mtk_t7xx_fix.Ring.Walk.{advance_lem}
use mtk_t7xx_fix.DpmaifRx.State.{BatRequest}
use mtk_t7xx_fix.DpmaifRx.Bat.{update_bat_wr_idx}

-- A ring of at most 2^31 entries with its indices inside, and as many buffers and table entries.
pub record IsValid (bat : BatRequest) : Type 0 where
  pub small : bat.bat_size_cnt ≤ max_len
  pub wr_in : bat.bat_wr_idx < bat.bat_size_cnt
  pub rd_in : bat.bat_release_rd_idx < bat.bat_size_cnt
  pub skbs : length bat.bat_skb ≡ bat.bat_size_cnt
  pub entries : length bat.bat_base ≡ bat.bat_size_cnt

-- The entries that are free.
abbrev pub space : BatRequest → ℕ
space bat = rd_wr_count bat.bat_size_cnt bat.bat_release_rd_idx bat.bat_wr_idx write

space_lem :
    (bat : BatRequest)
    → IsValid bat
    → space bat ≡ (
        if leb bat.bat_release_rd_idx bat.bat_wr_idx
        then bat.bat_size_cnt - 1 + bat.bat_release_rd_idx - bat.bat_wr_idx
        else bat.bat_release_rd_idx - bat.bat_wr_idx - 1)
space_lem bat v = rd_wr_count-write _ _ _ v.small v.rd_in v.wr_in

pub space-lt : (bat : BatRequest) → IsValid bat → space bat < bat.bat_size_cnt
space-lt bat v = ground (
  arith,
  rd_wr_count-write bat.bat_size_cnt bat.bat_release_rd_idx bat.bat_wr_idx v.small v.rd_in v.wr_in,
  v.wr_in,
  v.rd_in,
)

-- On a started queue and a valid ring, adding any number of entries up to the ring's size succeeds
-- exactly when that many entries are free, and then moves the write index on by that many slots; else
-- it returns -EINVAL and changes nothing.
pub update_bat_wr_idx_lem :
    (bat : BatRequest) (cnt : ℕ)
    → IsValid bat
    → cnt ≤ bat.bat_size_cnt
    → update_bat_wr_idx true cnt bat ≡ (
        if leb cnt (space bat)
        then (ok, record bat { bat_wr_idx = advance bat.bat_size_cnt cnt bat.bat_wr_idx })
        else (fail einval, bat))
unfolding update_bat_wr_idx
update_bat_wr_idx_lem bat cnt v c = ground (
  arith,
  space_lem bat v,
  v.small,
  v.wr_in,
  v.rd_in,
  advance_lem bat.bat_size_cnt cnt bat.bat_wr_idx,
)
