-- ===== src/Ring.antt =====
-- Index arithmetic of the circular buffers of the data path: t7xx_ring_buf_get_next_wr_idx and
-- t7xx_ring_buf_rd_wr_count of src/t7xx_hif_dpmaif.c.
pub mod Count
pub mod Walk
mod Examples
use mtk_t7xx_fix.Prelude.{ℕ, zero, suc, ◌+◌, ◌-◌, ◌%◌, ltb, u32, is_neg, if◌then◌else◌}

-- `enum dpmaif_rdwr`
pub data RdWr : Type 0 where
  read write : RdWr

unfoldable pub get_next_wr_idx : ℕ → ℕ → ℕ
get_next_wr_idx buf_len buf_idx =
    let buf_idx' = u32 (buf_idx + 1) in if ltb buf_idx' buf_len then buf_idx' else 0

-- `pkt_cnt` before the correction, as a 32-bit pattern.
abbrev pub raw_count : ℕ → ℕ → RdWr → ℕ
raw_count rd_idx wr_idx read = u32 (wr_idx + 4294967296 - rd_idx)
raw_count rd_idx wr_idx write = u32 (rd_idx + 8589934592 - wr_idx - 1)

unfoldable pub rd_wr_count : ℕ → ℕ → ℕ → RdWr → ℕ
rd_wr_count total_cnt rd_idx wr_idx rd_wr =
    let pkt_cnt = raw_count rd_idx wr_idx rd_wr in
    if is_neg pkt_cnt then u32 (pkt_cnt + total_cnt) else pkt_cnt

-- `n` calls of `get_next_wr_idx`.
unfoldable pub advance : ℕ → ℕ → ℕ → ℕ
advance buf_len zero idx = idx
advance buf_len (suc n) idx = advance buf_len n (get_next_wr_idx buf_len idx)
