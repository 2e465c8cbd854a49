-- ===== src/Ring/Count.antt =====
-- The counts of t7xx_ring_buf_rd_wr_count are distances round the ring, and one slot stays free.
use mtk_t7xx_fix.Prelude.{ℕ, ◌+◌, ◌-◌, ◌≤◌, ◌<◌, ◌≡◌, arith, leb, if◌then◌else◌}
use mtk_t7xx_fix.Ring.{read, write, get_next_wr_idx, rd_wr_count}

-- Lengths for which a distance fits in an `int`.
abbrev pub max_len : ℕ
max_len = 2147483648

pub get_next_wr_idx-lt : (len i : ℕ) → 0 < len → get_next_wr_idx len i < len
unfolding get_next_wr_idx
get_next_wr_idx-lt len i h = ground arith

pub get_next_wr_idx_lem :
    (len i : ℕ)
    → len ≤ max_len
    → i < len
    → get_next_wr_idx len i ≡ (if leb len (i + 1) then 0 else i + 1)
unfolding get_next_wr_idx
get_next_wr_idx_lem len i small h = ground arith

module _ (len rd wr : ℕ) (small : len ≤ max_len) (rd_in : rd < len) (wr_in : wr < len) where
  pub rd_wr_count-read : rd_wr_count len rd wr read ≡ (if leb rd wr then wr - rd else len - rd + wr)
  unfolding rd_wr_count
  rd_wr_count-read = ground arith

  pub rd_wr_count-write :
      rd_wr_count len rd wr write ≡ (if leb rd wr then len - 1 + rd - wr else rd - wr - 1)
  unfolding rd_wr_count
  rd_wr_count-write = ground arith

  pub rd_wr_count-lt : rd_wr_count len rd wr read < len
  rd_wr_count-lt = ground (arith, rd_wr_count-read)

  -- For indices inside a ring of at most 2^31 slots, the slots to read and the slots to write add
  -- up to the whole ring less one: writing all that is reported free never meets the reader.
  pub one_slot_free : rd_wr_count len rd wr read + rd_wr_count len rd wr write + 1 ≡ len
  one_slot_free = ground (arith, rd_wr_count-read, rd_wr_count-write)
