-- ===== src/Ring/Examples.antt =====
-- A ring of eight slots with the write index behind the read index.
use mtk_t7xx_fix.Prelude.{◌≤◌, arith}
use mtk_t7xx_fix.Ring.{write, rd_wr_count}

three_free : 3 ≤ rd_wr_count 8 6 2 write
unfolding rd_wr_count
three_free = omega arith
