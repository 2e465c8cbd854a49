-- ===== src/Ring/Walk.antt =====
-- The closed formula of t7xx_ring_buf_rd_wr_count against single steps of
-- t7xx_ring_buf_get_next_wr_idx.
use mtk_t7xx_fix.Prelude.{ℕ, zero, suc, ◌+◌, ◌-◌, ◌≤◌, ◌<◌, ◌≡◌, arith, ltb, if◌then◌else◌}
use mtk_t7xx_fix.Ring.{read, write, get_next_wr_idx, rd_wr_count, advance}
use mtk_t7xx_fix.Ring.Count.{
  max_len, get_next_wr_idx_lem, get_next_wr_idx-lt, rd_wr_count-read, rd_wr_count-write,
}

-- Where `n` steps lead, for at most one turn.
pub advance_lem :
    (len n idx : ℕ)
    → len ≤ max_len
    → idx < len
    → n < len
    → advance len n idx ≡ (if ltb (idx + n) len then idx + n else idx + n - len)
unfolding advance
advance_lem len zero idx small i_in h = ground arith
advance_lem len (suc n) idx small i_in h = ground (
  arith,
  get_next_wr_idx_lem len idx small i_in,
  advance_lem len n (get_next_wr_idx len idx) small (get_next_wr_idx-lt len idx (omega arith)),
)

pub advance-lt : (len n idx : ℕ) → idx < len → advance len n idx < len
unfolding advance
advance-lt len zero idx h = h
advance-lt len (suc n) idx h =
    advance-lt len n (get_next_wr_idx len idx) (get_next_wr_idx-lt len idx (omega arith))

module _ (len rd wr : ℕ) (small : len ≤ max_len) (rd_in : rd < len) (wr_in : wr < len) where
  -- For indices inside a ring of at most 2^31 slots, the read count is the number of single steps
  -- from the read index to the write index, and no other number of steps below a full turn leads
  -- there.
  pub advance-rd_wr_count :
      (advance len (rd_wr_count len rd wr read) rd ≡ wr)
      × ((n : ℕ) → n < len → advance len n rd ≡ wr → n ≡ rd_wr_count len rd wr read)
  advance-rd_wr_count = (reaches, only)
    where
      reaches : advance len (rd_wr_count len rd wr read) rd ≡ wr
      reaches = ground (
        arith,
        rd_wr_count-read len rd wr small rd_in wr_in,
        advance_lem len (rd_wr_count len rd wr read) rd small rd_in,
      )

      only : (n : ℕ) → n < len → advance len n rd ≡ wr → n ≡ rd_wr_count len rd wr read
      only n h e =
          ground (
            arith,
            rd_wr_count-read len rd wr small rd_in wr_in,
            advance_lem len n rd small rd_in h,
          )

  -- Moving the write index on by `n` slots that are free makes `n` more slots readable.
  pub rd_wr_count-advance :
      (n : ℕ)
      → n ≤ rd_wr_count len rd wr write
      → rd_wr_count len rd (advance len n wr) read ≡ rd_wr_count len rd wr read + n
  rd_wr_count-advance n h = ground (
    arith,
    rd_wr_count-read len rd wr small rd_in wr_in,
    rd_wr_count-write len rd wr small rd_in wr_in,
    rd_wr_count-read len rd (advance len n wr) small rd_in (advance-lt len n wr wr_in),
    advance_lem len n wr small wr_in,
  )

  -- Moving the read index on by `n` readable slots leaves `n` fewer.
  pub rd_wr_count-advance_read :
      (n : ℕ)
      → n ≤ rd_wr_count len rd wr read
      → rd_wr_count len (advance len n rd) wr read + n ≡ rd_wr_count len rd wr read
  rd_wr_count-advance_read n h = ground (
    arith,
    rd_wr_count-read len rd wr small rd_in wr_in,
    rd_wr_count-read len (advance len n rd) wr small (advance-lt len n rd rd_in) wr_in,
    advance_lem len n rd small rd_in,
  )
