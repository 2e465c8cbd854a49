-- ===== src/Receive/Refilled.antt =====
-- How many entries t7xx_dpmaif_avail_pkt_bat_cnt and t7xx_dpmaif_rx_frag_alloc of
-- src/t7xx_hif_dpmaif_rx.c take, and what t7xx_dpmaif_stop_rxq leaves for them.
use mtk_t7xx_fix.Prelude.{
  ℕ, ◌+◌, ◌-◌, ◌≤◌, ◌<◌, ◌≡◌, sym, ap, ◌∙◌, subst, arith, Bool, true, false, List, get_or, ltb,
  Bool-cases, ltb→lt, ltb→le, inl, inr, if-by,
}
use mtk_t7xx_fix.Ring.Count.{max_len}
use mtk_t7xx_fix.DpmaifRx.State.{BatRequest}
use mtk_t7xx_fix.DpmaifRx.Bat.{bat_idx}
use mtk_t7xx_fix.Receive.State.{Rxq}
use mtk_t7xx_fix.Receive.Refill.{avail_pkt_bat_cnt}
use mtk_t7xx_fix.Receive.Setup.{stop_rxq}

-- A position and what its documentation says of find_next_zero_bit: the first bit that is clear from
-- the position on, below the size, or the size.
abbrev pub IsFirstZero : List Bool → ℕ → ℕ → ℕ → Type 0
IsFirstZero bits size from z =
    (from ≤ z)
    × (z ≤ size)
    × ((j : ℕ) → from ≤ j → j < z → get_or bits j false ≡ true)
    × (z < size → get_or bits z false ≡ false)

abbrev pub FindsZero : (List Bool → ℕ → ℕ → ℕ) → Type 0
FindsZero find =
    (bits : List Bool) (size from : ℕ)
    → from ≤ size
    → IsFirstZero bits size from (find bits size from)

-- The entries from the release index on, round the ring.
abbrev pub UsedRun : BatRequest → ℕ → Type 0
UsedRun bat n =
    (n ≤ bat.bat_size_cnt)
    × ((j : ℕ)
        → j < n
        → get_or bat.bat_bitmap (bat_idx bat.bat_size_cnt bat.bat_release_rd_idx j) false ≡ true)
    × (n < bat.bat_size_cnt
        → get_or bat.bat_bitmap (bat_idx bat.bat_size_cnt bat.bat_release_rd_idx n) false ≡ false)

module _ (find_zero : List Bool → ℕ → ℕ → ℕ) (finds : FindsZero find_zero) where
  ahead : (size rel j : ℕ) → size ≤ max_len → rel + j < size → bat_idx size rel j ≡ rel + j
  ahead size rel j small h = ground arith

  around :
      (size rel j : ℕ)
      → size ≤ max_len
      → rel < size
      → j < size
      → size ≤ rel + j
      → bat_idx size rel j ≡ rel + j - size
  around size rel j small rel_in j_in h = ground arith

  no_zero_ahead :
      (bat : BatRequest) (z z' : ℕ)
      → bat.bat_size_cnt ≤ max_len
      → bat.bat_release_rd_idx < bat.bat_size_cnt
      → z ≡ bat.bat_size_cnt
      → IsFirstZero bat.bat_bitmap bat.bat_size_cnt bat.bat_release_rd_idx z
      → IsFirstZero bat.bat_bitmap bat.bat_release_rd_idx 0 z'
      → UsedRun bat (bat.bat_size_cnt - bat.bat_release_rd_idx + z')
  no_zero_ahead bat z z' small rel_in end (from, upto, set, clear) (from', upto', set', clear') = (
    omega arith,
    (λ j h. elim (Bool-cases (ltb (bat.bat_release_rd_idx + j) bat.bat_size_cnt)) [
      | inl t ↦
          let l = ltb→lt (bat.bat_release_rd_idx + j) bat.bat_size_cnt t in
          ap (λ i. get_or bat.bat_bitmap i false)
            (ahead bat.bat_size_cnt bat.bat_release_rd_idx j small l)
          ∙ set (bat.bat_release_rd_idx + j) (omega arith) (omega (arith, l))
      | inr t ↦
          let g = ltb→le (bat.bat_release_rd_idx + j) bat.bat_size_cnt t in
          ap (λ i. get_or bat.bat_bitmap i false)
            (around bat.bat_size_cnt bat.bat_release_rd_idx j small rel_in (omega arith) g)
          ∙ set' (bat.bat_release_rd_idx + j - bat.bat_size_cnt) (omega arith) (omega (arith, g))
    ]),
    (λ h.
        ap (λ i. get_or bat.bat_bitmap i false)
          (around bat.bat_size_cnt bat.bat_release_rd_idx
              (bat.bat_size_cnt - bat.bat_release_rd_idx + z') small rel_in h (omega arith)
            ∙ omega arith)
        ∙ clear' (omega arith)),
  )

  zero_ahead :
      (bat : BatRequest) (z : ℕ)
      → bat.bat_size_cnt ≤ max_len
      → bat.bat_release_rd_idx < bat.bat_size_cnt
      → z < bat.bat_size_cnt
      → IsFirstZero bat.bat_bitmap bat.bat_size_cnt bat.bat_release_rd_idx z
      → UsedRun bat (z - bat.bat_release_rd_idx)
  zero_ahead bat z small rel_in z_in (from, upto, set, clear) = (
    omega arith,
    (λ j h.
        ap (λ i. get_or bat.bat_bitmap i false)
          (ahead bat.bat_size_cnt bat.bat_release_rd_idx j small (omega arith))
        ∙ set (bat.bat_release_rd_idx + j) (omega arith) (omega arith)),
    (λ h.
        ap (λ i. get_or bat.bat_bitmap i false)
          (ahead bat.bat_size_cnt bat.bat_release_rd_idx (z - bat.bat_release_rd_idx) small
              (omega arith)
            ∙ omega arith)
        ∙ clear z_in),
  )

  -- The count of the entries to fill again is the length of the run of used entries from the release
  -- index on, round the end of a ring of at most 2^31 entries: all of the run are marked in the bitmap,
  -- and the entry behind it is not, if the run is not the whole ring.
  pub avail_pkt_bat_cnt_lem :
      (bat : BatRequest)
      → bat.bat_size_cnt ≤ max_len
      → bat.bat_release_rd_idx < bat.bat_size_cnt
      → UsedRun bat (avail_pkt_bat_cnt find_zero bat)
  unfolding avail_pkt_bat_cnt
  avail_pkt_bat_cnt_lem bat small rel_in =
      let z = find_zero bat.bat_bitmap bat.bat_size_cnt bat.bat_release_rd_idx in
      let first = finds bat.bat_bitmap bat.bat_size_cnt bat.bat_release_rd_idx (omega arith) in
      let first' = finds bat.bat_bitmap bat.bat_release_rd_idx 0 (omega arith) in
      if-by (UsedRun bat) (ltb z bat.bat_size_cnt) _ _
        (λ t.
          let z_in = ltb→lt z bat.bat_size_cnt t in
          subst (UsedRun bat) (omega (arith, z_in, first.0))
            (zero_ahead bat z small rel_in z_in first))
        (λ t.
          let end : z ≡ bat.bat_size_cnt = omega (arith, first.1, ltb→le z bat.bat_size_cnt t) in
          subst (UsedRun bat) (omega (arith, first'.1)) (
            no_zero_ahead bat z (find_zero bat.bat_bitmap bat.bat_release_rd_idx 0) small rel_in end
              first first'))

  -- Stopping a queue empties the fragment ring but leaves its bitmap: if the first `n` of at most 2^31
  -- entries were marked before, then at least `n` entries of the empty ring count as used afterwards.
  pub stop_rxq_stale :
      (rxq : Rxq) (n : ℕ)
      → rxq.bat_frag.bat.bat_size_cnt ≤ max_len
      → 0 < n
      → n ≤ rxq.bat_frag.bat.bat_size_cnt
      → ((j : ℕ) → j < n → get_or rxq.bat_frag.bat.bat_bitmap j false ≡ true)
      → n ≤ avail_pkt_bat_cnt find_zero (stop_rxq rxq).bat_frag.bat
  unfolding stop_rxq
  stop_rxq_stale rxq n small pos n_in marked =
      let bat = record rxq.bat_frag.bat { bat_release_rd_idx = 0; bat_wr_idx = 0 } in
      let m = avail_pkt_bat_cnt find_zero bat in
      let run = avail_pkt_bat_cnt_lem bat small (omega arith) in
      elim (Bool-cases (ltb m n)) [
        | inr t ↦ ltb→le m n t
        | inl t ↦
            let less = ltb→lt m n t in
            absurd (
              true-false (
                sym (marked m less)
                ∙ ap (λ i. get_or bat.bat_bitmap i false)
                    (sym (ahead bat.bat_size_cnt 0 m small (omega (arith, less)) ∙ omega arith))
                ∙ run.2 (omega (arith, less))))
      ]
    where
      true-false : true ≡ false → ⊥
      true-false e = cc
