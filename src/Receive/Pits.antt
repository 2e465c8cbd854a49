-- ===== src/Receive/Pits.antt =====
-- Reading PIT entries and giving them back: t7xx_dpmaif_check_pit_seq,
-- t7xx_dpmaifq_release_pit_entry, t7xx_dpmaif_pit_release_and_add and t7xx_dpmaifq_rx_notify_hw of
-- src/t7xx_hif_dpmaif_rx.c.
use mtk_t7xx_fix.Prelude.{
  ℕ, ◌+◌, ◌-◌, not, ◌&&◌, u32, field_get, leb, ltb, ◌==◌, if◌then◌else◌, Ret, ok, fail, einval,
  efault,
}
use mtk_t7xx_fix.Ring.{get_next_wr_idx}
use mtk_t7xx_fix.Receive.State.{Pit, queue_bat_release, add_pit_remain_cnt, Rxq, RxEnv, call}

abbrev pub read_pit_seq : Pit → ℕ
read_pit_seq pit = field_get 0 8 pit.footer

-- The poll gives up if the last value that it read is not the expected one; `pit` is the entry as it
-- was read last.
unfoldable pub check_pit_seq : Pit → Rxq → Ret × Rxq
check_pit_seq pit rxq =
    let next = u32 (rxq.expect_pit_seq + 1) in
    if read_pit_seq pit == rxq.expect_pit_seq
    then (ok, record rxq { expect_pit_seq = if leb 251 next then 0 else next })
    else (fail efault, rxq)

unfoldable pub release_pit_entry : RxEnv → ℕ → Rxq → Ret × Rxq
release_pit_entry env rel_entry_num rxq =
    let old_rel_idx = rxq.pit_release_rd_idx in
    let new_rel_idx = u32 (old_rel_idx + rel_entry_num) in
    let wraps = ltb rxq.pit_wr_idx old_rel_idx && leb rxq.pit_size_cnt new_rel_idx in
    let rxq₁ = call (add_pit_remain_cnt rel_entry_num) rxq in
    if not rxq.que_started
    then (ok, rxq)
    else if leb rxq.pit_size_cnt rel_entry_num
    then (fail einval, rxq)
    else elim (env.add_remain_cnt rel_entry_num) [
      | fail e ↦ (fail e, rxq₁)
      | ok ↦ (
        ok,
        record rxq₁ {
          pit_release_rd_idx = if wraps then new_rel_idx - rxq.pit_size_cnt else new_rel_idx;
        },
      )
    ]

-- DPMAIF_PIT_CNT_THRESHOLD
abbrev pub pit_cnt_threshold : ℕ
pit_cnt_threshold = 60

unfoldable pub pit_release_and_add : RxEnv → Rxq → Ret × Rxq
unfolding release_pit_entry
pit_release_and_add env rxq =
    let (ret, rxq₁) = release_pit_entry env rxq.pit_remain_release_cnt rxq in
    if ltb rxq.pit_remain_release_cnt pit_cnt_threshold then (ok, rxq) else elim ret [
      | fail e ↦ (fail e, rxq₁)
      | ok ↦ (ok, record rxq₁ { pit_remain_release_cnt = 0 })
    ]

unfoldable pub rx_notify_hw : RxEnv → Rxq → Ret × Rxq
unfolding pit_release_and_add
rx_notify_hw env rxq = pit_release_and_add env (call queue_bat_release rxq)

-- The end of a round of the loop of t7xx_dpmaif_rx_start.
unfoldable pub next_pit : Rxq → Rxq
next_pit rxq = record rxq {
  pit_rd_idx = get_next_wr_idx rxq.pit_size_cnt rxq.pit_rd_idx;
  pit_remain_release_cnt = u32 (rxq.pit_remain_release_cnt + 1);
}
