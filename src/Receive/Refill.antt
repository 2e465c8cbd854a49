-- ===== src/Receive/Refill.antt =====
-- Refilling the rings behind the packets: t7xx_dpmaif_avail_pkt_bat_cnt,
-- t7xx_dpmaif_bat_release_and_add and t7xx_dpmaif_frag_bat_release_and_add of
-- src/t7xx_hif_dpmaif_rx.c.
use mtk_t7xx_fix.Prelude.{
  ℕ, ◌+◌, Bool, false, Option, List, u32, sub32, ltb, ◌==◌, if◌then◌else◌, Ret, ok, fail,
}
use mtk_t7xx_fix.DpmaifRx.State.{BatRequest}
use mtk_t7xx_fix.DpmaifRx.Bat.{rx_buf_alloc}
use mtk_t7xx_fix.DpmaifRx.Release.{released, rel_fail, release_bat_entry}
use mtk_t7xx_fix.Receive.State.{FragRing}
use mtk_t7xx_fix.Receive.Frag.{rx_frag_alloc}

-- DPMAIF_BAT_CNT_THRESHOLD
abbrev pub bat_cnt_threshold : ℕ
bat_cnt_threshold = 30

-- `find_zero` is the kernel's find_next_zero_bit, with a size and the position to search from; from
-- position 0 it is find_first_zero_bit.
module _ (find_zero : List Bool → ℕ → ℕ → ℕ) where
  unfoldable pub avail_pkt_bat_cnt : BatRequest → ℕ
  avail_pkt_bat_cnt bat =
      let zero_index = find_zero bat.bat_bitmap bat.bat_size_cnt bat.bat_release_rd_idx in
      if ltb zero_index bat.bat_size_cnt
      then sub32 zero_index bat.bat_release_rd_idx
      else u32 (
          sub32 bat.bat_size_cnt bat.bat_release_rd_idx
          + find_zero bat.bat_bitmap bat.bat_release_rd_idx 0)

  module _ (que_started : Bool) (hw_rd_idx : ℕ) where
    -- The entries that are to be filled again, or what is returned.
    unfoldable pub release_used : BatRequest → (ℕ × Ret) × BatRequest
    unfolding avail_pkt_bat_cnt
    release_used bat =
        let bid_cnt = avail_pkt_bat_cnt bat in
        let (ret, bat₁) = release_bat_entry que_started hw_rd_idx bid_cnt bat in
        if ltb bid_cnt bat_cnt_threshold then ((0, ok), bat) else elim ret [
          | rel_fail e ↦ ((0, fail e), bat₁)
          | released n ↦ ((if n == 0 then 0 else bid_cnt, ok), bat₁)
        ]

    unfoldable pub bat_release_and_add :
        (ℕ → Option ℕ) → (ℕ → Option ℕ) → (ℕ → Ret) → (ℕ → ℕ) → BatRequest → Ret × BatRequest
    unfolding release_used
    bat_release_and_add alloc_skb map_single snd_hw_bat_cnt get_bat_wr_idx bat =
        let ((bid_cnt, ret), bat₁) = release_used bat in
        if bid_cnt == 0
        then (ret, bat₁)
        else rx_buf_alloc alloc_skb map_single que_started snd_hw_bat_cnt get_bat_wr_idx bid_cnt
            false bat₁

    unfoldable pub frag_bat_release_and_add :
        (ℕ → Option (ℕ × ℕ)) → (ℕ → Option ℕ) → FragRing → Ret × FragRing
    unfolding release_used
    frag_bat_release_and_add alloc_frag map_page ring =
        let ((bid_cnt, ret), bat₁) = release_used ring.bat in
        let ring₁ = record ring { bat = bat₁ } in
        if bid_cnt == 0 then (ret, ring₁) else rx_frag_alloc alloc_frag map_page bid_cnt false ring₁
