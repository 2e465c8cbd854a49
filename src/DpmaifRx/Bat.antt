-- ===== src/DpmaifRx/Bat.antt =====
-- Giving buffers to the modem: t7xx_dpmaif_rx_buf_alloc and t7xx_dpmaif_update_bat_wr_idx of
-- src/t7xx_hif_dpmaif_rx.c.
use mtk_t7xx_fix.Prelude.{
  ℕ, zero, suc, ◌+◌, ◌-◌, Bool, true, false, not, ◌&&◌, ◌||◌, Option, none, some, set, u32, leb,
  ltb, ◌==◌, Ret, ok, fail, einval, enomem, efault, if◌then◌else◌,
}
use mtk_t7xx_fix.Ring.{write, rd_wr_count}
use mtk_t7xx_fix.DpmaifRx.State.{
  BatRequest, dma_map_single, dma_unmap_single, dev_kfree_skb, dl_snd_hw_bat_cnt, skb_at, set_skb,
  call,
}

unfoldable pub update_bat_wr_idx : Bool → ℕ → BatRequest → Ret × BatRequest
update_bat_wr_idx que_started bat_cnt bat =
    let old_rl_idx = bat.bat_release_rd_idx in
    let old_wr_idx = bat.bat_wr_idx in
    let new_wr_idx = u32 (old_wr_idx + bat_cnt) in
    let wrapped = new_wr_idx - bat.bat_size_cnt in
    if not que_started
    then (fail einval, bat)
    else if ltb old_wr_idx old_rl_idx && leb old_rl_idx new_wr_idx
    then (fail einval, bat)
    else if leb bat.bat_size_cnt new_wr_idx
    then (if leb old_rl_idx wrapped
        then (fail einval, bat)
        else (ok, record bat { bat_wr_idx = wrapped }))
    else (ok, record bat { bat_wr_idx = new_wr_idx })

unfoldable pub unmap_bat_skb : BatRequest → ℕ → BatRequest
unmap_bat_skb bat index = elim (skb_at bat index).skb [
  | none ↦ bat
  | some id ↦
      let s = skb_at bat index in
      call
        (call (set_skb bat index (record s { skb = none }))
          (dma_unmap_single s.data_bus_addr s.data_len))
        (dev_kfree_skb id)
]

-- `while (i--)` behind the label err_unmap_skbs.
unfoldable pub unmap_skbs : ℕ → BatRequest → BatRequest
unfolding unmap_bat_skb
unmap_skbs zero bat = bat
unmap_skbs (suc i) bat = unmap_skbs i (unmap_bat_skb bat i)

-- `cur_bat_idx`
abbrev pub bat_idx : ℕ → ℕ → ℕ → ℕ
bat_idx size start i = let idx = u32 (start + i) in if leb size idx then idx - size else idx

-- What the loop is answered for each slot: the skb, if it can be allocated, and the bus address of
-- its data, if it can be mapped.
module _ (alloc_skb : ℕ → Option ℕ) (map_single : ℕ → Option ℕ) where
  unfoldable pub alloc_and_map_skb_info : BatRequest → ℕ → Bool × BatRequest
  alloc_and_map_skb_info bat index = elim (alloc_skb index) [
    | none ↦ (false, bat)
    | some id ↦ elim (map_single index) [
      | none ↦ (false, call bat (dev_kfree_skb id))
      | some addr ↦ (
        true,
        call
            (set_skb bat index
              (record { skb = some id; data_bus_addr = addr; data_len = bat.pkt_buf_sz }))
            (dma_map_single addr bat.pkt_buf_sz),
      )
    ]
  ]

  -- A slot that still has its skb keeps it.
  unfoldable pub ensure_skb : BatRequest → ℕ → Bool × BatRequest
  unfolding alloc_and_map_skb_info
  ensure_skb bat index = elim (skb_at bat index).skb [
    | none ↦ alloc_and_map_skb_info bat index
    | some id ↦ (true, bat)
  ]

  abbrev pub write_addr : BatRequest → ℕ → BatRequest
  write_addr bat index = record bat {
    bat_base = set bat.bat_base index (skb_at bat index).data_bus_addr;
  }

  -- The loop of t7xx_dpmaif_rx_buf_alloc with `left` rounds to come: the number of entries written.
  unfoldable pub fill_from : ℕ → ℕ → ℕ → BatRequest → ℕ × BatRequest
  unfolding ensure_skb
  fill_from zero i start bat = (i, bat)
  fill_from (suc left) i start bat =
      let index = bat_idx bat.bat_size_cnt start i in
      let (done, bat₁) = ensure_skb bat index in
      let more = fill_from left (suc i) start (write_addr bat₁ index) in
      if done then more else (i, bat₁)

  module _ (que_started : Bool) (snd_hw_bat_cnt : ℕ → Ret) (get_bat_wr_idx : ℕ → ℕ) where
    -- The notification of the hardware: `get_bat_wr_idx` is its write index after so many entries.
    unfoldable pub notify_hw : Bool → ℕ → BatRequest → Ret × BatRequest
    notify_hw initial i bat =
        let bat₁ = call bat (dl_snd_hw_bat_cnt i) in
        if initial then (ok, bat) else elim (snd_hw_bat_cnt i) [
          | fail e ↦ (fail e, bat₁)
          | ok ↦ if get_bat_wr_idx i == bat.bat_wr_idx then (ok, bat₁) else (fail efault, bat₁)
        ]

    abbrev pub or_unmap : ℕ → Ret × BatRequest → Ret × BatRequest
    or_unmap i (ok, bat) = (ok, bat)
    or_unmap i (fail e, bat) = (fail e, unmap_skbs i bat)

    abbrev pub then_notify : Bool → ℕ → Ret × BatRequest → Ret × BatRequest
    then_notify initial i (ok, bat) = notify_hw initial i bat
    then_notify initial i (fail e, bat) = (fail e, bat)

    -- The part behind the loop.
    unfoldable pub commit : Bool → ℕ × BatRequest → Ret × BatRequest
    unfolding update_bat_wr_idx notify_hw
    commit initial (i, bat) =
        if i == 0
        then (fail enomem, bat)
        else or_unmap i (then_notify initial i (update_bat_wr_idx que_started i bat))

    unfoldable pub rx_buf_alloc : ℕ → Bool → BatRequest → Ret × BatRequest
    unfolding fill_from commit
    rx_buf_alloc buf_cnt initial bat =
        let bat_cnt = rd_wr_count bat.bat_size_cnt bat.bat_release_rd_idx bat.bat_wr_idx write in
        if buf_cnt == 0 || ltb bat.bat_size_cnt buf_cnt
        then (fail einval, bat)
        else if ltb bat_cnt buf_cnt
        then (fail enomem, bat)
        else commit initial (fill_from buf_cnt 0 bat.bat_wr_idx bat)
