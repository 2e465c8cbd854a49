-- ===== src/Receive/Frag.antt =====
-- Giving pages to the modem: t7xx_dpmaif_rx_frag_alloc and t7xx_unmap_bat_page of
-- src/t7xx_hif_dpmaif_rx.c.
use mtk_t7xx_fix.Prelude.{
  ℕ, zero, suc, Bool, true, false, ◌||◌, Option, none, some, set, ltb, ◌==◌, if◌then◌else◌, Ret, ok,
  fail, einval, enomem,
}
use mtk_t7xx_fix.Ring.{write, rd_wr_count, get_next_wr_idx}
use mtk_t7xx_fix.DpmaifRx.State.{
  Call, call, dma_map_page, dma_unmap_page, put_page, dl_snd_hw_frg_cnt,
}
use mtk_t7xx_fix.Receive.State.{FragRing}
use mtk_t7xx_fix.Receive.Payload.{page_at}

abbrev pub ring_call : FragRing → Call → FragRing
ring_call ring c = record ring { bat = call ring.bat c }

unfoldable pub unmap_bat_page : FragRing → ℕ → FragRing
unmap_bat_page ring index =
    let p = page_at ring index in
    elim p.page [
      | none ↦ ring
      | some id ↦
          ring_call
            (ring_call (record ring { pages = set ring.pages index (record p { page = none }) })
              (dma_unmap_page p.data_bus_addr p.data_len))
            (put_page id)
    ]

-- `while (--i > 0)` behind a first filling that broke off.
unfoldable pub unmap_pages : ℕ → FragRing → FragRing
unfolding unmap_bat_page
unmap_pages zero ring = ring
unmap_pages (suc zero) ring = ring
unmap_pages (suc (suc i)) ring = unmap_pages (suc i) (unmap_bat_page ring (suc i))

-- What the loop is answered for each slot: the page of the fragment that is allocated and the
-- fragment's offset, and the bus address of the page, if it can be mapped.
module _ (alloc_frag : ℕ → Option (ℕ × ℕ)) (map_page : ℕ → Option ℕ) where
  -- A slot that still has its page keeps it.
  unfoldable pub ensure_page : FragRing → ℕ → Bool × FragRing
  ensure_page ring index = elim (page_at ring index).page [
    | some id ↦ (true, ring)
    | none ↦ elim (alloc_frag index) [
      | none ↦ (false, ring)
      | some (id, offset) ↦ elim (map_page index) [
        | none ↦ (false, ring_call ring (put_page id))
        | some addr ↦ (
          true,
          ring_call
              (record ring {
                pages = set ring.pages index (record {
                  page = some id;
                  data_bus_addr = addr;
                  offset = offset;
                  data_len = ring.bat.pkt_buf_sz;
                });
              })
              (dma_map_page addr ring.bat.pkt_buf_sz),
        )
      ]
    ]
  ]

  abbrev pub write_page_addr : FragRing → ℕ → FragRing
  write_page_addr ring index = record ring {
    bat = record ring.bat {
      bat_base = set ring.bat.bat_base index (page_at ring index).data_bus_addr;
    };
  }

  -- The loop with `left` rounds to come: the rounds done, the next slot and the ring.
  unfoldable pub fill_pages : ℕ → ℕ → ℕ → FragRing → ℕ × ℕ × FragRing
  unfolding ensure_page
  fill_pages zero i idx ring = (i, idx, ring)
  fill_pages (suc left) i idx ring =
      let (done, ring₁) = ensure_page ring idx in
      let more =
        fill_pages left (suc i) (get_next_wr_idx ring.bat.bat_size_cnt idx)
          (write_page_addr ring₁ idx) in
      if done then more else (i, idx, ring₁)

  -- The part behind the loop.
  unfoldable pub finish_pages : ℕ → Bool → ℕ × ℕ × FragRing → Ret × FragRing
  unfolding unmap_pages
  finish_pages buf_cnt initial (i, idx, ring) =
      let moved = record ring { bat = record ring.bat { bat_wr_idx = idx } } in
      let told = if initial then moved else ring_call moved (dl_snd_hw_frg_cnt i) in
      if ltb i buf_cnt
      then (fail enomem, if initial then unmap_pages i told else told)
      else (ok, told)

  unfoldable pub rx_frag_alloc : ℕ → Bool → FragRing → Ret × FragRing
  unfolding fill_pages finish_pages
  rx_frag_alloc buf_cnt initial ring =
      let bat = ring.bat in
      let buf_space = rd_wr_count bat.bat_size_cnt bat.bat_release_rd_idx bat.bat_wr_idx write in
      if buf_cnt == 0 || ltb bat.bat_size_cnt buf_cnt
      then (fail einval, ring)
      else if ltb buf_space buf_cnt
      then (fail einval, ring)
      else finish_pages buf_cnt initial (fill_pages buf_cnt 0 bat.bat_wr_idx ring)
