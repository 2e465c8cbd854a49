-- ===== src/DpmaifRx/Examples.antt =====
-- The theorems of the receive buffers at a ring of four entries.
use mtk_t7xx_fix.Prelude.{
  ℕ, ◌+◌, ◌≡◌, refl, arith, true, false, Option, some, none, [], ◌∷◌, ◌++◌, Ret, ok, fail, eio,
}
use mtk_t7xx_fix.Ring.{advance, rd_wr_count}
use mtk_t7xx_fix.DpmaifRx.State.{BatSkb, BatRequest, dl_snd_hw_bat_cnt, no_skb, skb_at}
use mtk_t7xx_fix.DpmaifRx.Bat.{
  update_bat_wr_idx, rx_buf_alloc, fill_from, ensure_skb, alloc_and_map_skb_info, commit, notify_hw,
  bat_idx,
}
use mtk_t7xx_fix.DpmaifRx.Index.{IsValid}
use mtk_t7xx_fix.DpmaifRx.Loop.{Armed}
use mtk_t7xx_fix.DpmaifRx.Armed.{rx_buf_alloc-Armed}
use mtk_t7xx_fix.DpmaifRx.Refused.{first_given_up, alloc_started, filled_by, rx_buf_alloc_refused}

abbrev owned : BatSkb
owned = record { skb = some 7; data_bus_addr = 70; data_len = 2048 }

-- The modem owns entry 2; two entries, 3 and 0, are free.
abbrev ring : BatRequest
ring = record {
  bat_size_cnt = 4;
  bat_wr_idx = 3;
  bat_release_rd_idx = 2;
  pkt_buf_sz = 2048;
  bat_skb = no_skb ∷ no_skb ∷ owned ∷ no_skb ∷ [];
  bat_base = 0 ∷ 0 ∷ 70 ∷ 0 ∷ [];
  bat_bitmap = false ∷ false ∷ false ∷ false ∷ [];
  calls = [];
}

ring-IsValid : IsValid ring
ring-IsValid = record {
  small = omega arith;
  wr_in = omega arith;
  rd_in = omega arith;
  skbs = refl;
  entries = refl;
}

abbrev alloc : ℕ → Option ℕ
alloc k = some (k + 100)

abbrev mapped : ℕ → Option ℕ
mapped k = some (k + 1000)

abbrev accepts : ℕ → Ret
accepts n = ok

abbrev refuses : ℕ → Ret
refuses n = fail eio

abbrev hw_index : ℕ → ℕ
hw_index n = 1

abbrev given : BatRequest
given = (rx_buf_alloc alloc mapped true accepts hw_index 2 false ring).1

rx_buf_alloc-Armed_example : Armed given (bat_idx 4 3 1)
unfolding rx_buf_alloc fill_from ensure_skb alloc_and_map_skb_info commit notify_hw
    update_bat_wr_idx rd_wr_count
rx_buf_alloc-Armed_example =
    rx_buf_alloc-Armed alloc mapped true accepts hw_index ring given 2 false 1 ring-IsValid refl
      (omega arith)

rx_buf_alloc_refused_example :
    ((alloc_started alloc mapped refuses hw_index 2 false ring).0 ≡ fail eio)
    × ((alloc_started alloc mapped refuses hw_index 2 false ring).1.bat_wr_idx
        ≡ advance 4 (filled_by alloc mapped refuses hw_index 2 ring).0 3)
    × ((skb_at (alloc_started alloc mapped refuses hw_index 2 false ring).1 1).skb ≡ none)
    × (skb_at (alloc_started alloc mapped refuses hw_index 2 false ring).1 3
        ≡ skb_at (filled_by alloc mapped refuses hw_index 2 ring).1 3)
    × ((alloc_started alloc mapped refuses hw_index 2 false ring).1.calls
        ≡ first_given_up 2 (filled_by alloc mapped refuses hw_index 2 ring).1
          ++ (dl_snd_hw_bat_cnt 2 ∷ (filled_by alloc mapped refuses hw_index 2 ring).1.calls))
unfolding fill_from ensure_skb alloc_and_map_skb_info rd_wr_count
rx_buf_alloc_refused_example =
    rx_buf_alloc_refused alloc mapped refuses hw_index ring 2 eio 1 3 ring-IsValid (omega arith)
      (omega arith) (omega arith) refl (omega arith) (omega arith)
