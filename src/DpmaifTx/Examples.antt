-- ===== src/DpmaifTx/Examples.antt =====
-- A ring of eight slots, and the theorems of the uplink at it.
use mtk_t7xx_fix.Prelude.{
  ℕ, zero, suc, ◌≤◌, ◌≡◌, ◌≢◌, ◌↔◌, ◌∷◌, [], refl, arith, true, false, Option, none, some,
  replicate, ok, fail, enomem,
}
use mtk_t7xx_fix.Ring.{rd_wr_count, get_next_wr_idx}
use mtk_t7xx_fix.DpmaifTx.State.{Skb, TxQueue, pwron, dma_unmap_single, zero_drb, zero_drb_skb}
use mtk_t7xx_fix.DpmaifTx.Fill.{skb_drb_cnt, add_skb_to_ring, end_add, map_payloads}
use mtk_t7xx_fix.DpmaifTx.Release.{
  update_drb_rd_idx, release_one, release_last, step_release, release_tx_buffer, tx_release,
  txq_flush_rel,
}
use mtk_t7xx_fix.DpmaifTx.Queue.{drb_wr_available, Round}
use mtk_t7xx_fix.DpmaifTx.Account.{used, IsValid}
use mtk_t7xx_fix.DpmaifTx.Descriptor.{Is64Bit, Written, add_skb_to_ring-Written}
use mtk_t7xx_fix.DpmaifTx.Filling.{add_skb_to_ring-IsValid}
use mtk_t7xx_fix.DpmaifTx.Releasing.{Returned, done_slots, tx_release-Returned}
use mtk_t7xx_fix.DpmaifTx.Burst.{txq_flush_rel-budget}
use mtk_t7xx_fix.DpmaifTx.Unmap.{unmap_wrong_slot}

abbrev empty_ring : TxQueue
empty_ring = record {
  index = 0;
  que_started = true;
  tx_budget = 8;
  drb_size_cnt = 8;
  drb_wr_idx = 0;
  drb_rd_idx = 0;
  drb_release_rd_idx = 0;
  drb_base = replicate 8 zero_drb;
  drb_skb_base = replicate 8 zero_drb_skb;
  tx_skb_head = [];
  tx_processing = false;
  calls = [];
}

-- A packet with one fragment: three DRBs.
abbrev packet : Skb
packet = record { id = 7; len = 1500; head_len = 100; frags = 1400 ∷ []; netif_idx = 0 }

-- Its three DRBs are written: a message, and two payloads of which the first has another behind it.
abbrev busy_ring : TxQueue
busy_ring = record empty_ring {
  tx_budget = 5;
  drb_wr_idx = 3;
  drb_base =
      record zero_drb { header = 5 }
      ∷ record zero_drb { header = 4 }
      ∷ record zero_drb { header = 0 }
      ∷ replicate 5 zero_drb;
  drb_skb_base =
      record zero_drb_skb { skb = some 7; is_msg = true }
      ∷ record zero_drb_skb { skb = some 7; bus_addr = 4096; data_len = 100 }
      ∷ record zero_drb_skb { skb = some 7; bus_addr = 8192; data_len = 1400; is_last = true }
      ∷ replicate 5 zero_drb_skb;
}

abbrev dma : ℕ → ℕ → Option ℕ
dma i n = some 4096

abbrev dma_of : ℕ → ℕ → ℕ → Option ℕ
dma_of skb i n = some 4096

abbrev dma_once : ℕ → ℕ → Option ℕ
dma_once i n = elim i [ zero ↦ some 4096 | suc j ↦ none ]

dma-Is64Bit : Is64Bit dma
dma-Is64Bit i n a h = ground arith

empty_ring-IsValid : IsValid empty_ring
unfolding rd_wr_count
empty_ring-IsValid = record {
  size_pos = omega arith;
  size_small = omega arith;
  drbs = refl;
  records = refl;
  wr_in = omega arith;
  release_in = omega arith;
  account = refl;
}

busy_ring-IsValid : IsValid busy_ring
unfolding rd_wr_count
busy_ring-IsValid = record {
  size_pos = omega arith;
  size_small = omega arith;
  drbs = refl;
  records = refl;
  wr_in = omega arith;
  release_in = omega arith;
  account = refl;
}

room : skb_drb_cnt packet ≤ drb_wr_available empty_ring
unfolding rd_wr_count
room = omega arith

added_ok : (add_skb_to_ring 17 dma pwron empty_ring packet).0 ≡ ok
unfolding add_skb_to_ring end_add map_payloads
added_ok = refl

add_skb_to_ring-Written_example :
    Written empty_ring packet empty_ring-IsValid room 17 dma pwron dma-Is64Bit
      (add_skb_to_ring 17 dma pwron empty_ring packet).1
add_skb_to_ring-Written_example =
    add_skb_to_ring-Written empty_ring packet empty_ring-IsValid room 17 dma pwron dma-Is64Bit
      added_ok

add_skb_to_ring-IsValid_example : IsValid (add_skb_to_ring 17 dma_once pwron empty_ring packet).1
add_skb_to_ring-IsValid_example =
    add_skb_to_ring-IsValid empty_ring packet empty_ring-IsValid room 17 dma_once pwron

some_done : done_slots busy_ring 3 ≢ 0
unfolding update_drb_rd_idx rd_wr_count
some_done = omega arith

done_written : done_slots busy_ring 3 ≤ used busy_ring
unfolding update_drb_rd_idx rd_wr_count
done_written = omega arith

tx_release-Returned_example :
    Returned busy_ring (done_slots busy_ring 3) (tx_release busy_ring 3 8).1
tx_release-Returned_example =
    tx_release-Returned busy_ring 3 8 busy_ring-IsValid some_done done_written

-- Nothing is done, and yet the whole packet is given back while the modem may still read it.
idle_release_frees : (tx_release busy_ring 0 8).1.tx_budget ≡ 8
unfolding tx_release update_drb_rd_idx rd_wr_count release_tx_buffer release_one release_last
    step_release get_next_wr_idx
idle_release_frees = refl

abbrev loaded_ring : TxQueue
loaded_ring = record empty_ring { tx_skb_head = packet ∷ [] }

loaded_ring-IsValid : IsValid loaded_ring
loaded_ring-IsValid = ground (arith, empty_ring-IsValid)

abbrev stopping_round : Round
stopping_round = record { sleep_disabled = true; should_stop = true; state = pwron }

txq_flush_rel-budget_example :
    ((txq_flush_rel busy_ring).tx_budget ≡ 5)
    × (used (txq_flush_rel busy_ring) ≡ 0)
    × (IsValid (txq_flush_rel busy_ring) ↔ (used busy_ring ≡ 0))
txq_flush_rel-budget_example = txq_flush_rel-budget busy_ring busy_ring-IsValid

unmap_wrong_slot_example :
    let (r, q) = add_skb_to_ring 17 dma_once pwron empty_ring packet in
    (r ≡ fail enomem) × (q.calls ≡ dma_unmap_single 0 0 ∷ [])
unmap_wrong_slot_example =
    unmap_wrong_slot 17 dma_once empty_ring packet 1400 4096 [] empty_ring-IsValid (omega arith)
      refl refl refl refl
