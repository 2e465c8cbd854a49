-- ===== src/Receive/Setup.antt =====
-- Starting and stopping receive queues: t7xx_dpmaif_rx_alloc, t7xx_dpmaif_rx_stop and
-- t7xx_dpmaif_stop_rxq of src/t7xx_hif_dpmaif_rx.c.
use mtk_t7xx_fix.Prelude.{ℕ, Bool, false, map, Ret, ok, fail, enomem, if◌then◌else◌}
use mtk_t7xx_fix.DpmaifRx.State.{BatRequest}
use mtk_t7xx_fix.Receive.State.{no_info, Rxq}

-- DPMAIF_PIT_COUNT
abbrev pub pit_count : ℕ
pit_count = 16384

-- What t7xx_dpmaif_rx_alloc and t7xx_dpmaif_stop_rxq have in common: the PIT ring is empty.
abbrev pub empty_pits : Rxq → Rxq
empty_pits rxq = record rxq {
  pit_rd_idx = 0;
  pit_wr_idx = 0;
  pit_release_rd_idx = 0;
  expect_pit_seq = 0;
  pit_remain_release_cnt = 0;
  rx_data_info = no_info;
}

-- `allocated`: the memory of the PIT ring is there. The counts of the references to the rings are not
-- kept.
unfoldable pub rx_alloc : Bool → Rxq → Ret × Rxq
rx_alloc allocated rxq =
    (if allocated then ok else fail enomem, empty_pits (record rxq { pit_size_cnt = pit_count }))

abbrev pub empty_bat : BatRequest → BatRequest
empty_bat bat = record bat {
  bat_base = map (λ a. 0) bat.bat_base;
  bat_bitmap = map (λ b. false) bat.bat_bitmap;
  bat_release_rd_idx = 0;
  bat_wr_idx = 0;
}

-- The loop that waits for the ring to be empty changes nothing.
unfoldable pub stop_rxq : Rxq → Rxq
stop_rxq rxq = empty_pits (record rxq {
  que_started = false;
  bat_req = empty_bat rxq.bat_req;
  bat_frag = record rxq.bat_frag {
    bat = record rxq.bat_frag.bat { bat_release_rd_idx = 0; bat_wr_idx = 0 };
  };
})

-- A queue whose processing has ended, or that was waited for in vain.
abbrev pub rx_stop : Rxq → Rxq
rx_stop rxq = record rxq { que_started = false }
