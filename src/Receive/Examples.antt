-- ===== src/Receive/Examples.antt =====
-- A packet on its way through src/t7xx_hif_dpmaif_rx.c, at concrete inputs.
use mtk_t7xx_fix.Prelude.{
  ℕ, zero, suc, ◌+◌, ◌≤◌, ◌<◌, ◌≡◌, refl, arith, true, false, some, [], ◌∷◌, get_or, replicate, ltb,
  if◌then◌else◌, ok, einval,
}
use mtk_t7xx_fix.Fsm.State.{mode_ready}
use mtk_t7xx_fix.Pm.State.{pm_resumed, Dev}
use mtk_t7xx_fix.Pm.Sleep.{disable_sleep}
use mtk_t7xx_fix.Ring.{get_next_wr_idx, rd_wr_count}
use mtk_t7xx_fix.DpmaifRx.State.{BatRequest, BatSkb, no_skb}
use mtk_t7xx_fix.Receive.State.{Pit, SkbFrag, no_info, FragRing, Rxq, RxEnv}
use mtk_t7xx_fix.Receive.Collect.{left_with, rx_fail, rx_loop, rx_data_collect}
use mtk_t7xx_fix.Receive.Refill.{avail_pkt_bat_cnt}
use mtk_t7xx_fix.Receive.Setup.{stop_rxq}
use mtk_t7xx_fix.Receive.Poll.{PollEnv, napi_rx_poll}
use mtk_t7xx_fix.Receive.Frames.{completions}
use mtk_t7xx_fix.Receive.Contract.{napi_rx_poll-Promised}
use mtk_t7xx_fix.Receive.Leak.{polls, polls_leak}
use mtk_t7xx_fix.Receive.Order.{InOrder, rx_data_collect-Ordered}
use mtk_t7xx_fix.Receive.Packets.{packets}
use mtk_t7xx_fix.Receive.Refilled.{UsedRun, avail_pkt_bat_cnt_lem, stop_rxq_stale}
use mtk_t7xx_fix.Receive.Search.{find_zero, find_zero-FindsZero}
use mtk_t7xx_fix.Receive.Whole.{rx_loop_delivers}

-- An IPv6 packet for interface 5: 100 bytes in buffer 1 and 50 bytes in page 0.
abbrev message : Pit
message = record { header = 327681; data_addr_l = 0; data_addr_h = 0; footer = 8388608 }

abbrev payload : Pit
payload = record { header = 6553610; data_addr_l = 4112; data_addr_h = 0; footer = 1 }

abbrev fragment : Pit
fragment = record { header = 3276804; data_addr_l = 8224; data_addr_h = 0; footer = 2 }

-- The entries stand round the end of a ring of sixteen.
abbrev table : ℕ → Pit
table i = if ltb i 14 then fragment else if ltb i 15 then message else payload

abbrev buffer : BatSkb
buffer = record { skb = some 7; data_bus_addr = 4096; data_len = 3584 }

abbrev bat : BatRequest
bat = record {
  bat_size_cnt = 4;
  bat_wr_idx = 3;
  bat_release_rd_idx = 0;
  pkt_buf_sz = 3584;
  bat_skb = no_skb ∷ buffer ∷ no_skb ∷ no_skb ∷ [];
  bat_base = 0 ∷ 4096 ∷ 0 ∷ 0 ∷ [];
  bat_bitmap = replicate 4 false;
  calls = [];
}

abbrev pages : FragRing
pages = record {
  bat = record bat {
    pkt_buf_sz = 128;
    bat_skb = [];
    bat_bitmap = true ∷ true ∷ false ∷ false ∷ [];
  };
  pages = record { page = some 9; data_bus_addr = 8192; offset = 10; data_len = 128 } ∷ [];
}

abbrev queue : Rxq
queue = record {
  que_started = true;
  pit_size_cnt = 16;
  pit_rd_idx = 14;
  pit_wr_idx = 14;
  pit_release_rd_idx = 12;
  expect_pit_seq = 0;
  pit_remain_release_cnt = 2;
  rx_data_info = no_info;
  rx_processing = false;
  sleep_lock_pending = false;
  bat_req = bat;
  bat_frag = pages;
  calls = [];
}

two_marked : (j : ℕ) → j < 2 → get_or pages.bat.bat_bitmap j false ≡ true
two_marked zero h = refl
two_marked (suc zero) h = refl
two_marked (suc (suc j)) h = absurd (omega arith)

abbrev env : RxEnv
env = record { skb_data = λ id. 64; skb_end = λ id. 4096; add_remain_cnt = λ n. ok }

abbrev frag : SkbFrag
frag = record { page = 9; offset = 42; size = 50 }

rx_loop_delivers_example :
    ((rx_loop env table 8 3 0 ok 0 queue).0 ≡ left_with ok)
    × ((rx_loop env table 8 3 0 ok 0 queue).1 ≡ 1)
    × (packets (rx_loop env table 8 3 0 ok 0 queue).2.calls
        ≡ record {
          skb = record { id = 7; len = 150; frags = frag ∷ [] };
          checked = true;
          netif_idx = 5;
          rx_pkt_type = 1;
        }
          ∷ [])
    × ((rx_loop env table 8 3 0 ok 0 queue).2.rx_data_info ≡ no_info)
unfolding get_next_wr_idx
rx_loop_delivers_example =
    rx_loop_delivers env table 8 message payload (fragment ∷ []) (frag ∷ []) 7 0 ok 0 queue
      (record { type = refl; keep = refl }) refl (omega arith)
      (
        record { type = refl; buffer = refl; cont = refl },
        record { type = refl; buffer = refl; cont = refl },
      )
      (refl, refl, (refl, refl, (refl, refl, tt)))
      (record { in_table = refl; there = refl; fits = refl }) (9, [], refl, refl, refl, refl)
      (omega arith)

rx_data_collect-Ordered_example : (k : ℕ) × InOrder k (rx_data_collect env table 1 8 queue).2
unfolding rd_wr_count
rx_data_collect-Ordered_example =
    rx_data_collect-Ordered env table 1 8 0 queue
      (record {
        started = refl;
        small = omega arith;
        release_in = omega arith;
        one_turn = omega arith;
        reads = refl;
        writes = refl;
      })
      (omega arith) (omega arith)

-- A payload entry that names an empty buffer, and nothing behind it: the error is returned.
bad_payload :
    (rx_data_collect env
      (λ i. payload)
      0
      8
      (record queue {
        pit_rd_idx = 15;
        expect_pit_seq = 1;
        bat_req = record bat { bat_skb = [] };
      })).0
    ≡ rx_fail einval
unfolding rx_data_collect rd_wr_count get_next_wr_idx
bad_payload = refl

abbrev poll_env : PollEnv
poll_env = record { rx = env; pits = λ k. table; hw_wr_idx = λ k. 1; locked = true; acked = false }

abbrev dev : Dev
dev = record {
  entities = [];
  pm_state = pm_resumed;
  mode = mode_ready;
  rgu_pci_irq_en = true;
  sleep_disable_count = 0;
  sleep_lock = false;
  resume_reprobe_count = 0;
  calls = [];
}

napi_rx_poll-Promised_example :
    ((napi_rx_poll poll_env 8 queue dev).0 ≤ 8)
    × (completions (napi_rx_poll poll_env 8 queue dev).1.calls
        ≡ 0 + (if ltb (napi_rx_poll poll_env 8 queue dev).0 8 then 1 else 0))
napi_rx_poll-Promised_example =
    napi_rx_poll-Promised poll_env 8 queue dev refl (omega arith) (omega arith)

polls_leak_example : (polls (poll_env ∷ []) 1 queue dev).1.sleep_disable_count ≡ 0 + 1
unfolding napi_rx_poll disable_sleep rd_wr_count get_next_wr_idx
polls_leak_example =
    polls_leak (poll_env ∷ []) 1 queue dev refl refl (omega arith) (omega arith) (refl, refl, tt)

avail_pkt_bat_cnt_lem_example : UsedRun pages.bat (avail_pkt_bat_cnt find_zero pages.bat)
avail_pkt_bat_cnt_lem_example =
    avail_pkt_bat_cnt_lem find_zero find_zero-FindsZero pages.bat (omega arith) (omega arith)

stop_rxq_stale_example : 2 ≤ avail_pkt_bat_cnt find_zero (stop_rxq queue).bat_frag.bat
stop_rxq_stale_example =
    stop_rxq_stale find_zero find_zero-FindsZero queue 2 (omega arith) (omega arith) (omega arith)
      two_marked

-- The ring is empty, and two entries count as used.
two_stale : avail_pkt_bat_cnt find_zero (stop_rxq queue).bat_frag.bat ≡ 2
unfolding avail_pkt_bat_cnt find_zero stop_rxq
two_stale = refl
