-- ===== src/Modem/Examples.antt =====
-- Handshakes and recoveries of src/t7xx_modem_ops.c at concrete inputs.
use mtk_t7xx_fix.Prelude.{
  ℕ, zero, suc, ◌+◌, ◌<◌, ◌≡◌, refl, arith, true, false, List, [], ◌∷◌, ◌++◌, length, replicate,
  get_or, ap, ok, fail, etimedout, einval,
}
use mtk_t7xx_fix.Cldma.State.{Queue, Ctrl, no_queue, no_request}
use mtk_t7xx_fix.Fsm.State.{Event, md_hs2, md_hs2_exit, SysInfo, fsm_init, EventId-discrete}
use mtk_t7xx_fix.Modem.Features.{
  Memory, feature_count, query_size, RtFeature, rt_features, rt_data_len, prepare_device_rt_data,
  parse_host_rt_data, parse_from,
}
use mtk_t7xx_fix.Modem.Exception.{Recovery, exception_handshake}
use mtk_t7xx_fix.Modem.Handshake.{
  send_hs1, send_hs3, wake_async_hk, HkEnv, core_hk_handler, hk_wait, take_hs, answer_hs2,
}
use mtk_t7xx_fix.Modem.Listing.{Supported, parse_host_rt_data_lem}
use mtk_t7xx_fix.Modem.Recovery.{HasRings, IsFresh, exception_handshake-IsFresh}
use mtk_t7xx_fix.Modem.Ready.{arrivals, FoundFirst, Accepted, core_hk_handler_ready}

-- A query that demands the first feature and knows nothing of the others.
abbrev query_bytes : List ℕ
query_bytes = 67 ∷ 67 ∷ 67 ∷ 73 ∷ 2 ∷ (replicate 63 0 ++ (67 ∷ 67 ∷ 67 ∷ 73 ∷ []))

abbrev query : Memory
query o = get_or query_bytes o 0

abbrev listed : List RtFeature
unfolding rt_features
listed = rt_features (λ i. query (4 + i)) 64 0

-- One feature in the message, which is not supported although the host demands it.
abbrev refused : Memory
refused o = 0

parse_refused : parse_host_rt_data (λ i. 2) refused 80 ≡ (fail einval, [])
unfolding parse_host_rt_data parse_from
parse_refused = refl

-- No feature in the message.
parse_short : parse_host_rt_data (λ i. 2) refused 72 ≡ (ok, [])
unfolding parse_host_rt_data parse_from
parse_short = refl

parse_host_rt_data_lem_example :
    ((parse_host_rt_data (λ i. 2) refused 80).0 ≡ ok
      → Supported (λ i. 2) refused 80 feature_count 0 query_size)
    × (Supported (λ i. 2) refused 80 feature_count 0 query_size
        → (parse_host_rt_data (λ i. 2) refused 80).0 ≡ ok)
parse_host_rt_data_lem_example = parse_host_rt_data_lem (λ i. 2) refused 80

abbrev hs2 : Event
hs2 = record { event_id = md_hs2; length = 72; bytes = query_bytes }

abbrev one_event : HkEnv
one_event = record {
  rounds =
      record { arrived = []; should_stop = false; exp_flg = false }
      ∷ record { arrived = hs2 ∷ []; should_stop = false; exp_flg = false }
      ∷ [];
  alloc_hs1 = true;
  alloc_hs3 = true;
  beyond = λ o. 0;
  exp_later = false;
}

abbrev waiting_core : SysInfo
waiting_core = record { ready = false; handshake_ongoing = true }

abbrev ready_core : SysInfo
ready_core = record { ready = true; handshake_ongoing = false }

core_hk_handler_ready_example :
    (fsm_init.exp_flg ≡ false)
    × FoundFirst md_hs2 md_hs2_exit
        (fsm_init.event_queue ++ arrivals one_event.rounds)
        (λ e. Accepted one_event (λ i. 2) md_hs2 md_hs2_exit e)
unfolding EventId-discrete core_hk_handler hk_wait take_hs answer_hs2 prepare_device_rt_data
    parse_host_rt_data parse_from rt_data_len rt_features fsm_init
core_hk_handler_ready_example =
    core_hk_handler_ready one_event (λ i. 2) waiting_core refl md_hs2 md_hs2_exit fsm_init fsm_init
      ready_core (send_hs1 ∷ send_hs3 504 listed ∷ wake_async_hk ∷ []) refl refl

-- Controllers with all their rings; the modem never answers.
abbrev ring_queue : Queue
ring_queue = record no_queue { ring = replicate 16 no_request }

abbrev ctrl : ℕ → Ctrl
ctrl hif_id = record {
  hif_id = hif_id;
  txq = replicate 8 ring_queue;
  rxq = replicate 8 ring_queue;
  txq_active = 255;
  rxq_active = 255;
  txq_started = 0;
  is_late_init = true;
  hw_calls = [];
}

ctrl-HasRings : (hif_id : ℕ) → HasRings (ctrl hif_id)
ctrl-HasRings hif_id = (refl, rings)
  where
    same : (n k : ℕ) → k < n → get_or (replicate n ring_queue) k no_queue ≡ ring_queue
    same zero k l = absurd (omega arith)
    same (suc n) zero l = refl
    same (suc n) (suc k) l = same n k (omega arith)

    rings :
        (qno : ℕ)
        → qno < 8
        → (qno < 8) × (length (get_or (replicate 8 ring_queue) qno no_queue).ring ≡ 16)
    rings qno l = (l, ap (λ (q : Queue). length q.ring) (same 8 qno l))

abbrev failing : Recovery
failing = record { polled = fail etimedout; allocs = λ i. [] }

exception_handshake-IsFresh_example :
    let d =
      (exception_handshake failing failing
        (λ s n. 0)
        (record { md = ctrl 0; ap = ctrl 1; signs = [] })).1 in
    IsFresh d.md × IsFresh d.ap
exception_handshake-IsFresh_example =
    exception_handshake-IsFresh failing failing (λ s n. 0)
      (record { md = ctrl 0; ap = ctrl 1; signs = [] }) (ctrl-HasRings 0) (ctrl-HasRings 1)
