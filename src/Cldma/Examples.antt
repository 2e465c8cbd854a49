-- ===== src/Cldma/Examples.antt =====
-- Runs of the queues of src/t7xx_hif_cldma.c at concrete inputs.
use mtk_t7xx_fix.Prelude.{
  ℕ, ◌≤◌, ◌<◌, ◌≡◌, refl, arith, true, false, Option, none, some, List, [], ◌∷◌, ◌++◌, map,
  replicate, Ret, ok, fail, enobufs, eacces, enomem,
}
use mtk_t7xx_fix.Cldma.State.{Skb, Request, Queue, Call, Ctrl, no_request, no_queue, req_at, txq_at}
use mtk_t7xx_fix.Cldma.Tx.{
  take_descriptor, handle_tx_request, collectable, gpd_tx_collect, collect_from, collect_one,
}
use mtk_t7xx_fix.Cldma.Send.{Round, send_skb}
use mtk_t7xx_fix.Cldma.Rx.{
  RxRound, gpd_rx_from_q, receive, refill, advance_done, unmap_head, alloc_and_map_skb,
}
use mtk_t7xx_fix.Cldma.Setup.{
  tx_ring_init, tx_requests, link, link_from, built, RxAlloc, alloc_rx_request, rx_requests,
  rx_ring_init, clear_rxq,
}
use mtk_t7xx_fix.Cldma.Holds.{Holds}
use mtk_t7xx_fix.Cldma.Gaps.{Gap, gpd_rx_from_q-Gap}
use mtk_t7xx_fix.Cldma.Refine.{
  Fifo, Op, send, finish, collect, run, freed_by, DoesAll, StandsFor, run_refines,
}
use mtk_t7xx_fix.Cldma.Cleared.{clear_rxq-unmapped}
use mtk_t7xx_fix.Cldma.Lost.{take_descriptor_lost}
use mtk_t7xx_fix.Cldma.Sending.{send_skb-Holds}

abbrev skb : ℕ → Skb
skb id = record { id = id; len = 100 }

-- A queue of two descriptors, empty.
abbrev two : Queue
two = record no_queue {
  ring =
      record no_request { gpd_addr = 64; ioc = true }
      ∷ record no_request { gpd_addr = 128; ioc = true }
      ∷ [];
  attached = true;
  budget = 2;
}

two-Holds : Holds 2 two []
two-Holds = record {
  attached = refl;
  size = refl;
  start = omega arith;
  count = refl;
  tail = refl;
  slots = (refl, (refl, tt));
}

abbrev nothing : Fifo
nothing = record { waiting = []; freed = [] }

-- Three sends, of which the third finds no room, then the first is finished and collected, and the
-- third is tried again.
abbrev traffic : List Op
traffic =
    send true 4096 (skb 1)
    ∷ send true 8192 (skb 2)
    ∷ send true 12288 (skb 3)
    ∷ finish 0
    ∷ collect
    ∷ send true 12288 (skb 3)
    ∷ []

traffic_answers : (run two traffic).0 ≡ true ∷ true ∷ false ∷ true ∷ true ∷ true ∷ []
unfolding gpd_tx_collect collect_from collect_one take_descriptor handle_tx_request
traffic_answers = refl

traffic_freed : freed_by (run two traffic).1.calls ≡ 1 ∷ []
unfolding gpd_tx_collect collect_from collect_one take_descriptor handle_tx_request
traffic_freed = refl

run_refines_example :
    (g : Fifo) × DoesAll 2 nothing traffic (run two traffic).0 g × StandsFor 2 (run two traffic).1 g
run_refines_example = run_refines 2 two nothing traffic (two-Holds, refl)

-- One skb in the ring, sent.
abbrev sent : Queue
sent = record two {
  ring =
      record no_request {
        gpd_addr = 64;
        skb = some (skb 7);
        mapped_buff = 4096;
        data_buff_len = 100;
      }
      ∷ record no_request { gpd_addr = 128 }
      ∷ [];
  budget = 1;
  tx_next = 1;
}

sent-Holds : Holds 2 sent (skb 7 ∷ [])
sent-Holds = record {
  attached = refl;
  size = refl;
  start = omega arith;
  count = refl;
  tail = refl;
  slots = (refl, (refl, tt));
}

-- A failed mapping on the empty queue, then traffic.
take_descriptor_lost_example :
    let r = (run (take_descriptor true none two (skb 1)) traffic).1 in
    (freed_by r.calls ≡ []) × (collectable r ≡ false) × (r.budget < 2)
take_descriptor_lost_example = take_descriptor_lost 2 true two (skb 1) traffic two-Holds

-- A controller whose first transmit queue is active; power management refuses with -EACCES.
abbrev ctrl : Ctrl
ctrl = record {
  hif_id = 0;
  txq = two ∷ [];
  rxq = [];
  txq_active = 1;
  rxq_active = 0;
  txq_started = 0;
  is_late_init = true;
  hw_calls = [];
}

abbrev awake : Round
awake = record {
  dma = some 4096;
  awake = true;
  addr_set = true;
  running = false;
  wait = none;
  meanwhile = λ q. q;
}

send_skb-Holds_example :
    (d : Ctrl) × (send_skb (fail eacces) (awake ∷ []) ctrl 0 (skb 1) ≡ some (fail eacces, d))
    × Holds 2 (txq_at d 0) ([] ++ (skb 1 ∷ []))
send_skb-Holds_example =
    send_skb-Holds ctrl 0 (skb 1) (fail eacces) awake [] 2 4096 [] (omega arith) (omega arith) refl
      refl refl two-Holds (omega arith)

-- A receive queue of two descriptors, both with a buffer, the first one filled.
abbrev arrived : Queue
arrived = record two {
  ring =
      record no_request {
        gpd_addr = 64;
        skb = some (skb 1);
        mapped_buff = 4096;
        data_ptr = 4096;
        data_buff_len = 20;
      }
      ∷ record no_request {
        gpd_addr = 128;
        hwo = true;
        skb = some (skb 2);
        mapped_buff = 8192;
        data_ptr = 8192;
      }
      ∷ [];
}

arrived-Gap : Gap 2 arrived 0
arrived-Gap = record {
  size = refl;
  start = omega arith;
  bound = omega arith;
  head = refl;
  slots = (refl, (refl, tt));
}

abbrev no_memory : RxRound
no_memory = record {
  present = true;
  curr_addr = 64;
  given_back = [];
  recv = ok;
  alloc = record { skb = none; dma = none };
  need_resched = false;
}

abbrev after_failure : Queue
unfolding receive refill advance_done unmap_head alloc_and_map_skb
after_failure = (receive no_memory arrived (skb 1)).1

gpd_rx_from_q-Gap_example :
    (g' : ℕ) × (0 ≤ g')
    × (g' ≤ 1)
    × Gap 2 (receive no_memory arrived (skb 1)).1 g'
    × (fail enomem ≡ ok → g' ≡ 0)
unfolding gpd_rx_from_q receive refill advance_done unmap_head alloc_and_map_skb
gpd_rx_from_q-Gap_example =
    gpd_rx_from_q-Gap 2 (no_memory ∷ []) 0 0 16 arrived (receive no_memory arrived (skb 1)).1 0
      (fail enomem) false arrived-Gap refl

-- A receiver without room.
abbrev refusing : RxRound
refusing = record no_memory { recv = fail enobufs }

clear_rxq-unmapped_example :
    let r = req_at (clear_rxq [] (receive refusing arrived (skb 1)).1).1 0 in
    (r.hwo ≡ true) × (r.mapped_buff ≡ 0) × (r.data_ptr ≡ 4096)
clear_rxq-unmapped_example =
    clear_rxq-unmapped refusing arrived (skb 1) enobufs [] refl (omega arith)

-- Sixteen descriptors.
abbrev addrs : List (Option ℕ)
addrs =
    map (λ (n : ℕ). some n)
      (1 ∷ 2 ∷ 3 ∷ 4 ∷ 5 ∷ 6 ∷ 7 ∷ 8 ∷ 9 ∷ 10 ∷ 11 ∷ 12 ∷ 13 ∷ 14 ∷ 15 ∷ 16 ∷ [])

abbrev tx_ring : List Request
unfolding tx_ring_init tx_requests link link_from built
tx_ring = (tx_ring_init 3584 addrs).1

abbrev buffers : List RxAlloc
buffers = replicate 16 (record { gpd = some 64; buffer = record { skb = some 1; dma = some 4096 } })

abbrev rx_made : Ret × List Request × List Call
unfolding rx_ring_init rx_requests alloc_rx_request alloc_and_map_skb link link_from built
rx_made = rx_ring_init 3584 buffers
