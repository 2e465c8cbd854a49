-- ===== src/Cldma/Setup.antt =====
-- The rings: how src/t7xx_hif_cldma.c builds, links, resets, clears and frees them.
use mtk_t7xx_fix.Prelude.{
  ℕ, zero, suc, ◌-◌, ◌%◌, Bool, true, false, ◌&&◌, not, Option, none, some, List, [], ◌∷◌, ◌++◌,
  map, length, get_or, set, ◌==◌, Ret, ok, fail, enomem, ealready, if◌then◌else◌,
}
use mtk_t7xx_fix.Cldma.State.{
  Request, Queue, Ctrl, Call, Dir, tx, rx, dma_unmap_single, dev_kfree_skb, dma_pool_free,
  dma_pool_create, dma_pool_destroy, no_request, has_skb, hw,
}
use mtk_t7xx_fix.Cldma.Rx.{Alloc, alloc_and_map_skb}

-- MAX_TX_BUDGET and MAX_RX_BUDGET.
abbrev pub max_budget : ℕ
max_budget = 16

-- What t7xx_cldma_ring_free does for one entry and for a ring; the calls are the latest first.
abbrev pub free_request : ℕ → Request → List Call
free_request pkt_size r =
    let unmapped =
      if not (r.mapped_buff == 0) && has_skb r
      then dma_unmap_single r.mapped_buff pkt_size ∷ []
      else [] in
    let freed = elim r.skb as (λ _. List Call) [ none ↦ [] | some s ↦ dev_kfree_skb s.id ∷ [] ] in
    dma_pool_free r.gpd_addr ∷ (freed ++ unmapped)

unfoldable pub ring_free : ℕ → List Request → List Call
ring_free pkt_size [] = []
ring_free pkt_size (r ∷ rs) = ring_free pkt_size rs ++ free_request pkt_size r

-- The loop that links each descriptor to the next: `i` is the entry the loop is at, `prev` the one
-- before it.
unfoldable pub link_from : ℕ → ℕ → ℕ → List Request → List Request
link_from zero prev i ring = ring
link_from (suc n) prev i ring = link_from n i (suc i) (
    set ring prev
      (record (get_or ring prev no_request) { next_gpd_ptr = (get_or ring i no_request).gpd_addr }))

-- When the loop starts, `gpd` is the last entry's.
unfoldable pub link : List Request → List Request
unfolding link_from
link ring = link_from (length ring) (length ring - 1) 0 ring

-- t7xx_alloc_tx_request and the fields that the ring's initialisation sets, for each of `n` entries:
-- the addresses of the descriptors, or a failed allocation. With the entries made so far.
unfoldable pub tx_requests : ℕ → List (Option ℕ) → List Request → Ret × List Request
tx_requests zero answers made = (ok, made)
tx_requests (suc n) [] made = (fail enomem, made)
tx_requests (suc n) (none ∷ answers) made = (fail enomem, made)
tx_requests (suc n) (some addr ∷ answers) made =
    tx_requests n answers (made ++ (record no_request { gpd_addr = addr; ioc = true } ∷ []))

-- The entries are linked, or, if one could not be made, freed.
unfoldable pub built : ℕ → Ret × List Request → Ret × List Request × List Call
unfolding link ring_free
built pkt_size (ok, made) = (ok, link made, [])
built pkt_size (fail e, made) = (fail e, [], ring_free pkt_size made)

unfoldable pub tx_ring_init : ℕ → List (Option ℕ) → Ret × List Request × List Call
unfolding tx_requests built
tx_ring_init pkt_size answers = built pkt_size (tx_requests max_budget answers [])

-- t7xx_alloc_rx_request and what the ring's initialisation sets: the descriptor's address and the
-- buffer.
pub record RxAlloc : Type 0 where
  pub gpd : Option ℕ
  pub buffer : Alloc

unfoldable pub alloc_rx_request : ℕ → RxAlloc → Option Request × List Call
unfolding alloc_and_map_skb
alloc_rx_request pkt_size a = elim a.gpd [
  | none ↦ (none, [])
  | some addr ↦
      let (ret, r, calls) =
        alloc_and_map_skb pkt_size a.buffer (record no_request { gpd_addr = addr }) in
      elim ret [ ok ↦ (some r, calls) | fail e ↦ (none, dma_pool_free addr ∷ calls) ]
]

abbrev pub arm_request : ℕ → Request → Request
arm_request pkt_size r = record r {
  data_ptr = r.mapped_buff;
  rx_data_allow_len = pkt_size % 65536;
  hwo = true;
  ioc = true;
}

unfoldable pub rx_requests :
    ℕ → ℕ → List RxAlloc → List Request → List Call → Ret × List Request × List Call
unfolding alloc_rx_request
rx_requests pkt_size zero answers made calls = (ok, made, calls)
rx_requests pkt_size (suc n) [] made calls = (fail enomem, made, calls)
rx_requests pkt_size (suc n) (a ∷ answers) made calls =
    let more = λ (r : Request).
      rx_requests pkt_size n answers (made ++ (arm_request pkt_size r ∷ []))
        ((alloc_rx_request pkt_size a).1 ++ calls) in
    elim (alloc_rx_request pkt_size a).0 [
      | none ↦ (fail enomem, made, (alloc_rx_request pkt_size a).1 ++ calls)
      | some r ↦ more r
    ]

unfoldable pub rx_ring_init : ℕ → List RxAlloc → Ret × List Request × List Call
unfolding rx_requests built
rx_ring_init pkt_size answers =
    let (ret, made, calls) = rx_requests pkt_size max_budget answers [] [] in
    let (ret₁, ring, freed) = built pkt_size (ret, made) in (ret₁, ring, freed ++ calls)

abbrev pub q_reset : Dir → Queue → Queue
q_reset tx q = record q { tr_done = 0; attached = true; budget = length q.ring; tx_next = 0 }
q_reset rx q = record q { tr_done = 0; attached = true; budget = length q.ring; rx_refill = 0 }

abbrev pub clear_tx_request : Request → Request
clear_tx_request r = record r { hwo = false; data_ptr = 0; data_buff_len = 0; skb = none }

abbrev pub skbs_freed : List Request → List Call
skbs_freed [] = []
skbs_freed (r ∷ rs) =
    skbs_freed rs ++ elim r.skb as (λ _. List Call) [ none ↦ [] | some s ↦ dev_kfree_skb s.id ∷ [] ]

unfoldable pub clear_txq : Queue → Queue
clear_txq q = record (q_reset tx q) {
  ring = map clear_tx_request q.ring;
  calls = skbs_freed q.ring ++ q.calls;
}

-- The first loop of t7xx_cldma_clear_rxq; the second allocates what is missing.
abbrev pub clear_rx_request : Request → Request
clear_rx_request r = record r {
  hwo = true;
  ioc = true;
  data_buff_len = 0;
  skb = elim r.skb [ none ↦ none | some s ↦ some (record s { len = 0 }) ];
}

unfoldable pub refill_all : ℕ → List Alloc → List Request → Ret × List Request × List Call
unfolding alloc_and_map_skb
refill_all pkt_size answers [] = (ok, [], [])
refill_all pkt_size [] (r ∷ rs) =
    let rest = refill_all pkt_size [] rs in
    if has_skb r then (rest.0, r ∷ rest.1, rest.2) else (fail enomem, r ∷ rs, [])
refill_all pkt_size (a ∷ answers) (r ∷ rs) =
    let kept = refill_all pkt_size (a ∷ answers) rs in
    let rest = refill_all pkt_size answers rs in
    let (ret, r₁, calls) = alloc_and_map_skb pkt_size a r in
    if has_skb r then (kept.0, r ∷ kept.1, kept.2) else elim ret [
      | ok ↦ (rest.0, record r₁ { data_ptr = r₁.mapped_buff } ∷ rest.1, rest.2 ++ calls)
      | fail e ↦ (fail e, r₁ ∷ rs, calls)
    ]

unfoldable pub clear_rxq : List Alloc → Queue → Ret × Queue
unfolding refill_all
clear_rxq answers q =
    let (ret, ring, calls) = refill_all q.pkt_size answers (map clear_rx_request q.ring) in
    (ret, record (q_reset rx q) { ring = ring; calls = calls ++ q.calls })

-- A queue's ring is freed.
abbrev pub free_ring : Queue → Queue
free_ring q = record q { ring = []; calls = ring_free q.pkt_size q.ring ++ q.calls }

-- The loop of t7xx_cldma_late_init over the queues of one direction; when a ring cannot be built, the
-- rings before it are freed.
unfoldable pub init_rings {ℓ} :
    {A : Type ℓ} → (ℕ → A → Ret × List Request × List Call) → List Queue → List A → Ret × List Queue
unfolding ring_free
init_rings init [] answers = (ok, [])
init_rings init (q ∷ qs) [] = (fail enomem, q ∷ qs)
init_rings init (q ∷ qs) (a ∷ answers) =
    let (ret, ring, calls) = init q.pkt_size a in
    let rest = init_rings init qs answers in
    let q₁ = record q { ring = ring; calls = calls ++ q.calls } in
    elim ret [
      | fail e ↦ (fail e, q₁ ∷ qs)
      | ok ↦ elim rest.0 [ fail e ↦ (fail e, free_ring q₁ ∷ rest.1) | ok ↦ (ok, q₁ ∷ rest.1) ]
    ]

-- `pool` tells whether the pool can be made.
unfoldable pub late_init : Bool → List (List (Option ℕ)) → List (List RxAlloc) → Ctrl → Ret × Ctrl
unfolding tx_ring_init rx_ring_init init_rings
late_init pool tx_answers rx_answers c =
    let (tx_ret, txq) = init_rings tx_ring_init c.txq tx_answers in
    let (rx_ret, rxq) = init_rings rx_ring_init c.rxq rx_answers in
    let c₁ = hw c dma_pool_create in
    if c.is_late_init
    then (fail ealready, c)
    else if not pool
    then (fail enomem, c)
    else elim tx_ret [
      | fail e ↦ (fail e, record c₁ { txq = txq })
      | ok ↦ elim rx_ret [
        | fail e ↦ (fail e, record c₁ { txq = map free_ring txq; rxq = rxq })
        | ok ↦ (
          ok,
          record c₁ { txq = map (q_reset tx) txq; rxq = map (q_reset rx) rxq; is_late_init = true },
        )
      ]
    ]

unfoldable pub late_release : Ctrl → Ctrl
unfolding ring_free
late_release c =
    if c.is_late_init
    then hw
        (record c { txq = map free_ring c.txq; rxq = map free_ring c.rxq; is_late_init = false })
        dma_pool_destroy
    else c
