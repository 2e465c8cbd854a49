-- ===== src/Cldma/Fresh.antt =====
-- What src/t7xx_hif_cldma.c leaves in the rings when it builds or clears them.
use mtk_t7xx_fix.Prelude.{
  ℕ, zero, suc, ◌+◌, ◌<◌, ◌≡◌, refl, sym, ap, ◌∙◌, arith, Bool, true, false, Option, Option-cases,
  none, some, List, [], ◌∷◌, ◌++◌, map, length, length-map, length-append, subst, All, All-append,
  All-get_or, inl, inr, Ret, ok, fail, enomem, fail-ok,
}
use mtk_t7xx_fix.Cldma.State.{Request, Queue, Call, tx, rx, no_request, req_at, next, has_skb}
use mtk_t7xx_fix.Cldma.Rx.{alloc_and_map_skb}
use mtk_t7xx_fix.Cldma.Setup.{
  max_budget, link, tx_requests, built, tx_ring_init, RxAlloc, alloc_rx_request, arm_request,
  rx_requests, rx_ring_init, q_reset, clear_tx_request, clear_txq,
}
use mtk_t7xx_fix.Cldma.Slots.{place, place-lt, place_first, AllBelow, AllBelow_of}
use mtk_t7xx_fix.Cldma.Holds.{Holds}
use mtk_t7xx_fix.Cldma.Gaps.{Gap}
use mtk_t7xx_fix.Cldma.Linked.{at, link-next, link-same, length-link}

-- Every entry, by its place.
abbrev pub Everywhere : List Request → (Request → Type 0) → Type 0
Everywhere ring P = (k : ℕ) → k < length ring → P (at ring k)

pub empty-Holds :
    (q : Queue)
    → 0 < length q.ring
    → Everywhere q.ring (λ r. r.skb ≡ none)
    → Holds (length q.ring) (q_reset tx q) []
empty-Holds q l h = record {
  attached = refl;
  size = refl;
  start = l;
  count = omega arith;
  tail = sym (place_first (length q.ring) 0 l);
  slots =
      AllBelow_of (length q.ring) _
        (λ k b. h (place (length q.ring) 0 k) (place-lt (length q.ring) 0 k l b));
}

pub full-Gap :
    (q : Queue)
    → 0 < length q.ring
    → Everywhere q.ring (λ r. has_skb r ≡ true)
    → Gap (length q.ring) (q_reset rx q) 0
full-Gap q l h = record {
  size = refl;
  start = l;
  bound = omega arith;
  head = sym (place_first (length q.ring) 0 l);
  slots =
      AllBelow_of (length q.ring) _
        (λ k b. h (place (length q.ring) 0 k) (place-lt (length q.ring) 0 k l b) ∙ ground arith);
}

-- The entries that the initialisation of a transmit ring makes.
tx_requests-All :
    (n : ℕ) (answers : List (Option ℕ)) (made ring : List Request)
    → tx_requests n answers made ≡ (ok, ring)
    → All (λ r. r.skb ≡ none) made
    → (length ring ≡ length made + n) × All (λ r. r.skb ≡ none) ring
unfolding tx_requests
tx_requests-All zero answers made ring e h = (
  ap length (sym (ap (λ x. x.1) e)) ∙ omega arith,
  subst (All (λ r. r.skb ≡ none)) (ap (λ x. x.1) e) h,
)
tx_requests-All (suc n) [] made ring e h = absurd (fail-ok _ (ap (λ x. x.0) e))
tx_requests-All (suc n) (none ∷ answers) made ring e h = absurd (fail-ok _ (ap (λ x. x.0) e))
tx_requests-All (suc n) (some addr ∷ answers) made ring e h =
    let r : Request = record no_request { gpd_addr = addr; ioc = true } in
    let (size, all) =
      tx_requests-All n answers (made ++ (r ∷ [])) ring e
        (All-append (λ r. r.skb ≡ none) made (r ∷ []) h (refl, tt)) in
    (omega (arith, size, length-append made (r ∷ [])), all)

-- A built ring is the linked list of the entries made.
built-ok :
    (pkt_size : ℕ) (m : Ret × List Request) (ring : List Request) (calls : List Call)
    → built pkt_size m ≡ (ok, ring, calls)
    → (m ≡ (ok, m.1)) × (link m.1 ≡ ring)
unfolding built
built-ok pkt_size (ok, made) ring calls e = (refl, ap (λ x. x.1) e)
built-ok pkt_size (fail x, made) ring calls e = absurd (fail-ok x (ap (λ x. x.0) e))

-- The descriptors form a circle.
abbrev pub Circle : List Request → Type 0
Circle ring =
    (k : ℕ) → k < length ring → (at ring k).next_gpd_ptr ≡ (at ring (next (length ring) k)).gpd_addr

link-Circle : (made ring : List Request) → link made ≡ ring → Circle ring
link-Circle made ring e = subst Circle e (λ k l.
    link-next made k (omega (arith, length-link made))
    ∙ sym (link-same (λ r. r.gpd_addr) (λ r a. refl) made (next (length made) k))
    ∙ ap (λ n. (at (link made) (next n k)).gpd_addr) (sym (length-link made)))

-- When a transmit ring is made, it has sixteen descriptors in a circle, and the reset queue is an empty
-- buffer.
pub tx_ring_init-Holds :
    (q : Queue) (answers : List (Option ℕ)) (ring : List Request) (calls : List Call)
    → tx_ring_init q.pkt_size answers ≡ (ok, ring, calls)
    → Circle ring × Holds 16 (q_reset tx (record q { ring = ring })) []
unfolding tx_ring_init
tx_ring_init-Holds q answers ring calls e =
    let m = tx_requests max_budget answers [] in
    let (good, linked) = built-ok q.pkt_size m ring calls e in
    let (size, all) = tx_requests-All 16 answers [] m.1 good tt in
    let n : length ring ≡ 16 = ap length (sym linked) ∙ length-link m.1 ∙ size in
    (
      link-Circle m.1 ring linked,
      subst (λ n. Holds n (q_reset tx (record q { ring = ring })) []) n
          (empty-Holds (record q { ring = ring }) (omega (arith, n))
            (λ k l.
              ap (λ r. (at r k).skb) (sym linked)
              ∙ link-same (λ r. r.skb) (λ r a. refl) m.1 k
              ∙ All-get_or (λ r. r.skb ≡ none) m.1 k no_request all refl)),
    )

-- The entries of a receive ring.
alloc_rx_request-has_skb :
    (pkt_size : ℕ) (a : RxAlloc) (r : Request)
    → (alloc_rx_request pkt_size a).0 ≡ some r
    → has_skb r ≡ true
unfolding alloc_rx_request alloc_and_map_skb
alloc_rx_request-has_skb pkt_size a r e = go a.gpd a.buffer.skb a.buffer.dma e
  where
    none-some : none ≡ some r → ⊥
    none-some x = cc

    go :
        (g s d : Option ℕ)
        → (alloc_rx_request pkt_size (record { gpd = g; buffer = record { skb = s; dma = d } })).0
          ≡ some r
        → has_skb r ≡ true
    go none s d e = absurd (none-some e)
    go (some addr) none d e = absurd (none-some e)
    go (some addr) (some id) none e = absurd (none-some e)
    go (some addr) (some id) (some b) e =
        ap (λ o. elim o as (λ _. Bool) [ none ↦ false | some x ↦ has_skb x ]) (sym e)

rx_requests-All :
    (pkt_size n : ℕ) (answers : List RxAlloc) (made ring : List Request) (calls calls' : List Call)
    → rx_requests pkt_size n answers made calls ≡ (ok, ring, calls')
    → All (λ r. has_skb r ≡ true) made
    → (length ring ≡ length made + n) × All (λ r. has_skb r ≡ true) ring
unfolding rx_requests
rx_requests-All pkt_size zero answers made ring calls calls' e h = (
  ap length (sym (ap (λ x. x.1) e)) ∙ omega arith,
  subst (All (λ r. has_skb r ≡ true)) (ap (λ x. x.1) e) h,
)
rx_requests-All pkt_size (suc n) [] made ring calls calls' e h =
    absurd (fail-ok _ (ap (λ x. x.0) e))
rx_requests-All pkt_size (suc n) (a ∷ answers) made ring calls calls' e h =
    elim (Option-cases (alloc_rx_request pkt_size a).0) [
      | inl x ↦ absurd (fail-ok enomem (ap (λ y. y.0) (rw (x, rx_requests) at e)))
      | inr (r, x) ↦
          let (size, all) =
            rx_requests-All pkt_size n answers (made ++ (arm_request pkt_size r ∷ [])) ring
              ((alloc_rx_request pkt_size a).1 ++ calls) calls' (rw (x, rx_requests) at e)
              (All-append (λ r. has_skb r ≡ true) made (arm_request pkt_size r ∷ []) h
                (alloc_rx_request-has_skb pkt_size a r x, tt)) in
          (omega (arith, size, length-append made (arm_request pkt_size r ∷ [])), all)
    ]

All-at :
    (ring : List Request) (k : ℕ)
    → k < length ring
    → All (λ r. has_skb r ≡ true) ring
    → has_skb (at ring k) ≡ true
All-at [] k l h = absurd (omega arith)
All-at (x ∷ xs) zero l h = h.0
All-at (x ∷ xs) (suc k) l h = All-at xs k (omega arith) h.1

-- When a receive ring is made, it has sixteen descriptors in a circle, and in the reset queue each of
-- them has a buffer.
pub rx_ring_init-Gap :
    (q : Queue) (answers : List RxAlloc) (ring : List Request) (calls : List Call)
    → rx_ring_init q.pkt_size answers ≡ (ok, ring, calls)
    → Circle ring × Gap 16 (q_reset rx (record q { ring = ring })) 0
unfolding rx_ring_init
rx_ring_init-Gap q answers ring calls e =
    let m = rx_requests q.pkt_size max_budget answers [] [] in
    let b = built q.pkt_size (m.0, m.1) in
    let (good, linked) = built-ok q.pkt_size (m.0, m.1) ring b.2 (ap (λ x. (x.0, x.1, b.2)) e) in
    let (size, all) =
      rx_requests-All q.pkt_size 16 answers [] m.1 [] m.2 (ap (λ x. (x.0, m.1, m.2)) good) tt in
    let n : length ring ≡ 16 = ap length (sym linked) ∙ length-link m.1 ∙ size in
    (
      link-Circle m.1 ring linked,
      subst (λ n. Gap n (q_reset rx (record q { ring = ring })) 0) n
          (full-Gap (record q { ring = ring }) (omega (arith, n))
            (λ k l.
              ap (λ r. has_skb (at r k)) (sym linked)
              ∙ link-same (λ r. has_skb r) (λ r a. refl) m.1 k
              ∙ All-at m.1 k (omega (arith, n, size)) all)),
    )

cleared : (ring : List Request) → Everywhere (map clear_tx_request ring) (λ r. r.skb ≡ none)
cleared [] k l = refl
cleared (r ∷ rs) zero l = refl
cleared (r ∷ rs) (suc k) l = cleared rs k (omega arith)

-- A cleared transmit queue is an empty buffer, whatever was in it.
pub clear_txq-Holds :
    (len : ℕ) (q : Queue) → length q.ring ≡ len → 0 < len → Holds len (clear_txq q) []
unfolding clear_txq
clear_txq-Holds len q e l =
    let n : length (map clear_tx_request q.ring) ≡ len = length-map clear_tx_request q.ring ∙ e in
    let h = empty-Holds (clear_txq q) (omega (arith, n)) (cleared q.ring) in
    record {
      attached = refl;
      size = n;
      start = l;
      count = omega (arith, e);
      tail = sym (place_first len 0 l);
      slots =
          subst (λ m. AllBelow m (λ k. (req_at (clear_txq q) (place m 0 k)).skb ≡ none)) n h.slots;
    }
