-- ===== src/Cldma/Cleared.antt =====
-- What t7xx_cldma_clear_rxq of src/t7xx_hif_cldma.c leaves in a receive ring.
use mtk_t7xx_fix.Prelude.{
  ℕ, zero, suc, ◌<◌, ◌≡◌, refl, sym, ap, ◌∙◌, arith, true, false, Option, none, some, List, [], ◌∷◌,
  map, length, length-map, length-set, get_or-set_self, set, subst, ◌==◌, inl, inr, Ret, ok, fail,
  enomem, Errno, fail-ok, if-by, Ret-by, leb, Bool-cases,
}
use mtk_t7xx_fix.Cldma.State.{Skb, Request, Queue, Call, no_request, req_at, has_skb}
use mtk_t7xx_fix.Cldma.Rx.{Alloc, alloc_and_map_skb, RxRound, receive, unmap_head}
use mtk_t7xx_fix.Cldma.Setup.{clear_rx_request, refill_all, clear_rxq}
use mtk_t7xx_fix.Cldma.Slots.{place, place_first, AllBelow}
use mtk_t7xx_fix.Cldma.Gaps.{Gap}
use mtk_t7xx_fix.Cldma.Linked.{at}
use mtk_t7xx_fix.Cldma.Fresh.{Everywhere, full-Gap}

no_skb : (r : Request) → has_skb r ≡ true → has_skb r ≡ false → ⊥
no_skb r h e = cc

-- A descriptor that has its buffer is left alone.
refill_all-kept :
    (pkt_size : ℕ) (answers : List Alloc) (ring : List Request) (k : ℕ)
    → has_skb (at ring k) ≡ true
    → at (refill_all pkt_size answers ring).1 k ≡ at ring k
unfolding refill_all
refill_all-kept pkt_size [] [] k h = refl
refill_all-kept pkt_size (a ∷ answers) [] k h = refl
refill_all-kept pkt_size [] (r ∷ rs) zero h =
    if-by (λ (x : Ret × List Request × List Call). at x.1 0 ≡ r) (has_skb r) _ _ (λ _. refl)
      (λ _. refl)
refill_all-kept pkt_size [] (r ∷ rs) (suc k) h =
    if-by (λ (x : Ret × List Request × List Call). at x.1 (suc k) ≡ at rs k) (has_skb r) _ _
      (λ _. refill_all-kept pkt_size [] rs k h) (λ _. refl)
refill_all-kept pkt_size (a ∷ answers) (r ∷ rs) zero h =
    if-by (λ (x : Ret × List Request × List Call). at x.1 0 ≡ r) (has_skb r) _ _ (λ _. refl)
      (λ e. absurd (no_skb r h e))
refill_all-kept pkt_size (a ∷ answers) (r ∷ rs) (suc k) h =
    let P : Ret × List Request × List Call → Type 0 = λ x. at x.1 (suc k) ≡ at rs k in
    if-by P (has_skb r) _ _ (λ _. refill_all-kept pkt_size (a ∷ answers) rs k h)
      (λ _.
        Ret-by P (alloc_and_map_skb pkt_size a r).0 _ _
          (λ _. refill_all-kept pkt_size answers rs k h) (λ _. refl))

-- When nothing fails, no descriptor is left without a buffer.
alloc-has_skb :
    (pkt_size : ℕ) (a : Alloc) (r : Request)
    → (alloc_and_map_skb pkt_size a r).0 ≡ ok
    → has_skb (alloc_and_map_skb pkt_size a r).1 ≡ true
unfolding alloc_and_map_skb
alloc-has_skb pkt_size a r e = go a.skb a.dma e
  where
    go :
        (s d : Option ℕ)
        → (alloc_and_map_skb pkt_size (record { skb = s; dma = d }) r).0 ≡ ok
        → has_skb (alloc_and_map_skb pkt_size (record { skb = s; dma = d }) r).1 ≡ true
    go none d e = absurd (fail-ok enomem e)
    go (some id) none e = absurd (fail-ok enomem e)
    go (some id) (some b) e = refl

abbrev Full : Ret × List Request × List Call → ℕ → Type 0
Full x n = (x.0 ≡ ok) → (length x.1 ≡ n) × Everywhere x.1 (λ r. has_skb r ≡ true)

Full-cons :
    (r : Request) (x : Ret × List Request × List Call) (n : ℕ) (cs : List Call)
    → has_skb r ≡ true
    → Full x n
    → Full (x.0, r ∷ x.1, cs) (suc n)
Full-cons r x n cs h f e = (ap suc (f e).0, λ k l. at_each k l)
  where
    at_each : (k : ℕ) → k < suc (length x.1) → has_skb (at (r ∷ x.1) k) ≡ true
    at_each zero l = h
    at_each (suc k) l = (f e).1 k (omega arith)

refill_all-Full :
    (pkt_size : ℕ) (answers : List Alloc) (ring : List Request)
    → Full (refill_all pkt_size answers ring) (length ring)
unfolding refill_all
refill_all-Full pkt_size [] [] = λ _. (refl, λ k l. absurd (omega arith))
refill_all-Full pkt_size (a ∷ answers) [] = λ _. (refl, λ k l. absurd (omega arith))
refill_all-Full pkt_size [] (r ∷ rs) =
    if-by (λ x. Full x (suc (length rs))) (has_skb r) _ _
      (λ h.
        Full-cons r (refill_all pkt_size [] rs) (length rs) [] h (refill_all-Full pkt_size [] rs))
      (λ _ e. absurd (fail-ok enomem e))
refill_all-Full pkt_size (a ∷ answers) (r ∷ rs) =
    if-by (λ x. Full x (suc (length rs))) (has_skb r) _ _
      (λ h.
        Full-cons r (refill_all pkt_size (a ∷ answers) rs) (length rs) [] h
          (refill_all-Full pkt_size (a ∷ answers) rs))
      (λ _.
        Ret-by (λ x. Full x (suc (length rs))) (alloc_and_map_skb pkt_size a r).0 _ _
          (λ m.
            Full-cons _ (refill_all pkt_size answers rs) (length rs) []
              (alloc-has_skb pkt_size a r m) (refill_all-Full pkt_size answers rs))
          (λ x e. absurd (fail-ok x e)))

-- When clearing a receive queue succeeds, every descriptor has a buffer and both pointers are at the
-- first one, whatever the queue was like.
pub clear_rxq-Gap :
    (len : ℕ) (answers : List Alloc) (q : Queue)
    → length q.ring ≡ len
    → 0 < len
    → (clear_rxq answers q).0 ≡ ok
    → Gap len (clear_rxq answers q).1 0
unfolding clear_rxq
clear_rxq-Gap len answers q e l good =
    let x = refill_all q.pkt_size answers (map clear_rx_request q.ring) in
    let (size, full) = refill_all-Full q.pkt_size answers (map clear_rx_request q.ring) good in
    let n : length x.1 ≡ len = size ∙ length-map clear_rx_request q.ring ∙ e in
    let h = full-Gap (clear_rxq answers q).1 (omega (arith, n)) full in
    record {
      size = n;
      start = l;
      bound = omega (arith, l);
      head = sym (place_first len 0 l);
      slots =
          subst
            (λ m.
              AllBelow m (λ k. has_skb (req_at (clear_rxq answers q).1 (place m 0 k)) ≡ leb 0 k))
            n h.slots;
    }

at-map :
    (ring : List Request) (k : ℕ)
    → k < length ring
    → at (map clear_rx_request ring) k ≡ clear_rx_request (at ring k)
at-map [] k l = absurd (omega arith)
at-map (r ∷ rs) zero l = refl
at-map (r ∷ rs) (suc k) l = at-map rs k (omega arith)

refused_ring :
    (a : RxRound) (q : Queue) (s : Skb) (e : Errno)
    → a.recv ≡ fail e
    → q.tr_done < length q.ring
    → at (map clear_rx_request (receive a q s).1.ring) q.tr_done
      ≡ clear_rx_request (record (req_at q q.tr_done) {
        skb = some (record s { len = (req_at q q.tr_done).data_buff_len });
        mapped_buff = 0;
      })
unfolding receive unmap_head
refused_ring a q s e refused l =
    let r : Request = record (req_at q q.tr_done) {
      skb = some (record s { len = (req_at q q.tr_done).data_buff_len });
      mapped_buff = 0;
    } in
    let ring : (receive a q s).1.ring ≡ set q.ring q.tr_done r =
      rw refused (elim (Bool-cases ((req_at q q.tr_done).mapped_buff == 0)) [
        | inl b ↦ rw b refl
        | inr b ↦ rw b refl
      ]) in
    ap (λ x. at (map clear_rx_request x) q.tr_done) ring
    ∙ at-map (set q.ring q.tr_done r) q.tr_done (omega (arith, length-set q.ring q.tr_done r))
    ∙ ap clear_rx_request (get_or-set_self q.ring q.tr_done r no_request l)

-- A receiver that refuses a buffer leaves it in the ring with its mapping undone, and when the queue is
-- cleared after that, whatever the allocators answer, the hardware is given that descriptor with no
-- mapping behind it, at the bus address it had before.
pub clear_rxq-unmapped :
    (a : RxRound) (q : Queue) (s : Skb) (e : Errno) (answers : List Alloc)
    → a.recv ≡ fail e
    → q.tr_done < length q.ring
    → let r = req_at (clear_rxq answers (receive a q s).1).1 q.tr_done in
      (r.hwo ≡ true) × (r.mapped_buff ≡ 0) × (r.data_ptr ≡ (req_at q q.tr_done).data_ptr)
unfolding clear_rxq
clear_rxq-unmapped a q s e answers refused l =
    let q₁ = (receive a q s).1 in
    let kept =
      refill_all-kept q₁.pkt_size answers (map clear_rx_request q₁.ring) q.tr_done (ap has_skb same)
      ∙ same in
    (ap (λ r. r.hwo) kept, ap (λ r. r.mapped_buff) kept, ap (λ r. r.data_ptr) kept)
  where
    rest : Request
    rest = record (req_at q q.tr_done) {
      skb = some (record s { len = (req_at q q.tr_done).data_buff_len });
      mapped_buff = 0;
    }

    same : at (map clear_rx_request (receive a q s).1.ring) q.tr_done ≡ clear_rx_request rest
    same = refused_ring a q s e refused l
