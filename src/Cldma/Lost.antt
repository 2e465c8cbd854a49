-- ===== src/Cldma/Lost.antt =====
-- What becomes of a transmit queue of src/t7xx_hif_cldma.c when the mapping of a buffer fails:
-- t7xx_cldma_send_skb does not look at the result of t7xx_cldma_gpd_handle_tx_request.
use mtk_t7xx_fix.Prelude.{
  and_false, ℕ, zero, suc, ◌+◌, ◌<◌, ◌≡◌, refl, sym, ap, ap₂, ◌∙◌, arith, Bool, true, false, not,
  ◌&&◌, none, some, List, [], ◌∷◌, length, length-set, get_or, get_or-set_self, get_or-set_ne, set,
  ltb, leb, ◌==◌, if◌then◌else◌, ℕ_discrete, subst, Bool-cases, inl, inr,
}
use mtk_t7xx_fix.Cldma.State.{
  Skb, Request, Queue, wake_up_nr, no_request, req_at, call, next, has_skb,
}
use mtk_t7xx_fix.Cldma.Tx.{
  fill_gpd, can_send, take_descriptor, collectable, collect_one, collect_from, gpd_tx_collect,
  handle_tx_request,
}
use mtk_t7xx_fix.Cldma.Slots.{
  place, place-lt, place-ne, place_first, next-place, AllBelow, AllBelow-at, AllBelow_of,
}
use mtk_t7xx_fix.Cldma.Gaps.{has_skb-set}
use mtk_t7xx_fix.Cldma.Holds.{Holds, skb_of}
use mtk_t7xx_fix.Cldma.Refine.{
  Op, send, finish, collect, finish_at, step, run, freed_by, take_descriptor-freed,
}

nothing_done : (fuel : ℕ) (q : Queue) → collectable q ≡ false → collect_from fuel 0 q ≡ (0, q)
unfolding collect_from
nothing_done zero q e = refl
nothing_done (suc fuel) q e =
    ap (λ b. if b then collect_from fuel 1 (collect_one q) else (0, q))
      (ap (λ b. q.attached && b) e ∙ and_false q.attached)

-- The descriptor at `tr_done` has no skb, the `j` after it have one, and the budget counts the others.
record Stuck (cap : ℕ) (q : Queue) (j : ℕ) : Type 0 where
  size : length q.ring ≡ cap
  start : q.tr_done < cap
  count : suc j + q.budget ≡ cap
  tail : q.tx_next ≡ place cap q.tr_done (suc j)
  slots : AllBelow cap (λ k. has_skb (req_at q (place cap q.tr_done k)) ≡ ltb 0 k && leb k j)

module _ (cap : ℕ) where
  slot_of :
      (q : Queue) (j k : ℕ)
      → Stuck cap q j
      → k < cap
      → has_skb (req_at q (place cap q.tr_done k)) ≡ ltb 0 k && leb k j
  slot_of q j k h b =
      AllBelow-at cap (λ i. has_skb (req_at q (place cap q.tr_done i)) ≡ ltb 0 i && leb i j) k
        h.slots b

  finish-Stuck : (q : Queue) (j i : ℕ) → Stuck cap q j → Stuck cap (finish_at q i) j
  finish-Stuck q j i h = record {
    size = length-set q.ring i _ ∙ h.size;
    start = h.start;
    count = h.count;
    tail = h.tail;
    slots = AllBelow_of cap _ (λ k b.
        has_skb-set q.ring i (place cap q.tr_done k) (record (req_at q i) { hwo = false }) refl
        ∙ slot_of q j k h b);
  }

  send-Stuck :
      (active : Bool) (addr : ℕ) (q : Queue) (skb : Skb) (j : ℕ)
      → Stuck cap q j
      → can_send q ≡ true
      → Stuck cap (take_descriptor active (some addr) q skb) (suc j)
  unfolding take_descriptor handle_tx_request
  send-Stuck active addr q skb j h can = record {
    size = length-set q.ring q.tx_next _ ∙ h.size;
    start = h.start;
    count = omega (arith, h.count, has_budget);
    tail =
        ap₂ next h.size h.tail
        ∙ next-place cap q.tr_done (suc j) h.start (omega (arith, h.count, has_budget));
    slots = AllBelow_of cap _ slot;
  }
    where
      has_budget : 0 < q.budget
      has_budget = and_left (not (has_skb (req_at q q.tx_next))) can
        where
          and_left : (b : Bool) → ltb 0 q.budget && b ≡ true → 0 < q.budget
          and_left b e = ground arith

      r : Request
      r = fill_gpd active skb addr (req_at q q.tx_next)

      slot :
          (k : ℕ)
          → k < cap
          → has_skb (get_or (set q.ring q.tx_next r) (place cap q.tr_done k) no_request)
            ≡ ltb 0 k && leb k (suc j)
      slot k b =
          let room : suc j < cap = omega (arith, h.count, has_budget) in
          elim (ℕ_discrete (suc j) k) [
            | yes e ↦
                ap (λ i. has_skb (get_or (set q.ring q.tx_next r) i no_request))
                  (ap (place cap q.tr_done) (sym e) ∙ sym h.tail)
                ∙ ap has_skb (
                    get_or-set_self q.ring q.tx_next r no_request
                      (omega (arith, h.size, h.tail, place-lt cap q.tr_done (suc j) h.start room)))
                ∙ ground arith
            | no n ↦
                ap has_skb (
                  get_or-set_ne q.ring q.tx_next (place cap q.tr_done k) r no_request
                    (λ e. place-ne cap q.tr_done (suc j) k h.start room b n (sym h.tail ∙ e)))
                ∙ slot_of q j k h b
                ∙ ground arith
          ]

  -- The head of such a ring cannot be taken back.
  not_collectable : (q : Queue) (j : ℕ) → Stuck cap q j → collectable q ≡ false
  not_collectable q j h =
      ap (λ b. not (req_at q q.tr_done).hwo && b)
        (ap (λ i. has_skb (req_at q i)) (sym (place_first cap q.tr_done h.start))
          ∙ slot_of q j 0 h (omega (arith, h.start))
          ∙ at_zero j)
      ∙ and_false (not (req_at q q.tr_done).hwo)
    where
      at_zero : (j : ℕ) → ltb 0 0 && leb 0 j ≡ false
      at_zero j = ground arith

  collect-same : (q : Queue) → collectable q ≡ false → (gpd_tx_collect q).1 ≡ q
  unfolding gpd_tx_collect
  collect-same q e =
      ap (λ (x : ℕ × Queue). (if x.0 == 0 then x.1 else call x.1 (wake_up_nr x.0)))
        (nothing_done (length q.ring) q e)

  step-Stuck :
      (q : Queue) (op : Op) (j : ℕ)
      → Stuck cap q j
      → (j' : ℕ) × Stuck cap (step q op).1 j' × (freed_by (step q op).1.calls ≡ freed_by q.calls)
  step-Stuck q (send active addr skb) j h = elim (Bool-cases (can_send q)) [
    | inl e ↦
        rw e
          (suc j, send-Stuck active addr q skb j h e, take_descriptor-freed cap active addr q skb)
    | inr e ↦ rw e (j, h, refl)
  ]
  step-Stuck q (finish i) j h = (j, finish-Stuck q j i h, refl)
  step-Stuck q collect j h =
      let same = collect-same q (not_collectable q j h) in
      (j, subst (λ x. Stuck cap x j) (sym same) h, ap (λ x. freed_by x.calls) same)

  run-Stuck :
      (q : Queue) (ops : List Op) (j : ℕ)
      → Stuck cap q j
      → (j' : ℕ) × Stuck cap (run q ops).1 j' × (freed_by (run q ops).1.calls ≡ freed_by q.calls)
  run-Stuck q [] j h = (j, h, refl)
  run-Stuck q (op ∷ ops) j h =
      let (j₁, h₁, e₁) = step-Stuck q op j h in
      let (j₂, h₂, e₂) = run-Stuck (step q op).1 ops j₁ h₁ in (j₂, h₂, e₂ ∙ e₁)

  lost-Stuck :
      (active : Bool) (q : Queue) (skb : Skb)
      → Holds cap q []
      → Stuck cap (take_descriptor active none q skb) 0
  unfolding take_descriptor handle_tx_request
  lost-Stuck active q skb h = record {
    size = length-set q.ring q.tx_next _ ∙ h.size;
    start = h.start;
    count = omega (arith, h.count, h.start);
    tail = ap₂ next h.size h.tail ∙ next-place cap q.tr_done 0 h.start (omega (arith, h.start));
    slots = AllBelow_of cap _ (λ k b.
        has_skb-set q.ring q.tx_next (place cap q.tr_done k) _ refl
        ∙ ap (λ o. elim o as (λ _. Bool) [ none ↦ false | some x ↦ true ]) (skb_of cap q [] k h b)
        ∙ nowhere k);
  }
    where
      nowhere : (k : ℕ) → false ≡ ltb 0 k && leb k 0
      nowhere k = ground arith

  -- When the mapping of an skb fails on an empty queue, the skb is not freed, and from then on, whatever
  -- is sent with a mapped buffer, whatever the hardware finishes and however often the collector runs,
  -- no skb of the queue is freed any more, the collector finds nothing to take back, and the budget
  -- stays below the number of descriptors.
  pub take_descriptor_lost :
      (active : Bool) (q : Queue) (skb : Skb) (ops : List Op)
      → Holds cap q []
      → let r = (run (take_descriptor active none q skb) ops).1 in
        (freed_by r.calls ≡ freed_by q.calls) × (collectable r ≡ false) × (r.budget < cap)
  unfolding take_descriptor handle_tx_request
  take_descriptor_lost active q skb ops h =
      let (j, stuck, freed) =
        run-Stuck (take_descriptor active none q skb) ops 0 (lost-Stuck active q skb h) in
      (
        freed,
        not_collectable (run (take_descriptor active none q skb) ops).1 j stuck,
        omega (arith, stuck.count),
      )
