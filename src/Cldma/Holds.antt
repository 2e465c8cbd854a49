-- ===== src/Cldma/Holds.antt =====
-- A transmit queue holds a list of skbs, the oldest first: sending and collecting in
-- src/t7xx_hif_cldma.c keep the list, the pointers and the budget together.
use mtk_t7xx_fix.Prelude.{
  ℕ, suc, ◌+◌, ◌<◌, ◌≡◌, sym, ap, ap₂, ◌∙◌, arith, Bool, true, false, not, none, some, List, [],
  ◌∷◌, ◌++◌, length, length-append, length-set, get_or, get_or-set_self, get_or-set_ne, get_elem?,
  set, ltb, ℕ_discrete, dec_lt, subst, Bool-cases, inl, inr,
}
use mtk_t7xx_fix.Cldma.State.{Skb, Request, Queue, no_request, req_at, next}
use mtk_t7xx_fix.Cldma.Tx.{
  fill_gpd, handle_tx_request, can_send, take_descriptor, collect_skb, collect_one,
}
use mtk_t7xx_fix.Cldma.Slots.{
  place, place-lt, place-ne, place-next, place_first, place_around, next-place, next-lt, AllBelow,
  AllBelow-at, AllBelow_of, get_elem?_beyond, get_elem?-append_ne, get_elem?-append_end,
}

-- In a ring of `len` entries, those from `tr_done` on hold the skbs of the list in order, and the
-- others hold none; `tx_next` is the first of those, and `budget` counts them.
pub record Holds (len : ℕ) (q : Queue) (l : List Skb) : Type 0 where
  pub attached : q.attached ≡ true
  pub size : length q.ring ≡ len
  pub start : q.tr_done < len
  pub count : length l + q.budget ≡ len
  pub tail : q.tx_next ≡ place len q.tr_done (length l)
  pub slots : AllBelow len (λ k. (req_at q (place len q.tr_done k)).skb ≡ get_elem? l k)

module _ (len : ℕ) where
  -- The skb of the entry `k` places after the oldest.
  pub skb_of :
      (q : Queue) (l : List Skb) (k : ℕ)
      → Holds len q l
      → k < len
      → (req_at q (place len q.tr_done k)).skb ≡ get_elem? l k
  skb_of q l k h b =
      AllBelow-at len (λ j. (req_at q (place len q.tr_done j)).skb ≡ get_elem? l j) k h.slots b

  -- A descriptor can be taken exactly when there is room.
  pub can_send-Holds : (q : Queue) (l : List Skb) → Holds len q l → can_send q ≡ ltb (length l) len
  can_send-Holds q l h = elim (Bool-cases (ltb 0 q.budget)) [
    | inl e ↦
        let free : (req_at q q.tx_next).skb ≡ none =
          ap (λ i. (req_at q i).skb) h.tail
          ∙ skb_of q l (length l) h (ground (arith, h.count))
          ∙ get_elem?_beyond l (length l) (omega arith) in
        rw e (
          ap (λ s. not (elim s as (λ _. Bool) [ none ↦ false | some x ↦ true ])) free
          ∙ ground (arith, h.count))
    | inr e ↦ rw e (ground (arith, h.count))
  ]

  pub take_descriptor-Holds :
      (active : Bool) (addr : ℕ) (q : Queue) (skb : Skb) (l : List Skb)
      → Holds len q l
      → length l < len
      → Holds len (take_descriptor active (some addr) q skb) (l ++ (skb ∷ []))
  unfolding take_descriptor handle_tx_request
  take_descriptor-Holds active addr q skb l h room = record {
    attached = h.attached;
    size = length-set q.ring q.tx_next _ ∙ h.size;
    start = h.start;
    count = omega (arith, h.count, length-append l (skb ∷ []));
    tail =
        ap₂ next h.size h.tail
        ∙ next-place len q.tr_done (length l) h.start room
        ∙ ap (place len q.tr_done) (omega (arith, length-append l (skb ∷ [])));
    slots = AllBelow_of len _ slot;
  }
    where
      r : Request
      r = fill_gpd active skb addr (req_at q q.tx_next)

      slot :
          (k : ℕ)
          → k < len
          → (get_or (set q.ring q.tx_next r) (place len q.tr_done k) no_request).skb
            ≡ get_elem? (l ++ (skb ∷ [])) k
      slot k b = elim (ℕ_discrete (length l) k) [
        | yes e ↦
            ap (λ i. (get_or (set q.ring q.tx_next r) i no_request).skb)
              (ap (place len q.tr_done) (sym e) ∙ sym h.tail)
            ∙ ap (λ x. x.skb)
                (get_or-set_self q.ring q.tx_next r no_request
                  (omega (arith, h.size, h.tail, place-lt len q.tr_done (length l) h.start room)))
            ∙ sym (get_elem?-append_end l skb)
            ∙ ap (get_elem? (l ++ (skb ∷ []))) e
        | no n ↦
            ap (λ x. x.skb)
              (get_or-set_ne q.ring q.tx_next (place len q.tr_done k) r no_request
                (λ e. place-ne len q.tr_done (length l) k h.start room b n (sym h.tail ∙ e)))
            ∙ skb_of q l k h b
            ∙ sym (get_elem?-append_ne l skb k n)
      ]

  pub collect_one-Holds :
      (q : Queue) (skb : Skb) (l : List Skb) → Holds len q (skb ∷ l) → Holds len (collect_one q) l
  unfolding collect_one
  collect_one-Holds q skb l h =
      subst (λ o. Holds len (collect_skb q o) l) (sym head)
        (record {
          attached = h.attached;
          size = length-set q.ring q.tr_done _ ∙ h.size;
          start = subst (λ n. next n q.tr_done < len) (sym h.size) (next-lt len q.tr_done h.start);
          count = omega (arith, h.count);
          tail =
              h.tail
              ∙ sym (place-next len q.tr_done (length l) h.start (omega (arith, h.count)))
              ∙ ap (λ n. place len (next n q.tr_done) (length l)) (sym h.size);
          slots = AllBelow_of len _ slot;
        })
    where
      first : place len q.tr_done 0 ≡ q.tr_done
      first = place_first len q.tr_done h.start

      head : (req_at q q.tr_done).skb ≡ some skb
      head =
          ap (λ i. (req_at q i).skb) (sym first) ∙ skb_of q (skb ∷ l) 0 h (omega (arith, h.start))

      slot :
          (k : ℕ)
          → k < len
          → (get_or
              (set q.ring q.tr_done (record (req_at q q.tr_done) { skb = none }))
              (place len (next (length q.ring) q.tr_done) k)
              no_request).skb
            ≡ get_elem? l k
      slot k b =
          let r = record (req_at q q.tr_done) { skb = none } in
          let moved =
            ap (λ n. place len (next n q.tr_done) k) h.size
            ∙ place-next len q.tr_done k h.start (omega arith) in
          ap (λ i. (get_or (set q.ring q.tr_done r) i no_request).skb) moved
          ∙ elim (dec_lt (suc k) len) [
            | yes lt ↦
                ap (λ x. x.skb)
                  (get_or-set_ne q.ring q.tr_done (place len q.tr_done (suc k)) r no_request (λ e.
                    place-ne len q.tr_done 0 (suc k) h.start (omega arith) lt (omega arith)
                      (first ∙ e)))
                ∙ skb_of q (skb ∷ l) (suc k) h lt
            | no ge ↦
                ap (λ i. (get_or (set q.ring q.tr_done r) i no_request).skb)
                  (ap (place len q.tr_done) (omega arith) ∙ place_around len q.tr_done h.start)
                ∙ ap (λ x. x.skb)
                    (get_or-set_self q.ring q.tr_done r no_request (omega (arith, h.size, h.start)))
                ∙ sym (get_elem?_beyond l k (omega (arith, h.count)))
          ]
