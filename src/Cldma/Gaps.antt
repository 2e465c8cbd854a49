-- ===== src/Cldma/Gaps.antt =====
-- The descriptors of a receive ring that have no buffer, in the receive loop of src/t7xx_hif_cldma.c.
use mtk_t7xx_fix.Prelude.{
  ℕ, zero, suc, ◌≤◌, ◌<◌, ◌≡◌, refl, sym, ap, ap₂, ◌∙◌, arith, Bool, true, false, not, ◌||◌, Option,
  none, some, Option-cases, List, [], ◌∷◌, length, length-set, get_or, get_or-set_self,
  get_or-set_ne, set, ltb, leb, leb→le, ◌==◌, if◌then◌else◌, ℕ_discrete, dec_lt, subst, Bool-cases,
  inl, inr, Ret, ok, fail, enodata, enodev, Ret-cases, fail-ok,
}
use mtk_t7xx_fix.Cldma.State.{Skb, Request, Queue, Call, no_request, req_at, set_req, next, has_skb}
use mtk_t7xx_fix.Cldma.Rx.{
  Alloc, RxRound, alloc_and_map_skb, filled, unmap_head, advance_done, refill, receive, received,
  gpd_rx_from_q,
}
use mtk_t7xx_fix.Cldma.Slots.{
  place, place-lt, place-ne, place-next, next-place, place_first, place_around, next-lt, AllBelow,
  AllBelow-at, AllBelow_of,
}

-- In a ring of `len` entries, the `g` entries from `rx_refill` on have no buffer, all others have one,
-- and `tr_done` is the first of these.
pub record Gap (len : ℕ) (q : Queue) (g : ℕ) : Type 0 where
  pub size : length q.ring ≡ len
  pub start : q.rx_refill < len
  pub bound : g ≤ len
  pub head : q.tr_done ≡ place len q.rx_refill g
  pub slots : AllBelow len (λ k. has_skb (req_at q (place len q.rx_refill k)) ≡ leb g k)

pub has_skb-set :
    (ring : List Request) (i j : ℕ) (r : Request)
    → has_skb r ≡ has_skb (get_or ring i no_request)
    → has_skb (get_or (set ring i r) j no_request) ≡ has_skb (get_or ring j no_request)
has_skb-set [] i j r e = refl
has_skb-set (x ∷ xs) zero zero r e = e
has_skb-set (x ∷ xs) zero (suc j) r e = refl
has_skb-set (x ∷ xs) (suc i) zero r e = refl
has_skb-set (x ∷ xs) (suc i) (suc j) r e = has_skb-set xs i j r e

module _ (len : ℕ) where
  slot_of :
      (q : Queue) (g k : ℕ)
      → Gap len q g
      → k < len
      → has_skb (req_at q (place len q.rx_refill k)) ≡ leb g k
  slot_of q g k h b =
      AllBelow-at len (λ j. has_skb (req_at q (place len q.rx_refill j)) ≡ leb g j) k h.slots b

  -- Writes that neither give nor take a buffer.
  set-Gap :
      (q : Queue) (g i : ℕ) (r : Request)
      → Gap len q g
      → has_skb r ≡ has_skb (req_at q i)
      → Gap len (set_req q i r) g
  set-Gap q g i r h e = record {
    size = length-set q.ring i r ∙ h.size;
    start = h.start;
    bound = h.bound;
    head = h.head;
    slots =
        AllBelow_of len _
          (λ k b. has_skb-set q.ring i (place len q.rx_refill k) r e ∙ slot_of q g k h b);
  }

  -- Nor do calls.
  calls-Gap :
      (q : Queue) (g : ℕ) (cs : List Call) → Gap len q g → Gap len (record q { calls = cs }) g
  calls-Gap q g cs h = record {
    size = h.size;
    start = h.start;
    bound = h.bound;
    head = h.head;
    slots = h.slots;
  }

  pub filled-Gap : (q : Queue) (g : ℕ) (xs : List (ℕ × ℕ)) → Gap len q g → Gap len (filled q xs) g
  filled-Gap q g [] h = h
  filled-Gap q g ((i, n) ∷ rest) h =
      filled-Gap (set_req q i (record (req_at q i) { hwo = false; data_buff_len = n })) g rest
        (set-Gap q g i (record (req_at q i) { hwo = false; data_buff_len = n }) h refl)

  -- A ring whose head has a buffer has one somewhere.
  pub head-Gap : (q : Queue) (g : ℕ) → Gap len q g → has_skb (req_at q q.tr_done) ≡ true → g < len
  head-Gap q g h e = elim (dec_lt g len) [
    | yes l ↦ l
    | no n ↦
        let at_start : q.tr_done ≡ place len q.rx_refill 0 =
          h.head
          ∙ ap (place len q.rx_refill) (omega (arith, h.bound))
          ∙ place_around len q.rx_refill h.start
          ∙ sym (place_first len q.rx_refill h.start) in
        let b =
          sym e
          ∙ ap (λ i. has_skb (req_at q i)) at_start
          ∙ slot_of q g 0 h (omega (arith, h.start)) in
        absurd (omega (arith, leb→le g 0 (sym b), h.start))
  ]

  unmap_head-Gap :
      (q : Queue) (g : ℕ) (s : Skb)
      → Gap len q g
      → has_skb (req_at q q.tr_done) ≡ true
      → Gap len (unmap_head q s) g
  unfolding unmap_head
  unmap_head-Gap q g s h e = elim (Bool-cases ((req_at q q.tr_done).mapped_buff == 0)) [
    | inl m ↦ rw m (calls-Gap _ g _ (set-Gap q g q.tr_done _ h (sym e)))
    | inr m ↦ rw m (calls-Gap _ g _ (set-Gap q g q.tr_done _ h (sym e)))
  ]

  advance-Gap : (q : Queue) (g : ℕ) → Gap len q g → g < len → Gap len (advance_done q) (suc g)
  unfolding advance_done
  advance-Gap q g h l = record {
    size = length-set q.ring q.tr_done _ ∙ h.size;
    start = h.start;
    bound = omega arith;
    head = ap₂ next h.size h.head ∙ next-place len q.rx_refill g h.start l;
    slots = AllBelow_of len _ slot;
  }
    where
      r : Request
      r = record (req_at q q.tr_done) { skb = none; data_ptr = 0 }

      slot :
          (k : ℕ)
          → k < len
          → has_skb (get_or (set q.ring q.tr_done r) (place len q.rx_refill k) no_request)
            ≡ leb (suc g) k
      slot k b = elim (ℕ_discrete g k) [
        | yes e ↦
            ap (λ i. has_skb (get_or (set q.ring q.tr_done r) i no_request))
              (ap (place len q.rx_refill) (sym e) ∙ sym h.head)
            ∙ ap (λ x. has_skb x)
                (get_or-set_self q.ring q.tr_done r no_request
                  (omega (arith, h.size, h.head, place-lt len q.rx_refill g h.start l)))
            ∙ ground arith
        | no n ↦
            ap (λ x. has_skb x)
              (get_or-set_ne q.ring q.tr_done (place len q.rx_refill k) r no_request
                (λ e. place-ne len q.rx_refill g k h.start l b n (sym h.head ∙ e)))
            ∙ slot_of q g k h b
            ∙ ground arith
      ]

  -- A buffer for the first descriptor without one.
  arm-Gap :
      (q : Queue) (g : ℕ) (r : Request)
      → Gap len q (suc g)
      → has_skb r ≡ true
      → Gap len
          (record (set_req q q.rx_refill r) { rx_refill = next (length q.ring) q.rx_refill })
          g
  arm-Gap q g r h e = record {
    size = length-set q.ring q.rx_refill r ∙ h.size;
    start = subst (λ n. next n q.rx_refill < len) (sym h.size) (next-lt len q.rx_refill h.start);
    bound = omega (arith, h.bound);
    head =
        h.head
        ∙ sym (place-next len q.rx_refill g h.start h.bound)
        ∙ ap (λ n. place len (next n q.rx_refill) g) (sym h.size);
    slots = AllBelow_of len _ slot;
  }
    where
      first : place len q.rx_refill 0 ≡ q.rx_refill
      first = place_first len q.rx_refill h.start

      slot :
          (k : ℕ)
          → k < len
          → has_skb (
              get_or
                (set q.ring q.rx_refill r)
                (place len (next (length q.ring) q.rx_refill) k)
                no_request)
            ≡ leb g k
      slot k b =
          ap (λ i. has_skb (get_or (set q.ring q.rx_refill r) i no_request))
            (ap (λ n. place len (next n q.rx_refill) k) h.size
              ∙ place-next len q.rx_refill k h.start (omega arith))
          ∙ elim (dec_lt (suc k) len) [
            | yes lt ↦
                ap (λ x. has_skb x)
                  (get_or-set_ne q.ring q.rx_refill (place len q.rx_refill (suc k)) r no_request
                    (λ x.
                      place-ne len q.rx_refill 0 (suc k) h.start (omega arith) lt (omega arith)
                        (first ∙ x)))
                ∙ slot_of q (suc g) (suc k) h lt
                ∙ ground arith
            | no ge ↦
                ap (λ i. has_skb (get_or (set q.ring q.rx_refill r) i no_request))
                  (ap (place len q.rx_refill) (omega arith) ∙ place_around len q.rx_refill h.start)
                ∙ ap (λ x. has_skb x)
                    (get_or-set_self q.ring q.rx_refill r no_request
                      (omega (arith, h.size, h.start)))
                ∙ e
                ∙ ground (arith, h.bound)
          ]

  -- What a round leaves: as many descriptors without a buffer, or one more if it failed.
  After : ℕ → Ret × Queue → Type 0
  After g (ok, q) = Gap len q g
  After g (fail e, q) = (g' : ℕ) × (g ≤ g') × (g' ≤ suc g) × Gap len q g'

  refill-Gap : (a : Alloc) (q : Queue) (g : ℕ) → Gap len q (suc g) → After g (refill a q)
  unfolding refill After alloc_and_map_skb
  refill-Gap a q g h =
      let none_at : has_skb (req_at q q.rx_refill) ≡ false =
        ap (λ i. has_skb (req_at q i)) (sym (place_first len q.rx_refill h.start))
        ∙ slot_of q (suc g) 0 h (omega (arith, h.start))
        ∙ ground arith in
      elim (Option-cases a.skb) [
        | inl e ↦ rw e (
          suc g,
          omega arith,
          omega arith,
          calls-Gap _ (suc g) _ (set-Gap q (suc g) q.rx_refill _ h (sym none_at)),
        )
        | inr (id, e) ↦ elim (Option-cases a.dma) [
          | inl d ↦
              rw (e, d)
                (
                  suc g,
                  omega arith,
                  omega arith,
                  calls-Gap _ (suc g) _ (set-Gap q (suc g) q.rx_refill _ h (sym none_at)),
                )
          | inr (addr, d) ↦ rw (e, d) (calls-Gap _ g _ (arm-Gap q g _ h refl))
        ]
      ]

  receive-Gap :
      (a : RxRound) (q : Queue) (s : Skb) (g : ℕ)
      → Gap len q g
      → has_skb (req_at q q.tr_done) ≡ true
      → After g (receive a q s)
  unfolding receive After
  receive-Gap a q s g h e = elim (Ret-cases a.recv) [
    | inl r ↦ rw r (
        refill-Gap a.alloc (advance_done (unmap_head q s)) g
          (advance-Gap (unmap_head q s) g (unmap_head-Gap q g s h e) (head-Gap q g h e)))
    | inr (x, r) ↦ rw r (g, omega arith, omega arith, unmap_head-Gap q g s h e)
  ]

  Ends : ℕ → Option (Ret × Bool × Queue) → Type 0
  Ends g none = Unit
  Ends g (some (ret, over, q)) = After g (ret, q)

  Ends-if :
      (g : ℕ) (b : Bool) (x y : Option (Ret × Bool × Queue))
      → Ends g x
      → Ends g y
      → Ends g (if b then x else y)
  Ends-if g true x y p q = p
  Ends-if g false x y p q = q

  Ends-same :
      (g : ℕ) (ret : Ret) (over : Bool) (q : Queue) → Gap len q g → Ends g (some (ret, over, q))
  unfolding Ends After
  Ends-same g ok over q h = h
  Ends-same g (fail e) over q h = (g, omega arith, omega arith, h)

  received-has_skb :
      (q : Queue) (s : Skb) → received q ≡ some s → has_skb (req_at q q.tr_done) ≡ true
  received-has_skb q s e = elim (Bool-cases (req_at q q.tr_done).hwo) [
    | inl b ↦
        absurd (none-some (sym (ap (λ x. if x then none else (req_at q q.tr_done).skb) b) ∙ e))
    | inr b ↦
        ap (λ o. elim o as (λ _. Bool) [ none ↦ false | some x ↦ true ])
          (sym (ap (λ x. if x then none else (req_at q q.tr_done).skb) b) ∙ e)
  ]
    where
      none-some : none ≡ some s → ⊥
      none-some x = cc

  Ends-receive :
      (g : ℕ) (b : Bool) (k : Queue → Option (Ret × Bool × Queue)) (r : Ret × Queue)
      → After g r
      → ((q : Queue) → Gap len q g → Ends g (k q))
      → Ends g (elim r.0 as (λ _. Option (Ret × Bool × Queue)) [
        | ok ↦ if b then k r.1 else some (ok, true, r.1)
        | fail e ↦ some (fail e, false, r.1)
      ])
  unfolding Ends After
  Ends-receive g b k (ok, q) h f = Ends-if g b _ _ (f q h) h
  Ends-receive g b k (fail e, q) h f = h

  gpd_rx_from_q-Ends :
      (rounds : List RxRound) (polls count budget : ℕ) (q : Queue) (g : ℕ)
      → Gap len q g
      → Ends g (gpd_rx_from_q rounds polls count budget q)
  unfolding gpd_rx_from_q Ends
  gpd_rx_from_q-Ends [] polls count budget q g h = tt
  gpd_rx_from_q-Ends (a ∷ rest) polls count budget q g h =
      let again =
        gpd_rx_from_q-Ends rest (suc polls) count budget (filled q a.given_back) g
          (filled-Gap q g a.given_back h) in
      Ends-if g (not q.attached) _ _ (Ends-same g (fail enodata) false q h)
        (elim (Option-cases (received q)) [
          | inl e ↦ rw e (
              Ends-if g (not a.present) _ _ (Ends-same g (fail enodev) false q h) (
                Ends-if g ((req_at q q.tr_done).gpd_addr == a.curr_addr || leb 100 polls) _ _
                  (Ends-same g ok false q h) again))
          | inr (s, e) ↦ rw e (
              Ends-receive g (ltb (suc count) budget || not a.need_resched)
                (λ (q₁ : Queue). gpd_rx_from_q rest 0 (suc count) budget q₁) (receive a q s)
                (receive-Gap a q s g h (received-has_skb q s e))
                (λ q₁ k. gpd_rx_from_q-Ends rest 0 (suc count) budget q₁ g k))
        ])

  -- The receive loop, on a ring in which some descriptors in a row have no buffer, whatever the device,
  -- the receiver and the allocators do: when it returns 0, as many descriptors have no buffer as
  -- before, and when it fails, at most one more; the descriptors with a buffer stay in a row that
  -- starts at `tr_done`. So a descriptor that was left without a buffer is never made up for.
  pub gpd_rx_from_q-Gap :
      (rounds : List RxRound) (polls count budget : ℕ) (q q' : Queue) (g : ℕ) (ret : Ret)
      (over : Bool)
      → Gap len q g
      → gpd_rx_from_q rounds polls count budget q ≡ some (ret, over, q')
      → (g' : ℕ) × (g ≤ g') × (g' ≤ suc g) × Gap len q' g' × (ret ≡ ok → g' ≡ g)
  unfolding Ends After
  gpd_rx_from_q-Gap rounds polls count budget q q' g ret over h e =
      from_after ret (subst (Ends g) e (gpd_rx_from_q-Ends rounds polls count budget q g h))
    where
      from_after :
          (r : Ret)
          → After g (r, q')
          → (g' : ℕ) × (g ≤ g') × (g' ≤ suc g) × Gap len q' g' × (r ≡ ok → g' ≡ g)
      from_after ok k = (g, omega arith, omega arith, k, λ _. refl)
      from_after (fail x) (g', l, u, k) = (g', l, u, k, λ y. absurd (fail-ok x y))
