-- ===== src/Cldma/Refine.antt =====
-- A transmit queue of src/t7xx_hif_cldma.c against a bounded first-in first-out buffer: what it does to
-- any sequence of sends, completions by the hardware and collections.
use mtk_t7xx_fix.Prelude.{
  and_false, ℕ, zero, suc, ◌+◌, ◌≤◌, ◌<◌, ◌≡◌, refl, sym, ap, ap₂, ◌∙◌, arith, Bool, true, false,
  not, ◌&&◌, none, some, List, [], ◌∷◌, ◌++◌, map, append_assoc, append-nil, length, length-set,
  get_or, set, ltb→lt, ltb→le, ◌==◌, if◌then◌else◌, subst, Bool-cases, inl, inr,
}
use mtk_t7xx_fix.Cldma.State.{
  Skb, Request, Queue, Call, dev_kfree_skb, wake_up_nr, no_request, req_at, set_req, call,
}
use mtk_t7xx_fix.Cldma.Tx.{
  can_send, take_descriptor, collectable, collect_skb, collect_one, collect_from, gpd_tx_collect,
  handle_tx_request,
}
use mtk_t7xx_fix.Cldma.Slots.{place, AllBelow_of, place_first}
use mtk_t7xx_fix.Cldma.Holds.{
  Holds, skb_of, can_send-Holds, take_descriptor-Holds, collect_one-Holds,
}

-- The buffer: the skbs that wait, the oldest first, and the names of all that were freed.
pub record Fifo : Type 0 where
  pub waiting : List Skb
  pub freed : List ℕ

-- What happens to a queue: a send with its bus address and the queue's active bit, the hardware
-- finishing the descriptor at a place, a run of the collector.
pub data Op : Type 0 where
  send : Bool → ℕ → Skb → Op
  finish : ℕ → Op
  collect : Op

-- What the buffer may do, and what it answers. The collector frees some of the oldest skbs.
abbrev pub Does : ℕ → Fifo → Op → Bool → Fifo → Type 0
Does cap f (send active addr skb) true g =
    (length f.waiting < cap) × (g ≡ record f { waiting = f.waiting ++ (skb ∷ []) })
Does cap f (send active addr skb) false g = (cap ≤ length f.waiting) × (g ≡ f)
Does cap f (finish i) answer g = g ≡ f
Does cap f collect answer g =
    (done : List Skb) × (f.waiting ≡ done ++ g.waiting)
    × (g.freed ≡ f.freed ++ map (λ (s : Skb). s.id) done)

-- The hardware gives a descriptor back.
abbrev pub finish_at : Queue → ℕ → Queue
finish_at q i = set_req q i (record (req_at q i) { hwo = false })

abbrev pub step : Queue → Op → Bool × Queue
step q (send active addr skb) =
    if can_send q then (true, take_descriptor active (some addr) q skb) else (false, q)
step q (finish i) = (true, finish_at q i)
step q collect = (true, (gpd_tx_collect q).1)

-- The answers and the queue after a sequence of them.
abbrev pub run : Queue → List Op → List Bool × Queue
run q [] = ([], q)
run q (op ∷ ops) = let rest = run (step q op).1 ops in ((step q op).0 ∷ rest.0, rest.1)

-- The names of all skbs that were freed, the first one first.
abbrev pub freed_by : List Call → List ℕ
freed_by [] = []
freed_by (dev_kfree_skb id ∷ rest) = freed_by rest ++ (id ∷ [])
freed_by (_ ∷ rest) = freed_by rest

-- The queue stands for the buffer.
abbrev pub StandsFor : ℕ → Queue → Fifo → Type 0
StandsFor cap q f = Holds cap q f.waiting × (freed_by q.calls ≡ f.freed)

false-true : false ≡ true → ⊥
false-true e = cc

collectable-none : (q : Queue) → (req_at q q.tr_done).skb ≡ none → collectable q ≡ false
collectable-none q e =
    ap (λ o. not (req_at q q.tr_done).hwo && elim o as (λ _. Bool) [ none ↦ false | some x ↦ true ])
      e
    ∙ and_false (not (req_at q q.tr_done).hwo)

no_skb_collectable : (q : Queue) → (req_at q q.tr_done).skb ≡ none → collectable q ≡ true → ⊥
no_skb_collectable q e h = absurd (false-true (sym (collectable-none q e) ∙ h))

-- A round of the collector that finds a descriptor to take back, and one that finds none.
collect_from-more :
    (fuel c : ℕ) (q : Queue)
    → q.attached ≡ true
    → collectable q ≡ true
    → collect_from (suc fuel) c q ≡ collect_from fuel (suc c) (collect_one q)
unfolding collect_from
collect_from-more fuel c q a e =
    ap (λ b. if b then collect_from fuel (suc c) (collect_one q) else (c, q))
      (ap₂ (λ x y. x && y) a e)

collect_from-stop :
    (fuel c : ℕ) (q : Queue)
    → q.attached ≡ true
    → collectable q ≡ false
    → collect_from (suc fuel) c q ≡ (c, q)
unfolding collect_from
collect_from-stop fuel c q a e =
    ap (λ b. if b then collect_from fuel (suc c) (collect_one q) else (c, q))
      (ap₂ (λ x y. x && y) a e)

-- Giving back a descriptor touches no skb.
set_same_skb :
    (ring : List Request) (i j : ℕ)
    → (get_or (set ring i (record (get_or ring i no_request) { hwo = false })) j no_request).skb
      ≡ (get_or ring j no_request).skb
set_same_skb [] i j = refl
set_same_skb (r ∷ rs) zero zero = refl
set_same_skb (r ∷ rs) zero (suc j) = refl
set_same_skb (r ∷ rs) (suc i) zero = refl
set_same_skb (r ∷ rs) (suc i) (suc j) = set_same_skb rs i j

module _ (cap : ℕ) where
  finish_at-Holds : (q : Queue) (i : ℕ) (l : List Skb) → Holds cap q l → Holds cap (finish_at q i) l
  finish_at-Holds q i l h = record {
    attached = h.attached;
    size = length-set q.ring i _ ∙ h.size;
    start = h.start;
    count = h.count;
    tail = h.tail;
    slots = AllBelow_of cap _ (λ k b. same (place cap q.tr_done k) ∙ skb_of cap q l k h b);
  }
    where
      r : Request
      r = record (req_at q i) { hwo = false }

      same : (j : ℕ) → (get_or (set q.ring i r) j no_request).skb ≡ (req_at q j).skb
      same j = set_same_skb q.ring i j

  empty_head : (q : Queue) → Holds cap q [] → (req_at q q.tr_done).skb ≡ none
  empty_head q h =
      ap (λ i. (req_at q i).skb) (sym (place_first cap q.tr_done h.start))
      ∙ skb_of cap q [] 0 h (omega (arith, h.start))

  head_skb :
      (q : Queue) (s : Skb) (l : List Skb) → Holds cap q (s ∷ l) → (req_at q q.tr_done).skb ≡ some s
  head_skb q s l h =
      ap (λ i. (req_at q i).skb) (sym (place_first cap q.tr_done h.start))
      ∙ skb_of cap q (s ∷ l) 0 h (omega (arith, h.start))

  collect_one-freed :
      (q : Queue) (s : Skb) (l : List Skb)
      → Holds cap q (s ∷ l)
      → freed_by (collect_one q).calls ≡ freed_by q.calls ++ (s.id ∷ [])
  unfolding collect_one
  collect_one-freed q s l h = ap (λ o. freed_by (collect_skb q o).calls) (head_skb q s l h)

  -- What the collector leaves: it has freed the oldest skbs, as many as it counts, and it stops at a
  -- descriptor that the hardware still owns or at an empty queue.
  Collected : Queue → List Skb → ℕ → ℕ × Queue → Type 0
  Collected q l c r =
      (done : List Skb) × (rest : List Skb) × (l ≡ done ++ rest)
      × (r.0 ≡ c + length done)
      × Holds cap r.1 rest
      × (freed_by r.1.calls ≡ freed_by q.calls ++ map (λ (s : Skb). s.id) done)
      × (collectable r.1 ≡ false)

  nothing_Collected :
      (c : ℕ) (q : Queue) (l : List Skb)
      → Holds cap q l
      → collectable q ≡ false
      → Collected q l c (c, q)
  unfolding Collected
  nothing_Collected c q l h e =
      ([], l, refl, omega arith, h, sym (append-nil (freed_by q.calls)), e)

  stopped_Collected :
      (fuel c : ℕ) (q : Queue) (l : List Skb)
      → Holds cap q l
      → collectable q ≡ false
      → Collected q l c (collect_from (suc fuel) c q)
  stopped_Collected fuel c q l h e =
      subst (Collected q l c) (sym (collect_from-stop fuel c q h.attached e))
        (nothing_Collected c q l h e)

  -- One more round in front of a run.
  more_Collected :
      (c : ℕ) (q : Queue) (s : Skb) (l : List Skb) (r : ℕ × Queue)
      → Holds cap q (s ∷ l)
      → Collected (collect_one q) l (suc c) r
      → Collected q (s ∷ l) c r
  unfolding Collected
  more_Collected c q s l r h (done, rest, p, n, held, freed, stop) = (
    s ∷ done,
    rest,
    ap (λ x. s ∷ x) p,
    omega (arith, n),
    held,
    freed
        ∙ ap (λ x. x ++ map (λ (s : Skb). s.id) done) (collect_one-freed q s l h)
        ∙ append_assoc (freed_by q.calls) (s.id ∷ []) (map (λ (s : Skb). s.id) done),
    stop,
  )

  collect_from-Collected :
      (fuel c : ℕ) (q : Queue) (l : List Skb)
      → Holds cap q l
      → length l ≤ fuel
      → Collected q l c (collect_from fuel c q)
  unfolding collect_from
  collect_from-Collected zero c q [] h b =
      nothing_Collected c q [] h (collectable-none q (empty_head q h))
  collect_from-Collected (suc fuel) c q [] h b =
      stopped_Collected fuel c q [] h (collectable-none q (empty_head q h))
  collect_from-Collected zero c q (s ∷ l) h b = absurd (omega arith)
  collect_from-Collected (suc fuel) c q (s ∷ l) h b = elim (Bool-cases (collectable q)) [
    | inl e ↦ subst (Collected q (s ∷ l) c) (sym (collect_from-more fuel c q h.attached e)) (
        more_Collected c q s l _ h (
          collect_from-Collected fuel (suc c) (collect_one q) l (collect_one-Holds cap q s l h)
            (omega arith)))
    | inr e ↦ stopped_Collected fuel c q (s ∷ l) h e
  ]

  -- A run of the collector on a queue that holds a list of skbs frees the oldest of them, in order, as
  -- many as it returns, keeps the others in the ring, and stops only when the queue is empty or the
  -- hardware still owns the oldest descriptor left.
  pub gpd_tx_collect_lem :
      (q : Queue) (l : List Skb)
      → Holds cap q l
      → (done : List Skb) × (rest : List Skb) × (l ≡ done ++ rest)
        × ((gpd_tx_collect q).0 ≡ length done)
        × Holds cap (gpd_tx_collect q).1 rest
        × (freed_by (gpd_tx_collect q).1.calls ≡ freed_by q.calls ++ map (λ (s : Skb). s.id) done)
        × (collectable (gpd_tx_collect q).1 ≡ false)
  unfolding gpd_tx_collect Collected
  gpd_tx_collect_lem q l h =
      let (done, rest, p, n, held, freed, stop) =
        collect_from-Collected (length q.ring) 0 q l h (omega (arith, h.size, h.count)) in
      let r = collect_from (length q.ring) 0 q in
      elim (Bool-cases (r.0 == 0)) [
        | inl e ↦ rw e (done, rest, p, omega (arith, n), held, freed, stop)
        | inr e ↦ rw e (done, rest, p, omega (arith, n), woken r.1 rest r.0 held, freed, stop)
      ]
    where
      woken :
          (q : Queue) (l : List Skb) (n : ℕ) → Holds cap q l → Holds cap (call q (wake_up_nr n)) l
      woken q l n h = record {
        attached = h.attached;
        size = h.size;
        start = h.start;
        count = h.count;
        tail = h.tail;
        slots = h.slots;
      }

  pub take_descriptor-freed :
      (active : Bool) (addr : ℕ) (q : Queue) (skb : Skb)
      → freed_by (take_descriptor active (some addr) q skb).calls ≡ freed_by q.calls
  unfolding take_descriptor handle_tx_request
  take_descriptor-freed active addr q skb = refl

  step_refines :
      (q : Queue) (f : Fifo) (op : Op)
      → StandsFor cap q f
      → (g : Fifo) × Does cap f op (step q op).0 g × StandsFor cap (step q op).1 g
  step_refines q f (send active addr skb) (h, e) = elim (Bool-cases (can_send q)) [
    | inl y ↦
        let room = ltb→lt (length f.waiting) cap (sym (can_send-Holds cap q f.waiting h) ∙ y) in
        rw y (
          record f { waiting = f.waiting ++ (skb ∷ []) },
          (room, refl),
          (
            take_descriptor-Holds cap active addr q skb f.waiting h room,
            take_descriptor-freed active addr q skb ∙ e,
          ),
        )
    | inr y ↦
        let full = ltb→le (length f.waiting) cap (sym (can_send-Holds cap q f.waiting h) ∙ y) in
        rw y (f, (full, refl), (h, e))
  ]
  step_refines q f (finish i) (h, e) = (f, refl, (finish_at-Holds q i f.waiting h, e))
  step_refines q f collect (h, e) =
      let (done, rest, p, n, held, freed, stop) = gpd_tx_collect_lem q f.waiting h in
      (
        record { waiting = rest; freed = f.freed ++ map (λ (s : Skb). s.id) done },
        (done, p, refl),
        (held, freed ∙ ap (λ x. x ++ map (λ (s : Skb). s.id) done) e),
      )

  -- The buffer can do all these operations with these answers.
  abbrev pub DoesAll : Fifo → List Op → List Bool → Fifo → Type 0
  DoesAll f [] answers g = (answers ≡ []) × (g ≡ f)
  DoesAll f (op ∷ ops) [] g = ⊥
  DoesAll f (op ∷ ops) (b ∷ answers) g = (h : Fifo) × Does cap f op b h × DoesAll h ops answers g

  -- Any sequence of sends with a mapped buffer, completions by the hardware in any order and runs of
  -- the collector on a transmit queue is answered as a first-in first-out buffer of the ring's
  -- size may answer it: a send is accepted exactly when there is room, accepted skbs leave in the
  -- order in which they came, each is freed once, and none is lost.
  pub run_refines :
      (q : Queue) (f : Fifo) (ops : List Op)
      → StandsFor cap q f
      → (g : Fifo) × DoesAll f ops (run q ops).0 g × StandsFor cap (run q ops).1 g
  run_refines q f [] h = (f, (refl, refl), h)
  run_refines q f (op ∷ ops) h =
      let (g, does, stands) = step_refines q f op h in
      let (k, all, end) = run_refines (step q op).1 g ops stands in (k, (g, does, all), end)
