-- ===== src/Port/Dispatch.antt =====
-- What t7xx_port_proxy_recv_skb of src/t7xx_port_proxy.c changes: the port that serves the channel,
-- and nothing when it asks the caller to try again.
use mtk_t7xx_fix.Prelude.{
  ℕ, zero, suc, ◌+◌, ◌%◌, ◌≡◌, ◌≢◌, refl, subst, sym, ap, ◌∙◌, arith, Bool, true, false, not, ◌||◌,
  Option, none, some, List, [], ◌∷◌, length, get_elem?, set, Bool-cases, ◌⊎◌, inl, inr, leb, Ret,
  ok, fail, Errno, field_get, if◌then◌else◌, ◌==◌, ℕ_discrete,
}
use mtk_t7xx_fix.Fsm.State.{MdState}
use mtk_t7xx_fix.Port.State.{
  CldmaId, PortOps, wwan_sub_port_ops, ctl_port_ops, trace_port_ops, SkBuff, Port,
}
use mtk_t7xx_fix.Port.Wwan.{enqueue_skb, wwan_recv_skb, trace_recv_skb, recv_op}
use mtk_t7xx_fix.Port.Proxy.{
  PortProxy, serves_at, find_in, find_port, next_rx_seq_num, skb_status, skb_channel, is_md_invalid,
  after_recv, deliver, dispatch, recv_skb,
}
use mtk_t7xx_fix.Port.Headers.{next_rx_seq_num_lem}

-- A receive operation takes the skb and leaves the sequence numbers alone, or fails and changes
-- nothing.
Taken : Port → Ret × Port → Type 0
Taken port a = ((a.0 ≡ ok) × (a.1.seq_rx ≡ port.seq_rx)) ⊎ ((e : Errno) × (a ≡ (fail e, port)))

recv_op-Taken : (o : PortOps) (port : Port) (skb : SkBuff) → Taken port (recv_op o port skb)
unfolding recv_op enqueue_skb wwan_recv_skb trace_recv_skb Taken
recv_op-Taken wwan_sub_port_ops port skb =
    elim (Bool-cases (port.usage_cnt == 0 || not port.chan_enable)) [
      | inl e ↦ rw e (inl (refl, refl))
      | inr e ↦ rw e (inl (refl, refl))
    ]
recv_op-Taken ctl_port_ops port skb =
    elim (Bool-cases (leb port.rx_length_th (length port.rx_skb_list))) [
      | inl e ↦ rw e (inr (_, refl))
      | inr e ↦ rw e (inl (refl, refl))
    ]
recv_op-Taken trace_port_ops port skb = elim (Bool-cases port.has_relaych) [
  | inl e ↦ rw e (inl (refl, refl))
  | inr e ↦ rw e (inr (_, refl))
]

module _ {ℓ} {A : Type ℓ} where
  set-get_elem? : (xs : List A) (i : ℕ) (a : A) → get_elem? xs i ≡ some a → set xs i a ≡ xs
  set-get_elem? [] i a e = refl
  set-get_elem? (x ∷ xs) zero a e = ap (λ v. v ∷ xs) (ground arith)
  set-get_elem? (x ∷ xs) (suc i) a e = ap (λ l. x ∷ l) (set-get_elem? xs i a e)

  get_elem?-set_self :
      (xs : List A) (i : ℕ) (a b : A) → get_elem? xs i ≡ some a → get_elem? (set xs i b) i ≡ some b
  get_elem?-set_self [] i a b e = absurd (ground arith)
  get_elem?-set_self (x ∷ xs) zero a b e = refl
  get_elem?-set_self (x ∷ xs) (suc i) a b e = get_elem?-set_self xs i a b e

  get_elem?-set_ne :
      (xs : List A) (i j : ℕ) (b : A) → i ≢ j → get_elem? (set xs i b) j ≡ get_elem? xs j
  get_elem?-set_ne [] i j b h = refl
  get_elem?-set_ne (x ∷ xs) zero zero b h = absurd (h refl)
  get_elem?-set_ne (x ∷ xs) zero (suc j) b h = refl
  get_elem?-set_ne (x ∷ xs) (suc i) zero b h = refl
  get_elem?-set_ne (x ∷ xs) (suc i) (suc j) b h = get_elem?-set_ne xs i j b (λ e. h (ap suc e))

find_in-serves_at :
    (ports : List Port) (hif : CldmaId) (channel : ℕ) (names : List ℕ) (p : ℕ)
    → find_in ports hif channel names ≡ some p
    → serves_at ports hif channel p ≡ true
unfolding find_in
find_in-serves_at ports hif channel [] p e = absurd (ground arith)
find_in-serves_at ports hif channel (n ∷ rest) p e =
    go (find_in-serves_at ports hif channel rest p) (serves_at ports hif channel n) refl e
  where
    go :
        (find_in ports hif channel rest ≡ some p → serves_at ports hif channel p ≡ true)
        → (b : Bool) → serves_at ports hif channel n ≡ b
        → (if b then some n else find_in ports hif channel rest) ≡ some p
        → serves_at ports hif channel p ≡ true
    go later true s e = subst (λ k. serves_at ports hif channel k ≡ true) (ground arith) s
    go later false s e = later e

-- The port of a name took the skb: the call returned 0, and the number that it expects next follows
-- the skb's.
abbrev pub Advanced : PortProxy → SkBuff → Ret × PortProxy → ℕ → Type 0
Advanced c skb a q =
    (b : Port) × (d : Port) × (get_elem? c.ports q ≡ some b)
    × (get_elem? a.1.ports q ≡ some d)
    × (a.0 ≡ ok)
    × (d.seq_rx ≡ (field_get 16 15 (skb_status skb) + 1) % 32768)

-- The whole result: nothing changed in the ports, one port advanced, or a failure.
Received : PortProxy → CldmaId → SkBuff → Ret × PortProxy → Type 0
Received c hif skb a =
    ((a.0 ≡ ok) × (a.1.ports ≡ c.ports))
    ⊎ (((e : Errno) × (a ≡ (fail e, c)))
        ⊎ ((p : ℕ) × (serves_at c.ports hif (skb_channel skb) p ≡ true)
            × Advanced c skb a p
            × ((q : ℕ) → p ≢ q → get_elem? a.1.ports q ≡ get_elem? c.ports q)))

after_recv-Received :
    (c : PortProxy) (hif : CldmaId) (skb : SkBuff) (p : ℕ) (port : Port) (a : Ret × Port)
    → serves_at c.ports hif (skb_channel skb) p ≡ true
    → get_elem? c.ports p ≡ some port
    → Taken port a
    → Received c hif skb (after_recv c p (next_rx_seq_num port (skb_status skb)) a)
unfolding Received Taken after_recv
after_recv-Received c hif skb p port (ok, q) s g t = inr (
    inr (
      p,
      s,
      (
        port,
        _,
        g,
        get_elem?-set_self c.ports p port _ g,
        refl,
        next_rx_seq_num_lem port (skb_status skb),
      ),
      (λ j n. get_elem?-set_ne c.ports p j _ n),
    ))
after_recv-Received c hif skb p port (fail e, q) s g (inl t) = absurd (ground arith)
after_recv-Received c hif skb p port (fail e, q) s g (inr t) = inr (
    inl (
      e,
      ap (λ l. (fail e, record c { ports = l }))
          (ap (λ a. set c.ports p a.1) t.1 ∙ set-get_elem? c.ports p port g),
    ))

recv_skb-Received :
    (c : PortProxy) (s : MdState) (hif : CldmaId) (skb : SkBuff)
    → Received c hif skb (recv_skb c s hif skb)
unfolding recv_skb dispatch Received deliver find_port
recv_skb-Received c s hif skb = elim (Bool-cases (is_md_invalid s)) [
  | inl e ↦ rw e (inl (refl, refl))
  | inr e ↦ rw e (found (find_port c hif (skb_channel skb)) refl)
]
  where
    port_of :
        (p : ℕ) (o : Option Port)
        → serves_at c.ports hif (skb_channel skb) p ≡ true
        → get_elem? c.ports p ≡ o
        → Received c hif skb (deliver c skb p o)
    port_of p none h e = inl (refl, refl)
    port_of p (some port) h e =
        after_recv-Received c hif skb p port _ h e (recv_op-Taken port.conf.ops port _)

    found :
        (o : Option ℕ)
        → find_port c hif (skb_channel skb) ≡ o
        → Received c hif skb (dispatch c skb o)
    found none e = inl (refl, refl)
    found (some p) e =
        port_of p (get_elem? c.ports p) (find_in-serves_at c.ports hif (skb_channel skb) _ p e) refl

-- When receiving an skb returns an error, the proxy and all its ports are exactly as before the call,
-- so that the caller may offer the same skb again.
pub recv_skb-fail :
    (c : PortProxy) (s : MdState) (hif : CldmaId) (skb : SkBuff) (e : Errno) (d : PortProxy)
    → recv_skb c s hif skb ≡ (fail e, d)
    → d ≡ c
unfolding Received
recv_skb-fail c s hif skb e d h = elim (recv_skb-Received c s hif skb) [
  | inl t ↦ absurd (not_both (sym (ap (λ a. a.0) h) ∙ t.0))
  | inr (inl t) ↦ ap (λ a. a.1) (sym h ∙ t.1)
  | inr (inr t) ↦ absurd (not_both (sym (ap (λ a. a.0) h) ∙ (advanced t.0 t.2)))
]
  where
    not_both : fail e ≡ ok → ⊥
    not_both h = ground arith

    advanced : (p : ℕ) → Advanced c skb (recv_skb c s hif skb) p → (recv_skb c s hif skb).0 ≡ ok
    advanced p h = h.4

-- Receiving an skb leaves every port as it is but one that serves the skb's channel on the interface
-- it came from; where that one changes, the call returned 0 and the port expects next the number
-- after the skb's, on 15 bits.
pub recv_skb_others :
    (c : PortProxy) (s : MdState) (hif : CldmaId) (skb : SkBuff) (q : ℕ)
    → (get_elem? (recv_skb c s hif skb).1.ports q ≡ get_elem? c.ports q)
      ⊎ ((serves_at c.ports hif (skb_channel skb) q ≡ true)
          × Advanced c skb (recv_skb c s hif skb) q)
unfolding Received
recv_skb_others c s hif skb q = elim (recv_skb-Received c s hif skb) [
  | inl t ↦ inl (ap (λ l. get_elem? l q) t.1)
  | inr (inl t) ↦ inl (ap (λ a. get_elem? a.1.ports q) t.1)
  | inr (inr t) ↦ elim (ℕ_discrete t.0 q) [
    | yes e ↦ inr (
      subst (λ k. serves_at c.ports hif (skb_channel skb) k ≡ true) e t.1,
      subst (λ k. Advanced c skb (recv_skb c s hif skb) k) e t.2,
    )
    | no n ↦ inl (t.3 q n)
  ]
]
