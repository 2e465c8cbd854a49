-- ===== src/DpmaifTx/Descriptor.antt =====
-- What the modem reads: the DRBs of a packet that was added describe it, and only its last payload
-- DRB ends the chain.
use mtk_t7xx_fix.Prelude.{
  ℕ, suc, ◌+◌, ◌*◌, ◌%◌, ◌^◌, ◌≤◌, ◌<◌, ◌≡◌, ◌≢◌, refl, ap, ◌∙◌, sym, subst, subst₂, arith, Bool,
  true, false, Option, some, List, [], ◌∷◌, length, get_or, get_or-set_self, get_or-set_ne,
  length-set, Option-cases, inl, inr, ok, fail, enodev, not, ◌||◌, ◌==◌, field_get, if◌then◌else◌,
}
use mtk_t7xx_fix.Ring.{advance, get_next_wr_idx}
use mtk_t7xx_fix.Ring.Count.{max_len, get_next_wr_idx-lt}
use mtk_t7xx_fix.Ring.Walk.{advance_lem}
use mtk_t7xx_fix.DpmaifTx.State.{
  DpmaifState, Drb, Skb, TxQueue, zero_drb, hdr_dtyp, hdr_cont, hdr_data_len, drb_at, dtyp_pd,
  dtyp_msg,
}
use mtk_t7xx_fix.DpmaifTx.Fill.{
  is_pwron, add_skb_to_ring, end_add, reserve, payload_sizes, skb_drb_cnt, Mapped, mapped,
  map_failed, put_payload, map_payloads,
}
use mtk_t7xx_fix.DpmaifTx.Queue.{drb_wr_available}
use mtk_t7xx_fix.DpmaifTx.Filling.{finish_add-Charged}
use mtk_t7xx_fix.DpmaifTx.Account.{free_slots, IsValid, queue_of, put_payload-SameShape}

-- A slot that none of the next `n` steps from `cur` meets.
abbrev Beyond : ℕ → ℕ → ℕ → ℕ → Type 0
Beyond size n cur j = (m : ℕ) → m < n → advance size (suc m) cur ≢ j

-- The payload loop writes the slots that it steps to, and no other.
map_payloads-untouched :
    (dma : ℕ → ℕ → Option ℕ) (sizes : List ℕ) (txq : TxQueue) (skb : Skb) (wr_cnt cur j : ℕ)
    → Beyond txq.drb_size_cnt (length sizes) cur j
    → drb_at (queue_of (map_payloads dma sizes txq skb wr_cnt cur)) j ≡ drb_at txq j
unfolding map_payloads put_payload advance
map_payloads-untouched dma [] txq skb wr_cnt cur j h = refl
map_payloads-untouched dma (n ∷ rest) txq skb wr_cnt cur j h = elim (Option-cases (dma wr_cnt n)) [
  | inl e ↦ rw (e, queue_of)
  | inr (addr, e) ↦
      let next = get_next_wr_idx txq.drb_size_cnt cur in
      rw (e, queue_of)
        (map_payloads-untouched dma rest (put_payload txq skb wr_cnt next addr n (length rest == 0))
            skb (suc wr_cnt) next j (λ m lt. h (suc m) (omega arith))
          ∙ get_or-set_ne txq.drb_base next j _ zero_drb (h 0 (omega arith)))
]

-- One payload DRB: its type, its length, whether another follows, and its address.
pub record Payload (d : Drb) (n more : ℕ) (bus_addr : Option ℕ) : Type 0 where
  pub dtyp : hdr_dtyp d.header ≡ dtyp_pd
  pub data_len : hdr_data_len d.header ≡ n % 65536
  pub cont : hdr_cont d.header ≡ more
  pub address : bus_addr ≡ some (d.word1 + d.word2 * 2 ^ 32)

-- The payload DRBs from the slot after `cur` on, in a ring of `size` slots.
abbrev pub Described : (ℕ → ℕ → Option ℕ) → ℕ → List ℕ → List Drb → ℕ → ℕ → Type 0
Described dma size [] drbs wr_cnt cur = Unit
Described dma size (n ∷ rest) drbs wr_cnt cur =
    let next = get_next_wr_idx size cur in
    Payload (get_or drbs next zero_drb) n (if length rest == 0 then 0 else 1) (dma wr_cnt n)
    × Described dma size rest drbs (suc wr_cnt) next

-- `dma_map_single` answers 64-bit addresses.
abbrev pub Is64Bit : (ℕ → ℕ → Option ℕ) → Type 0
Is64Bit dma = (i n a : ℕ) → dma i n ≡ some a → a < 2 ^ 64

put_payload-Payload :
    (txq : TxQueue) (skb : Skb) (wr_cnt next addr n : ℕ) (is_last : Bool)
    → next < length txq.drb_base
    → addr < 2 ^ 64
    → Payload
        (drb_at (put_payload txq skb wr_cnt next addr n is_last) next)
        n
        (if is_last then 0 else 1)
        (some addr)
unfolding put_payload
put_payload-Payload txq skb wr_cnt next addr n true h a =
    rw (get_or-set_self txq.drb_base next _ zero_drb h) (record {
      dtyp = omega arith;
      data_len = omega arith;
      cont = omega arith;
      address = ap some (omega arith);
    })
put_payload-Payload txq skb wr_cnt next addr n false h a =
    rw (get_or-set_self txq.drb_base next _ zero_drb h) (record {
      dtyp = omega arith;
      data_len = omega arith;
      cont = omega arith;
      address = ap some (omega arith);
    })

map_payloads-Described :
    (dma : ℕ → ℕ → Option ℕ) (sizes : List ℕ) (txq : TxQueue) (skb : Skb) (wr_cnt cur : ℕ)
    (q : TxQueue) (last : ℕ)
    → Is64Bit dma
    → txq.drb_size_cnt ≤ max_len
    → cur < txq.drb_size_cnt
    → length txq.drb_base ≡ txq.drb_size_cnt
    → length sizes < txq.drb_size_cnt
    → map_payloads dma sizes txq skb wr_cnt cur ≡ mapped q last
    → Described dma txq.drb_size_cnt sizes q.drb_base wr_cnt cur
unfolding map_payloads put_payload
map_payloads-Described dma [] txq skb wr_cnt cur q last w small c l s e = tt
map_payloads-Described dma (n ∷ rest) txq skb wr_cnt cur q last w small c l s e =
    elim (Option-cases (dma wr_cnt n)) [
      | inl x ↦ absurd (ground arith)
      | inr (addr, x) ↦
          let next = get_next_wr_idx txq.drb_size_cnt cur in
          let q1 = put_payload txq skb wr_cnt next addr n (length rest == 0) in
          let same = put_payload-SameShape txq skb wr_cnt next addr n (length rest == 0) in
          let e1 : map_payloads dma rest q1 skb (suc wr_cnt) next ≡ mapped q last = ground arith in
          let next_in = get_next_wr_idx-lt txq.drb_size_cnt cur (omega arith) in
          let kept = map_payloads-untouched dma rest q1 skb (suc wr_cnt) next next (λ m lt.
            ground
              (arith, advance_lem txq.drb_size_cnt (suc m) next small next_in (omega arith))) in
          let kept' = subst (λ m. drb_at (queue_of m) next ≡ drb_at q1 next) e1 kept in
          (
            subst₂ (λ d o. Payload d n (if length rest == 0 then 0 else 1) o) (sym kept') (sym x)
                (put_payload-Payload txq skb wr_cnt next addr n (length rest == 0) (omega arith)
                  (w wr_cnt n addr x)),
            map_payloads-Described dma rest q1 skb (suc wr_cnt) next q last w small next_in
                (omega (arith, length-set txq.drb_base next)) (omega arith) e1,
          )
    ]

-- The message DRB: its type, the packet's length, the network interface, and that a payload follows.
pub record Message (d : Drb) (skb : Skb) : Type 0 where
  pub dtyp : hdr_dtyp d.header ≡ dtyp_msg
  pub pkt_len : hdr_data_len d.header ≡ skb.len % 65536
  pub cont : hdr_cont d.header ≡ 1
  pub channel : field_get 16 8 d.word1 ≡ skb.netif_idx % 256

reserve-Message :
    (txq : TxQueue) (skb : Skb)
    → txq.drb_wr_idx < length txq.drb_base
    → Message (drb_at (reserve txq skb) txq.drb_wr_idx) skb
unfolding reserve
reserve-Message txq skb h = rw (get_or-set_self txq.drb_base txq.drb_wr_idx _ zero_drb h) (record {
  dtyp = omega arith;
  pkt_len = omega arith;
  cont = omega arith;
  channel = omega arith;
})

module _ (txq : TxQueue) (skb : Skb) (v : IsValid txq)
    (room : skb_drb_cnt skb ≤ drb_wr_available txq) (max_skb_frags : ℕ) (dma : ℕ → ℕ → Option ℕ)
    (state : DpmaifState) (w : Is64Bit dma) where
  -- The ring as the modem finds it when a packet was added at `txq.drb_wr_idx`.
  abbrev pub Written : TxQueue → Type 0
  Written q =
      Message (drb_at q txq.drb_wr_idx) skb
      × Described dma txq.drb_size_cnt (payload_sizes skb) q.drb_base 0 txq.drb_wr_idx

  mapped-Written :
      (q : TxQueue) (last : ℕ)
      → map_payloads dma (payload_sizes skb) (reserve txq skb) skb 0 txq.drb_wr_idx ≡ mapped q last
      → Written q
  unfolding reserve
  mapped-Written q last e =
      let start = txq.drb_wr_idx in
      let below = free_slots txq v in
      let kept =
        map_payloads-untouched dma (payload_sizes skb) (reserve txq skb) skb 0 start start (λ m lt.
          ground (
            arith,
            advance_lem txq.drb_size_cnt (suc m) start v.size_small v.wr_in (omega arith),
          )) in
      let kept' = subst (λ m. drb_at (queue_of m) start ≡ drb_at (reserve txq skb) start) e kept in
      (
        subst (λ d. Message d skb) (sym kept') (reserve-Message txq skb (omega arith)),
        map_payloads-Described dma (payload_sizes skb) (reserve txq skb) skb 0 start q last w
            v.size_small v.wr_in (omega (arith, length-set txq.drb_base start)) (omega arith) e,
      )

  end_add-Written :
      (m : Mapped)
      → map_payloads dma (payload_sizes skb) (reserve txq skb) skb 0 txq.drb_wr_idx ≡ m
      → (end_add max_skb_frags (skb_drb_cnt skb) txq.drb_wr_idx m).0 ≡ ok
      → Written (end_add max_skb_frags (skb_drb_cnt skb) txq.drb_wr_idx m).1
  unfolding end_add
  end_add-Written (mapped q last) e h =
      let same = finish_add-Charged max_skb_frags (skb_drb_cnt skb) q in
      subst
        (λ drbs.
          Message (get_or drbs txq.drb_wr_idx zero_drb) skb
          × Described dma txq.drb_size_cnt (payload_sizes skb) drbs 0 txq.drb_wr_idx)
        (sym same.drbs) (mapped-Written q last e)
  end_add-Written (map_failed q last n) e h = cc

  -- For a valid queue with room for the packet and 64-bit DMA addresses, if adding the packet
  -- succeeds, the slot at the old write index holds a message DRB with the packet's length modulo
  -- 2^16 and its interface, and the slots after it hold one payload DRB for the linear data and for
  -- each fragment, in order, with its length modulo 2^16 and its DMA address; all but the last say
  -- that another DRB follows.
  pub add_skb_to_ring-Written :
      (add_skb_to_ring max_skb_frags dma state txq skb).0 ≡ ok
      → Written (add_skb_to_ring max_skb_frags dma state txq skb).1
  unfolding add_skb_to_ring
  add_skb_to_ring-Written =
      elim (not txq.que_started || not (is_pwron state))
        as (λ b.
          (if b
              then (fail enodev, txq)
              else end_add max_skb_frags (skb_drb_cnt skb) txq.drb_wr_idx
                  (map_payloads dma (payload_sizes skb) (reserve txq skb) skb 0 txq.drb_wr_idx)).0
            ≡ ok
          → Written
              (if b
                then (fail enodev, txq)
                else end_add max_skb_frags (skb_drb_cnt skb) txq.drb_wr_idx (
                    map_payloads dma (payload_sizes skb) (reserve txq skb) skb 0
                      txq.drb_wr_idx)).1) [ true ↦ λ h. cc | false ↦ end_add-Written _ refl ]
