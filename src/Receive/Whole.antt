-- ===== src/Receive/Whole.antt =====
-- A whole packet: what the loop of t7xx_dpmaif_rx_start (src/t7xx_hif_dpmaif_rx.c) delivers for its
-- entries.
use mtk_t7xx_fix.Prelude.{
  ℕ, suc, ◌+◌, ◌≤◌, ◌<◌, ◌≡◌, refl, sym, ap, ◌∙◌, subst, arith, Bool, true, false, not, ◌&&◌, none,
  some, List, [], ◌∷◌, length, leb, ltb, ◌==◌, field_get, u32, Ret, ok,
}
use mtk_t7xx_fix.DpmaifRx.State.{skb_at, set_skb}
use mtk_t7xx_fix.Receive.State.{
  Pit, SkbFrag, RxSkb, no_info, Packet, skb_reserve, unmap_single, Rxq, RxEnv, call,
}
use mtk_t7xx_fix.Receive.Payload.{
  normal_pit_bid, data_len, data_offset, data_start, bat_count, packet_of, set_bat_mask,
  parse_msg_pit, set_data_to_skb, get_rx_pkt, get_payload,
}
use mtk_t7xx_fix.Receive.Pits.{next_pit}
use mtk_t7xx_fix.Receive.Collect.{take_pit, take_msg, rx_loop, left_with}
use mtk_t7xx_fix.Receive.Packets.{packets, IsPayload, payload_step}
use mtk_t7xx_fix.Receive.Rounds.{
  InSequence, counted, round_step, Chain, Gathered, total, extended, Delivers, IsBuilding,
  last_round, frag_rounds,
}

-- The buffer of a payload entry holds an skb that the data fits into.
pub record HasBuffer (env : RxEnv) (p : Pit) (id : ℕ) (a : Rxq) : Type 0 where
  pub in_table : leb bat_count (normal_pit_bid p) ≡ false
  pub there : (skb_at a.bat_req (normal_pit_bid p)).skb ≡ some id
  pub fits :
      ltb (env.skb_end id) (
        u32 (
          u32 (
            data_start env id a.calls
            + data_offset p (skb_at a.bat_req (normal_pit_bid p)).data_bus_addr)
          + data_len p))
      ≡ false

counted-HasBuffer :
    (env : RxEnv) (p : Pit) (id : ℕ) (a : Rxq)
    → HasBuffer env p id a
    → HasBuffer env p id (counted a)
counted-HasBuffer env p id a h = record { in_table = h.in_table; there = h.there; fits = h.fits }

-- The queue with the skb of an entry taken.
taken_data : Pit → ℕ → Rxq → Rxq
taken_data p id a =
    let bid = normal_pit_bid p in
    let s = skb_at a.bat_req bid in
    let skb : RxSkb = record { id = id; len = data_len p; frags = [] } in
    record (call (skb_reserve id (data_offset p s.data_bus_addr))
      (call (unmap_single s.data_bus_addr s.data_len) a)) {
        bat_req = set_bat_mask bid (set_skb a.bat_req bid (record s { skb = none }));
        rx_data_info = record a.rx_data_info { cur_skb = some skb };
      }

data_payload :
    (env : RxEnv) (p : Pit) (last : Bool) (id : ℕ) (a : Rxq)
    → IsPayload p false last
    → HasBuffer env p id a
    → get_payload env p a ≡ (ok, taken_data p id a)
unfolding get_payload get_rx_pkt set_data_to_skb taken_data
data_payload env p last id a k b = ground (arith, k.buffer, b.in_table, b.there, b.fits)

-- An entry that announces a packet which is not to be dropped.
pub record IsMessage (m : Pit) : Type 0 where
  pub type : field_get 0 1 m.header == 1 ≡ true
  pub keep : field_get 31 1 m.header ≡ 0

-- The payload entries of a packet: one with its data, and fragments.
abbrev pub Entries : Pit → List Pit → Type 0
Entries p [] = IsPayload p false true
Entries p (q ∷ ps) = IsPayload p false false × Chain (q ∷ ps)

-- The packet that the entries describe.
abbrev pub described : Pit → Pit → List Pit → ℕ → List SkbFrag → Packet
described m p ps id fs = record {
  skb = record { id = id; len = total (data_len p) ps; frags = fs };
  checked = field_get 2 2 m.header == 0;
  netif_idx = field_get 0 5 (field_get 16 8 m.header);
  rx_pkt_type = field_get 23 1 m.footer;
}

-- The packet is begun behind its first payload entry.
built :
    (m p : Pit) (id : ℕ) (a : Rxq)
    → IsMessage m
    → a.rx_data_info ≡ parse_msg_pit m (record no_info { msg_pit_received = true })
    → IsBuilding (record { id = id; len = data_len p; frags = [] }) (taken_data p id (counted a))
unfolding taken_data
built m p id a msg info = record {
  announced = ap (λ i. i.msg_pit_received) info;
  cur = refl;
  fine = ap (λ i. i.err_payload) info;
  keep = ap (λ i. i.pit_dp) info ∙ msg.keep;
}

module _ (env : RxEnv) (pits : ℕ → Pit) (budget : ℕ) where
  message_step :
      (m : Pit) (r : Ret) (n : ℕ) (a : Rxq)
      → IsMessage m
      → take_pit env m r n a ≡ (r, n, take_msg m a)
  unfolding take_pit
  message_step m r n a h = rw (h.type) refl

  payload_rounds :
      (m p : Pit) (ps : List Pit) (fs : List SkbFrag) (id k : ℕ) (r : Ret) (n : ℕ) (a : Rxq)
      → IsMessage m
      → a.rx_data_info ≡ parse_msg_pit m (record no_info { msg_pit_received = true })
      → Entries p ps
      → InSequence pits a.pit_size_cnt (p ∷ ps) a.pit_rd_idx a.expect_pit_seq
      → HasBuffer env p id a
      → Gathered a.bat_frag ps fs
      → k + suc (length ps) ≤ 128
      → Delivers n
          (described m p ps id fs)
          (packets a.calls)
          (rx_loop env pits budget (suc (length ps)) k r n a)
  unfolding taken_data next_pit
  payload_rounds m p [] fs id k r n a msg info kind seq buffer none_left early =
      let b = taken_data p id (counted a) in
      let skb : RxSkb = record { id = id; len = data_len p; frags = [] } in
      let got = data_payload env p true id (counted a) kind (counted-HasBuffer env p id a buffer) in
      subst
        (λ f.
          Delivers n (described m p [] id f) (packets a.calls) (rx_loop env pits budget 1 k r n a))
        (sym none_left)
        (subst
          (λ i. Delivers n (packet_of i skb) (packets a.calls) (rx_loop env pits budget 1 k r n a))
          info
          (last_round env pits budget p false k r n a b skb seq kind got
            (ap (λ i. i.msg_pit_received) info) (built m p id a msg info) (omega arith)))
  payload_rounds m p (q ∷ ps) fs id k r n a msg info (kind, chain) seq buffer gathered early =
      let b = taken_data p id (counted a) in
      let skb : RxSkb = record { id = id; len = data_len p; frags = [] } in
      let got =
        data_payload env p false id (counted a) kind (counted-HasBuffer env p id a buffer) in
      let building = built m p id a msg info in
      let step =
        round_step env pits budget p (suc (length ps)) k r ok n n a b seq.0 seq.1
          (ap (λ i. not i.msg_pit_received && leb budget n) info) (omega arith)
          (payload_step env p false false r n (counted a) b kind got) in
      subst (Delivers n (described m p (q ∷ ps) id fs) (packets a.calls)) (sym step) (
        subst
          (λ i.
            Delivers n (packet_of i (extended skb (q ∷ ps) fs)) (packets a.calls)
              (rx_loop env pits budget (length (q ∷ ps)) (suc k) ok n (next_pit b)))
          info
          (frag_rounds env pits budget (q ∷ ps) fs (suc k) ok n (next_pit b) skb chain seq.2
            gathered
            (record {
              announced = building.announced;
              cur = building.cur;
              fine = building.fine;
              keep = building.keep;
            })
            (omega arith)))

  -- An entry that announces a packet which is not to be dropped, a payload entry whose buffer holds an skb with room for the data,
  -- and entries for fragments in pages of their own, the last of which alone ends the packet: a run of
  -- the loop of t7xx_dpmaif_rx_start over them, numbered in sequence, that neither begins inside a
  -- packet nor with its budget used up nor has to notify the hardware, delivers exactly the packet that
  -- they describe, counts it, and leaves no packet begun.
  pub rx_loop_delivers :
      (m p : Pit) (ps : List Pit) (fs : List SkbFrag) (id k : ℕ) (r : Ret) (n : ℕ) (a : Rxq)
      → IsMessage m
      → a.rx_data_info ≡ no_info
      → n < budget
      → Entries p ps
      → InSequence pits a.pit_size_cnt (m ∷ p ∷ ps) a.pit_rd_idx a.expect_pit_seq
      → HasBuffer env p id a
      → Gathered a.bat_frag ps fs
      → k + suc (suc (length ps)) ≤ 128
      → ((rx_loop env pits budget (suc (suc (length ps))) k r n a).0 ≡ left_with ok)
        × ((rx_loop env pits budget (suc (suc (length ps))) k r n a).1 ≡ u32 (n + 1))
        × (packets (rx_loop env pits budget (suc (suc (length ps))) k r n a).2.calls
            ≡ described m p ps id fs ∷ packets a.calls)
        × ((rx_loop env pits budget (suc (suc (length ps))) k r n a).2.rx_data_info ≡ no_info)
  unfolding next_pit
  rx_loop_delivers m p ps fs id k r n a msg info room kind seq buffer gathered early =
      let b = take_msg m (counted a) in
      let step =
        round_step env pits budget m (suc (length ps)) k r r n n a b seq.0 seq.1 (enters n room)
          (omega arith) (message_step m r n (counted a) msg) in
      subst (Delivers n (described m p ps id fs) (packets a.calls)) (sym step) (
        payload_rounds m p ps fs id (suc k) r n (next_pit b) msg
          (ap (λ i. parse_msg_pit m (record i { msg_pit_received = true })) info) kind seq.2
          (record { in_table = buffer.in_table; there = buffer.there; fits = buffer.fits }) gathered
          (omega arith))
    where
      enters : (n : ℕ) → n < budget → not a.rx_data_info.msg_pit_received && leb budget n ≡ false
      enters n h = ground arith
