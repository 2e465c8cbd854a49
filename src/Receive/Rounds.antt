-- ===== src/Receive/Rounds.antt =====
-- Rounds of the loop of t7xx_dpmaif_rx_start (src/t7xx_hif_dpmaif_rx.c) over a packet's entries.
use mtk_t7xx_fix.Prelude.{
  ℕ, suc, ◌+◌, ◌%◌, ◌≤◌, ◌<◌, ◌≡◌, refl, sym, ap, ◌∙◌, subst, arith, Bool, true, false, not, ◌&&◌,
  none, some, List, [], ◌∷◌, ◌++◌, append_assoc, length, leb, ltb, ◌==◌, field_get, u32, set,
  if◌then◌else◌, Ret, ok, fail, efault,
}
use mtk_t7xx_fix.Ring.{get_next_wr_idx}
use mtk_t7xx_fix.Receive.State.{Pit, SkbFrag, RxSkb, no_info, FragRing, Packet, Rxq, RxEnv}
use mtk_t7xx_fix.Receive.Payload.{
  normal_pit_bid, data_len, data_offset, frg_count, page_at, packet_of, set_bat_mask, get_payload,
}
use mtk_t7xx_fix.Receive.Pits.{check_pit_seq, next_pit, rx_notify_hw}
use mtk_t7xx_fix.Receive.Collect.{
  Left, left_with, stale, take_pit, end_packet, rx_loop, notify_release_count,
}
use mtk_t7xx_fix.Receive.Packets.{
  packets, IsPayload, taken_frag, frag_payload, payload_step, end_packet_ok,
}

-- The sequence number behind another.
abbrev pub next_seq : ℕ → ℕ
next_seq s = if leb 251 (u32 (s + 1)) then 0 else u32 (s + 1)

-- The entries stand in the ring from a position on, numbered in sequence.
abbrev pub InSequence : (ℕ → Pit) → ℕ → List Pit → ℕ → ℕ → Type 0
InSequence pits size [] rd seq = Unit
InSequence pits size (p ∷ ps) rd seq =
    (pits rd ≡ p)
    × (field_get 0 8 p.footer == seq ≡ true)
    × InSequence pits size ps (get_next_wr_idx size rd) (next_seq seq)

-- The queue that expects the next number.
abbrev pub counted : Rxq → Rxq
counted a = record a { expect_pit_seq = next_seq a.expect_pit_seq }

check_pit_seq_ok :
    (p : Pit) (a : Rxq)
    → field_get 0 8 p.footer == a.expect_pit_seq ≡ true
    → check_pit_seq p a ≡ (ok, counted a)
unfolding check_pit_seq
check_pit_seq_ok p a e = ap (λ b. if b then (ok, counted a) else (fail efault, a)) e

quiet : (k : ℕ) → k < 128 → ltb 0 k && (k % notify_release_count == 0) ≡ false
quiet k h = ground arith

module _ (env : RxEnv) (pits : ℕ → Pit) (budget : ℕ) where
  -- One round that neither ends the loop nor notifies the hardware.
  pub round_step :
      (p : Pit) (more k : ℕ) (r r' : Ret) (n n' : ℕ) (a b : Rxq)
      → pits a.pit_rd_idx ≡ p
      → field_get 0 8 p.footer == a.expect_pit_seq ≡ true
      → not a.rx_data_info.msg_pit_received && leb budget n ≡ false
      → k < 128
      → take_pit env p r n (counted a) ≡ (r', n', b)
      → rx_loop env pits budget (suc more) k r n a
        ≡ rx_loop env pits budget more (suc k) r' n' (next_pit b)
  unfolding rx_loop
  round_step p more k r r' n n' a b there seq enters early took =
      let tested : Bool → Ret → Bool → Ret × ℕ × Rxq → Left × ℕ × Rxq = λ t c z y.
        if t then (left_with r, n, a) else elim c [
          | fail e ↦ (stale, n, a)
          | ok ↦
              if z
              then elim (rx_notify_hw env (next_pit y.2)).0 [
                | fail e ↦ (left_with (fail e), y.1, (rx_notify_hw env (next_pit y.2)).1)
                | ok ↦
                    rx_loop env pits budget more (suc k) ok y.1 (rx_notify_hw env (next_pit y.2)).1
              ]
              else rx_loop env pits budget more (suc k) y.0 y.1 (next_pit y.2)
        ] in
      let t = not a.rx_data_info.msg_pit_received && leb budget n in
      let z = ltb 0 k && (k % notify_release_count == 0) in
      ap (λ q. tested t (check_pit_seq q a).0 z (take_pit env q r n (check_pit_seq q a).1)) there
      ∙ ap (λ c. tested t c.0 z (take_pit env p r n c.1)) (check_pit_seq_ok p a seq)
      ∙ ap (λ b. tested b ok z (take_pit env p r n (counted a))) enters
      ∙ ap (λ b. tested false ok b (take_pit env p r n (counted a))) (quiet k early)
      ∙ ap (tested false ok false) took

-- The payload entries behind the first: fragments, the last of which ends the packet.
abbrev pub Chain : List Pit → Type 0
Chain [] = ⊥
Chain (p ∷ []) = IsPayload p true true
Chain (p ∷ q ∷ ps) = IsPayload p true false × Chain (q ∷ ps)

-- The fragment that an entry describes, in a page of the ring.
abbrev pub frag_of : FragRing → Pit → ℕ → SkbFrag
frag_of ring p page =
    let slot = page_at ring (normal_pit_bid p) in
    record {
      page = page;
      offset = u32 (data_offset p slot.data_bus_addr + slot.offset);
      size = data_len p;
    }

-- The ring without the page of an entry.
abbrev pub without : FragRing → Pit → FragRing
without ring p =
    let bid = normal_pit_bid p in
    let slot = page_at ring bid in
    record {
      pages = set ring.pages bid (record slot { page = none; offset = 0; data_len = 0 });
      bat = set_bat_mask bid ring.bat;
    }

-- The fragments that entries describe, each in a page of its own.
abbrev pub Gathered : FragRing → List Pit → List SkbFrag → Type 0
Gathered ring [] fs = fs ≡ []
Gathered ring (p ∷ ps) fs =
    (page : ℕ) × (rest : List SkbFrag) × (leb frg_count (normal_pit_bid p) ≡ false)
    × ((page_at ring (normal_pit_bid p)).page ≡ some page)
    × (fs ≡ frag_of ring p page ∷ rest)
    × Gathered (without ring p) ps rest

-- A length with those of the entries added.
abbrev pub total : ℕ → List Pit → ℕ
total n [] = n
total n (p ∷ ps) = total (u32 (n + data_len p)) ps

abbrev pub extended : RxSkb → List Pit → List SkbFrag → RxSkb
extended skb ps fs = record skb { len = total skb.len ps; frags = skb.frags ++ fs }

-- The loop has ended, with a packet more and no packet begun.
abbrev pub Delivers : ℕ → Packet → List Packet → Left × ℕ × Rxq → Type 0
Delivers n p before x =
    (x.0 ≡ left_with ok)
    × (x.1 ≡ u32 (n + 1))
    × (packets x.2.calls ≡ p ∷ before)
    × (x.2.rx_data_info ≡ no_info)

-- An announced packet that is being put together.
pub record IsBuilding (skb : RxSkb) (a : Rxq) : Type 0 where
  pub announced : a.rx_data_info.msg_pit_received ≡ true
  pub cur : a.rx_data_info.cur_skb ≡ some skb
  pub fine : a.rx_data_info.err_payload ≡ false
  pub keep : a.rx_data_info.pit_dp ≡ 0

module _ (env : RxEnv) (pits : ℕ → Pit) (budget : ℕ) where
  open_round :
      (a : Rxq) (n : ℕ)
      → a.rx_data_info.msg_pit_received ≡ true
      → not a.rx_data_info.msg_pit_received && leb budget n ≡ false
  open_round a n e = ap (λ b. not b && leb budget n) e

  -- The last entry of a packet.
  pub last_round :
      (p : Pit) (frag : Bool) (k : ℕ) (r : Ret) (n : ℕ) (a b : Rxq) (skb : RxSkb)
      → InSequence pits a.pit_size_cnt (p ∷ []) a.pit_rd_idx a.expect_pit_seq
      → IsPayload p frag true
      → get_payload env p (counted a) ≡ (ok, b)
      → a.rx_data_info.msg_pit_received ≡ true
      → IsBuilding skb b
      → k < 128
      → Delivers n
          (packet_of b.rx_data_info skb)
          (packets b.calls)
          (rx_loop env pits budget 1 k r n a)
  unfolding rx_loop next_pit
  last_round p frag k r n a b skb seq kind got begun building early =
      let done = end_packet_ok skb b building.cur building.fine building.keep in
      subst (Delivers n (packet_of b.rx_data_info skb) (packets b.calls))
        (sym (
          round_step env pits budget p 0 k r ok n (u32 (n + 1)) a (end_packet b) seq.0 seq.1
            (open_round a n begun) early (payload_step env p frag true r n (counted a) b kind got)))
        (refl, refl, done.0, done.1)

  taken_frag-IsBuilding :
      (page : ℕ) (p : Pit) (skb : RxSkb) (a : Rxq)
      → IsBuilding skb a
      → IsBuilding
          (extended skb (p ∷ []) (frag_of a.bat_frag p page ∷ []))
          (taken_frag page p skb a)
  unfolding taken_frag
  taken_frag-IsBuilding page p skb a h = record {
    announced = h.announced;
    cur = refl;
    fine = h.fine;
    keep = h.keep;
  }

  pub frag_rounds :
      (ps : List Pit) (fs : List SkbFrag) (k : ℕ) (r : Ret) (n : ℕ) (a : Rxq) (skb : RxSkb)
      → Chain ps
      → InSequence pits a.pit_size_cnt ps a.pit_rd_idx a.expect_pit_seq
      → Gathered a.bat_frag ps fs
      → IsBuilding skb a
      → k + length ps ≤ 128
      → Delivers n
          (packet_of a.rx_data_info (extended skb ps fs))
          (packets a.calls)
          (rx_loop env pits budget (length ps) k r n a)
  unfolding next_pit taken_frag
  frag_rounds [] fs k r n a skb chain seq gathered building early = elim chain [ ]
  frag_rounds (p ∷ []) fs k r n a skb kind seq (page, rest, in_ring, there, fs_is, none_left)
        building early =
      let b = taken_frag page p skb (counted a) in
      let got = frag_payload env page p skb (counted a) kind.buffer building.cur in_ring there in
      subst
        (λ f.
          Delivers n (packet_of a.rx_data_info (extended skb (p ∷ []) f)) (packets a.calls)
            (rx_loop env pits budget 1 k r n a))
        (sym (fs_is ∙ ap (λ l. frag_of a.bat_frag p page ∷ l) none_left))
        (last_round p true k r n a b (extended skb (p ∷ []) (frag_of a.bat_frag p page ∷ [])) seq
          kind got building.announced
          (taken_frag-IsBuilding page p skb (counted a) (record {
            announced = building.announced;
            cur = building.cur;
            fine = building.fine;
            keep = building.keep;
          }))
          (omega arith))
  frag_rounds (p ∷ q ∷ ps) fs k r n a skb chain seq (page, rest, in_ring, there, fs_is, gathered)
        building early =
      let f = frag_of a.bat_frag p page in
      let b = next_pit (taken_frag page p skb (counted a)) in
      let counted_building : IsBuilding skb (counted a) = record {
        announced = building.announced;
        cur = building.cur;
        fine = building.fine;
        keep = building.keep;
      } in
      let taken = taken_frag-IsBuilding page p skb (counted a) counted_building in
      let got = frag_payload env page p skb (counted a) chain.0.buffer building.cur in_ring there in
      let step =
        round_step env pits budget p (length (q ∷ ps)) k r ok n n a
          (taken_frag page p skb (counted a)) seq.0 seq.1 (open_round a n building.announced)
          (omega arith)
          (payload_step env p true false r n (counted a) (taken_frag page p skb (counted a)) chain.0
            got) in
      let rest_done =
        frag_rounds (q ∷ ps) rest (suc k) ok n b (extended skb (p ∷ []) (f ∷ [])) chain.1 seq.2
          gathered
          (record {
            announced = taken.announced;
            cur = taken.cur;
            fine = taken.fine;
            keep = taken.keep;
          })
          (omega arith) in
      subst (Delivers n (packet_of a.rx_data_info (extended skb (p ∷ q ∷ ps) fs)) (packets a.calls))
        (sym step)
        (subst
          (λ l.
            Delivers n
              (packet_of a.rx_data_info
                (record skb { len = total skb.len (p ∷ q ∷ ps); frags = l }))
              (packets a.calls) (rx_loop env pits budget (length (q ∷ ps)) (suc k) ok n b))
          (append_assoc skb.frags (f ∷ []) rest ∙ ap (λ l. skb.frags ++ l) (sym fs_is)) rest_done)
