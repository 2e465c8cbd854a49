-- ===== src/Receive/Packets.antt =====
-- The packets that t7xx_dpmaif_rx_start of src/t7xx_hif_dpmaif_rx.c puts together, against a
-- description of them by the entries of the PIT ring.
use mtk_t7xx_fix.Prelude.{
  ℕ, ◌+◌, ◌≡◌, refl, ap, ◌∙◌, arith, Bool, true, false, some, List, [], ◌∷◌, leb, ◌==◌, field_get,
  u32, if◌then◌else◌, Ret, ok,
}
use mtk_t7xx_fix.Receive.State.{Pit, RxSkb, no_info, Packet, RxCall, recv_skb, Rxq, RxEnv}
use mtk_t7xx_fix.Receive.Payload.{
  normal_pit_bid, frg_count, page_at, set_bat_mask, set_frag_to_skb, get_frag, get_payload,
  packet_of, rx_skb,
}
use mtk_t7xx_fix.Receive.Collect.{take_msg, note_payload, end_packet, take_pit}

-- The packets that were delivered, the latest first.
abbrev pub packets : List RxCall → List Packet
packets [] = []
packets (recv_skb p ∷ cs) = p ∷ packets cs
packets (_ ∷ cs) = packets cs

-- A payload entry; `frag` tells where the buffer is, `last` whether it ends the packet.
pub record IsPayload (p : Pit) (frag last : Bool) : Type 0 where
  pub type : field_get 0 1 p.header == 1 ≡ false
  pub buffer : field_get 2 1 p.header == 1 ≡ frag
  pub cont : field_get 1 1 p.header == 0 ≡ last

-- The queue behind a fragment that was taken.
unfoldable pub taken_frag : ℕ → Pit → RxSkb → Rxq → Rxq
taken_frag page p skb a =
    let b = set_frag_to_skb page p skb a in
    record b {
      bat_frag = record b.bat_frag { bat = set_bat_mask (normal_pit_bid p) b.bat_frag.bat };
    }

get_frag_ok :
    (page : ℕ) (p : Pit) (skb : RxSkb) (a : Rxq)
    → leb frg_count (normal_pit_bid p) ≡ false
    → (page_at a.bat_frag (normal_pit_bid p)).page ≡ some page
    → get_frag p skb a ≡ (ok, taken_frag page p skb a)
unfolding get_frag taken_frag
get_frag_ok page p skb a in_ring there = ground (arith, in_ring, there)

pub frag_payload :
    (env : RxEnv) (page : ℕ) (p : Pit) (skb : RxSkb) (a : Rxq)
    → field_get 2 1 p.header == 1 ≡ true
    → a.rx_data_info.cur_skb ≡ some skb
    → leb frg_count (normal_pit_bid p) ≡ false
    → (page_at a.bat_frag (normal_pit_bid p)).page ≡ some page
    → get_payload env p a ≡ (ok, taken_frag page p skb a)
unfolding get_payload taken_frag
frag_payload env page p skb a buffer cur in_ring there =
    rw (buffer, cur) (get_frag_ok page p skb a in_ring there)

-- A payload entry whose buffer is there.
pub payload_step :
    (env : RxEnv) (p : Pit) (frag last : Bool) (r : Ret) (n : ℕ) (a b : Rxq)
    → IsPayload p frag last
    → get_payload env p a ≡ (ok, b)
    → take_pit env p r n a ≡ (if last then (ok, u32 (n + 1), end_packet b) else (ok, n, b))
unfolding take_pit
payload_step env p frag last r n a b k got =
    let step : Bool → Bool → Ret × Rxq → Ret × ℕ × Rxq = λ t c x.
      if t
      then (r, n, take_msg p a)
      else if c
      then (x.0, u32 (n + 1), end_packet (note_payload x.0 x.1))
      else (x.0, n, note_payload x.0 x.1) in
    ap (step (field_get 0 1 p.header == 1) (field_get 1 1 p.header == 0)) got
    ∙ ap (λ t. step t (field_get 1 1 p.header == 0) (ok, b)) k.type
    ∙ ap (λ c. step false c (ok, b)) k.cont

pub end_packet_ok :
    (skb : RxSkb) (a : Rxq)
    → a.rx_data_info.cur_skb ≡ some skb
    → a.rx_data_info.err_payload ≡ false
    → a.rx_data_info.pit_dp ≡ 0
    → (packets (end_packet a).calls ≡ packet_of a.rx_data_info skb ∷ packets a.calls)
      × ((end_packet a).rx_data_info ≡ no_info)
unfolding end_packet rx_skb
end_packet_ok skb a cur fine keep = (ground (arith, cur, fine, keep), refl)
