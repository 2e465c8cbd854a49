-- ===== src/Receive/Payload.antt =====
-- The buffers that a PIT entry names: t7xx_dpmaif_get_rx_pkt, t7xx_dpmaif_get_frag,
-- t7xx_dpmaif_parse_msg_pit and t7xx_dpmaif_rx_skb of src/t7xx_hif_dpmaif_rx.c.
use mtk_t7xx_fix.Prelude.{
  ℕ, ◌+◌, ◌-◌, ◌*◌, true, Option, none, some, List, [], ◌∷◌, ◌++◌, get_or, set, u32, field_get, leb,
  ltb, ◌==◌, if◌then◌else◌, Ret, ok, fail, einval, enobufs,
}
use mtk_t7xx_fix.DpmaifRx.State.{BatRequest, skb_at, set_skb}
use mtk_t7xx_fix.Receive.State.{
  Pit, SkbFrag, RxSkb, SkbInfo, BatPage, no_page, FragRing, Packet, RxCall, recv_skb, free_skb,
  skb_reserve, unmap_single, unmap_page, Rxq, RxEnv, call,
}

-- The bits of PD_PIT_H_BID above those of PD_PIT_BUFFER_ID.
abbrev pub normal_pit_bid : Pit → ℕ
normal_pit_bid pit = field_get 8 3 pit.footer * 8192 + field_get 3 13 pit.header

abbrev pub data_len : Pit → ℕ
data_len pit = field_get 16 16 pit.header

-- The address in the entry less that of the buffer, as an `int`.
abbrev pub data_offset : Pit → ℕ → ℕ
data_offset pit base =
    u32 (pit.data_addr_h * 4294967296 + pit.data_addr_l + 18446744073709551616 - base)

abbrev pub bat_count : ℕ
bat_count = 8192

abbrev pub frg_count : ℕ
frg_count = 4814

abbrev pub set_bat_mask : ℕ → BatRequest → BatRequest
set_bat_mask idx bat = record bat { bat_bitmap = set bat.bat_bitmap idx true }

-- Where the data of an skb begins: skb_reserve moves it, also for an entry that is refused then.
abbrev pub data_start : RxEnv → ℕ → List RxCall → ℕ
data_start env id [] = env.skb_data id
data_start env id (skb_reserve moved offset ∷ cs) =
    let before = data_start env id cs in if moved == id then u32 (before + offset) else before
data_start env id (_ ∷ cs) = data_start env id cs

-- t7xx_dpmaif_set_data_to_skb, for the skb of the entry.
unfoldable pub set_data_to_skb : RxEnv → ℕ → Pit → Rxq → Ret × Rxq
set_data_to_skb env id pit rxq =
    let bid = normal_pit_bid pit in
    let s = skb_at rxq.bat_req bid in
    let offset = data_offset pit s.data_bus_addr in
    let rxq₁ = call (skb_reserve id offset) (call (unmap_single s.data_bus_addr s.data_len) rxq) in
    let skb : RxSkb = record { id = id; len = data_len pit; frags = [] } in
    let tail = u32 (data_start env id rxq.calls + offset) in
    if ltb (env.skb_end id) (u32 (tail + data_len pit)) then (fail enobufs, rxq₁) else (
      ok,
      record rxq₁ {
        bat_req = set_skb rxq.bat_req bid (record s { skb = none });
        rx_data_info = record rxq.rx_data_info { cur_skb = some skb };
      },
    )

-- t7xx_bat_cur_bid_check: the skb of an entry; `none` is -EINVAL.
abbrev pub bat_cur_bid_check : Rxq → ℕ → Option ℕ
bat_cur_bid_check rxq cur_bid =
    if leb bat_count cur_bid then none else (skb_at rxq.bat_req cur_bid).skb

unfoldable pub get_rx_pkt : RxEnv → Pit → Rxq → Ret × Rxq
unfolding set_data_to_skb
get_rx_pkt env pit rxq =
    let bid = normal_pit_bid pit in
    elim (bat_cur_bid_check rxq bid) [
      | none ↦ (fail einval, rxq)
      | some id ↦
          let (ret, rxq₁) = set_data_to_skb env id pit rxq in
          elim ret [
            | fail e ↦ (fail e, rxq₁)
            | ok ↦ (ok, record rxq₁ { bat_req = set_bat_mask bid rxq₁.bat_req })
          ]
    ]

abbrev pub page_at : FragRing → ℕ → BatPage
page_at ring i = get_or ring.pages i no_page

-- t7xx_dpmaif_set_frag_to_skb, for the page of the entry.
abbrev pub set_frag_to_skb : ℕ → Pit → RxSkb → Rxq → Rxq
set_frag_to_skb page pit skb rxq =
    let bid = normal_pit_bid pit in
    let p = page_at rxq.bat_frag bid in
    let frag : SkbFrag = record {
      page = page;
      offset = u32 (data_offset pit p.data_bus_addr + p.offset);
      size = data_len pit;
    } in
    let skb₁ = record skb {
      len = u32 (skb.len + data_len pit);
      frags = skb.frags ++ (frag ∷ []);
    } in
    record (call (unmap_page p.data_bus_addr p.data_len) rxq) {
      bat_frag = record rxq.bat_frag {
        pages = set rxq.bat_frag.pages bid (record p { page = none; offset = 0; data_len = 0 });
      };
      rx_data_info = record rxq.rx_data_info { cur_skb = some skb₁ };
    }

-- t7xx_frag_bat_cur_bid_check: the page of an entry; `none` is -EINVAL.
abbrev pub frag_bat_cur_bid_check : Rxq → ℕ → Option ℕ
frag_bat_cur_bid_check rxq cur_bid =
    if leb frg_count cur_bid then none else (page_at rxq.bat_frag cur_bid).page

unfoldable pub get_frag : Pit → RxSkb → Rxq → Ret × Rxq
get_frag pit skb rxq =
    let bid = normal_pit_bid pit in
    elim (frag_bat_cur_bid_check rxq bid) [
      | none ↦ (fail einval, rxq)
      | some page ↦
          let rxq₁ = set_frag_to_skb page pit skb rxq in
          (
            ok,
            record rxq₁ {
              bat_frag = record rxq₁.bat_frag { bat = set_bat_mask bid rxq₁.bat_frag.bat };
            },
          )
    ]

-- What t7xx_dpmaif_rx_start does with the buffer of a payload entry; PD_PIT_BUFFER_TYPE is 1 for a
-- fragment.
unfoldable pub get_payload : RxEnv → Pit → Rxq → Ret × Rxq
unfolding get_rx_pkt get_frag
get_payload env pit rxq =
    if field_get 2 1 pit.header == 1
    then elim rxq.rx_data_info.cur_skb [
      | none ↦ (fail einval, rxq)
      | some skb ↦ get_frag pit skb rxq
    ]
    else get_rx_pkt env pit rxq

abbrev pub parse_msg_pit : Pit → SkbInfo → SkbInfo
parse_msg_pit pit info = record info {
  cur_chn_idx = field_get 16 8 pit.header;
  check_sum = field_get 2 2 pit.header;
  pit_dp = field_get 31 1 pit.header;
  pkt_type = field_get 23 1 pit.footer;
}

abbrev pub packet_of : SkbInfo → RxSkb → Packet
packet_of info skb = record {
  skb = skb;
  checked = info.check_sum == 0;
  netif_idx = field_get 0 5 info.cur_chn_idx;
  rx_pkt_type = info.pkt_type;
}

-- t7xx_dpmaif_rx_skb, for the skb that was put together.
unfoldable pub rx_skb : RxSkb → Rxq → Rxq
rx_skb skb rxq =
    let info = rxq.rx_data_info in
    let rxq₁ = record rxq { rx_data_info = record info { cur_skb = none } } in
    if info.pit_dp == 0 then call (recv_skb (packet_of info skb)) rxq₁ else call (free_skb skb) rxq₁
