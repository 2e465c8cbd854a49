-- ===== src/Receive/Collect.antt =====
-- The loop over the PIT entries, t7xx_dpmaif_rx_start of src/t7xx_hif_dpmaif_rx.c, and the count of
-- the entries that it is run for.
use mtk_t7xx_fix.Prelude.{
  ℕ, zero, suc, ◌+◌, ◌%◌, Bool, true, false, not, ◌&&◌, none, some, u32, field_get, leb, ltb, ◌==◌,
  if◌then◌else◌, Ret, ok, fail, Errno,
}
use mtk_t7xx_fix.Ring.{read, rd_wr_count}
use mtk_t7xx_fix.Receive.State.{Pit, no_info, free_skb, Rxq, RxEnv, call}
use mtk_t7xx_fix.Receive.Payload.{get_payload, parse_msg_pit, rx_skb}
use mtk_t7xx_fix.Receive.Pits.{check_pit_seq, rx_notify_hw, next_pit}

-- An entry that announces a packet.
abbrev pub take_msg : Pit → Rxq → Rxq
take_msg pit rxq = record rxq {
  rx_data_info = parse_msg_pit pit (record rxq.rx_data_info { msg_pit_received = true });
}

abbrev pub note_payload : Ret → Rxq → Rxq
note_payload ok rxq = rxq
note_payload (fail e) rxq = record rxq {
  rx_data_info = record rxq.rx_data_info { err_payload = true };
}

-- The end of a packet: it is delivered, or freed. Without an error there is an skb.
unfoldable pub end_packet : Rxq → Rxq
unfolding rx_skb
end_packet rxq =
    let done : Rxq = elim rxq.rx_data_info.cur_skb [
      | none ↦ rxq
      | some skb ↦ if rxq.rx_data_info.err_payload then call (free_skb skb) rxq else rx_skb skb rxq
    ] in
    record done { rx_data_info = no_info }

-- What an entry does: `ret` and `recv_skb_cnt` behind it. PD_PIT_PACKET_TYPE is 1 for a message,
-- PD_PIT_CONT is 0 at the end of a packet.
unfoldable pub take_pit : RxEnv → Pit → Ret → ℕ → Rxq → Ret × ℕ × Rxq
unfolding get_payload end_packet
take_pit env pit ret recv_cnt rxq =
    let (got, rxq₁) = get_payload env pit rxq in
    let rxq₂ = note_payload got rxq₁ in
    if field_get 0 1 pit.header == 1
    then (ret, recv_cnt, take_msg pit rxq)
    else if field_get 1 1 pit.header == 0
    then (got, u32 (recv_cnt + 1), end_packet rxq₂)
    else (got, recv_cnt, rxq₂)

-- DPMAIF_NOTIFY_RELEASE_COUNT
abbrev pub notify_release_count : ℕ
notify_release_count = 128

-- How the loop was left: `stale` where an entry has not the expected sequence number.
pub data Left : Type 0 where
  stale : Left
  left_with : Ret → Left

-- The loop with so many entries to come, in round `rx_cnt`.
module _ (env : RxEnv) (pits : ℕ → Pit) (budget : ℕ) where
  unfoldable pub rx_loop : ℕ → ℕ → Ret → ℕ → Rxq → Left × ℕ × Rxq
  unfolding check_pit_seq take_pit next_pit rx_notify_hw
  rx_loop zero rx_cnt ret recv_cnt rxq = (left_with ret, recv_cnt, rxq)
  rx_loop (suc more) rx_cnt ret recv_cnt rxq =
      let pit = pits rxq.pit_rd_idx in
      let (seq, rxq₁) = check_pit_seq pit rxq in
      let (ret₂, recv_cnt₂, rxq₂) = take_pit env pit ret recv_cnt rxq₁ in
      let rxq₃ = next_pit rxq₂ in
      let (ret₄, rxq₄) = rx_notify_hw env rxq₃ in
      let go_on = rx_loop more (suc rx_cnt) ret₂ recv_cnt₂ rxq₃ in
      let go_on_notified = rx_loop more (suc rx_cnt) ok recv_cnt₂ rxq₄ in
      if not rxq.rx_data_info.msg_pit_received && leb budget recv_cnt
      then (left_with ret, recv_cnt, rxq)
      else elim seq [
        | fail e ↦ (stale, recv_cnt, rxq)
        | ok ↦
            if ltb 0 rx_cnt && (rx_cnt % notify_release_count == 0)
            then elim ret₄ [ fail e ↦ (left_with (fail e), recv_cnt₂, rxq₄) | ok ↦ go_on_notified ]
            else go_on
      ]

-- The `int` result of t7xx_dpmaif_rx_start, and whether it sets `once_more`.
pub data RxCount : Type 0 where
  received : ℕ → RxCount
  rx_fail : Errno → RxCount

-- What follows the loop.
unfoldable pub rx_end : RxEnv → Left × ℕ × Rxq → RxCount × Bool × Rxq
unfolding rx_notify_hw
rx_end env (stale, recv_cnt, rxq) = (received recv_cnt, true, rxq)
rx_end env (left_with (fail e), recv_cnt, rxq) = (rx_fail e, false, rxq)
rx_end env (left_with ok, recv_cnt, rxq) =
    let (ret, rxq₁) = rx_notify_hw env rxq in
    elim ret [ ok ↦ (received recv_cnt, false, rxq₁) | fail e ↦ (rx_fail e, false, rxq₁) ]

unfoldable pub rx_start : RxEnv → (ℕ → Pit) → ℕ → ℕ → Rxq → RxCount × Bool × Rxq
unfolding rx_loop rx_end
rx_start env pits pit_cnt budget rxq = rx_end env (rx_loop env pits budget pit_cnt 0 ok 0 rxq)

abbrev pub poll_pit : ℕ → Rxq → ℕ × Rxq
poll_pit hw_wr_idx rxq = if not rxq.que_started then (0, rxq) else (
  rd_wr_count rxq.pit_size_cnt rxq.pit_rd_idx hw_wr_idx read,
  record rxq { pit_wr_idx = hw_wr_idx },
)

unfoldable pub rx_data_collect : RxEnv → (ℕ → Pit) → ℕ → ℕ → Rxq → RxCount × Bool × Rxq
unfolding rx_start
rx_data_collect env pits hw_wr_idx budget rxq =
    let (cnt, rxq₁) = poll_pit hw_wr_idx rxq in
    if cnt == 0 then (received 0, false, rxq₁) else rx_start env pits cnt budget rxq₁
