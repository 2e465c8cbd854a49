-- ===== src/Port/Examples.antt =====
-- The theorems of the ports at concrete ports and messages.
use mtk_t7xx_fix.Prelude.{
  ℕ, ◌≡◌, ◌⊎◌, ◌%◌, refl, arith, true, false, [], ◌∷◌, List, All, length, get_elem?, Ret, ok, fail,
  enobufs, ebusy, some, if◌then◌else◌, ltb,
}
use mtk_t7xx_fix.Fsm.State.{fsm_init, md_ready, md_invalid, md_exception}
use mtk_t7xx_fix.Port.State.{
  CldmaId, CldmaId-discrete, cldma_id_md, cldma_id_ap, SkBuff, Port, zero_port, dev_kfree_skb,
  cldma_send_skb, call,
}
use mtk_t7xx_fix.Port.Send.{get_queue_no, send_ccci_skb, send_raw_skb}
use mtk_t7xx_fix.Port.Wwan.{recv_op, enqueue_skb}
use mtk_t7xx_fix.Port.Write.{fastboot_tx}
use mtk_t7xx_fix.Port.Proxy.{
  PortProxy, cfg_normal, cfg_early, find_port, find_in, map_channels, setup_ch_mapping, serves_at,
  recv_skb, dispatch, deliver, after_recv, skb_channel,
}
use mtk_t7xx_fix.Port.Setup.{proxy_set_cfg, proxy_alloc}
use mtk_t7xx_fix.Port.Control.{ctl_id, Host, Answers, port_at, control_msg_handler}
use mtk_t7xx_fix.Port.Lookup.{first_serving, find_port-setup_ch_mapping}
use mtk_t7xx_fix.Port.Fragments.{stream, fastboot_tx_complete, fastboot_tx-ok}
use mtk_t7xx_fix.Port.Headers.{Reads, send_ccci_skb_received}
use mtk_t7xx_fix.Port.Backlog.{IsBounded}
use mtk_t7xx_fix.Port.Reach.{here, next, set_cfg, Reach-IsBounded}
use mtk_t7xx_fix.Port.Dispatch.{Advanced, recv_skb-fail, recv_skb_others}
use mtk_t7xx_fix.Port.Freeing.{freed, control_msg_handler-freed}

abbrev all_sent : CldmaId → ℕ → List ℕ → Ret
all_sent path qno bytes = ok

-- The queue takes only short buffers.
abbrev short_sent : CldmaId → ℕ → List ℕ → Ret
short_sent path qno bytes = if ltb (length bytes) 3 then ok else fail ebusy

-- The ports after the modem's normal start.
configured : PortProxy
configured = proxy_set_cfg (λ path qno. 3584) md_invalid true true cfg_normal (proxy_alloc true)

-- A table of one control port that accepts nothing yet.
abbrev closed_table : PortProxy
closed_table = record {
  ports = zero_port ∷ [];
  spare = [];
  rx_ch_ports = [];
  cfg_id = cfg_normal;
  dropped = [];
}

-- A message on channel 0x2000 with number 7.
abbrev message : SkBuff
message = record {
  id = 5;
  bytes = 0 ∷ 0 ∷ 0 ∷ 0 ∷ 18 ∷ 0 ∷ 0 ∷ 0 ∷ 0 ∷ 0x20 ∷ 7 ∷ 0x80 ∷ 0 ∷ 0 ∷ 0 ∷ 0 ∷ 1 ∷ 2 ∷ [];
}

abbrev data_skb : SkBuff
data_skb = record { id = 9; bytes = 1 ∷ 2 ∷ 3 ∷ 4 ∷ 5 ∷ [] }

abbrev crashed : Host
crashed = record { fsm = record fsm_init { md_state = md_exception }; prox = closed_table }

abbrev no_memory_left : Answers
no_memory_left = record { alloc_skb = true; alloc_event = false; cldma = all_sent }

abbrev exception_pass : SkBuff
exception_pass = record { id = 4; bytes = 8 ∷ 0 ∷ 0 ∷ 0 ∷ 0 ∷ 0 ∷ 0 ∷ 0 ∷ 0 ∷ 0 ∷ 0 ∷ 0 ∷ [] }

find_port-setup_ch_mapping_example :
    find_port (setup_ch_mapping configured) cldma_id_ap 0x1000
    ≡ first_serving cldma_id_ap 0x1000 0 configured.ports
find_port-setup_ch_mapping_example = find_port-setup_ch_mapping configured cldma_id_ap 0x1000

fastboot_tx_complete_example :
    (q : Port) × (fastboot_tx all_sent md_ready (λ n. true) 2 zero_port data_skb
      ≡ some (ok, call q (dev_kfree_skb 9)))
    × (stream q.calls ≡ 1 ∷ 2 ∷ 3 ∷ 4 ∷ 5 ∷ [])
fastboot_tx_complete_example =
    fastboot_tx_complete all_sent md_ready (λ n. true) (λ path qno bytes. refl) (λ n. refl) 2
      zero_port data_skb refl (omega arith)

send_ccci_skb_received_example :
    (bytes : List ℕ) × ((send_ccci_skb all_sent md_ready zero_port data_skb 0 3).1.calls
      ≡ cldma_send_skb cldma_id_md (get_queue_no zero_port md_ready) bytes ∷ [])
    × Reads bytes zero_port 0x2001
        ((send_ccci_skb all_sent md_ready zero_port data_skb 0 3).1.seq_tx % 32768)
        0
        21
        3
        (1 ∷ 2 ∷ 3 ∷ 4 ∷ 5 ∷ [])
unfolding send_ccci_skb send_raw_skb
send_ccci_skb_received_example =
    send_ccci_skb_received all_sent md_ready zero_port data_skb 0 3
      (send_ccci_skb all_sent md_ready zero_port data_skb 0 3).1 zero_port refl

Reach-IsBounded_example :
    All IsBounded
      (proxy_set_cfg
        (λ path qno. 3584)
        md_invalid
        true
        true
        cfg_early
        (proxy_set_cfg (λ path qno. 3584) md_invalid true true cfg_normal (proxy_alloc true))).ports
Reach-IsBounded_example = Reach-IsBounded true _ (
    next (next here (set_cfg (λ path qno. 3584) md_invalid true cfg_normal))
      (set_cfg (λ path qno. 3584) md_invalid true cfg_early))

recv_skb-fail_example : setup_ch_mapping closed_table ≡ setup_ch_mapping closed_table
unfolding recv_skb dispatch deliver after_recv find_port find_in setup_ch_mapping map_channels
    recv_op enqueue_skb CldmaId-discrete
recv_skb-fail_example =
    recv_skb-fail (setup_ch_mapping closed_table) md_ready cldma_id_md message enobufs
      (setup_ch_mapping closed_table) refl

recv_skb_others_example :
    (get_elem? (recv_skb configured md_ready cldma_id_md message).1.ports 3
      ≡ get_elem? configured.ports 3)
    ⊎ ((serves_at configured.ports cldma_id_md (skb_channel message) 3 ≡ true)
        × Advanced configured message (recv_skb configured md_ready cldma_id_md message) 3)
recv_skb_others_example = recv_skb_others configured md_ready cldma_id_md message 3

control_msg_handler-freed_example :
    freed 4 (port_at (control_msg_handler no_memory_left crashed 0 exception_pass).1 0).calls ≡ 1
unfolding ctl_id
control_msg_handler-freed_example =
    control_msg_handler-freed no_memory_left crashed 0 exception_pass (omega arith)

-- Not one piece is sent.
fastboot_tx-ok_example :
    (q : Port) × (fastboot_tx
        (λ path qno bytes. fail ebusy)
        md_ready
        (λ n. true)
        2
        zero_port
        data_skb
      ≡ some (ok, q))
fastboot_tx-ok_example =
    fastboot_tx-ok (λ path qno bytes. fail ebusy) md_ready (λ n. true) (λ n. refl) 2 zero_port
      data_skb refl (omega arith)
