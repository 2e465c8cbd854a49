-- ===== src/Port/Headers.antt =====
-- What the CCCI header of a sent skb tells a receiver: the header that t7xx_port_send_ccci_skb puts
-- on, read by t7xx_port_proxy_recv_skb and t7xx_port_next_rx_seq_num (src/t7xx_port_proxy.c).
use mtk_t7xx_fix.Prelude.{
  fail-ok, ℕ, ◌+◌, ◌%◌, ◌≡◌, refl, sym, ap, ◌∙◌, arith, List, [], ◌∷◌, ◌++◌, length, drop,
  field_get, u16, u32, Ret, ok, fail,
}
use mtk_t7xx_fix.Port.State.{CldmaId, SkBuff, Port, cldma_send_skb, le32, get_le32}
use mtk_t7xx_fix.Port.Send.{
  ccci_header, ccci_status, get_queue_no, sent, counted, send_raw_skb, send_ccci_skb,
}
use mtk_t7xx_fix.Port.Proxy.{next_rx_seq_num, skb_status, skb_channel}
use mtk_t7xx_fix.Fsm.State.{MdState}

word : (x : ℕ) (rest : List ℕ) → get_le32 (le32 x ++ rest) 0 ≡ x % 4294967296
word x rest = omega arith

channel_of : (ch seq : ℕ) → field_get 0 16 (ccci_status ch seq % 4294967296) ≡ ch % 65536
channel_of ch seq = omega arith

seq_of : (ch seq : ℕ) → field_get 16 15 (ccci_status ch seq % 4294967296) ≡ seq % 32768
seq_of ch seq = omega arith

pub next_rx_seq_num_lem :
    (port : Port) (status : ℕ) → next_rx_seq_num port status ≡ (field_get 16 15 status + 1) % 32768
unfolding next_rx_seq_num
next_rx_seq_num_lem port status = ground arith

-- What the receiver reads at the four words of a header.
header_words :
    (a b c d : ℕ) (rest : List ℕ)
    → (get_le32 (ccci_header a b c d ++ rest) 0 ≡ a % 4294967296)
      × (get_le32 (ccci_header a b c d ++ rest) 4 ≡ b % 4294967296)
      × (get_le32 (ccci_header a b c d ++ rest) 8 ≡ c % 4294967296)
      × (get_le32 (ccci_header a b c d ++ rest) 12 ≡ d % 4294967296)
header_words a b c d rest = (word a [], word b [], word c [], word d [])

-- What a receiving port `r` reads off the bytes: the channel, the sequence number to expect next,
-- the two words of the packet header, the exception word, and the payload.
abbrev pub Reads : List ℕ → Port → ℕ → ℕ → ℕ → ℕ → ℕ → List ℕ → Type 0
Reads bytes r channel next header len ex payload =
    let got : SkBuff = record { id = 0; bytes = bytes } in
    (skb_channel got ≡ channel)
    × (next_rx_seq_num r (skb_status got) ≡ next)
    × (get_le32 bytes 0 ≡ header)
    × (get_le32 bytes 4 ≡ len)
    × (get_le32 bytes 12 ≡ ex)
    × (drop 16 bytes ≡ payload)

Reads-ccci_header :
    (r : Port) (ch seq h n ex : ℕ) (payload : List ℕ)
    → Reads
        (ccci_header h (u32 n) (ccci_status ch seq) ex ++ payload)
        r
        (ch % 65536)
        (u16 (seq + 1) % 32768)
        (h % 4294967296)
        (n % 4294967296)
        (ex % 4294967296)
        payload
Reads-ccci_header r ch seq h n ex payload =
    let (w0, w4, w8, w12) = header_words h (u32 n) (ccci_status ch seq) ex payload in
    (
      ap (λ w. field_get 0 16 w) w8 ∙ channel_of ch seq,
      next_rx_seq_num_lem r _
          ∙ ap (λ w. (field_get 16 15 w + 1) % 32768) w8
          ∙ ap (λ w. (w + 1) % 32768) (seq_of ch seq)
          ∙ omega arith,
      w0,
      w4 ∙ omega arith,
      w12,
      refl,
    )

module _ (cldma : CldmaId → ℕ → List ℕ → Ret) (md_state : MdState) where
  -- A port whose skb the modem queues take hands over one buffer, from which every receiving port,
  -- whatever it expected, reads the sender's transmit channel, the sender's next sequence number
  -- (on 15 bits) as the one to expect next, the packet header, the length with the header's 16
  -- bytes, the exception word, and exactly the sender's bytes as payload.
  pub send_ccci_skb_received :
      (port : Port) (skb : SkBuff) (pkt_header ex_msg : ℕ) (q r : Port)
      → send_ccci_skb cldma md_state port skb pkt_header ex_msg ≡ (ok, q)
      → (bytes : List ℕ) × (q.calls
          ≡ cldma_send_skb port.conf.path_id (get_queue_no port md_state) bytes ∷ port.calls)
        × Reads bytes r
            (port.conf.tx_ch % 65536)
            (q.seq_tx % 32768)
            (pkt_header % 4294967296)
            ((length skb.bytes + 16) % 4294967296)
            (ex_msg % 4294967296)
            skb.bytes
  unfolding send_ccci_skb send_raw_skb
  send_ccci_skb_received port skb pkt_header ex_msg q r h =
      let bytes =
        ccci_header pkt_header (u32 (length skb.bytes + 16))
          (ccci_status port.conf.tx_ch port.seq_tx) ex_msg
        ++ skb.bytes in
      let (c, n) = by_answer (cldma port.conf.path_id (get_queue_no port md_state) bytes) bytes h in
      let reads =
        Reads-ccci_header r port.conf.tx_ch port.seq_tx pkt_header (length skb.bytes + 16) ex_msg
          skb.bytes in
      (
        bytes,
        c,
        (reads.0, reads.1 ∙ ap (λ w. w % 32768) (sym n), reads.2, reads.3, reads.4, reads.5),
      )
    where
      by_answer :
          (a : Ret) (bytes : List ℕ)
          → counted cldma md_state
              (sent cldma md_state a port.conf.path_id (get_queue_no port md_state) bytes port)
            ≡ (ok, q)
          → (q.calls
              ≡ cldma_send_skb port.conf.path_id (get_queue_no port md_state) bytes ∷ port.calls)
            × (q.seq_tx ≡ u16 (port.seq_tx + 1))
      by_answer ok bytes h = (ap (λ a. a.1.calls) (sym h), ap (λ a. a.1.seq_tx) (sym h))
      by_answer (fail e) bytes h = absurd (fail-ok e (ap (λ a. a.0) h))
