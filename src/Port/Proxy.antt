-- ===== src/Port/Proxy.antt =====
-- The proxy of src/t7xx_port_proxy.c: the port table with its mapping from channels, the dispatch of
-- received skbs, sequence numbers, and the operations on all ports.
use mathlib.Core.Logic.{ite}
use mtk_t7xx_fix.Prelude.{
  ℕ, suc, ◌+◌, ◌%◌, Bool, true, false, not, ◌&&◌, ◌||◌, Option, none, some, List, [], ◌∷◌, ◌++◌,
  map, get_or, get_elem?, set, replicate, drop, ◌==◌, field_get, test_bit, if◌then◌else◌, Ret, ok,
  fail, einval, enobufs,
}
use mtk_t7xx_fix.Fsm.State.{MdState, md_invalid}
use mtk_t7xx_fix.Port.State.{CldmaId, CldmaId-discrete, SkBuff, Port, invalid_seq_num, get_le32}
use mtk_t7xx_fix.Port.Wwan.{recv_op, uninit_op, enable_op}

-- `enum port_cfg_id`
pub data PortCfgId : Type 0 where
  cfg_invalid cfg_normal cfg_early : PortCfgId

-- `struct port_proxy`; a port is named by its place in `ports`, and the lists of `rx_ch_ports` hold
-- such names. `spare` holds the elements of the array behind the first `port_count`, the
-- skbs that were freed without a port, the latest first.
pub record PortProxy : Type 0 where
  pub ports : List Port
  pub spare : List Port
  pub rx_ch_ports : List (List ℕ)
  pub cfg_id : PortCfgId
  pub dropped : List ℕ

-- t7xx_proxy_get_port_by_ch, from the port with number `i` on.
unfoldable pub get_port_by_ch : ℕ → ℕ → List Port → Option ℕ
get_port_by_ch ch i [] = none
get_port_by_ch ch i (port ∷ rest) =
    let later = get_port_by_ch ch (suc i) rest in
    if port.conf.rx_ch == ch || port.conf.tx_ch == ch then some i else later

-- The sequence number that is expected next; an unexpected one is only reported.
unfoldable pub next_rx_seq_num : Port → ℕ → ℕ
next_rx_seq_num port status =
    let seq_num = field_get 16 15 status in
    let next_seq_num = (seq_num + 1) % 32768 in
    if not (test_bit 31 status) || port.seq_rx == invalid_seq_num
    then next_seq_num
    else if seq_num == port.seq_rx
    then next_seq_num
    else next_seq_num

abbrev reset_port : Port → Port
reset_port port = record port { seq_rx = invalid_seq_num; seq_tx = 0 }

unfoldable pub proxy_reset : PortProxy → PortProxy
proxy_reset prox = record prox { ports = map reset_port (prox.ports) }

unfoldable pub struct_init : Port → Port
struct_init port = record port {
  rx_skb_list = [];
  seq_rx = invalid_seq_num;
  seq_tx = 0;
  usage_cnt = 0;
}

-- PORT_CH_ID_MASK
abbrev pub ch_id : ℕ → ℕ
ch_id channel = field_get 0 8 channel

-- The loop of t7xx_proxy_setup_ch_mapping over the ports, for the receive channels.
unfoldable pub map_channels : List Port → ℕ → List (List ℕ) → List (List ℕ)
map_channels [] i lists = lists
map_channels (port ∷ rest) i lists =
    let c = ch_id port.conf.rx_ch in
    map_channels rest (suc i) (set lists c (get_or lists c [] ++ (i ∷ [])))

-- The lists `queue_ports`, which nothing reads, are left out.
unfoldable pub setup_ch_mapping : PortProxy → PortProxy
unfolding map_channels
setup_ch_mapping prox = record prox { rx_ch_ports = map_channels prox.ports 0 (replicate 256 []) }

-- `queue->md_ctrl->hif_id == port_conf->path_id && channel == port_conf->rx_ch`
abbrev pub serves : CldmaId → ℕ → Port → Bool
serves hif_id channel port =
    ite (CldmaId-discrete hif_id port.conf.path_id) true false && channel == port.conf.rx_ch

-- A name that stands for no port serves nothing.
abbrev pub serves_at : List Port → CldmaId → ℕ → ℕ → Bool
serves_at ports hif_id channel p = elim (get_elem? ports p) [
  | none ↦ false
  | some port ↦ serves hif_id channel port
]

-- The loop of t7xx_port_proxy_find_port over one list of names.
unfoldable pub find_in : List Port → CldmaId → ℕ → List ℕ → Option ℕ
find_in ports hif_id channel [] = none
find_in ports hif_id channel (p ∷ rest) =
    let later = find_in ports hif_id channel rest in
    if serves_at ports hif_id channel p then some p else later

unfoldable pub find_port : PortProxy → CldmaId → ℕ → Option ℕ
unfolding find_in
find_port prox hif_id channel =
    find_in prox.ports hif_id channel (get_or prox.rx_ch_ports (ch_id channel) [])

abbrev pub set_port : PortProxy → ℕ → Port → PortProxy
set_port prox p port = record prox { ports = set prox.ports p port }

abbrev pub drop_skb : PortProxy → SkBuff → PortProxy
drop_skb prox skb = record prox { dropped = skb.id ∷ prox.dropped }

-- CCCI_H_CHN_FLD of the header's status word.
abbrev pub skb_status : SkBuff → ℕ
skb_status skb = get_le32 skb.bytes 8

abbrev pub skb_channel : SkBuff → ℕ
skb_channel skb = field_get 0 16 (skb_status skb)

-- What follows the call of `recv_skb`, at the port that it leaves.
unfoldable pub after_recv : PortProxy → ℕ → ℕ → Ret × Port → Ret × PortProxy
after_recv prox p seq_num (ok, port) = (ok, set_port prox p (record port { seq_rx = seq_num }))
after_recv prox p seq_num (fail e, port) = (fail e, set_port prox p port)

-- The port is known: without a port of that name the skb is dropped.
unfoldable pub deliver : PortProxy → SkBuff → ℕ → Option Port → Ret × PortProxy
unfolding after_recv
deliver prox skb p none = (ok, drop_skb prox skb)
deliver prox skb p (some port) =
    after_recv prox p (next_rx_seq_num port (skb_status skb))
      (recv_op port.conf.ops port (record skb { bytes = drop 16 skb.bytes }))

unfoldable pub dispatch : PortProxy → SkBuff → Option ℕ → Ret × PortProxy
unfolding deliver
dispatch prox skb none = (ok, drop_skb prox skb)
dispatch prox skb (some p) = deliver prox skb p (get_elem? prox.ports p)

abbrev pub is_md_invalid : MdState → Bool
is_md_invalid md_invalid = true
is_md_invalid _ = false

unfoldable pub recv_skb : PortProxy → MdState → CldmaId → SkBuff → Ret × PortProxy
unfolding dispatch
recv_skb prox md_state hif_id skb =
    if is_md_invalid md_state
    then (ok, drop_skb prox skb)
    else dispatch prox skb (find_port prox hif_id (skb_channel skb))

-- `ret < 0 && ret != -ENOBUFS`
abbrev pub is_fatal : Ret → Bool
is_fatal ok = false
is_fatal (fail enobufs) = false
is_fatal (fail _) = true

abbrev pub end_dedicated : PortProxy → SkBuff → Ret × Port → Ret × PortProxy
end_dedicated prox skb (ret, port) =
    (ret, if is_fatal ret then drop_skb (set_port prox 0 port) skb else set_port prox 0 port)

-- The first port is the fastboot port.
unfoldable pub recv_dedicated : PortProxy → ℕ → SkBuff → Option Port → Ret × PortProxy
recv_dedicated prox queue_index skb none = (fail einval, drop_skb prox skb)
recv_dedicated prox queue_index skb (some port) =
    if port.conf.rxq_index == queue_index
    then end_dedicated prox skb (recv_op port.conf.ops port skb)
    else (fail einval, drop_skb prox skb)

unfoldable pub recv_skb_from_dedicated_queue : PortProxy → ℕ → SkBuff → Ret × PortProxy
unfolding recv_dedicated
recv_skb_from_dedicated_queue prox queue_index skb =
    recv_dedicated prox queue_index skb (get_elem? prox.ports 0)

abbrev pub enable_at : PortProxy → Bool → Option ℕ → Ret × PortProxy
enable_at prox en_flag none = (fail einval, prox)
enable_at prox en_flag (some p) = elim (get_elem? prox.ports p) [
  | none ↦ (fail einval, prox)
  | some port ↦ (ok, set_port prox p (enable_op port.conf.ops en_flag port))
]

unfoldable pub chl_enable_disable : PortProxy → ℕ → Bool → Ret × PortProxy
unfolding get_port_by_ch
chl_enable_disable prox ch en_flag = enable_at prox en_flag (get_port_by_ch ch 0 prox.ports)

abbrev uninit_port : Port → Port
uninit_port port = uninit_op port.conf.ops port

unfoldable pub proxy_uninit : PortProxy → PortProxy
proxy_uninit prox = record prox { ports = map uninit_port (prox.ports) }
