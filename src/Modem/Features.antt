-- ===== src/Modem/Features.antt =====
-- The runtime feature messages of src/t7xx_modem_ops.c.
use mtk_t7xx_fix.Prelude.{
  ℕ, zero, suc, ◌+◌, ◌*◌, ◌%◌, Bool, not, ◌||◌, Option, none, some, List, [], ◌∷◌, ltb, ◌==◌,
  if◌then◌else◌, u32, is_neg, Ret, ok, fail, einval, enomem,
}

abbrev pub feature_count : ℕ
feature_count = 64

-- MD_FEATURE_QUERY_ID and sizeof(struct feature_query).
abbrev pub query_id : ℕ
query_id = 0x49434343

abbrev pub query_size : ℕ
query_size = 72

-- MTK_FEATURE_DOES_NOT_EXIST and MTK_FEATURE_MUST_BE_SUPPORTED.
abbrev pub does_not_exist : ℕ
does_not_exist = 0

abbrev pub must_be_supported : ℕ
must_be_supported = 2

-- FIELD_GET(FEATURE_MSK, v).
abbrev pub feature_msk : ℕ → ℕ
feature_msk v = v % 16

-- A message in memory: the byte at an offset, a 32-bit pattern; those from 2^31 on lie before the
-- message.
abbrev pub Memory : Type 0
Memory = ℕ → ℕ

abbrev pub le32 : Memory → ℕ → ℕ
le32 msg o =
    msg (u32 o) + msg (u32 (o + 1)) * 256 + msg (u32 (o + 2)) * 65536 + msg (u32 (o + 3)) * 16777216

-- `struct mtk_runtime_feature` of an answer; its `data_len` is 0.
pub record RtFeature : Type 0 where
  pub feature_id : ℕ
  pub support_info : ℕ

-- The features of `n` entries from the entry `i` on; `md` is the feature set that the modem sent.
unfoldable pub rt_features : Memory → ℕ → ℕ → List RtFeature
rt_features md zero i = []
rt_features md (suc n) i =
    let rest = rt_features md n (suc i) in
    let mask = feature_msk (md i) in
    if mask == must_be_supported
    then rest
    else record { feature_id = i; support_info = if mask == does_not_exist then md i else 0 } ∷ rest

-- The first loop, which counts the bytes of the answer.
unfoldable pub rt_data_len : Memory → ℕ → ℕ → ℕ
rt_data_len md zero i = 0
rt_data_len md (suc n) i =
    let rest = rt_data_len md n (suc i) in
    if feature_msk (md i) == must_be_supported then rest else 8 + rest

-- `alloc` tells whether the skb can be allocated. The HS3 message sent, with its size.
unfoldable pub prepare_device_rt_data : Bool → Memory → Ret × Option (ℕ × List RtFeature)
unfolding rt_features rt_data_len
prepare_device_rt_data alloc msg =
    let md = λ (i : ℕ). msg (4 + i) in
    if not (le32 msg 0 == query_id) || not (le32 msg 68 == query_id)
    then (fail einval, none)
    else if not alloc
    then (fail enomem, none)
    else (ok, some (rt_data_len md feature_count 0, rt_features md feature_count 0))

-- `offset < msg_length`, on `int`.
abbrev pub below : ℕ → ℕ → Bool
below offset msg_length = is_neg offset || ltb offset msg_length

-- The offset behind the feature at an offset.
abbrev pub next_feature : Memory → ℕ → ℕ
next_feature msg offset = u32 (offset + 8 + le32 msg (offset + 4))

abbrev pub supports : Memory → ℕ → Bool
supports msg offset = feature_msk (msg (u32 (offset + 1))) == must_be_supported

-- The loop, for `n` features from the feature `i` at an offset on. `host` is the feature set of the
-- core. With the offsets handed to t7xx_port_enum_msg_handler.
unfoldable pub parse_from : Memory → Memory → ℕ → ℕ → ℕ → ℕ → Ret × List ℕ
parse_from host msg msg_length zero i offset = (ok, [])
parse_from host msg msg_length (suc n) i offset =
    let (ret, ports) = parse_from host msg msg_length n (suc i) (next_feature msg offset) in
    if not (below offset msg_length)
    then (ok, [])
    else if not (feature_msk (host i) == must_be_supported)
    then (ret, ports)
    else if not (supports msg offset)
    then (fail einval, [])
    else (ret, if ltb i 2 then u32 (offset + 8) ∷ ports else ports)

unfoldable pub parse_host_rt_data : Memory → Memory → ℕ → Ret × List ℕ
unfolding parse_from
parse_host_rt_data host msg msg_length = parse_from host msg msg_length feature_count 0 query_size
