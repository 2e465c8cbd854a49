-- ===== src/Modem/Listing.antt =====
-- What the feature messages of src/t7xx_modem_ops.c list and demand.
use mtk_t7xx_fix.Prelude.{
  subst, ℕ, zero, suc, ◌+◌, ◌*◌, ◌≤◌, ◌<◌, ◌≡◌, refl, sym, ap, ◌∙◌, arith, Bool, true, false, not,
  ◌&&◌, ◌||◌, Option, none, some, List, [], ◌∷◌, length, ltb, leb, ◌==◌, if-by, Ret, ok, fail-ok,
  einval, Bool-cases, inl, inr, ℕ_discrete,
}
use mtk_t7xx_fix.Modem.Features.{
  le32, query_id, feature_count, query_size, must_be_supported, feature_msk, Memory, RtFeature,
  rt_features, rt_data_len, prepare_device_rt_data, below, next_feature, supports, parse_from,
  parse_host_rt_data,
}

-- An answer names a feature.
abbrev pub names : ℕ → List RtFeature → Bool
names i [] = false
names i (f ∷ fs) = f.feature_id == i || names i fs

rt_features_size : (md : Memory) (n i : ℕ) → rt_data_len md n i ≡ 8 * length (rt_features md n i)
unfolding rt_data_len rt_features
rt_features_size md zero i = refl
rt_features_size md (suc n) i = elim (Bool-cases (feature_msk (md i) == must_be_supported)) [
  | inl e ↦ rw e (rt_features_size md n (suc i))
  | inr e ↦ rw e (omega (arith, rt_features_size md n (suc i)))
]

left_out :
    (i k n : ℕ) (c : Bool)
    → (i ≡ k → c ≡ true)
    → leb (suc i) k && ltb k (suc i + n) && not c ≡ leb i k && ltb k (i + suc n) && not c
left_out i k n c h = elim (ℕ_discrete i k) [ yes e ↦ ground (arith, h e) | no x ↦ ground arith ]

listed :
    (i k n : ℕ) (c : Bool)
    → (i ≡ k → c ≡ false)
    → (i == k || leb (suc i) k && ltb k (suc i + n) && not c)
      ≡ leb i k && ltb k (i + suc n) && not c
listed i k n c h = elim (ℕ_discrete i k) [ yes e ↦ ground (arith, h e) | no x ↦ ground arith ]

names-rt_features :
    (md : Memory) (n i k : ℕ)
    → names k (rt_features md n i)
      ≡ leb i k && ltb k (i + n) && not (feature_msk (md k) == must_be_supported)
unfolding rt_features
names-rt_features md zero i k = none_left (not (feature_msk (md k) == must_be_supported))
  where
    none_left : (b : Bool) → false ≡ leb i k && ltb k (i + 0) && b
    none_left b = ground arith
names-rt_features md (suc n) i k =
    let rest = names-rt_features md n (suc i) k in
    let needed = λ (j : ℕ). feature_msk (md j) == must_be_supported in
    if-by (λ fs. names k fs ≡ leb i k && ltb k (i + suc n) && not (needed k)) (needed i) _ _
      (λ b. rest ∙ left_out i k n (needed k) (λ e. ap needed (sym e) ∙ b))
      (λ b. ap (λ x. i == k || x) rest ∙ listed i k n (needed k) (λ e. ap needed (sym e) ∙ b))

-- What is said of an answer.
abbrev Answers : Memory → Ret × Option (ℕ × List RtFeature) → Type 0
Answers msg (ret, none) = Unit
Answers msg (ret, some (size, fs)) =
    (ret ≡ ok)
    × (size ≡ 8 * length fs)
    × ((k : ℕ)
        → names k fs ≡ ltb k feature_count && not (feature_msk (msg (4 + k)) == must_be_supported))

prepare_device_rt_data-Answers : (msg : Memory) → Answers msg (prepare_device_rt_data true msg)
unfolding prepare_device_rt_data
prepare_device_rt_data-Answers msg =
    let md : Memory = λ i. msg (4 + i) in
    if-by (Answers msg) (not (le32 msg 0 == query_id) || not (le32 msg 68 == query_id)) _ _
      (λ _. tt)
      (λ _. (
        refl,
        rt_features_size md 64 0,
        λ k.
            names-rt_features md 64 0 k
            ∙ from_zero k (not (feature_msk (md k) == must_be_supported)),
      ))
  where
    from_zero : (k : ℕ) (b : Bool) → leb 0 k && ltb k (0 + 64) && b ≡ ltb k 64 && b
    from_zero k b = ground arith

-- The answer to a query, if one is sent, is as long as its features need, and names exactly those of the
-- 64 features that the query does not demand.
pub prepare_device_rt_data-names :
    (msg : Memory) (size : ℕ) (fs : List RtFeature) (ret : Ret)
    → prepare_device_rt_data true msg ≡ (ret, some (size, fs))
    → (ret ≡ ok)
      × (size ≡ 8 * length fs)
      × ((k : ℕ)
          → names k fs
            ≡ ltb k feature_count && not (feature_msk (msg (4 + k)) == must_be_supported))
prepare_device_rt_data-names msg size fs ret e =
    subst (Answers msg) e (prepare_device_rt_data-Answers msg)

-- The offset of the feature `k` places after the one at an offset.
abbrev pub nth_feature : Memory → ℕ → ℕ → ℕ
nth_feature msg zero offset = offset
nth_feature msg (suc k) offset = nth_feature msg k (next_feature msg offset)

-- The message goes on up to that feature.
abbrev pub Reaches : Memory → ℕ → ℕ → ℕ → Type 0
Reaches msg msg_length offset k =
    (j : ℕ) → j ≤ k → below (nth_feature msg j offset) msg_length ≡ true

-- Every demanded feature among the `n` from the feature `i` on that the message has is supported.
abbrev pub Supported : Memory → Memory → ℕ → ℕ → ℕ → ℕ → Type 0
Supported host msg msg_length n i offset =
    (k : ℕ)
    → k < n
    → Reaches msg msg_length offset k
    → feature_msk (host (i + k)) == must_be_supported ≡ true
    → supports msg (nth_feature msg k offset) ≡ true

module _ (host msg : Memory) (msg_length : ℕ) where
  false-true : false ≡ true → ⊥
  false-true e = cc

  undo : (b : Bool) → not b ≡ false → b ≡ true
  undo true e = refl
  undo false e = absurd (false-true (sym e))

  clash : (b : Bool) → not b ≡ true → b ≡ true → ⊥
  clash true e h = false-true e
  clash false e h = false-true h

  Supported-suc :
      (n i offset : ℕ)
      → (feature_msk (host i) == must_be_supported ≡ true → supports msg offset ≡ true)
      → Supported host msg msg_length n (suc i) (next_feature msg offset)
      → Supported host msg msg_length (suc n) i offset
  Supported-suc n i offset h rest zero l r d =
      h (ap (λ j. feature_msk (host j) == must_be_supported) (zero_more i) ∙ d)
    where
      zero_more : (i : ℕ) → i ≡ i + 0
      zero_more i = omega arith
  Supported-suc n i offset h rest (suc k) l r d =
      rest k (omega arith) (λ j m. r (suc j) (omega arith))
        (ap (λ j. feature_msk (host j) == must_be_supported) (one_more i k) ∙ d)
    where
      one_more : (i k : ℕ) → suc i + k ≡ i + suc k
      one_more i k = omega arith

  parse_from-Supported :
      (n i offset : ℕ)
      → (parse_from host msg msg_length n i offset).0 ≡ ok
      → Supported host msg msg_length n i offset
  unfolding parse_from
  parse_from-Supported zero i offset = λ _ k l. absurd (omega arith)
  parse_from-Supported (suc n) i offset =
      let P : Ret × List ℕ → Type 0 =
        λ x. x.0 ≡ ok → Supported host msg msg_length (suc n) i offset in
      let rest = parse_from-Supported n (suc i) (next_feature msg offset) in
      if-by P (not (below offset msg_length)) _ _
        (λ b _ k l r d. absurd (clash (below offset msg_length) b (r 0 (omega arith))))
        (λ _.
          if-by P (not (feature_msk (host i) == must_be_supported)) _ _
            (λ b good.
              Supported-suc n i offset
                (λ d. absurd (clash (feature_msk (host i) == must_be_supported) b d)) (rest good))
            (λ _.
              if-by P (not (supports msg offset)) _ _ (λ _ e. absurd (fail-ok einval e))
                (λ s good.
                  Supported-suc n i offset (λ _. undo (supports msg offset) s) (rest good))))

  Supported-rest :
      (n i offset : ℕ)
      → below offset msg_length ≡ true
      → Supported host msg msg_length (suc n) i offset
      → Supported host msg msg_length n (suc i) (next_feature msg offset)
  Supported-rest n i offset b h k l r d =
      h (suc k) (omega arith) reach
        (ap (λ j. feature_msk (host j) == must_be_supported) (one_less i k) ∙ d)
    where
      one_less : (i k : ℕ) → i + suc k ≡ suc i + k
      one_less i k = omega arith

      reach : Reaches msg msg_length offset (suc k)
      reach zero m = b
      reach (suc j) m = r j (omega arith)

  parse_from-ok :
      (n i offset : ℕ)
      → Supported host msg msg_length n i offset
      → (parse_from host msg msg_length n i offset).0 ≡ ok
  unfolding parse_from
  parse_from-ok zero i offset h = refl
  parse_from-ok (suc n) i offset h =
      let P : Ret × List ℕ → Type 0 = λ x. x.0 ≡ ok in
      let rest = λ (b : below offset msg_length ≡ true).
        parse_from-ok n (suc i) (next_feature msg offset) (Supported-rest n i offset b h) in
      if-by P (not (below offset msg_length)) _ _ (λ _. refl)
        (λ b.
          let in_msg = undo (below offset msg_length) b in
          if-by P (not (feature_msk (host i) == must_be_supported)) _ _ (λ _. rest in_msg)
            (λ d.
              if-by P (not (supports msg offset)) _ _
                (λ s. absurd (
                  clash (supports msg offset) s
                    (first in_msg (undo (feature_msk (host i) == must_be_supported) d))))
                (λ _. rest in_msg)))
    where
      zero_more : (i : ℕ) → i + 0 ≡ i
      zero_more i = omega arith

      start : below offset msg_length ≡ true → Reaches msg msg_length offset 0
      start b zero m = b
      start b (suc j) m = absurd (omega arith)

      first :
          below offset msg_length ≡ true
          → feature_msk (host i) == must_be_supported ≡ true
          → supports msg offset ≡ true
      first b d =
          h 0 (omega arith) (start b)
            (ap (λ j. feature_msk (host j) == must_be_supported) (zero_more i) ∙ d)

  -- The host accepts the modem's features exactly when each of the 64 features that the host demands
  -- and that the message reaches is marked as supported.
  pub parse_host_rt_data_lem :
      ((parse_host_rt_data host msg msg_length).0 ≡ ok
        → Supported host msg msg_length feature_count 0 query_size)
      × (Supported host msg msg_length feature_count 0 query_size
          → (parse_host_rt_data host msg msg_length).0 ≡ ok)
  unfolding parse_host_rt_data
  parse_host_rt_data_lem = (parse_from-Supported 64 0 72, parse_from-ok 64 0 72)
