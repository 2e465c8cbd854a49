-- ===== src/Receive/Frames.antt =====
-- What the receive path of src/t7xx_hif_dpmaif_rx.c leaves alone.
use mtk_t7xx_fix.Prelude.{
  ◌≤◌, ◌<◌, subst, ℕ, suc, ◌+◌, ◌≡◌, refl, sym, ◌∙◌, arith, Bool, List, [], ◌∷◌, ◌==◌, field_get,
  if◌then◌else◌, if-by, Option-by, Ret, ok, fail,
}
use mtk_t7xx_fix.Receive.State.{Pit, RxSkb, RxCall, napi_complete_done, Rxq, RxEnv}
use mtk_t7xx_fix.Receive.Payload.{get_rx_pkt, get_frag, get_payload, rx_skb}
use mtk_t7xx_fix.Receive.Pits.{check_pit_seq, release_pit_entry, pit_release_and_add, rx_notify_hw}
use mtk_t7xx_fix.Receive.Collect.{note_payload, end_packet, take_pit}

-- How often a poll was completed.
abbrev pub completions : List RxCall → ℕ
completions [] = 0
completions (napi_complete_done n ∷ cs) = suc (completions cs)
completions (_ ∷ cs) = completions cs

-- The queue is started or not as before, waits for the sleep lock as before, and no poll was completed.
abbrev pub Frame : Rxq → Rxq → Type 0
Frame a b =
    (b.que_started ≡ a.que_started)
    × (b.sleep_lock_pending ≡ a.sleep_lock_pending)
    × (completions b.calls ≡ completions a.calls)

pub Frame-trans : (a b c : Rxq) → Frame a b → Frame b c → Frame a c
Frame-trans a b c (p, q, r) (p', q', r') = (p' ∙ p, q' ∙ q, r' ∙ r)

abbrev same : (a : Rxq) → Frame a a
same a = (refl, refl, refl)

get_rx_pkt-Frame : (env : RxEnv) (pit : Pit) (a : Rxq) → Frame a (get_rx_pkt env pit a).1
unfolding get_rx_pkt
get_rx_pkt-Frame env pit a = ground arith

get_frag-Frame : (pit : Pit) (skb : RxSkb) (a : Rxq) → Frame a (get_frag pit skb a).1
unfolding get_frag
get_frag-Frame pit skb a = ground arith

get_payload-Frame : (env : RxEnv) (pit : Pit) (a : Rxq) → Frame a (get_payload env pit a).1
unfolding get_payload
get_payload-Frame env pit a =
    if-by (λ (x : Ret × Rxq). Frame a x.1) (field_get 2 1 pit.header == 1) _ _
      (λ _.
        Option-by (λ (x : Ret × Rxq). Frame a x.1) a.rx_data_info.cur_skb _ _ (λ _. same a)
          (λ skb _. get_frag-Frame pit skb a))
      (λ _. get_rx_pkt-Frame env pit a)

note_payload-Frame : (r : Ret) (a : Rxq) → Frame a (note_payload r a)
note_payload-Frame ok a = same a
note_payload-Frame (fail e) a = (refl, refl, refl)

end_packet-Frame : (a : Rxq) → Frame a (end_packet a)
unfolding end_packet rx_skb
end_packet-Frame a = ground arith

pub take_pit-Frame :
    (env : RxEnv) (pit : Pit) (r : Ret) (n : ℕ) (a : Rxq) → Frame a (take_pit env pit r n a).2
unfolding take_pit
take_pit-Frame env pit r n a =
    let P : Ret × ℕ × Rxq → Type 0 = λ x. Frame a x.2 in
    let (got, b) = get_payload env pit a in
    let noted =
      Frame-trans a b (note_payload got b) (get_payload-Frame env pit a)
        (note_payload-Frame got b) in
    if-by P (field_get 0 1 pit.header == 1) _ _ (λ _. (refl, refl, refl))
      (λ _.
        if-by P (field_get 1 1 pit.header == 0) _ _
          (λ _.
            Frame-trans a (note_payload got b) (end_packet (note_payload got b)) noted
              (end_packet-Frame (note_payload got b)))
          (λ _. noted))

pub rx_notify_hw-Frame : (env : RxEnv) (a : Rxq) → Frame a (rx_notify_hw env a).1
unfolding rx_notify_hw pit_release_and_add release_pit_entry
rx_notify_hw-Frame env a = ground arith

pub check_pit_seq-Frame : (pit : Pit) (a : Rxq) → Frame a (check_pit_seq pit a).1
unfolding check_pit_seq
check_pit_seq-Frame pit a = ground arith

-- A packet that was announced stays so.
abbrev announced : Rxq → Bool
announced a = a.rx_data_info.msg_pit_received

get_rx_pkt-announced :
    (env : RxEnv) (pit : Pit) (a : Rxq) → announced (get_rx_pkt env pit a).1 ≡ announced a
unfolding get_rx_pkt
get_rx_pkt-announced env pit a = ground arith

get_frag-announced :
    (pit : Pit) (skb : RxSkb) (a : Rxq) → announced (get_frag pit skb a).1 ≡ announced a
unfolding get_frag
get_frag-announced pit skb a = ground arith

payload-announced :
    (env : RxEnv) (pit : Pit) (a : Rxq)
    → announced (note_payload (get_payload env pit a).0 (get_payload env pit a).1) ≡ announced a
unfolding get_payload
payload-announced env pit a =
    let P : Ret × Rxq → Type 0 = λ x. announced (note_payload x.0 x.1) ≡ announced a in
    if-by P (field_get 2 1 pit.header == 1) _ _
      (λ _.
        Option-by P a.rx_data_info.cur_skb _ _ (λ _. refl)
          (λ skb _. noted (get_frag pit skb a) ∙ get_frag-announced pit skb a))
      (λ _. noted (get_rx_pkt env pit a) ∙ get_rx_pkt-announced env pit a)
  where
    noted : (x : Ret × Rxq) → announced (note_payload x.0 x.1) ≡ announced x.1
    noted (ok, b) = refl
    noted (fail e, b) = refl

pub rx_notify_hw-announced :
    (env : RxEnv) (a : Rxq) → announced (rx_notify_hw env a).1 ≡ announced a
unfolding rx_notify_hw pit_release_and_add release_pit_entry
rx_notify_hw-announced env a = ground arith

-- The packets of a run fit into the budget, the announced one too.
abbrev pub Fits : ℕ → ℕ → Rxq → Type 0
Fits budget n a = n + (if a.rx_data_info.msg_pit_received then 1 else 0) ≤ budget

pub take_pit-Fits :
    (env : RxEnv) (pit : Pit) (budget : ℕ) (r : Ret) (n : ℕ) (a : Rxq)
    → n < budget
    → budget < 4294967296
    → Fits budget n a
    → Fits budget (take_pit env pit r n a).1 (take_pit env pit r n a).2
unfolding take_pit end_packet
take_pit-Fits env pit budget r n a room small h =
    let P : Ret × ℕ × Rxq → Type 0 = λ x. Fits budget x.1 x.2 in
    if-by P (field_get 0 1 pit.header == 1) _ _ (λ _. omega arith)
      (λ _.
        if-by P (field_get 1 1 pit.header == 0) _ _ (λ _. omega arith)
          (λ _.
            subst (λ m. n + (if m then 1 else 0) ≤ budget) (sym (payload-announced env pit a)) h))

-- The indices of the PIT ring stand still.
abbrev pub Still : Rxq → Rxq → Type 0
Still a b =
    (b.que_started ≡ a.que_started)
    × (b.pit_size_cnt ≡ a.pit_size_cnt)
    × (b.pit_rd_idx ≡ a.pit_rd_idx)
    × (b.pit_wr_idx ≡ a.pit_wr_idx)
    × (b.pit_release_rd_idx ≡ a.pit_release_rd_idx)
    × (b.pit_remain_release_cnt ≡ a.pit_remain_release_cnt)

Still-trans : (a b c : Rxq) → Still a b → Still b c → Still a c
Still-trans a b c (p, q, r, s, t, u) (p', q', r', s', t', u') =
    (p' ∙ p, q' ∙ q, r' ∙ r, s' ∙ s, t' ∙ t, u' ∙ u)

abbrev still : (a : Rxq) → Still a a
still a = (refl, refl, refl, refl, refl, refl)

get_rx_pkt-Still : (env : RxEnv) (pit : Pit) (a : Rxq) → Still a (get_rx_pkt env pit a).1
unfolding get_rx_pkt
get_rx_pkt-Still env pit a = ground arith

get_frag-Still : (pit : Pit) (skb : RxSkb) (a : Rxq) → Still a (get_frag pit skb a).1
unfolding get_frag
get_frag-Still pit skb a = ground arith

noted-Still :
    (env : RxEnv) (pit : Pit) (a : Rxq)
    → Still a (note_payload (get_payload env pit a).0 (get_payload env pit a).1)
unfolding get_payload
noted-Still env pit a =
    let P : Ret × Rxq → Type 0 = λ x. Still a (note_payload x.0 x.1) in
    if-by P (field_get 2 1 pit.header == 1) _ _
      (λ _.
        Option-by P a.rx_data_info.cur_skb _ _ (λ _. still a)
          (λ skb _. noted (get_frag pit skb a) (get_frag-Still pit skb a)))
      (λ _. noted (get_rx_pkt env pit a) (get_rx_pkt-Still env pit a))
  where
    noted : (x : Ret × Rxq) → Still a x.1 → Still a (note_payload x.0 x.1)
    noted (ok, b) h = h
    noted (fail e, b) h = h

end_packet-Still : (a : Rxq) → Still a (end_packet a)
unfolding end_packet rx_skb
end_packet-Still a = ground arith

take_pit-Still :
    (env : RxEnv) (pit : Pit) (r : Ret) (n : ℕ) (a : Rxq) → Still a (take_pit env pit r n a).2
unfolding take_pit
take_pit-Still env pit r n a =
    let P : Ret × ℕ × Rxq → Type 0 = λ x. Still a x.2 in
    let b = note_payload (get_payload env pit a).0 (get_payload env pit a).1 in
    if-by P (field_get 0 1 pit.header == 1) _ _ (λ _. still a)
      (λ _.
        if-by P (field_get 1 1 pit.header == 0) _ _
          (λ _. Still-trans a b (end_packet b) (noted-Still env pit a) (end_packet-Still b))
          (λ _. noted-Still env pit a))

check_pit_seq-Still : (pit : Pit) (a : Rxq) → Still a (check_pit_seq pit a).1
unfolding check_pit_seq
check_pit_seq-Still pit a = ground arith

pub checked_pit-Still :
    (env : RxEnv) (pit : Pit) (r : Ret) (n : ℕ) (a : Rxq)
    → Still a (take_pit env pit r n (check_pit_seq pit a).1).2
checked_pit-Still env pit r n a =
    let b = (check_pit_seq pit a).1 in
    Still-trans a b (take_pit env pit r n b).2 (check_pit_seq-Still pit a)
      (take_pit-Still env pit r n b)
