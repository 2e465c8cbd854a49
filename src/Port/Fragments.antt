-- ===== src/Port/Fragments.antt =====
-- What reaches the modem from a write to the fastboot port (t7xx_port_fastboot_tx of
-- src/t7xx_port_wwan.c), which cuts the data into pieces.
use Prim.Native.Nat.{min}
use mtk_t7xx_fix.Prelude.{
  ℕ, zero, suc, ◌<◌, ◌≡◌, refl, sym, ap, ◌∙◌, arith, Bool, true, false, Option, none, some, List,
  [], ◌∷◌, ◌++◌, append_assoc, append-nil, length, take, drop, length-drop, take-drop, Bool-cases,
  ◌⊎◌, inl, inr, is_neg, Ret, ok, fail, Ret-cases, Errno,
}
use mtk_t7xx_fix.Fsm.State.{MdState}
use mtk_t7xx_fix.Port.State.{
  CldmaId, SkBuff, Port, Call, cldma_send_skb, dev_kfree_own, dev_kfree_skb, call,
}
use mtk_t7xx_fix.Port.Send.{get_queue_no, send_raw_skb}
use mtk_t7xx_fix.Port.Write.{
  Pieces, loop_done, no_memory, running, end_fastboot, fastboot_from, fastboot_tx,
}

-- The bytes that a call hands to the modem, and those of a whole history.
abbrev pub bytes_of : Call → List ℕ
bytes_of (cldma_send_skb path qno bytes) = bytes
bytes_of _ = []

abbrev pub stream : List Call → List ℕ
stream [] = []
stream (c ∷ rest) = stream rest ++ bytes_of c

abbrev pieces_port : Pieces → Port
pieces_port (loop_done port) = port
pieces_port (no_memory port) = port
pieces_port (running port) = port

-- A write that returns.
abbrev Returned : (Ret → Port → Type 0) → Option (Ret × Port) → Type 0
Returned P none = Unit
Returned P (some (r, port)) = P r port

-- The calls made on top of a history hand over the beginning of the data.
abbrev pub IsPrefix : List Call → List Call → List ℕ → Type 0
IsPrefix before after bytes =
    (done : List ℕ) × (rest : List ℕ) × (stream after ≡ stream before ++ done)
    × (bytes ≡ done ++ rest)

module _ (cldma : CldmaId → ℕ → List ℕ → Ret) (md_state : MdState) (alloc : ℕ → Bool) where
  nothing : (calls : List Call) (bytes : List ℕ) → IsPrefix calls calls bytes
  nothing calls bytes = ([], bytes, sym (append-nil (stream calls)), refl)

  -- Sending either hands the bytes over or changes nothing.
  send_raw_skb_cases :
      (port : Port) (skb : SkBuff)
      → (send_raw_skb cldma md_state port skb ≡ (
        ok,
        call port (cldma_send_skb port.conf.path_id (get_queue_no port md_state) skb.bytes),
      ))
        ⊎ ((e : Errno) × (send_raw_skb cldma md_state port skb ≡ (fail e, port)))
  unfolding send_raw_skb
  send_raw_skb_cases port skb =
      elim (Ret-cases (cldma port.conf.path_id (get_queue_no port md_state) skb.bytes)) [
        | inl s ↦ inl (rw s)
        | inr s ↦ inr (s.0, rw s.1)
      ]

  longer_prefix :
      (before after : List Call) (c : Call) (n : ℕ) (bytes : List ℕ)
      → bytes_of c ≡ take n bytes
      → IsPrefix (c ∷ before) after (drop n bytes)
      → IsPrefix before after bytes
  longer_prefix before after c n bytes e (done, rest, s, d) = (
    take n bytes ++ done,
    rest,
    s ∙ ap (λ b. (stream before ++ b) ++ done) e ∙ append_assoc (stream before) (take n bytes) done,
    take-drop n bytes ∙ ap (λ b. take n bytes ++ b) d ∙ sym (append_assoc (take n bytes) done rest),
  )

  failed_prefix :
      (port : Port) (bytes : List ℕ) → IsPrefix port.calls (call port dev_kfree_own).calls bytes
  failed_prefix port bytes = ([], bytes, refl, refl)

  fastboot_from-IsPrefix :
      (fuel txq_mtu : ℕ) (port : Port) (bytes : List ℕ)
      → IsPrefix port.calls
          (pieces_port (fastboot_from cldma md_state alloc fuel txq_mtu port bytes)).calls
          bytes
  unfolding fastboot_from
  fastboot_from-IsPrefix zero txq_mtu port bytes = nothing port.calls bytes
  fastboot_from-IsPrefix (suc fuel) txq_mtu port [] = nothing port.calls []
  fastboot_from-IsPrefix (suc fuel) txq_mtu port (x ∷ xs) =
      let len = min (length (x ∷ xs)) txq_mtu in
      let piece = take len (x ∷ xs) in
      let sent = cldma_send_skb port.conf.path_id (get_queue_no port md_state) piece in
      let left = drop len (x ∷ xs) in
      let later = fastboot_from cldma md_state alloc fuel txq_mtu (call port sent) left in
      let ih = fastboot_from-IsPrefix fuel txq_mtu (call port sent) left in
      elim (Bool-cases (alloc (length (x ∷ xs)))) [
        | inl e ↦ elim (send_raw_skb_cases port (record { id = 0; bytes = piece })) [
          | inl s ↦
              rw (e, s, ap (λ r. r.1) s)
                (longer_prefix port.calls (pieces_port later).calls sent len (x ∷ xs) refl ih)
          | inr s ↦ rw (e, s.1, ap (λ r. r.1) s.1) (failed_prefix port (x ∷ xs))
        ]
        | inr e ↦ rw e (nothing port.calls (x ∷ xs))
      ]

  -- Whatever the queues answer and wherever memory is missing, the bytes that a write to the fastboot
  -- port has handed to the modem when it returns are a beginning of the written data, in its
  -- order, behind what was handed over before.
  pub fastboot_tx-IsPrefix :
      (txq_mtu : ℕ) (port : Port) (skb : SkBuff)
      → Returned
          (λ r q. IsPrefix port.calls q.calls skb.bytes)
          (fastboot_tx cldma md_state alloc txq_mtu port skb)
  unfolding fastboot_tx
  fastboot_tx-IsPrefix txq_mtu port skb =
      let fuel = suc (length skb.bytes) in
      elim (Bool-cases (is_neg txq_mtu)) [
        | inl e ↦ rw e (nothing port.calls skb.bytes)
        | inr e ↦ rw e (
            ended (fastboot_from cldma md_state alloc fuel txq_mtu port skb.bytes)
              (fastboot_from-IsPrefix fuel txq_mtu port skb.bytes))
      ]
    where
      ended :
          (p : Pieces)
          → IsPrefix port.calls (pieces_port p).calls skb.bytes
          → Returned
              (λ r q. IsPrefix port.calls q.calls skb.bytes)
              (end_fastboot cldma md_state alloc skb.id p)
      ended (loop_done q) (d, r, s, e) = (d, r, append-nil (stream q.calls) ∙ s, e)
      ended (no_memory q) h = h
      ended (running q) h = tt

  module _ (sends : (path : CldmaId) (qno : ℕ) (bytes : List ℕ) → cldma path qno bytes ≡ ok)
      (allocs : (n : ℕ) → alloc n ≡ true) where
    send_raw_skb_sends :
        (port : Port) (skb : SkBuff)
        → send_raw_skb cldma md_state port skb ≡ (
          ok,
          call port (cldma_send_skb port.conf.path_id (get_queue_no port md_state) skb.bytes),
        )
    unfolding send_raw_skb
    send_raw_skb_sends port skb =
        rw (sends port.conf.path_id (get_queue_no port md_state) skb.bytes)

    fastboot_from_complete :
        (fuel txq_mtu : ℕ) (port : Port) (bytes : List ℕ)
        → 0 < txq_mtu
        → length bytes < fuel
        → (q : Port) × (fastboot_from cldma md_state alloc fuel txq_mtu port bytes ≡ loop_done q)
          × (stream q.calls ≡ stream port.calls ++ bytes)
    unfolding fastboot_from
    fastboot_from_complete zero txq_mtu port bytes m h = absurd (omega arith)
    fastboot_from_complete (suc fuel) txq_mtu port [] m h =
        (port, refl, sym (append-nil (stream port.calls)))
    fastboot_from_complete (suc fuel) txq_mtu port (x ∷ xs) m h =
        let len = min (length (x ∷ xs)) txq_mtu in
        let piece = take len (x ∷ xs) in
        let sent = cldma_send_skb port.conf.path_id (get_queue_no port md_state) piece in
        let left = drop len (x ∷ xs) in
        let (q, e, s) =
          fastboot_from_complete fuel txq_mtu (call port sent) left m
            (omega (arith, length-drop len (x ∷ xs))) in
        let sends_piece = send_raw_skb_sends port (record { id = 0; bytes = piece }) in
        rw (allocs (length (x ∷ xs)), sends_piece, ap (λ r. r.1) sends_piece)
          (
            q,
            e,
            s
                ∙ append_assoc (stream port.calls) piece left
                ∙ ap (λ b. stream port.calls ++ b) (sym (take-drop len (x ∷ xs))),
          )

    -- When every send and every allocation succeeds and the packet size is positive, a write of any
    -- length to the fastboot port ends, returns 0 and has handed over exactly the written bytes, in
    -- order, and frees the written skb last.
    pub fastboot_tx_complete :
        (txq_mtu : ℕ) (port : Port) (skb : SkBuff)
        → is_neg txq_mtu ≡ false
        → 0 < txq_mtu
        → (q : Port) × (fastboot_tx cldma md_state alloc txq_mtu port skb
            ≡ some (ok, call q (dev_kfree_skb skb.id)))
          × (stream q.calls ≡ stream port.calls ++ skb.bytes)
    unfolding fastboot_tx
    fastboot_tx_complete txq_mtu port skb n m =
        let (q, e, s) =
          fastboot_from_complete (suc (length skb.bytes)) txq_mtu port skb.bytes m (omega arith) in
        rw n (q, ap (λ p. end_fastboot cldma md_state alloc skb.id p) e, s)

  module _ (allocs : (n : ℕ) → alloc n ≡ true) where
    fastboot_from-loop_done :
        (fuel txq_mtu : ℕ) (port : Port) (bytes : List ℕ)
        → 0 < txq_mtu
        → length bytes < fuel
        → (q : Port) × (fastboot_from cldma md_state alloc fuel txq_mtu port bytes ≡ loop_done q)
    unfolding fastboot_from
    fastboot_from-loop_done zero txq_mtu port bytes m h = absurd (omega arith)
    fastboot_from-loop_done (suc fuel) txq_mtu port [] m h = (port, refl)
    fastboot_from-loop_done (suc fuel) txq_mtu port (x ∷ xs) m h =
        let len = min (length (x ∷ xs)) txq_mtu in
        let piece : SkBuff = record { id = 0; bytes = take len (x ∷ xs) } in
        let sent = send_raw_skb cldma md_state port piece in
        elim (Ret-cases sent.0) [
          | inl e ↦
              rw (allocs (length (x ∷ xs)), e)
                (fastboot_from-loop_done fuel txq_mtu sent.1 (drop len (x ∷ xs)) m
                  (omega (arith, length-drop len (x ∷ xs))))
          | inr e ↦ rw (allocs (length (x ∷ xs)), e.1) (call sent.1 dev_kfree_own, refl)
        ]

    -- When no allocation fails and the packet size is positive, a write to the fastboot port ends and
    -- returns 0 whatever the modem queues answer to its pieces, also when they refuse the first one and
    -- nothing reaches the modem.
    pub fastboot_tx-ok :
        (txq_mtu : ℕ) (port : Port) (skb : SkBuff)
        → is_neg txq_mtu ≡ false
        → 0 < txq_mtu
        → (q : Port) × (fastboot_tx cldma md_state alloc txq_mtu port skb ≡ some (ok, q))
    unfolding fastboot_tx
    fastboot_tx-ok txq_mtu port skb n m =
        let (q, e) =
          fastboot_from-loop_done (suc (length skb.bytes)) txq_mtu port skb.bytes m (omega arith) in
        rw n (call q (dev_kfree_skb skb.id), ap (λ p. end_fastboot cldma md_state alloc skb.id p) e)
