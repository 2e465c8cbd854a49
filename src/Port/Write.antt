-- ===== src/Port/Write.antt =====
-- Writing to a WWAN port: src/t7xx_port_wwan.c.
use Prim.Native.Nat.{min}
use mtk_t7xx_fix.Prelude.{
  ℕ, zero, suc, ◌+◌, Bool, true, false, not, Option, none, some, List, [], ◌∷◌, length, take, drop,
  ◌==◌, is_neg, Ret, ok, fail, einval, enomem, enodev, if◌then◌else◌,
}
use mtk_t7xx_fix.Fsm.State.{FsmState, MdState, waiting_for_hs1, waiting_for_hs2}
use mtk_t7xx_fix.Port.State.{CldmaId, SkBuff, Port, dev_kfree_skb, dev_kfree_own, call}
use mtk_t7xx_fix.Port.Send.{send_raw_skb, send_skb}
use mtk_t7xx_fix.Port.Wwan.{is_fastboot_type}

-- What a write returns; the sum of a count of bytes and an error is `partial`.
pub data TxRet : Type 0 where
  returns : Ret → TxRet
  partial : ℕ → Ret → TxRet

-- How the loop of t7xx_port_fastboot_tx is left: behind the loop, or by the missing memory; or it is
-- still running when the fuel is spent.
pub data Pieces : Type 0 where
  loop_done : Port → Pieces
  no_memory : Port → Pieces
  running : Port → Pieces

-- An skb with `skb->len`, which counts the skbs of its fragment list too; `head` is the linear part.
pub record Part : Type 0 where
  pub head : SkBuff
  pub len : ℕ

-- `alloc` says whether the skb of a piece can be allocated, by the number of bytes left.
module _ (cldma : CldmaId → ℕ → List ℕ → Ret) (md_state : MdState) (alloc : ℕ → Bool) where
  -- `while (actual)` with fuel; a packet size of 0 never ends.
  unfoldable pub fastboot_from : ℕ → ℕ → Port → List ℕ → Pieces
  fastboot_from zero txq_mtu port bytes = running port
  fastboot_from (suc fuel) txq_mtu port [] = loop_done port
  fastboot_from (suc fuel) txq_mtu port (x ∷ xs) =
      let len = min (length (x ∷ xs)) txq_mtu in
      let piece : SkBuff = record { id = 0; bytes = take len (x ∷ xs) } in
      let (ret, port₁) = send_raw_skb cldma md_state port piece in
      let rest = fastboot_from fuel txq_mtu port₁ (drop len (x ∷ xs)) in
      if alloc (length (x ∷ xs))
      then elim ret [ ok ↦ rest | fail e ↦ loop_done (call port₁ dev_kfree_own) ]
      else no_memory port

  abbrev pub end_fastboot : ℕ → Pieces → Option (Ret × Port)
  end_fastboot id (loop_done port) = some (ok, call port (dev_kfree_skb id))
  end_fastboot id (no_memory port) = some (fail enomem, port)
  end_fastboot id (running port) = none

  -- `txq_mtu` is the packet size as `int`; a call that does not return is `none`.
  unfoldable pub fastboot_tx : ℕ → Port → SkBuff → Option (Ret × Port)
  fastboot_tx txq_mtu port skb =
      if is_neg txq_mtu
      then some (fail einval, port)
      else end_fastboot skb.id (fastboot_from (suc (length skb.bytes)) txq_mtu port skb.bytes)

  module _ (fsm_state : FsmState) where
    -- The loop of t7xx_port_ctrl_tx over the skb and its fragment list.
    unfoldable pub ctrl_from : List Part → ℕ → Port → TxRet × Port
    ctrl_from [] cnt port = (returns ok, port)
    ctrl_from (p ∷ rest) cnt port =
        let (ret, port₁) = send_skb cldma md_state fsm_state port p.head 0 0 in
        let more = ctrl_from rest (cnt + p.len) port₁ in
        elim ret [
          | ok ↦ more
          | fail e ↦ (
            if cnt == 0 then returns (fail e) else partial cnt (fail e),
            call port₁ dev_kfree_own,
          )
        ]

    abbrev free_sent : ℕ → TxRet × Port → TxRet × Port
    free_sent id (returns ok, port) = (returns ok, call port (dev_kfree_skb id))
    free_sent id (returns (fail e), port) = (returns (fail e), port)
    free_sent id (partial n r, port) = (partial n r, port)

    abbrev is_waiting : MdState → Bool
    is_waiting waiting_for_hs1 = true
    is_waiting waiting_for_hs2 = true
    is_waiting _ = false

    unfoldable pub ctrl_tx : Port → Part → List Part → TxRet × Port
    ctrl_tx port skb frag_list =
        if is_waiting md_state
        then (returns (fail enodev), port)
        else free_sent skb.head.id (ctrl_from (skb ∷ frag_list) 0 port)

    abbrev returning : Option (Ret × Port) → Option (TxRet × Port)
    returning none = none
    returning (some (r, port)) = some (returns r, port)

    unfoldable pub wwan_tx : ℕ → Port → Part → List Part → Option (TxRet × Port)
    unfolding fastboot_tx ctrl_tx
    wwan_tx txq_mtu port skb frag_list =
        if not port.chan_enable
        then some (returns (fail einval), port)
        else if is_fastboot_type port.conf.port_type
        then returning (fastboot_tx txq_mtu port skb.head)
        else some (ctrl_tx port skb frag_list)
