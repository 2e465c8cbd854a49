-- ===== src/Modem/Ready.antt =====
-- When a core of src/t7xx_modem_ops.c becomes ready.
use mtk_t7xx_fix.Prelude.{
  ◌≡◌, refl, sym, ap, append_assoc, ◌∙◌, Bool, true, false, ◌||◌, Option, none, some, List, [], ◌∷◌,
  ◌++◌, if◌then◌else◌, if-by, Ret-by, subst, ok, arith,
}
use mtk_t7xx_fix.Fsm.State.{Ctl, Event, EventId, SysInfo}
use mtk_t7xx_fix.Fsm.Queues.{same_event}
use mtk_t7xx_fix.Modem.Features.{Memory, prepare_device_rt_data, parse_host_rt_data}
use mtk_t7xx_fix.Modem.Handshake.{
  HkCall, send_hs1, HkRound, HkEnv, take_hs, hk_wait, event_data, answer_hs2, hs_result,
  core_hk_handler,
}

false-true : false ≡ true → ⊥
false-true e = cc

-- All events that the rounds of a wait bring.
abbrev pub arrivals : List HkRound → List Event
arrivals [] = []
arrivals (r ∷ rest) = r.arrived ++ arrivals rest

-- An event of one of the two kinds that a wait looks for.
abbrev pub is_awaited : EventId → EventId → Event → Bool
is_awaited event_id err e = same_event e.event_id err || same_event e.event_id event_id

abbrev pub NoneAwaited : EventId → EventId → List Event → Type 0
NoneAwaited event_id err [] = Unit
NoneAwaited event_id err (e ∷ l) = (is_awaited event_id err e ≡ false) × NoneAwaited event_id err l

-- The first event of the two kinds in a list is there and satisfies `P`.
abbrev pub FoundFirst : EventId → EventId → List Event → (Event → Type 0) → Type 0
FoundFirst event_id err l P =
    (e : Event) × (before : List Event) × (after : List Event) × (l ≡ before ++ (e ∷ after))
    × NoneAwaited event_id err before
    × (is_awaited event_id err e ≡ true)
    × P e

-- An event with which the handshake succeeds: of its own kind, and not the one that makes it give up.
abbrev pub Accepted : HkEnv → Memory → EventId → EventId → Event → Type 0
Accepted env host event_id err e =
    (same_event e.event_id err ≡ false)
    × (same_event e.event_id event_id ≡ true)
    × ((parse_host_rt_data host (event_data env.beyond e) e.length).0 ≡ ok)
    × ((prepare_device_rt_data env.alloc_hs3 (event_data env.beyond e)).0 ≡ ok)

-- What the wait returns is the first event of the two kinds.
abbrev Taken : EventId → EventId → List Event → Option (Event × List Event) → Type 0
Taken event_id err l none = Unit
Taken event_id err l (some (e, rest)) = FoundFirst event_id err l (λ e'. e' ≡ e)

take_hs-Taken :
    (event_id err : EventId) (queue : List Event)
    → Taken event_id err queue (take_hs event_id err queue)
unfolding take_hs
take_hs-Taken event_id err [] = tt
take_hs-Taken event_id err (e ∷ rest) =
    if-by (Taken event_id err (e ∷ rest)) (is_awaited event_id err e) _ _
      (λ b. (e, [], rest, refl, tt, b, refl))
      (λ b. later b (take_hs event_id err rest) (take_hs-Taken event_id err rest))
  where
    later :
        is_awaited event_id err e ≡ false
        → (o : Option (Event × List Event)) → Taken event_id err rest o
        → Taken event_id err (e ∷ rest) (elim o as (λ _. Option (Event × List Event)) [
          | none ↦ none
          | some r ↦ some (r.0, e ∷ r.1)
        ])
    later b none h = tt
    later b (some r) (x, before, after, l, others, is, same) =
        (x, e ∷ before, after, ap (λ k. e ∷ k) l, (b, others), is, same)

abbrev Waited : EventId → EventId → List Event → Option (Option Event × Ctl) → Type 0
Waited event_id err l none = Unit
Waited event_id err l (some (none, ctl)) = Unit
Waited event_id err l (some (some e, ctl)) = FoundFirst event_id err l (λ e'. e' ≡ e)

hk_wait-Waited :
    (rounds : List HkRound) (event_id err : EventId) (ctl : Ctl)
    → Waited event_id err (ctl.event_queue ++ arrivals rounds) (hk_wait rounds event_id err ctl)
unfolding hk_wait
hk_wait-Waited [] event_id err ctl = tt
hk_wait-Waited (r ∷ rest) event_id err ctl =
    let queue = ctl.event_queue ++ r.arrived in
    let ctl₁ = record ctl { event_queue = queue; exp_flg = r.exp_flg } in
    let total = ctl.event_queue ++ (r.arrived ++ arrivals rest) in
    let join : queue ++ arrivals rest ≡ total =
      append_assoc ctl.event_queue r.arrived (arrivals rest) in
    if-by (Waited event_id err total) r.should_stop _ _ (λ _. tt)
      (λ _.
        subst
          (λ l.
            Waited event_id err l
              (elim (take_hs event_id err queue) as (λ _. Option (Option Event × Ctl)) [
                | none ↦ hk_wait rest event_id err ctl₁
                | some (e, kept) ↦ some (some e, record ctl₁ { event_queue = kept })
              ]))
          join
          (found ctl₁ (take_hs event_id err queue) (take_hs-Taken event_id err queue)
            (hk_wait-Waited rest event_id err ctl₁)))
  where
    found :
        (c : Ctl) (o : Option (Event × List Event))
        → Taken event_id err c.event_queue o
        → Waited event_id err (c.event_queue ++ arrivals rest) (hk_wait rest event_id err c)
        → Waited event_id err
            (c.event_queue ++ arrivals rest)
            (elim o as (λ _. Option (Option Event × Ctl)) [
              | none ↦ hk_wait rest event_id err c
              | some (e, kept) ↦ some (some e, record c { event_queue = kept })
            ])
    found c none h later = later
    found c (some (e, kept)) (x, before, after, l, others, is, same) later = (
      x,
      before,
      after ++ arrivals rest,
      ap (λ k. k ++ arrivals rest) l ∙ append_assoc before (x ∷ after) (arrivals rest),
      others,
      is,
      same,
    )

module _ (env : HkEnv) (host : Memory) (core : SysInfo) (not_ready : core.ready ≡ false) where
  -- Nothing but a message that is accepted while no exception is pending makes the core ready.
  answer_hs2_ready :
      (e : Event) (flg : Bool)
      → (answer_hs2 env host e flg core).0.ready ≡ true
      → (flg ≡ false)
        × ((parse_host_rt_data host (event_data env.beyond e) e.length).0 ≡ ok)
        × ((prepare_device_rt_data env.alloc_hs3 (event_data env.beyond e)).0 ≡ ok)
  unfolding answer_hs2
  answer_hs2_ready e flg =
      let msg = event_data env.beyond e in
      let Q : Type 0 =
        (flg ≡ false)
        × ((parse_host_rt_data host msg e.length).0 ≡ ok)
        × ((prepare_device_rt_data env.alloc_hs3 msg).0 ≡ ok) in
      let P : SysInfo × List HkCall → Type 0 = λ x. x.0.ready ≡ true → Q in
      let unready : core.ready ≡ true → Q = λ h. absurd (false-true (sym not_ready ∙ h)) in
      if-by P flg _ _ (λ _. unready)
        (λ f.
          Ret-by P (parse_host_rt_data host msg e.length).0 _ _
            (λ p.
              if-by P env.exp_later _ _ (λ _. unready)
                (λ _.
                  Ret-by P (prepare_device_rt_data env.alloc_hs3 msg).0 _ _ (λ d _. (f, p, d))
                    (λ _. unready)))
            (λ _. unready))

  -- The first event of the two kinds, among `l`, was accepted while no exception was pending.
  Success : EventId → EventId → List Event → Ctl → Type 0
  Success event_id err l ctl =
      (ctl.exp_flg ≡ false) × FoundFirst event_id err l (Accepted env host event_id err)

  hs_result_ready :
      (event_id err : EventId) (l : List Event) (w : Option Event × Ctl)
      → Waited event_id err l (some w)
      → (hs_result env host err core w).0.ready ≡ true
      → Success event_id err l (hs_result env host err core w).1
  unfolding Success
  hs_result_ready event_id err l (none, ctl) h = λ r. absurd (false-true (sym not_ready ∙ r))
  hs_result_ready event_id err l (some e, ctl) (x, before, after, split, others, is, same) =
      if-by (λ (x : SysInfo × Ctl × List HkCall). x.0.ready ≡ true → Success event_id err l x.1)
        (same_event e.event_id err) (core, ctl, [])
        (
          (answer_hs2 env host e ctl.exp_flg core).0,
          ctl,
          (answer_hs2 env host e ctl.exp_flg core).1,
        )
        (λ _ r. absurd (false-true (sym not_ready ∙ r)))
        (λ b r.
          let (f, p, d) = answer_hs2_ready e ctl.exp_flg r in
          let is_e = subst (λ y. is_awaited event_id err y ≡ true) same is in
          (
            f,
            (
              x,
              before,
              after,
              split,
              others,
              is,
              subst (Accepted env host event_id err) (sym same) (
                b,
                right_of (same_event e.event_id err) (same_event e.event_id event_id) is_e b,
                p,
                d,
              ),
            ),
          ))
    where
      right_of : (a b : Bool) → a || b ≡ true → a ≡ false → b ≡ true
      right_of a b h e = ground arith

  Ready : EventId → EventId → List Event → Option (SysInfo × Ctl × List HkCall) → Type 0
  Ready event_id err l none = Unit
  Ready event_id err l (some (c, ctl, calls)) = c.ready ≡ true → Success event_id err l ctl

  core_hk_handler-Ready :
      (event_id err : EventId) (ctl : Ctl)
      → Ready event_id err
          (ctl.event_queue ++ arrivals env.rounds)
          (core_hk_handler env host event_id err ctl core)
  unfolding core_hk_handler Ready
  core_hk_handler-Ready event_id err ctl =
      finish (ctl.event_queue ++ arrivals env.rounds) (hk_wait env.rounds event_id err ctl)
        (hk_wait-Waited env.rounds event_id err ctl)
    where
      finish :
          (l : List Event) (o : Option (Option Event × Ctl))
          → Waited event_id err l o
          → Ready event_id err l (elim o as (λ _. Option (SysInfo × Ctl × List HkCall)) [
            | none ↦ none
            | some w ↦ some (
              (hs_result env host err core w).0,
              (hs_result env host err core w).1,
              (if env.alloc_hs1 then send_hs1 ∷ [] else []) ++ (hs_result env host err core w).2,
            )
          ])
      finish l none h = tt
      finish l (some w) h = hs_result_ready event_id err l w h

  -- Take the events in the queue and then all that arrive. A core that was not ready is ready after its
  -- handshake only if the first of them that is of the handshake's two kinds is an HS2 event, not the
  -- one that tells it to give up; the host accepts the features in that event's data, an answer to them
  -- could be prepared, and no exception was pending when it was taken.
  pub core_hk_handler_ready :
      (event_id err : EventId) (ctl ctl' : Ctl) (core' : SysInfo) (calls : List HkCall)
      → core_hk_handler env host event_id err ctl core ≡ some (core', ctl', calls)
      → core'.ready ≡ true
      → (ctl'.exp_flg ≡ false)
        × FoundFirst event_id err
            (ctl.event_queue ++ arrivals env.rounds)
            (λ e. Accepted env host event_id err e)
  unfolding Ready Success
  core_hk_handler_ready event_id err ctl ctl' core' calls e =
      subst (Ready event_id err (ctl.event_queue ++ arrivals env.rounds)) e
        (core_hk_handler-Ready event_id err ctl)
