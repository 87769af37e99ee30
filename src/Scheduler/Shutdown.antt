-- ===== src/Scheduler/Shutdown.antt =====
-- How a loop gets rid of a scheduler that realm-core has let go.
use realm_lua_bootcamp.Prelude.{
  Bool-cases, inl, inr, ℕ, ◌≡◌, refl, sym, subst, ◌∙◌, ◌⊎◌, Bool, true, false, List, arith,
  if◌then◌else◌,
}
use realm_lua_bootcamp.Scheduler.{
  InvocationQueue, Loop, invoke, destroy_scheduler, close, on_async, on_async_closed,
}
use realm_lua_bootcamp.Scheduler.Runs.{
  Reach, begin, invoked, released, woken, async_closed, collected, Reach-closed_once,
}

module _ {Q : Type 0} ⦃iq : InvocationQueue Q⦄ where
  -- The handle is about to be closed, or it is closed.
  abbrev IsClosing : Loop Q → Type 0
  IsClosing l =
      ((l.sent ≡ true) × (l.async_open ≡ true) × (l.userdata.close_requested ≡ true))
      ⊎ (l.async_open ≡ false)

  close-async_open : (l : Loop Q) → (close l).async_open ≡ l.async_open
  unfolding close
  close-async_open l = ground arith

  close-closed : (l : Loop Q) → (close l).userdata.closed ≡ true
  unfolding close
  close-closed l = ground arith

  close-done : (l : Loop Q) → (close l).done ≡ l.done
  unfolding close
  close-done l = ground arith

  on_async-alive : (l : Loop Q) → (on_async l).alive ≡ l.alive
  unfolding on_async
  on_async-alive l = ground arith

  on_async_closing :
      (l : Loop Q)
      → l.userdata.close_requested ≡ true
      → ((on_async l).async_open ≡ false) × ((on_async l).done ≡ l.done)
  unfolding on_async
  on_async_closing l h = ground arith

  Reach-IsClosing :
      {garbage : Bool} {l : Loop Q} {tasks : List ℕ}
      → Reach garbage l tasks
      → l.alive ≡ false
      → IsClosing l
  unfolding invoke destroy_scheduler on_async_closed
  Reach-IsClosing begin gone = cc
  Reach-IsClosing (invoked fn r alive) gone = cc
  Reach-IsClosing (released {l} r alive) gone = elim (Bool-cases l.async_open) [
    | inl is_open ↦ inl (refl, is_open, refl)
    | inr shut ↦ inr shut
  ]
  Reach-IsClosing (woken {l} r sent is_open) gone =
      elim (Reach-IsClosing r (sym (on_async-alive l) ∙ gone)) [
        | inl (awake, still_open, requested) ↦ inr (on_async_closing l requested).0
        | inr shut ↦ cc
      ]
  Reach-IsClosing (async_closed {l} r shut) gone = inr (close-async_open l ∙ shut)
  Reach-IsClosing (collected {l} r shut) gone = inr (close-async_open l ∙ shut)

  -- What the loop still does: its handler, if the handle is open, and the callback of the closing.
  abbrev pub finish : Loop Q → Loop Q
  finish l = if l.async_open then on_async_closed (on_async l) else on_async_closed l

  destroyed_once :
      {garbage : Bool} {l : Loop Q} {tasks : List ℕ}
      → Reach garbage l tasks
      → l.userdata.closed ≡ true
      → l.userdata.destroyed ≡ 1
  destroyed_once r h = elim (Reach-closed_once r) [
    | inl (still_open, none_yet) ↦ cc
    | inr (shut, once) ↦ once
  ]

  closed_after :
      {garbage : Bool} {l : Loop Q} {tasks done : List ℕ}
      → Reach garbage l tasks
      → l.async_open ≡ false
      → l.done ≡ done
      → Reach garbage (on_async_closed l) tasks
        × ((on_async_closed l).async_open ≡ false)
        × ((on_async_closed l).userdata.closed ≡ true)
        × ((on_async_closed l).userdata.destroyed ≡ 1)
        × ((on_async_closed l).done ≡ done)
  unfolding on_async_closed
  closed_after {l} r shut h =
      let next = async_closed r shut in
      (
        next,
        close-async_open l ∙ shut,
        close-closed l,
        destroyed_once next (close-closed l),
        close-done l ∙ h,
      )

  -- Once realm-core has let the scheduler go, at whatever time, the loop's handler has been woken
  -- unless the handle is closed already, and at most two steps of the loop end it all: the handle is
  -- closed, the userdata is destroyed, exactly once, and no task has run in these steps.
  pub Reach-finishes :
      {garbage : Bool} {l : Loop Q} {tasks : List ℕ}
      → Reach garbage l tasks
      → l.alive ≡ false
      → Reach garbage (finish l) tasks
        × ((finish l).async_open ≡ false)
        × ((finish l).userdata.closed ≡ true)
        × ((finish l).userdata.destroyed ≡ 1)
        × ((finish l).done ≡ l.done)
  Reach-finishes {garbage} {l} {tasks} r gone =
      let Finished : Loop Q → Type 0 = λ m.
        Reach garbage m tasks
        × (m.async_open ≡ false)
        × (m.userdata.closed ≡ true)
        × (m.userdata.destroyed ≡ 1)
        × (m.done ≡ l.done) in
      elim (Reach-IsClosing r gone) [
        | inl (awake, still_open, requested) ↦
            let shut = on_async_closing l requested in
            subst (λ b. Finished (if b then on_async_closed (on_async l) else on_async_closed l))
              (sym still_open) (closed_after (woken r awake still_open) shut.0 shut.1)
        | inr shut ↦
            subst (λ b. Finished (if b then on_async_closed (on_async l) else on_async_closed l))
              (sym shut) (closed_after r shut refl)
      ]
