-- ===== src/Scheduler/Runs.antt =====
-- What a loop can do with a scheduler, and what holds then.
use realm_lua_bootcamp.Prelude.{
  Bool-cases, inl, inr, append-nil, append_assoc, sym, ℕ, ◌≡◌, refl, ap, ◌∙◌, ◌⊎◌, Bool, true,
  false, List, [], ◌∷◌, ◌++◌, arith,
}
use realm_lua_bootcamp.Scheduler.{
  InvocationQueue, Loop, start, invoke, destroy_scheduler, close, on_async, on_async_closed,
}

module _ {Q : Type 0} ⦃iq : InvocationQueue Q⦄ where
  -- The steps of realm-core, of the loop and of the garbage collector, in any order they can come. The
  -- collector finds the userdata once the handle is closed. `tasks` are those invoked so far.
  pub data Reach (garbage : Bool) : Loop Q → List ℕ → Type 0 where
    begin : Reach garbage (start garbage) []
    invoked :
        {l : Loop Q} {tasks : List ℕ} (fn : ℕ)
        → Reach garbage l tasks
        → l.alive ≡ true
        → Reach garbage (invoke fn l) (tasks ++ fn ∷ [])
    released :
        {l : Loop Q} {tasks : List ℕ}
        → Reach garbage l tasks
        → l.alive ≡ true
        → Reach garbage (destroy_scheduler l) tasks
    woken :
        {l : Loop Q} {tasks : List ℕ}
        → Reach garbage l tasks
        → l.sent ≡ true
        → l.async_open ≡ true
        → Reach garbage (on_async l) tasks
    async_closed :
        {l : Loop Q} {tasks : List ℕ}
        → Reach garbage l tasks
        → l.async_open ≡ false
        → Reach garbage (on_async_closed l) tasks
    collected :
        {l : Loop Q} {tasks : List ℕ}
        → Reach garbage l tasks
        → l.async_open ≡ false
        → Reach garbage (close l) tasks

  -- While no close is requested: every task has run or waits, in order, nothing is closed, and the
  -- handle is open and has been sent to if a task waits.
  pub record IsRunning (l : Loop Q) (tasks : List ℕ) : Type 0 where
    pub complete : l.done ++ iq.waiting l.userdata.queue ≡ tasks
    pub open_handle : l.async_open ≡ true
    pub not_closed : l.userdata.closed ≡ false
    pub awaited : (iq.waiting l.userdata.queue ≡ []) ⊎ (l.sent ≡ true)
    pub exists : l.alive ≡ true

  -- No step takes the request back.
  close_requested-close :
      (l : Loop Q) → (close l).userdata.close_requested ≡ l.userdata.close_requested
  unfolding close
  close_requested-close l = ground arith

  close_requested-on_async :
      (l : Loop Q) → (on_async l).userdata.close_requested ≡ l.userdata.close_requested
  unfolding on_async
  close_requested-on_async l = ground arith

  on_async-IsRunning :
      (l : Loop Q) (tasks : List ℕ)
      → l.userdata.close_requested ≡ false
      → IsRunning l tasks
      → IsRunning (on_async l) tasks × ((on_async l).done ≡ tasks)
  unfolding on_async
  on_async-IsRunning l tasks h v =
      let q = l.userdata.queue in
      let ran : l.done ++ (iq.invoke_all q).0 ≡ tasks =
        ap (λ ts. l.done ++ ts) (iq.run-invoke_all q) ∙ v.complete in
      let none_left : (l.done ++ (iq.invoke_all q).0) ++ iq.waiting (iq.invoke_all q).1 ≡ tasks =
        ap (λ ts. (l.done ++ (iq.invoke_all q).0) ++ ts) (iq.waiting-invoke_all q)
        ∙ append-nil _
        ∙ ran in
      ground (arith, ran, none_left, iq.waiting-invoke_all q)

  invoke-IsRunning :
      (fn : ℕ) (l : Loop Q) (tasks : List ℕ)
      → IsRunning l tasks
      → IsRunning (invoke fn l) (tasks ++ fn ∷ [])
  unfolding invoke
  invoke-IsRunning fn l tasks v = record {
    complete =
        ap (λ q. l.done ++ q) (iq.waiting-push fn l.userdata.queue)
        ∙ sym (append_assoc l.done (iq.waiting l.userdata.queue) (fn ∷ []))
        ∙ ap (λ ts. ts ++ fn ∷ []) v.complete;
    open_handle = v.open_handle;
    not_closed = v.not_closed;
    awaited = inr refl;
    exists = v.exists;
  }

  running :
      {garbage : Bool} {l : Loop Q} {tasks : List ℕ}
      → Reach garbage l tasks
      → l.userdata.close_requested ≡ false
      → IsRunning l tasks
  unfolding invoke destroy_scheduler on_async_closed
  running begin h = record {
    complete = iq.waiting-empty;
    open_handle = refl;
    not_closed = refl;
    awaited = inl iq.waiting-empty;
    exists = refl;
  }
  running (invoked {l} {tasks} fn r alive) h = invoke-IsRunning fn l tasks (running r h)
  running (released r alive) h = cc
  running (woken {l} {tasks} r sent is_open) h =
      let h' = sym (close_requested-on_async l) ∙ h in
      (on_async-IsRunning l tasks h' (running r h')).0
  running (async_closed {l} {tasks} r shut) h =
      cc ((running r (sym (close_requested-close l) ∙ h)).open_handle)
  running (collected {l} {tasks} r shut) h =
      cc ((running r (sym (close_requested-close l) ∙ h)).open_handle)

  -- While the scheduler is not asked to close, every task that was invoked has run or waits, in the
  -- order of the calls and once; the loop has been woken if one waits, and when its handler runs then
  -- all have run.
  pub Reach-IsRunning :
      {garbage : Bool} {l : Loop Q} {tasks : List ℕ}
      → Reach garbage l tasks
      → l.userdata.close_requested ≡ false
      → IsRunning l tasks × ((on_async l).done ≡ tasks)
  Reach-IsRunning {l} {tasks} r h = let v = running r h in (v, (on_async-IsRunning l tasks h v).1)

  -- Where the uninitialised flag happens to be set, no task ever runs, whatever is invoked.
  pub Reach-garbage :
      {l : Loop Q} {tasks : List ℕ}
      → Reach true l tasks
      → (l.done ≡ []) × (l.userdata.close_requested ≡ true)
  unfolding invoke destroy_scheduler close on_async on_async_closed
  Reach-garbage begin = (refl, refl)
  Reach-garbage (invoked fn r alive) = Reach-garbage r
  Reach-garbage (released r alive) = ((Reach-garbage r).0, refl)
  Reach-garbage (woken {l} r sent is_open) = ground (arith, Reach-garbage r)
  Reach-garbage (async_closed {l} r shut) = ground (arith, Reach-garbage r)
  Reach-garbage (collected {l} r shut) = ground (arith, Reach-garbage r)

  -- The userdata is destroyed at most once, and `closed` says whether it is.
  pub Reach-closed_once :
      {garbage : Bool} {l : Loop Q} {tasks : List ℕ}
      → Reach garbage l tasks
      → ((l.userdata.closed ≡ false) × (l.userdata.destroyed ≡ 0))
        ⊎ ((l.userdata.closed ≡ true) × (l.userdata.destroyed ≡ 1))
  unfolding invoke destroy_scheduler close on_async on_async_closed
  Reach-closed_once begin = inl (refl, refl)
  Reach-closed_once (invoked fn r alive) = Reach-closed_once r
  Reach-closed_once (released r alive) = Reach-closed_once r
  Reach-closed_once (woken {l} r sent is_open) = ground (arith, Reach-closed_once r)
  Reach-closed_once (async_closed {l} r shut) = ground (arith, Reach-closed_once r)
  Reach-closed_once (collected {l} r shut) = ground (arith, Reach-closed_once r)

  done-close : (l : Loop Q) → (close l).done ≡ l.done
  unfolding close
  done-close l = ground arith

  done-on_async_closing :
      (l : Loop Q) → l.userdata.close_requested ≡ true → (on_async l).done ≡ l.done
  unfolding on_async
  done-on_async_closing l h = ground arith

  -- Tasks run in the order in which they were invoked, and none twice: at any time, also while the
  -- scheduler is closed and after, those that have run are the first ones that were invoked.
  pub Reach-in_order :
      {garbage : Bool} {l : Loop Q} {tasks : List ℕ}
      → Reach garbage l tasks
      → (rest : List ℕ) × (l.done ++ rest ≡ tasks)
  unfolding invoke destroy_scheduler on_async_closed
  Reach-in_order begin = ([], refl)
  Reach-in_order (invoked {l} fn r alive) =
      let before = Reach-in_order r in
      (
        before.0 ++ fn ∷ [],
        sym (append_assoc l.done before.0 (fn ∷ [])) ∙ ap (λ ts. ts ++ fn ∷ []) before.1,
      )
  Reach-in_order (released r alive) = Reach-in_order r
  Reach-in_order (woken {l} {tasks} r sent is_open) =
      let before = Reach-in_order r in
      elim (Bool-cases l.userdata.close_requested) [
        | inl closing ↦
            (before.0, ap (λ ts. ts ++ before.0) (done-on_async_closing l closing) ∙ before.1)
        | inr running_still ↦ (
          [],
          append-nil _ ∙ (on_async-IsRunning l tasks running_still (running r running_still)).1,
        )
      ]
  Reach-in_order (async_closed {l} r shut) =
      let before = Reach-in_order r in
      (before.0, ap (λ ts. ts ++ before.0) (done-close l) ∙ before.1)
  Reach-in_order (collected {l} r shut) =
      let before = Reach-in_order r in
      (before.0, ap (λ ts. ts ++ before.0) (done-close l) ∙ before.1)
