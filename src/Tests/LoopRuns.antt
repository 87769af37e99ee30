-- ===== src/Tests/LoopRuns.antt =====
-- Runs of the scheduler, with a queue that is the list of its tasks.
use realm_lua_bootcamp.Prelude.{ℕ, ◌≡◌, refl, true, false, List, [], ◌∷◌, ◌++◌}
use realm_lua_bootcamp.Scheduler.{
  InvocationQueue, Loop, start, invoke, destroy_scheduler, on_async, should_close, do_work,
}
use realm_lua_bootcamp.Scheduler.Create.{SchedulerApi}
use realm_lua_bootcamp.Tests.World.{World, one_list}
use realm_lua_bootcamp.Scheduler.Shutdown.{finish, Reach-finishes}
use realm_lua_bootcamp.Scheduler.Runs.{
  Reach, begin, invoked, released, woken, IsRunning, Reach-IsRunning, Reach-garbage, Reach-in_order,
}

instance abbrev pub list_queue : InvocationQueue (List ℕ)
list_queue = record {
  empty = [];
  push = λ fn q. q ++ fn ∷ [];
  invoke_all = λ q. (q, []);
  waiting = λ q. q;
  waiting-empty = refl;
  waiting-push = λ fn q. refl;
  run-invoke_all = λ q. refl;
  waiting-invoke_all = λ q. refl;
}

abbrev first : Loop (List ℕ)
first = invoke 1 (start false)

abbrev marked : Loop (List ℕ)
marked = invoke 1 (start true)

abbrev busy : Loop (List ℕ)
busy = invoke 2 (on_async first)

busy-awake : (first.sent ≡ true) × (first.async_open ≡ true)
unfolding invoke
busy-awake = (refl, refl)

busy-alive : (on_async first).alive ≡ true
unfolding invoke on_async should_close do_work
busy-alive = refl

busy-Reach : Reach false busy (1 ∷ 2 ∷ [])
busy-Reach = invoked 2 (woken (invoked 1 begin refl) busy-awake.0 busy-awake.1) busy-alive

busy-not_closing : busy.userdata.close_requested ≡ false
unfolding invoke on_async should_close do_work
busy-not_closing = refl

Reach-IsRunning_example : IsRunning busy (1 ∷ 2 ∷ []) × ((on_async busy).done ≡ 1 ∷ 2 ∷ [])
Reach-IsRunning_example = Reach-IsRunning busy-Reach busy-not_closing

Reach-garbage_example : (marked.done ≡ []) × (marked.userdata.close_requested ≡ true)
Reach-garbage_example = Reach-garbage (invoked 1 begin refl)

abbrev left : Loop (List ℕ)
left = destroy_scheduler busy

left-steps : (busy.alive ≡ true) × (left.alive ≡ false)
unfolding invoke destroy_scheduler on_async should_close do_work
left-steps = (refl, refl)

-- The second task waits, and never runs.
Reach-finishes_example :
    Reach false (finish left) (1 ∷ 2 ∷ [])
    × ((finish left).async_open ≡ false)
    × ((finish left).userdata.closed ≡ true)
    × ((finish left).userdata.destroyed ≡ 1)
    × ((finish left).done ≡ left.done)
Reach-finishes_example = Reach-finishes (released busy-Reach left-steps.0) left-steps.1

instance abbrev pub one_scheduler : SchedulerApi World
one_scheduler = record {
  find_function = λ lib name. lib;
  construct_userdata = λ u w. w;
  new_scheduler = λ async send u w. (12, w);
}

Reach-in_order_example : (rest : List ℕ) × (busy.done ++ rest ≡ 1 ∷ 2 ∷ [])
Reach-in_order_example = Reach-in_order busy-Reach
