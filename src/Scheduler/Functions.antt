-- ===== src/Scheduler/Functions.antt =====
-- The Lua functions of src/realm_scheduler.cpp on a scheduler's userdata, and its three tests.
use realm_lua_bootcamp.Prelude.{ℕ, Bool, true, false, Option, none, some, ◌==◌}
use realm_lua_bootcamp.Lua.{
  boolean, Exec, bottom, scheduler_userdata, push, pure, gets, call, lua_l_checkudata, ◌>>=◌, ◌>>◌,
}
use realm_lua_bootcamp.Scheduler.{InvocationQueue, Loop, should_close, close, do_work}

-- Where the world keeps the loop of a userdata.
pub record LoopAccess (W Q : Type 0) : Type 0 where
  pub loop_of : ℕ → W → Loop Q
  pub set_loop : ℕ → Loop Q → W → W

module _ {W Q : Type 0} ⦃iq : InvocationQueue Q⦄ (loops : LoopAccess W Q) where
  abbrev pub change_loop : (Loop Q → Loop Q) → ℕ → W → Unit {0} × W
  change_loop f u w = (tt, loops.set_loop u (f (loops.loop_of u w)) w)

  unfoldable pub lib_should_close : Exec W ℕ
  unfolding should_close
  lib_should_close = do
    u ← lua_l_checkudata (bottom 1) scheduler_userdata
    requested ← gets (λ s. should_close (loops.loop_of u s.world))
    push (boolean requested)
    pure 1

  unfoldable pub lib_close : Exec W ℕ
  lib_close = do
    u ← lua_l_checkudata (bottom 1) scheduler_userdata
    call (change_loop close u)
    pure 0

  unfoldable pub lib_do_work : Exec W ℕ
  lib_do_work = do
    u ← lua_l_checkudata (bottom 1) scheduler_userdata
    call (change_loop do_work u)
    pure 0

-- A scheduler as its tests see it: the thread it was made on and its async handle.
pub record SchedulerId : Type 0 where
  pub thread : ℕ
  pub async : ℕ

unfoldable pub is_on_thread : SchedulerId → ℕ → Bool
is_on_thread s this_thread = s.thread == this_thread

-- `none` is a scheduler of another class.
unfoldable pub is_same_as : SchedulerId → Option SchedulerId → Bool
is_same_as s none = false
is_same_as s (some other) = s.async == other.async

unfoldable pub can_invoke : SchedulerId → Bool
can_invoke s = true
