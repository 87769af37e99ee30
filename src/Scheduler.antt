-- ===== src/Scheduler.antt =====
-- src/realm_scheduler.cpp: the scheduler that runs realm-core's notifications on a libuv loop, with
-- the handler of lib/realm/scheduler/libuv.lua, which that loop runs. The userdata is shared by the
-- scheduler and the handler.
pub mod Runs
pub mod Create
pub mod Functions
pub mod Shutdown
use realm_lua_bootcamp.Prelude.{ℕ, ◌+◌, ◌≡◌, Bool, true, false, List, [], ◌∷◌, ◌++◌, if◌then◌else◌}

-- realm-core's `InvocationQueue`, whose code is not in this repository, with what it documents:
-- the tasks that wait come out once, in the order in which they went in. A task is a number.
pub record InvocationQueue (Q : Type 0) : Type 0 where
  pub empty : Q
  pub push : ℕ → Q → Q
  -- The tasks that run, and the queue after it.
  pub invoke_all : Q → List ℕ × Q
  pub waiting : Q → List ℕ
  pub waiting-empty : waiting empty ≡ []
  pub waiting-push : (fn : ℕ) (q : Q) → waiting (push fn q) ≡ waiting q ++ fn ∷ []
  pub run-invoke_all : (q : Q) → (invoke_all q).0 ≡ waiting q
  pub waiting-invoke_all : (q : Q) → waiting (invoke_all q).1 ≡ []

-- `Scheduler::Userdata`, and how often its destructor ran.
pub record Userdata (Q : Type 0) : Type 0 where
  pub queue : Q
  pub close_requested : Bool
  pub closed : Bool
  pub destroyed : ℕ

-- The world of a scheduler: its userdata, whether the scheduler exists, whether libuv's async handle
-- has been sent to since its handler last ran, whether that handle is open, and the tasks that have
-- run, in their order. Sending to a handle that is already sent to changes nothing.
pub record Loop (Q : Type 0) : Type 0 where
  pub userdata : Userdata Q
  pub alive : Bool
  pub sent : Bool
  pub async_open : Bool
  pub done : List ℕ

module _ {Q : Type 0} ⦃iq : InvocationQueue Q⦄ where
  -- `new (userdata) Scheduler::Userdata` does not initialise `close_requested`: `garbage` is what
  -- stands there.
  abbrev pub start : Bool → Loop Q
  start garbage = record {
    userdata = record {
      queue = iq.empty;
      close_requested = garbage;
      closed = false;
      destroyed = 0;
    };
    alive = true;
    sent = false;
    async_open = true;
    done = [];
  }

  -- `Scheduler::invoke`
  unfoldable pub invoke : ℕ → Loop Q → Loop Q
  invoke fn l = record l {
    userdata = record l.userdata { queue = iq.push fn l.userdata.queue };
    sent = true;
  }

  -- `~Scheduler`
  unfoldable pub destroy_scheduler : Loop Q → Loop Q
  destroy_scheduler l = record l {
    userdata = record l.userdata { close_requested = true };
    alive = false;
    sent = true;
  }

  unfoldable pub should_close : Loop Q → Bool
  should_close l = l.userdata.close_requested

  -- `close`, which is the metamethod `__gc` too: it destroys the userdata if that is not done.
  unfoldable pub close : Loop Q → Loop Q
  close l = if l.userdata.closed then l else record l {
    userdata = record l.userdata {
      queue = iq.empty;
      closed = true;
      destroyed = l.userdata.destroyed + 1;
    };
  }

  unfoldable pub do_work : Loop Q → Loop Q
  do_work l =
      let (ran, rest) = iq.invoke_all l.userdata.queue in
      record l { userdata = record l.userdata { queue = rest }; done = l.done ++ ran }

  -- The handler of the async handle.
  unfoldable pub on_async : Loop Q → Loop Q
  unfolding should_close do_work
  on_async l =
      let awake : Loop Q = record l { sent = false } in
      if should_close awake then record awake { async_open = false } else do_work awake

  -- The callback of `async:close`.
  unfoldable pub on_async_closed : Loop Q → Loop Q
  unfolding close
  on_async_closed l = close l
