-- ===== src/Scheduler/Create.antt =====
-- `create_scheduler` of src/realm_scheduler.cpp: libuv's symbols are looked for in the luv module, by
-- its name in the registry's table of loaded libraries.
use realm_lua_bootcamp.Prelude.{
  ℕ, zero, suc, ◌+◌, ◌≡◌, refl, Bool, false, List, [], ◌∷◌, ◌++◌, append-nil, append_assoc, Option,
  none, some, if◌then◌else◌, length, take, get_elem?, get_elem?-append, set-append, Bool-cases, inl,
  inr, length-append,
}
use realm_lua_bootcamp.Text.{Bytes, codes, ends_with, c_string}
use realm_lua_bootcamp.Lua.{
  Value, nil, string, table, userdata, light, Fields, end, field, Box, plain, State, Outcome, ok,
  raised, Exec, bottom, scheduler_userdata, uv_async, realm_handle, push, pop, pure, call, load,
  store, lua_newuserdata, lua_l_setmetatable, lua_l_checkudata, on, ◌>>=◌, ◌>>◌,
}
use realm_lua_bootcamp.Native.Api.{RealmApi}
use realm_lua_bootcamp.Native.Convert.{inform_error}
use realm_lua_bootcamp.Native.Convert.Handles.{handle_box}

-- A library's key in the table.
unfoldable pub is_luv : Value → Bool
unfolding ends_with
is_luv (string name) = ends_with name (codes "luv.so")
is_luv _ = false

-- `lua_touserdata`, as the handle of a library; 0 is null.
abbrev pub library : Value → ℕ
library (light lib) = lib
library (userdata u) = u
library _ = 0

-- What is outside of this file: the symbols of a library, 0 for none, the constructor of the
-- userdata, which Scheduler.antt models, and the scheduler made of async handle, function and userdata.
pub record SchedulerApi (W : Type 0) : Type 0 where
  pub find_function : ℕ → Bytes → ℕ
  pub construct_userdata : ℕ → W → W
  pub new_scheduler : ℕ → ℕ → ℕ → W → ℕ × W

module _ {W : Type 0} ⦃api : RealmApi W⦄ ⦃sched : SchedulerApi W⦄ where
  unfoldable pub new_scheduler_pair : ℕ → ℕ → Exec W ℕ
  unfolding inform_error
  new_scheduler_pair async zero =
      inform_error (codes "Could not find the libuv symbols in the luv module.") []
  new_scheduler_pair async (suc send) = do
    u ← lua_newuserdata
    call (λ w. (tt, sched.construct_userdata u w))
    lua_l_setmetatable scheduler_userdata
    s ← lua_newuserdata
    p ← call (sched.new_scheduler async (suc send) u)
    store s p
    lua_l_setmetatable realm_handle
    pure 2

  -- The loop over `lua_next`, which pops the last key.
  unfoldable pub find_luv : ℕ → Fields → Exec W ℕ
  unfolding inform_error
  find_luv async end = do pop 1; inform_error (codes "Could not find the luv native module.") []
  find_luv async (field key value rest) =
      let next = find_luv async rest in
      let found =
        new_scheduler_pair async (sched.find_function (library value) (codes "uv_async_send")) in
      (do pop 1; push key; push value; pop 1; (if is_luv key then found else next))

  unfoldable pub create_scheduler : Fields → Exec W ℕ
  create_scheduler clibs = do
    u ← lua_l_checkudata (bottom 1) uv_async
    async ← load u
    push (table clibs)
    push nil
    find_luv async clibs

-- The first entry with the name of the luv module.
abbrev pub first_luv : Fields → Option ℕ
first_luv end = none
first_luv (field key value rest) = if is_luv key then some (library value) else first_luv rest

-- What comes of the function that was found in it.
abbrev pub creation_outcome : {W : Type 0} → RealmApi W → Option ℕ → Outcome ℕ
creation_outcome api none =
    raised (c_string (api.format (codes "Could not find the luv native module.") []))
creation_outcome api (some zero) =
    raised (c_string (api.format (codes "Could not find the libuv symbols in the luv module.") []))
creation_outcome api (some (suc send)) = ok 2

abbrev pub made : ℕ → Option ℕ → List Box
made p (some (suc send)) = record { pointer = 0; meta = scheduler_userdata } ∷ handle_box p ∷ []
made p _ = []

abbrev pub results : ℕ → Option ℕ → List Value
results n (some (suc send)) = userdata (n + 1) ∷ userdata n ∷ []
results n _ = []

abbrev pub send_function : {W : Type 0} → SchedulerApi W → Option ℕ → Option ℕ
send_function sched none = none
send_function sched (some lib) = some (sched.find_function lib (codes "uv_async_send"))

module _ {W : Type 0} ⦃api : RealmApi W⦄ ⦃sched : SchedulerApi W⦄ where
  abbrev Creates : ℕ → State W → Option ℕ → Outcome ℕ × State W → Type 0
  Creates async s found t =
      (t.0 ≡ creation_outcome api found)
      × (take (length (results (length s.boxes) found)) t.1.stack ≡ results (length s.boxes) found)
      × ((p : ℕ) × (t.1.boxes ≡ s.boxes ++ made p found))

  new_scheduler_pair_lem :
      (async send : ℕ) (s : State W) → Creates async s (some send) (new_scheduler_pair async send s)
  unfolding new_scheduler_pair
  new_scheduler_pair_lem async zero s = (refl, refl, (0, rw (append-nil s.boxes)))
  new_scheduler_pair_lem async (suc send) s =
      let first : Box = record { pointer = 0; meta = scheduler_userdata } in
      let fresh : Box = record { pointer = 0; meta = plain } in
      let n = length s.boxes in
      let w = sched.construct_userdata n s.world in
      let p = (sched.new_scheduler async (suc send) n w).0 in
      let pointed : Box = record { pointer = p; meta = plain } in
      let bs = s.boxes ++ first ∷ [] in
      rw
        (
          get_elem?-append s.boxes fresh [],
          set-append s.boxes fresh first [],
          get_elem?-append bs fresh [],
          set-append bs fresh pointed [],
          get_elem?-append bs pointed [],
          set-append bs pointed (handle_box p) [],
          append_assoc s.boxes (first ∷ []) (handle_box p ∷ []),
          length-append s.boxes (first ∷ []),
        )
        (refl, refl, (p, refl))

  find_luv_lem :
      (async : ℕ) (clibs : Fields) (s : State W) (k : Value) (below : List Value)
      → Creates async s
          (send_function sched (first_luv clibs))
          (find_luv async clibs (on s (k ∷ below)))
  unfolding find_luv
  find_luv_lem async end s k below = (refl, refl, (0, rw (append-nil s.boxes)))
  find_luv_lem async (field key value rest) s k below = elim (Bool-cases (is_luv key)) [
    | inl luv ↦ rw luv (new_scheduler_pair_lem async _ (on s (key ∷ below)))
    | inr other ↦ rw other (find_luv_lem async rest s key below)
  ]

  -- A scheduler is made from the async handle and the first library whose name ends in "luv.so":
  -- without one, or if it lacks `uv_async_send`, there is an error and no userdata is made. Otherwise
  -- two are, the scheduler's userdata and a handle on the scheduler, which are the two results.
  create_scheduler-first_luv :
      (u async : ℕ) (clibs : Fields) (s : State W)
      → get_elem? s.boxes u ≡ some (record { pointer = async; meta = uv_async })
      → let found = send_function sched (first_luv clibs) in
        let t = create_scheduler clibs (on s (userdata u ∷ [])) in
        (t.0 ≡ creation_outcome api found)
        × (take (length (results (length s.boxes) found)) t.1.stack
            ≡ results (length s.boxes) found)
        × ((p : ℕ) × (t.1.boxes ≡ s.boxes ++ made p found))
  unfolding create_scheduler
  create_scheduler-first_luv u async clibs s h =
      rw (h, h) (find_luv_lem async clibs s nil (table clibs ∷ userdata u ∷ []))
