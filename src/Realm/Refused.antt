-- ===== src/Realm/Refused.antt =====
-- `Realm:write` when realm-core refuses a call of the transaction.
use realm_lua_bootcamp.Prelude.{ℕ, ◌≡◌, refl, true, false, [], ◌∷◌, some, get_elem?}
use realm_lua_bootcamp.Text.{Bytes, c_string}
use realm_lua_bootcamp.Lua.{Value, userdata, State, ok, raised, Exec, on, call_c}
use realm_lua_bootcamp.Native.Api.{RealmApi}
use realm_lua_bootcamp.Native.Convert.{inform_error, inform_realm_error}
use realm_lua_bootcamp.Native.Convert.Handles.{handle_box}
use realm_lua_bootcamp.Native.Transactions.{
  lib_realm_begin_write, lib_realm_commit_transaction, lib_realm_cancel_transaction,
}
use realm_lua_bootcamp.Realm.{LuaRealm, Messages, realm_write}
use realm_lua_bootcamp.Realm.Atomic.{begin_lem}

-- Which of the calls that `write` makes is refused, with the state in which it is made and the world
-- that it leaves: the begin; the commit after the callback returned; or the rollback after it
-- failed.
pub data IsRefused {W : Type 0} (api : RealmApi W) (p : ℕ) (callback : Exec W Value) (s : State W)
    : State W → W → Type 0 where
  begin_refused :
      (api.begin_write p s.world).0 ≡ false
      → IsRefused api p callback s s (api.begin_write p s.world).1
  commit_refused :
      (v : Value) (r : State W)
      → (api.begin_write p s.world).0 ≡ true
      → callback (record s { stack = []; world = (api.begin_write p s.world).1 }) ≡ (ok v, r)
      → (api.commit p r.world).0 ≡ false
      → IsRefused api p callback s r (api.commit p r.world).1
  rollback_refused :
      (m : Bytes) (r : State W)
      → (api.begin_write p s.world).0 ≡ true
      → callback (record s { stack = []; world = (api.begin_write p s.world).1 }) ≡ (raised m, r)
      → (api.rollback p r.world).0 ≡ false
      → IsRefused api p callback s r (api.rollback p r.world).1

module _ {W : Type 0} ⦃api : RealmApi W⦄ where
  -- The message of realm-core's last error, as it is raised.
  abbrev pub last_error : W → Bytes
  last_error w = c_string (api.format (api.get_last_error w) [])

module _ {W : Type 0} ⦃api : RealmApi W⦄ (u p : ℕ) (s : State W) where
  refused_begin :
      get_elem? s.boxes u ≡ some (handle_box p)
      → (api.begin_write p s.world).0 ≡ false
      → let w = (api.begin_write p s.world).1 in
        call_c lib_realm_begin_write (userdata u ∷ []) s
        ≡ (raised (last_error w), record s { world = w })
  unfolding lib_realm_begin_write inform_realm_error inform_error
  refused_begin h k = rw (h, h, k) refl

  refused_commit :
      get_elem? s.boxes u ≡ some (handle_box p)
      → (api.commit p s.world).0 ≡ false
      → let w = (api.commit p s.world).1 in
        call_c lib_realm_commit_transaction (userdata u ∷ []) s
        ≡ (raised (last_error w), record s { world = w })
  unfolding lib_realm_commit_transaction inform_realm_error inform_error
  refused_commit h k = rw (h, h, k) refl

  refused_cancel :
      get_elem? s.boxes u ≡ some (handle_box p)
      → (api.rollback p s.world).0 ≡ false
      → let w = (api.rollback p s.world).1 in
        call_c lib_realm_cancel_transaction (userdata u ∷ []) s
        ≡ (raised (last_error w), record s { world = w })
  unfolding lib_realm_cancel_transaction inform_realm_error inform_error
  refused_cancel h k = rw (h, h, k) refl

module _ {W : Type 0} ⦃api : RealmApi W⦄ (messages : Messages W) where
  -- If realm-core refuses to begin, to commit or to roll back, `write` raises the message of its last
  -- error, and the stack is as before. Nothing is called after the refusal: a callback that returned
  -- is not rolled back when the commit is refused, and the error of a callback that failed is lost when
  -- the rollback is. The callback does not close the realm.
  pub realm_write-refused :
      (realm : LuaRealm) (u p : ℕ) (callback : Exec W Value) (s r : State W) (w : W)
      → realm.handle ≡ userdata u
      → get_elem? s.boxes u ≡ some (handle_box p)
      → IsRefused api p callback s r w
      → get_elem? r.boxes u ≡ some (handle_box p)
      → realm_write messages realm callback s
        ≡ (raised (last_error w), record r { stack = s.stack; world = w })
  unfolding realm_write
  realm_write-refused realm u p callback s _ _ own h (begin_refused refused) still =
      rw (own, refused_begin u p s h refused) refl
  realm_write-refused realm u p callback s _ _ own h (commit_refused v r begun returns refused)
        still =
      rw
        (
          own,
          begin_lem u p s h begun,
          returns,
          own,
          refused_commit u p (on r s.stack) still refused,
        )
        refl
  realm_write-refused realm u p callback s _ _ own h (rollback_refused m r begun fails refused)
        still =
      rw (own, begin_lem u p s h begun, fails, own, refused_cancel u p (on r s.stack) still refused)
        refl
