-- ===== src/Realm/Atomic.antt =====
-- `Realm:write` is all or nothing.
use realm_lua_bootcamp.Prelude.{
  ℕ, ◌≡◌, refl, ◌∙◌, Bool, true, false, [], ◌∷◌, ◌++◌, some, get_elem?,
}
use realm_lua_bootcamp.Text.{codes}
use realm_lua_bootcamp.Lua.{
  Value, nil, userdata, State, Outcome, ok, raised, fault, Exec, on, call_c,
}
use realm_lua_bootcamp.Native.Api.{RealmApi}
use realm_lua_bootcamp.Native.Convert.Handles.{handle_box}
use realm_lua_bootcamp.Native.Transactions.{
  lib_realm_begin_write, lib_realm_commit_transaction, lib_realm_cancel_transaction,
}
use realm_lua_bootcamp.Realm.{LuaRealm, Messages, realm_write}

-- What realm-core documents of the transactions of a realm `p`: `contents` is what the realm reads,
-- `saved` what it read when the transaction began, to which a rollback goes back.
pub record TransactionLaws {W D : Type 0} (api : RealmApi W) (p : ℕ) (contents saved : W → D)
    (in_write : W → Bool) : Type 0 where
  pub begin_ok : (w : W) → in_write w ≡ false → (api.begin_write p w).0 ≡ true
  pub begin_saves : (w : W) → in_write w ≡ false → saved (api.begin_write p w).1 ≡ contents w
  pub begin_contents : (w : W) → in_write w ≡ false → contents (api.begin_write p w).1 ≡ contents w
  pub commit_contents :
      (w : W)
      → in_write w ≡ true
      → (api.commit p w).0 ≡ true
      → contents (api.commit p w).1 ≡ contents w
  pub commit_ends :
      (w : W) → in_write w ≡ true → (api.commit p w).0 ≡ true → in_write (api.commit p w).1 ≡ false
  pub rollback_ok : (w : W) → in_write w ≡ true → (api.rollback p w).0 ≡ true
  pub rollback_contents : (w : W) → in_write w ≡ true → contents (api.rollback p w).1 ≡ saved w
  pub rollback_ends : (w : W) → in_write w ≡ true → in_write (api.rollback p w).1 ≡ false

module _ {W : Type 0} ⦃api : RealmApi W⦄ (u p : ℕ) (s : State W) where
  pub begin_lem :
      get_elem? s.boxes u ≡ some (handle_box p)
      → (api.begin_write p s.world).0 ≡ true
      → call_c lib_realm_begin_write (userdata u ∷ []) s
        ≡ (ok nil, record s { world = (api.begin_write p s.world).1 })
  unfolding lib_realm_begin_write
  begin_lem h k = rw (h, h, k) refl

  commit_lem :
      get_elem? s.boxes u ≡ some (handle_box p)
      → (api.commit p s.world).0 ≡ true
      → call_c lib_realm_commit_transaction (userdata u ∷ []) s
        ≡ (ok nil, record s { world = (api.commit p s.world).1 })
  unfolding lib_realm_commit_transaction
  commit_lem h k = rw (h, h, k) refl

  cancel_lem :
      get_elem? s.boxes u ≡ some (handle_box p)
      → (api.rollback p s.world).0 ≡ true
      → call_c lib_realm_cancel_transaction (userdata u ∷ []) s
        ≡ (ok nil, record s { world = (api.rollback p s.world).1 })
  unfolding lib_realm_cancel_transaction
  cancel_lem h k = rw (h, h, k) refl

module _ {W D : Type 0} ⦃api : RealmApi W⦄ {contents saved : W → D} {in_write : W → Bool} (p : ℕ)
    (laws : TransactionLaws api p contents saved in_write) (messages : Messages W) where
  -- By what the callback did, `r`: its changes are there, or none is.
  abbrev pub IsWritten : State W → Outcome Value → State W → Outcome Value × State W → Type 0
  IsWritten s (ok v) r t =
      (t.0 ≡ ok v)
      × (contents t.1.world ≡ contents r.world)
      × (in_write t.1.world ≡ false)
      × (t.1.stack ≡ s.stack)
  IsWritten s (raised m) r t =
      (t.0 ≡ raised (messages.position (codes "init.lua") 51 ++ messages.traceback m r.world))
      × (contents t.1.world ≡ contents s.world)
      × (in_write t.1.world ≡ false)
      × (t.1.stack ≡ s.stack)
  IsWritten s fault r t = t.0 ≡ fault

  write_case :
      (realm : LuaRealm) (u : ℕ) (callback : Exec W Value) (s : State W) (outcome : Outcome Value)
      (r : State W)
      → realm.handle ≡ userdata u
      → get_elem? s.boxes u ≡ some (handle_box p)
      → in_write s.world ≡ false
      → callback (record s { stack = []; world = (api.begin_write p s.world).1 }) ≡ (outcome, r)
      → get_elem? r.boxes u ≡ some (handle_box p)
      → in_write r.world ≡ true
      → saved r.world ≡ saved (api.begin_write p s.world).1
      → (api.commit p r.world).0 ≡ true
      → IsWritten s outcome r (realm_write messages realm callback s)
  unfolding realm_write
  write_case realm u callback s (ok v) r own h idle e still writing kept done =
      rw
        (
          own,
          begin_lem u p s h (laws.begin_ok s.world idle),
          e,
          own,
          commit_lem u p (on r s.stack) still done,
        )
        (
          refl,
          laws.commit_contents r.world writing done,
          laws.commit_ends r.world writing done,
          refl,
        )
  write_case realm u callback s (raised m) r own h idle e still writing kept done =
      rw
        (
          own,
          begin_lem u p s h (laws.begin_ok s.world idle),
          e,
          own,
          cancel_lem u p (on r s.stack) still (laws.rollback_ok r.world writing),
        )
        (
          refl,
          laws.rollback_contents r.world writing ∙ kept ∙ laws.begin_saves s.world idle,
          laws.rollback_ends r.world writing,
          refl,
        )
  write_case realm u callback s fault r own h idle e still writing kept done =
      rw (own, begin_lem u p s h (laws.begin_ok s.world idle), e) refl

  -- `Realm:write` is all or nothing, and the transaction is over after it: if the callback returns,
  -- its result is returned and the realm has what the callback left; if it raises an error, the realm
  -- has what it had before, and the error is raised again with the calls that led to it. The realm is
  -- not in a transaction before, the callback neither closes the realm nor ends the transaction, and
  -- realm-core can commit.
  pub realm_write-IsWritten :
      (realm : LuaRealm) (u : ℕ) (callback : Exec W Value) (s : State W)
      → realm.handle ≡ userdata u
      → get_elem? s.boxes u ≡ some (handle_box p)
      → in_write s.world ≡ false
      → let begun : W = (api.begin_write p s.world).1 in
        let r = callback (record s { stack = []; world = begun }) in
        get_elem? r.1.boxes u ≡ some (handle_box p)
        → in_write r.1.world ≡ true
        → saved r.1.world ≡ saved begun
        → (api.commit p r.1.world).0 ≡ true
        → IsWritten s r.0 r.1 (realm_write messages realm callback s)
  realm_write-IsWritten realm u callback s own h idle still writing kept done =
      let r = callback (record s { stack = []; world = (api.begin_write p s.world).1 }) in
      write_case realm u callback s r.0 r.1 own h idle refl still writing kept done
