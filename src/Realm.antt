-- ===== src/Realm.antt =====
-- lib/realm/init.lua: opening a realm, its transactions, and closing it. An error that Lua code
-- raises is its message.
pub mod Atomic
pub mod Close
pub mod Collections
pub mod Objects
pub mod Open
pub mod Refused
use realm_lua_bootcamp.Prelude.{ℕ, List, [], ◌∷◌, ◌++◌, if◌then◌else◌, Option, none, some}
use realm_lua_bootcamp.Text.{Bytes, codes}
use realm_lua_bootcamp.Lua.{
  Value, nil, table, get_field, not_indexable, Exec, pure, raise, call_c, call_results, lua_xpcall,
  Protected, succeeded, failed, to_boolean, Conversions, ◌>>=◌, ◌>>◌,
}
use realm_lua_bootcamp.Native.Api.{RealmApi}
use realm_lua_bootcamp.Native.Open.{OpenApi, lib_realm_open}
use realm_lua_bootcamp.Native.Objects.{lib_realm_object_delete, lib_realm_object_is_valid}
use realm_lua_bootcamp.Native.Transactions.{
  lib_realm_release, lib_realm_begin_write, lib_realm_commit_transaction,
  lib_realm_cancel_transaction,
}

-- A realm. The table of child handles is weak: `none` stands where the collector has taken one out.
pub record LuaRealm : Type 0 where
  pub handle : Value
  pub schema : Value
  pub child_handles : List (Option Value)

-- What Lua adds to a message: the stack of calls, and the line of the file that raises it.
pub record Messages (W : Type 0) : Type 0 where
  pub traceback : Bytes → W → Bytes
  pub position : Bytes → ℕ → Bytes

module _ {W : Type 0} ⦃api : RealmApi W⦄ where
  -- `Realm:write`, with the callback as what it does to the state.
  unfoldable pub realm_write : Messages W → LuaRealm → Exec W Value → Exec W Value
  realm_write messages realm callback = do
    call_c lib_realm_begin_write (realm.handle ∷ [])
    outcome ← lua_xpcall messages.traceback callback
    elim outcome [
      | succeeded result ↦ (do call_c lib_realm_commit_transaction (realm.handle ∷ []); pure result)
      | failed message ↦ (do
        call_c lib_realm_cancel_transaction (realm.handle ∷ [])
        raise (messages.position (codes "init.lua") 51 ++ message))
    ]

  -- `ipairs` ends at the first entry that is nil.
  unfoldable pub release_children : List (Option Value) → Exec W (Unit {0})
  release_children [] = pure tt
  release_children (none ∷ handles) = pure tt
  release_children (some handle ∷ handles) = do
    call_c lib_realm_release (handle ∷ [])
    release_children handles

  -- `Realm:close`
  unfoldable pub realm_close : LuaRealm → Exec W (Unit {0})
  unfolding release_children
  realm_close realm = do
    release_children realm.child_handles
    call_c lib_realm_release (realm.handle ∷ [])
    pure tt

module _ {W : Type 0} ⦃cv : Conversions⦄ ⦃api : RealmApi W⦄ where
  -- `Realm:delete` and `Realm:isValid`, of the handle of an object.
  unfoldable pub realm_delete : Value → Exec W Value
  realm_delete object = call_c lib_realm_object_delete (object ∷ [])

  unfoldable pub realm_is_valid : Value → Exec W Value
  realm_is_valid object = call_c lib_realm_object_is_valid (object ∷ [])

module _ {W : Type 0} where
  abbrev pub class_or_error : Messages W → Bytes → Value → Exec W Value
  class_or_error messages class_name nil = raise (
      messages.position (codes "init.lua") 33
      ++ (codes "Class " ++ class_name ++ codes " not found in schema"))
  class_or_error messages class_name info = pure info

  abbrev pub schema_field : Bytes → Value → Exec W Value
  schema_field class_name (table fs) = pure (get_field class_name fs)
  schema_field class_name _ = raise not_indexable

  -- That the stack of calls is printed is left out.
  unfoldable pub safe_get_class : Messages W → LuaRealm → Bytes → Exec W Value
  unfolding get_field
  safe_get_class messages realm class_name = do
    info ← schema_field class_name realm.schema
    class_or_error messages class_name info

module _ {W : Type 0} ⦃cv : Conversions⦄ ⦃api : RealmApi W⦄ ⦃opening : OpenApi W⦄ where
  abbrev scheduler_field : Value → Exec W Value
  scheduler_field (table fs) = pure (get_field (codes "scheduler") fs)
  scheduler_field _ = raise not_indexable

  -- `config.scheduler and native.realm_clone(config.scheduler) or scheduler.defaultFactory()`, where
  -- the module `realm.native` has no function `realm_clone`.
  unfoldable pub scheduler_of : Exec W Value → Value → Exec W Value
  unfolding to_boolean get_field
  scheduler_of default_factory config = do
    given ← scheduler_field config
    if to_boolean given then raise (codes "attempt to call a nil value") else default_factory

  -- `Realm.open`
  unfoldable pub realm_open : Exec W Value → Value → Exec W LuaRealm
  unfolding scheduler_of
  realm_open default_factory config = do
    scheduler ← scheduler_of default_factory config
    opened ← call_results lib_realm_open (scheduler ∷ config ∷ [])
    call_c lib_realm_release (scheduler ∷ [])
    pure (record { handle = opened 0; schema = opened 1; child_handles = [] })
