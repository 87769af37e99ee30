-- ===== src/Native/Sets.antt =====
-- Sets, of src/realm_native_lib.cpp.
pub mod Members
use realm_lua_bootcamp.Prelude.{ℕ}
use realm_lua_bootcamp.Lua.{
  boolean, integer, Exec, bottom, pure, push, call, handle_at, ◌>>=◌, ◌>>◌,
}
use realm_lua_bootcamp.Native.Api.{RealmApi}
use realm_lua_bootcamp.Native.Convert.{
  inform_realm_error, lua_to_realm_value, push_handle, or_realm_error, value_or_realm_error,
  handle_or_realm_error,
}

module _ {W : Type 0} ⦃api : RealmApi W⦄ where
  unfoldable pub lib_realm_get_set : Exec W ℕ
  unfolding inform_realm_error
  lib_realm_get_set = do
    object ← handle_at (bottom 1)
    property_key ← handle_at (bottom 2)
    set ← push_handle (api.get_set object property_key)
    handle_or_realm_error set
    pure 1

  unfoldable pub lib_realm_set_insert : Exec W ℕ
  unfolding inform_realm_error
  lib_realm_set_insert = do
    value ← lua_to_realm_value (bottom 2)
    set ← handle_at (bottom 1)
    status ← call (api.set_insert set value)
    or_realm_error status
    pure 0

  unfoldable pub lib_realm_set_size : Exec W ℕ
  unfolding inform_realm_error
  lib_realm_set_size = do
    set ← handle_at (bottom 1)
    out_size ← call (api.set_size set)
    size ← value_or_realm_error out_size
    push (integer size)
    pure 1

  unfoldable pub lib_realm_set_erase : Exec W ℕ
  unfolding inform_realm_error
  lib_realm_set_erase = do
    set ← handle_at (bottom 1)
    value ← lua_to_realm_value (bottom 2)
    out_erased ← call (api.set_erase set value)
    erased ← value_or_realm_error out_erased
    push (boolean erased)
    pure 1

  unfoldable pub lib_realm_set_find : Exec W ℕ
  unfolding inform_realm_error
  lib_realm_set_find = do
    set ← handle_at (bottom 1)
    value ← lua_to_realm_value (bottom 2)
    out_found ← call (api.set_find set value)
    found ← value_or_realm_error out_found
    push (boolean found)
    pure 1
