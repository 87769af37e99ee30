-- ===== src/Native/Lists.antt =====
-- Lists, of src/realm_native_lib.cpp. An index is a `size_t`: the 64 bits of the Lua integer.
pub mod Assign
use realm_lua_bootcamp.Prelude.{ℕ, Bool, [], ltb, ◌==◌, if◌then◌else◌}
use realm_lua_bootcamp.Text.{codes}
use realm_lua_bootcamp.Lua.{
  integer, Exec, bottom, pure, push, read, call, handle_at, Conversions, to_integer, ◌>>=◌, ◌>>◌,
}
use realm_lua_bootcamp.Native.Api.{RealmApi, RealmValue}
use realm_lua_bootcamp.Native.Convert.{
  inform_error, inform_realm_error, lua_to_realm_value, realm_to_lua_value, push_handle,
  or_realm_error, value_or_realm_error,
}

module _ {W : Type 0} ⦃cv : Conversions⦄ ⦃api : RealmApi W⦄ where
  -- Appends at the end, overwrites before it, and refuses what lies past it.
  unfoldable pub insert_at : ℕ → ℕ → ℕ → RealmValue → Exec W Bool
  unfolding inform_error
  insert_at list index size value =
      if index == size
      then call (api.list_insert list index value)
      else if ltb index size
      then call (api.list_set list index value)
      else inform_error (codes "Index out of bounds when setting value in list") []

  unfoldable pub lib_realm_list_insert : Exec W ℕ
  unfolding to_integer inform_realm_error
  lib_realm_list_insert = do
    value ← lua_to_realm_value (bottom 3)
    list ← handle_at (bottom 1)
    index ← read (bottom 2)
    out_size ← call (api.list_size list)
    size ← value_or_realm_error out_size
    success ← insert_at list (to_integer index) size value
    or_realm_error success
    pure 0

  unfoldable pub lib_realm_list_get : Exec W ℕ
  unfolding to_integer inform_realm_error
  lib_realm_list_get = do
    list ← handle_at (bottom 1)
    realm ← handle_at (bottom 2)
    index ← read (bottom 3)
    out_value ← call (api.list_get list (to_integer index))
    value ← value_or_realm_error out_value
    realm_to_lua_value realm value

  unfoldable pub lib_realm_list_size : Exec W ℕ
  unfolding inform_realm_error
  lib_realm_list_size = do
    list ← handle_at (bottom 1)
    out_size ← call (api.list_size list)
    size ← value_or_realm_error out_size
    push (integer size)
    pure 1

  unfoldable pub lib_realm_list_erase : Exec W ℕ
  unfolding to_integer inform_realm_error
  lib_realm_list_erase = do
    list ← handle_at (bottom 1)
    index ← read (bottom 2)
    status ← call (api.list_erase list (to_integer index))
    or_realm_error status
    pure 0

  -- The handle is not checked: it may be null.
  unfoldable pub lib_realm_get_list : Exec W ℕ
  lib_realm_get_list = do
    object ← handle_at (bottom 1)
    property_key ← handle_at (bottom 2)
    push_handle (api.get_list object property_key)
    pure 1
