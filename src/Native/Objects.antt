-- ===== src/Native/Objects.antt =====
-- Objects and their properties, of src/realm_native_lib.cpp. A class key is a `uint32_t`, and a
-- property key is the number in a userdata of its own.
pub mod Created
pub mod Nil
pub mod Userdata
use realm_lua_bootcamp.Prelude.{ℕ, ◌%◌, ◌^◌}
use realm_lua_bootcamp.Lua.{
  boolean, Exec, bottom, pure, push, read, call, handle_at, Conversions, to_integer, ◌>>=◌, ◌>>◌,
}
use realm_lua_bootcamp.Native.Api.{RealmApi}
use realm_lua_bootcamp.Native.Convert.{
  inform_realm_error, lua_to_realm_value, realm_to_lua_value, push_handle, or_realm_error,
  value_or_realm_error, handle_or_realm_error,
}

module _ {W : Type 0} ⦃cv : Conversions⦄ ⦃api : RealmApi W⦄ where
  unfoldable pub lib_realm_object_create : Exec W ℕ
  unfolding to_integer inform_realm_error
  lib_realm_object_create = do
    realm ← handle_at (bottom 1)
    key ← read (bottom 2)
    object ← push_handle (api.object_create realm (to_integer key % 2 ^ 32))
    handle_or_realm_error object
    pure 1

  unfoldable pub lib_realm_object_create_with_primary_key : Exec W ℕ
  unfolding to_integer inform_realm_error
  lib_realm_object_create_with_primary_key = do
    realm ← handle_at (bottom 1)
    key ← read (bottom 2)
    pk ← lua_to_realm_value (bottom 3)
    object ← push_handle (api.object_create_with_primary_key realm (to_integer key % 2 ^ 32) pk)
    handle_or_realm_error object
    pure 1

  unfoldable pub lib_realm_object_delete : Exec W ℕ
  unfolding inform_realm_error
  lib_realm_object_delete = do
    object ← handle_at (bottom 1)
    status ← call (api.object_delete object)
    or_realm_error status
    pure 0

  unfoldable pub lib_realm_object_is_valid : Exec W ℕ
  lib_realm_object_is_valid = do
    object ← handle_at (bottom 1)
    valid ← call (api.object_is_valid object)
    push (boolean valid)
    pure 1

  unfoldable pub lib_realm_set_value : Exec W ℕ
  unfolding inform_realm_error
  lib_realm_set_value = do
    realm ← handle_at (bottom 1)
    object ← handle_at (bottom 2)
    property_key ← handle_at (bottom 3)
    value ← lua_to_realm_value (bottom 4)
    status ← call (api.set_value object property_key value)
    or_realm_error status
    pure 0

  unfoldable pub lib_realm_get_value : Exec W ℕ
  unfolding inform_realm_error
  lib_realm_get_value = do
    realm ← handle_at (bottom 1)
    object ← handle_at (bottom 2)
    property_key ← handle_at (bottom 3)
    out_value ← call (api.get_value object property_key)
    value ← value_or_realm_error out_value
    realm_to_lua_value realm value
