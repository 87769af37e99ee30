-- ===== src/Native/Convert.antt =====
-- src/realm_util.cpp: errors, and values between Lua and Realm. `lua_error` does not return, so
-- the `std::nullopt` after it is never seen: an unknown type is an error of the whole call.
pub mod Handles
pub mod RoundTrip
use realm_lua_bootcamp.Prelude.{ℕ, zero, suc, Bool, true, false, List, [], ◌∷◌, Option, none, some}
use realm_lua_bootcamp.Text.{Bytes, codes, c_string}
use realm_lua_bootcamp.Lua.{
  Value, nil, boolean, integer, number, string, userdata, Exec, Index, realm_handle, raise, pure,
  push, read, call, gets, handle_at, lua_l_checkudata, lua_l_setmetatable, lua_newuserdata, store,
  LuaType, absent, t_nil, t_boolean, t_number, t_string, t_table, t_function, t_userdata, t_light,
  type_at, ◌>>=◌, ◌>>◌,
}
use realm_lua_bootcamp.Native.Api.{RealmApi, RealmValue}

-- `lua_typename`
unfoldable pub typename : LuaType → Bytes
typename absent = codes "no value"
typename t_nil = codes "nil"
typename t_boolean = codes "boolean"
typename t_number = codes "number"
typename t_string = codes "string"
typename t_table = codes "table"
typename t_function = codes "function"
typename t_userdata = codes "userdata"
typename t_light = codes "userdata"

module _ {W : Type 0} ⦃api : RealmApi W⦄ where
  unfoldable pub inform_error : {A : Type 0} → Bytes → List Bytes → Exec W A
  unfolding c_string
  inform_error format args = raise (c_string (api.format format args))

  -- The message of realm-core's last error is the format.
  unfoldable pub inform_realm_error : {A : Type 0} → Exec W A
  unfolding inform_error
  inform_realm_error = do message ← gets (λ s. api.get_last_error s.world); inform_error message []

  -- By the type of the argument, and for a number by whether it is an integer.
  unfoldable pub value_of : Index → Value → LuaType → Exec W RealmValue
  unfolding typename inform_error
  value_of i (integer n) _ = pure (RealmValue.int n)
  value_of i (number d) _ = pure (RealmValue.double d)
  value_of i (string s) _ = pure (RealmValue.string s)
  value_of i (boolean b) _ = pure (RealmValue.bool b)
  value_of i (userdata u) _ = do
    lua_l_checkudata i realm_handle
    object ← handle_at i
    lua_l_setmetatable realm_handle
    link ← call (api.object_as_link object)
    pure (RealmValue.link link)
  value_of i _ t = inform_error (codes "Uknown Lua type: %1") (typename t ∷ [])

  unfoldable pub lua_to_realm_value : Index → Exec W RealmValue
  unfolding value_of
  lua_to_realm_value i = do v ← read i; t ← type_at i; value_of i v t

  -- `lua_newuserdata` with its metatable, and the pointer stored in it.
  unfoldable pub push_handle : (W → ℕ × W) → Exec W ℕ
  push_handle make = do
    u ← lua_newuserdata
    lua_l_setmetatable realm_handle
    p ← call make
    store u p
    pure p

  -- The number of results that are on the stack: an object comes with its class key.
  unfoldable pub realm_to_lua_value : ℕ → RealmValue → Exec W ℕ
  unfolding c_string inform_error
  realm_to_lua_value realm RealmValue.null = do push nil; pure 1
  realm_to_lua_value realm (RealmValue.int n) = do push (integer n); pure 1
  realm_to_lua_value realm (RealmValue.bool b) = do push (boolean b); pure 1
  realm_to_lua_value realm (RealmValue.string s) = do push (string (c_string s)); pure 1
  realm_to_lua_value realm (RealmValue.float d) = do push (number d); pure 1
  realm_to_lua_value realm (RealmValue.double d) = do push (number d); pure 1
  realm_to_lua_value realm (RealmValue.link l) = do
    push_handle (api.get_object realm l.target_table l.target)
    push (integer l.target_table)
    pure 2
  realm_to_lua_value realm (RealmValue.other n) = inform_error (codes "Uknown realm type") []

  -- The key of a property, by its name.
  unfoldable pub get_property_info_by_name : ℕ → ℕ → Bytes → Exec W ℕ
  unfolding inform_error inform_realm_error
  get_property_info_by_name realm object name = do
    class_key ← call (api.object_get_table object)
    found ← call (api.find_property realm class_key name)
    elim found [
      | none ↦ inform_realm_error
      | some none ↦ inform_error (codes "Unable to fetch value from property %1") (name ∷ [])
      | some (some info) ↦ pure info
    ]

  unfoldable pub get_property_info_by_key : ℕ → ℕ → ℕ → Exec W ℕ
  unfolding inform_realm_error
  get_property_info_by_key realm object key = do
    class_key ← call (api.object_get_table object)
    found ← call (api.get_property realm class_key key)
    elim found [ none ↦ inform_realm_error | some info ↦ pure info ]

  -- `if (!status) return _inform_realm_error(L);`
  abbrev pub or_realm_error : Bool → Exec W (Unit {0})
  or_realm_error true = pure tt
  or_realm_error false = inform_realm_error

  -- The same for a call that has a result.
  abbrev pub value_or_realm_error : {A : Type 0} → Option A → Exec W A
  value_or_realm_error none = inform_realm_error
  value_or_realm_error (some a) = pure a

  -- The same for a handle.
  abbrev pub handle_or_realm_error : ℕ → Exec W (Unit {0})
  handle_or_realm_error zero = inform_realm_error
  handle_or_realm_error (suc p) = pure tt
