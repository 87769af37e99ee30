-- ===== src/Lua/Convert.antt =====
-- The conversions of `lua_tointeger`, `lua_tonumber`, `lua_tostring` and `lua_toboolean`. What they
-- do between numbers and texts is Lua's own arithmetic, an argument here.
use realm_lua_bootcamp.Prelude.{ℕ, Bool, true, false, Option, none, some, if◌then◌else◌}
use realm_lua_bootcamp.Text.{Bytes, c_string}
use realm_lua_bootcamp.Lua.Machine.{Exec, Index, type_at, read, raise, crash, pure, ◌>>=◌}
use realm_lua_bootcamp.Lua.Access.{bad_argument}
use realm_lua_bootcamp.Lua.Values.{
  LuaType, t_table, t_string, Value, nil, boolean, integer, number, string, table,
}

pub record Conversions : Type 0 where
  pub integer_of_float : ℕ → ℕ
  pub integer_of_text : Bytes → ℕ
  pub float_of_integer : ℕ → ℕ
  pub float_of_text : Bytes → ℕ
  pub text_of_integer : ℕ → Bytes
  pub text_of_float : ℕ → Bytes

module _ ⦃cv : Conversions⦄ where
  unfoldable pub to_integer : Value → ℕ
  to_integer (integer n) = n
  to_integer (number d) = cv.integer_of_float d
  to_integer (string s) = cv.integer_of_text s
  to_integer _ = 0

  unfoldable pub to_number : Value → ℕ
  to_number (integer n) = cv.float_of_integer n
  to_number (number d) = d
  to_number (string s) = cv.float_of_text s
  to_number _ = 0

  -- `none` is the null pointer.
  unfoldable pub to_text : Value → Option Bytes
  to_text (integer n) = some (cv.text_of_integer n)
  to_text (number d) = some (cv.text_of_float d)
  to_text (string s) = some s
  to_text _ = none

unfoldable pub to_boolean : Value → Bool
to_boolean nil = false
to_boolean (boolean b) = b
to_boolean _ = true

unfoldable pub is_integer : Value → Bool
is_integer (integer n) = true
is_integer _ = false

-- `lua_isstring`: a string or a number.
unfoldable pub is_string : Value → Bool
is_string (string s) = true
is_string (integer n) = true
is_string (number d) = true
is_string _ = false

abbrev pub is_type : LuaType → LuaType → Bool
is_type t_table t_table = true
is_type t_string t_string = true
is_type _ _ = false

abbrev pub is_boolean : Value → Bool
is_boolean (boolean b) = true
is_boolean _ = false

abbrev pub is_table : Value → Bool
is_table (table fs) = true
is_table _ = false

module _ {W : Type 0} where
  -- `luaL_checktype`
  abbrev pub lua_l_checktype : Index → LuaType → Exec W (Unit {0})
  lua_l_checktype i t = do
    found ← type_at i
    if is_type found t then pure tt else raise bad_argument

  abbrev deref_text : Option Bytes → Exec W Bytes
  deref_text none = crash
  deref_text (some s) = pure s

  -- `lua_tostring`, where the pointer is then read as a C string.
  abbrev pub c_text_at : ⦃cv : Conversions⦄ → Index → Exec W Bytes
  c_text_at i = do v ← read i; s ← deref_text (to_text v); pure (c_string s)
