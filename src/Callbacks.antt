-- ===== src/Callbacks.antt =====
-- A Lua function that C++ calls later: `realm_lua_userdata`, `free_lua_userdata` and `log_lua_error`
-- of src/realm_util.hpp and src/realm_util.cpp, and the protected call of it.
pub mod Lifetime
use realm_lua_bootcamp.Prelude.{ℕ, zero, suc, List, [], ◌∷◌, Option, none, some}
use realm_lua_bootcamp.Text.{Bytes}
use realm_lua_bootcamp.Lua.{
  Value, string, ok, fault, Exec, pop, pure, lua_l_ref, lua_l_unref, ◌>>=◌, ◌>>◌,
}

-- What a Lua function does when it is called with arguments: what becomes of the world, and the
-- message of the error that leaves it, if one does.
abbrev pub Behaviour : Type 0 → Type 0
Behaviour W = Value → List Value → W → Option Bytes × W

-- The Lua state that it keeps is the one of the call.
pub record LuaUserdata : Type 0 where
  pub callback_reference : Option ℕ

-- The function's arguments, first to last, and what is below them with the function on the top.
abbrev split : ℕ → List Value → List Value → Option (List Value × List Value)
split zero args below = some (args, below)
split (suc n) args [] = none
split (suc n) args (v ∷ below) = split n (v ∷ args) below

abbrev with_message : Option Bytes → List Value → List Value
with_message none below = below
with_message (some message) below = string message ∷ below

module _ {W : Type 0} where
  abbrev called : Behaviour W → Option (List Value × List Value) → Exec W (Option Bytes)
  called run none s = (fault, s)
  called run (some (args, [])) s = (fault, s)
  called run (some (args, f ∷ below)) s =
      let (error, w) = run f args s.world in
      (ok error, record s { stack = with_message error below; world = w })

  -- `lua_pcall(L, n, 0, 0)`: takes the function and its arguments off the stack, and leaves the
  -- message of an error. `none` is LUA_OK.
  abbrev pub lua_pcall : Behaviour W → ℕ → Exec W (Option Bytes)
  lua_pcall run n s = called run (split n [] s.stack) s

  -- Pops the message; that it is written to the error stream is not modelled.
  unfoldable pub log_lua_error : Option Bytes → Exec W (Option Bytes)
  log_lua_error none = pure none
  log_lua_error (some message) = do pop 1; pure (some message)

  -- The function on the top of the stack is kept in the registry.
  unfoldable pub new_userdata : Exec W LuaUserdata
  new_userdata = do
    callback_reference ← lua_l_ref
    pure (record { callback_reference = callback_reference })

  unfoldable pub free_lua_userdata : LuaUserdata → Exec W (Unit {0})
  free_lua_userdata userdata = lua_l_unref userdata.callback_reference
