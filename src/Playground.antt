-- ===== src/Playground.antt =====
-- src/playground/main.cpp: the program that runs a Lua script with the modules of the library.
-- This file has the calls that are protected and report their errors; Main has the rest.
pub mod Main
pub mod Chunks
pub mod Arguments
pub mod Scripts
use realm_lua_bootcamp.Prelude.{
  ℕ, zero, suc, ◌+◌, ◌-◌, Bool, true, false, ◌&&◌, ◌==◌, List, [], ◌∷◌, ◌++◌, Option, none, some,
  if◌then◌else◌, get_elem?, take, drop,
}
use realm_lua_bootcamp.Text.{Bytes, codes, c_string}
use realm_lua_bootcamp.Lua.{
  Value, nil, string, function, LuaType, absent, t_nil, t_boolean, t_number, t_string, t_table,
  t_function, t_userdata, t_light, State, Outcome, ok, raised, fault, Exec, bottom, top, place,
  value_at, or_nil, call_c, gettop, push, pop, pure, raise, crash, read, type_at, gets, call, on,
  Conversions, to_text, c_text_at, is_type, ◌>>=◌, ◌>>◌,
}

-- What becomes of a chunk that is loaded: a function, or one more than which status, with a message.
pub data Loaded : Type 0 where
  chunk : Value → Loaded
  refused : ℕ → Bytes → Loaded

-- What becomes of a call: its results, an error with its object, or no memory left.
pub data Called : Type 0 where
  returned : List Value → Called
  failed : Value → Called
  exhausted : Called

-- What a metamethod gives: there is none, a result, or an error with its message.
pub data MetaResult : Type 0 where
  no_method : MetaResult
  result : Value → MetaResult
  error : Bytes → MetaResult

-- The part of Lua and of the C library that the program calls.
pub record HostApi (W : Type 0) : Type 0 where
  pub address : Exec W ℕ → ℕ
  pub run : Value → List Value → W → Called × W
  pub load_buffer : Bytes → Bytes → W → Loaded × W
  pub load_file : Bytes → W → Loaded × W
  pub call_method : Value → Bytes → W → MetaResult × W
  pub traceback : Bytes → ℕ → W → Bytes
  pub write_error : Bytes → W → W
  pub getenv : Bytes → W → Option Bytes
  pub setenv : Bytes → Bytes → W → W
  pub new_state : W → W
  pub loaded : Bytes → W → Option Value
  pub set_loaded : Bytes → Value → W → W
  pub set_global : Bytes → Value → W → W
  pub close_state : W → W

abbrev pub lua_ok : ℕ
lua_ok = 0

abbrev pub lua_errrun : ℕ
lua_errrun = 2

abbrev pub lua_errmem : ℕ
lua_errmem = 4

abbrev pub lua_errerr : ℕ
lua_errerr = 5

-- How often an error of the message handler is given to the handler again.
abbrev pub max_c_calls : ℕ
max_c_calls = 200

abbrev pub type_name : LuaType → Bytes
type_name absent = codes "no value"
type_name t_nil = codes "nil"
type_name t_boolean = codes "boolean"
type_name t_number = codes "number"
type_name t_string = codes "string"
type_name t_table = codes "table"
type_name t_function = codes "function"
type_name t_userdata = codes "userdata"
type_name t_light = codes "userdata"

abbrev pub object_message : LuaType → Bytes
object_message t = codes "(error object is a " ++ type_name t ++ codes " value)"

-- The function's arguments, first to last, and what is below them with the function on the top.
abbrev pub split : ℕ → List Value → List Value → Option (List Value × List Value)
split zero args below = some (args, below)
split (suc n) args [] = none
split (suc n) args (v ∷ below) = split n (v ∷ args) below

-- `nres` results, pushed first to last.
abbrev pub push_results : ℕ → List Value → List Value → List Value
push_results zero vs below = below
push_results (suc n) [] below = push_results n [] (nil ∷ below)
push_results (suc n) (v ∷ vs) below = push_results n vs (v ∷ below)

module _ {W : Type 0} where
  abbrev insert : ℕ → List Value → Exec W (Unit {0})
  insert k [] s = (fault, s)
  insert k (v ∷ below) s = (ok tt, on s (take k below ++ v ∷ drop k below))

  abbrev pub lua_insert : ℕ → Exec W (Unit {0})
  lua_insert i s = insert (place (bottom i) s.stack) s.stack s

  abbrev pub lua_remove : ℕ → Exec W (Unit {0})
  lua_remove i s =
      let k = place (bottom i) s.stack in (ok tt, on s (take k s.stack ++ drop (k + 1) s.stack))

module _ {W : Type 0} ⦃host : HostApi W⦄ where
  abbrev push_method : MetaResult → Exec W Bool
  push_method no_method = pure false
  push_method (result v) = do push v; pure true
  push_method (error m) = raise m

  abbrev pub lua_l_callmeta : ℕ → Bytes → Exec W Bool
  lua_l_callmeta i event = do
    v ← read (bottom i)
    r ← call (host.call_method v event)
    push_method r

  abbrev pub lua_l_traceback : Bytes → Exec W (Unit {0})
  lua_l_traceback message = do
    text ← gets (λ s. host.traceback (c_string message) 1 s.world)
    push (string text)

  -- What is made of an error object that is no string.
  unfoldable pub describe : Exec W ℕ
  describe = do
    found ← lua_l_callmeta 1 (codes "__tostring")
    made ← type_at (top 1)
    if found && is_type made t_string then pure 1 else (do
      t ← type_at (bottom 1)
      push (string (object_message t))
      lua_l_traceback (object_message t)
      pure 1)

  unfoldable pub msghandler : ⦃cv : Conversions⦄ → Exec W ℕ
  unfolding describe
  msghandler = do
    v ← read (bottom 1)
    elim (to_text v) [ some msg ↦ (do lua_l_traceback msg; pure 1) | none ↦ describe ]

abbrev retry : {W : Type 0} → (Bytes → Exec W ℕ) → Outcome Value × State W → Outcome ℕ × State W
retry again (ok message, t) = (do push message; pure lua_errrun) t
retry again (raised m, t) = again m t
retry again (fault, t) = (fault, t)

module _ {W : Type 0} ⦃cv : Conversions⦄ ⦃host : HostApi W⦄ where
  -- The handler is given the error object, and an error of its own as well.
  unfoldable pub handle : ℕ → Value → Exec W ℕ
  unfolding msghandler
  handle zero e s = (do push (string (codes "error in error handling")); pure lua_errerr) s
  handle (suc n) e s = retry (λ m. handle n (string m)) (call_c msghandler (e ∷ []) s)

  -- The only handler of this program is `msghandler`.
  abbrev call_handler : Value → Value → Exec W ℕ
  call_handler (function h) e = if h == host.address msghandler then handle max_c_calls e else crash
  call_handler _ e = crash

  abbrev finish_call : ℕ → Value → Called → Exec W ℕ
  finish_call nres handler (returned vs) s = (ok lua_ok, on s (push_results nres vs s.stack))
  finish_call nres handler (failed e) s = call_handler handler e s
  finish_call nres handler exhausted s =
      (do push (string (codes "not enough memory")); pure lua_errmem) s

  abbrev called : ℕ → Value → Option (List Value × List Value) → Exec W ℕ
  called nres handler none s = (fault, s)
  called nres handler (some (args, [])) s = (fault, s)
  called nres handler (some (args, f ∷ below)) s =
      let (r, w) = host.run f args s.world in
      finish_call nres handler r (record s { stack = below; world = w })

  -- `lua_pcall` with the message handler at an index.
  abbrev pub lua_pcall : ℕ → ℕ → ℕ → Exec W ℕ
  lua_pcall narg nres base s =
      called nres (or_nil (value_at (bottom base) s.stack)) (split narg [] s.stack) s

  unfoldable pub report : ℕ → Exec W ℕ
  report zero = pure zero
  report (suc status) = do
    msg ← c_text_at (top 1)
    call (λ w. (tt, host.write_error (msg ++ 10 ∷ []) w))
    pop 1
    pure (suc status)

  unfoldable pub docall : ℕ → ℕ → Exec W ℕ
  docall narg nres = do
    height ← gettop
    let base = height - narg
    push (function (host.address msghandler))
    lua_insert base
    status ← lua_pcall narg nres base
    lua_remove base
    pure status

  unfoldable pub dochunk : ℕ → Exec W ℕ
  unfolding report docall
  dochunk status = do
    called_status ← (if status == lua_ok then docall 0 0 else pure status)
    report called_status

  -- Loading pushes the function or the message.
  abbrev pub push_loaded : Loaded → Exec W ℕ
  push_loaded (chunk f) = do push f; pure lua_ok
  push_loaded (refused n message) = do push (string message); pure (suc n)

  unfoldable pub dofile : Bytes → Exec W ℕ
  unfolding dochunk
  dofile name = do
    loaded ← call (host.load_file (c_string name))
    status ← push_loaded loaded
    dochunk status

  unfoldable pub dostring : Bytes → Bytes → Exec W ℕ
  unfolding dochunk
  dostring text name = do
    loaded ← call (host.load_buffer (c_string text) name)
    status ← push_loaded loaded
    dochunk status
