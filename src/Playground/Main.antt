-- ===== src/Playground/Main.antt =====
-- `createargtable` and `main` of src/playground/main.cpp.
use realm_lua_bootcamp.Prelude.{
  ℕ, ◌+◌, ◌-◌, ◌^◌, ◌%◌, Bool, false, ◌==◌, List, [], ◌∷◌, ◌++◌, Option, none, some, if◌then◌else◌,
}
use realm_lua_bootcamp.Text.{Bytes, codes, c_string}
use realm_lua_bootcamp.Lua.{
  Value, nil, string, call_c, Exec, top, push, pop, pure, crash, read, gets, call, lua_newtable,
  lua_rawseti, Conversions, to_boolean, ◌>>=◌, ◌>>◌,
}
use realm_lua_bootcamp.Playground.{HostApi, dofile, dostring}

-- `luaL_requiref` with a function of its own for each module.
pub record Natives (W : Type 0) : Type 0 where
  pub native : Exec W ℕ
  pub scheduler_native : Exec W ℕ
  pub app_native : Exec W ℕ
  pub app_user_native : Exec W ℕ

-- `i - script` as a Lua integer; both are below 2^31.
abbrev pub arg_index : ℕ → ℕ → ℕ
arg_index i script = (i + 2 ^ 64 - script) % 2 ^ 64

abbrev pub with_existing : Option Bytes → Bytes
with_existing none = []
with_existing (some existing_path) = c_string existing_path ++ codes ";"

-- `LUA_PATH`, with the library's directory.
unfoldable pub lua_path : Option Bytes → Bytes → Bytes
lua_path existing source_path =
    with_existing existing
    ++ (source_path ++ codes "/lib/?/init.lua;")
    ++ (source_path ++ codes "/lib/?.lua;")
    ++ codes ";"

-- The first two bytes of an argument, where a C string that has ended gives 0.
abbrev pub first_byte : Bytes → ℕ
first_byte [] = 0
first_byte (c ∷ s) = c

abbrev pub second_byte : Bytes → ℕ
second_byte [] = 0
second_byte (c ∷ s) = first_byte s

-- The script that the arguments name, and its index.
abbrev pub Script : Type 0
Script = Bytes × ℕ

abbrev pub is_loaded : Option Value → Bool
is_loaded none = false
is_loaded (some v) = to_boolean v

abbrev pub or_no_value : Option Value → Value
or_no_value none = nil
or_no_value (some v) = v

module _ {W : Type 0} ⦃host : HostApi W⦄ where
  unfoldable pub fill_arg : ℕ → ℕ → List Bytes → Exec W (Unit {0})
  fill_arg script i [] = pure tt
  fill_arg script i (arg ∷ argv) = do
    push (string (c_string arg))
    lua_rawseti (top 2) (arg_index i script)
    fill_arg script (i + 1) argv

  unfoldable pub createargtable : List Bytes → ℕ → Exec W (Unit {0})
  unfolding fill_arg
  createargtable argv script = do
    lua_newtable
    fill_arg script 0 argv
    arg ← read (top 1)
    pop 1
    call (λ w. (tt, host.set_global (codes "arg") arg w))

  abbrev load_module : Bytes → Exec W ℕ → Exec W (Unit {0})
  load_module name openf = do
    opened ← call_c openf (string name ∷ [])
    call (λ w. (tt, host.set_loaded name opened w))
    push opened

  -- `luaL_requiref` that sets no global; it leaves the module on the stack.
  unfoldable pub lua_l_requiref : Bytes → Exec W ℕ → Exec W (Unit {0})
  unfolding to_boolean
  lua_l_requiref name openf = do
    found ← gets (λ s. host.loaded name s.world)
    if is_loaded found then push (or_no_value found) else load_module name openf

  unfoldable pub set_up : Natives W → Bytes → Exec W (Unit {0})
  unfolding lua_l_requiref lua_path
  set_up natives source_path = do
    existing ← gets (λ s. host.getenv (codes "LUA_PATH") s.world)
    call (λ w. (tt, host.setenv (codes "LUA_PATH") (c_string (lua_path existing source_path)) w))
    call (λ w. (tt, host.new_state w))
    lua_l_requiref (codes "realm.native") natives.native
    lua_l_requiref (codes "realm.scheduler.libuv.native") natives.scheduler_native
    lua_l_requiref (codes "realm.app.native") natives.app_native
    lua_l_requiref (codes "realm.app.user.native") natives.app_user_native

module _ {W : Type 0} ⦃cv : Conversions⦄ ⦃host : HostApi W⦄ (ndebug : Bool) where
  -- The loop over the arguments from index `i` on. The argument after the last one is a null pointer,
  -- which `strlen` reads. An assertion that fails ends the program, unless NDEBUG is defined.
  unfoldable pub scan : ℕ → Script → List Bytes → Exec W Script
  unfolding dostring
  scan i script [] = pure script
  scan i script (arg ∷ []) =
      if first_byte arg == 45
      then (if second_byte arg == 101 then crash else if ndebug then pure script else crash)
      else pure (arg, i)
  scan i script (arg ∷ next ∷ argv) =
      let after_chunk = scan (i + 2) script argv in
      let after_option = scan (i + 1) script (next ∷ argv) in
      if first_byte arg == 45
      then (if second_byte arg == 101
          then (do dostring next (codes "=(command line)"); after_chunk)
          else if ndebug
          then after_option
          else crash)
      else pure (arg, i)

  -- Everything after the modules are there.
  unfoldable pub run_script : Bytes → List Bytes → Exec W ℕ
  unfolding scan createargtable dofile
  run_script main_file [] = do dofile main_file; pure 0
  run_script main_file (program ∷ []) = do dofile main_file; pure 0
  run_script main_file (program ∷ arg ∷ argv) = do
    script ← scan 1 (main_file, 0) (arg ∷ argv)
    createargtable (program ∷ arg ∷ argv) script.1
    dofile script.0
    pure 0

  unfoldable pub main : Natives W → Bytes → List Bytes → Exec W ℕ
  unfolding set_up run_script
  main natives source_path argv = do
    set_up natives source_path
    result ← run_script (source_path ++ codes "/main.lua") argv
    call (λ w. (tt, host.close_state w))
    pure result
