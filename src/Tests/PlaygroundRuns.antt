-- ===== src/Tests/PlaygroundRuns.antt =====
-- The playground with a Lua whose chunks note their names, and fail if they are empty.
use realm_lua_bootcamp.Prelude.{
  ◌≡◌, refl, false, ◌==◌, if◌then◌else◌, arith, List, [], ◌∷◌, ◌++◌, none, get_elem?,
}
use realm_lua_bootcamp.Text.{Bytes, codes, c_string}
use realm_lua_bootcamp.Lua.{
  Value, nil, function, table, Fields, State, type_of, to_text, ok, fault, get_index,
}
use realm_lua_bootcamp.Playground.{
  HostApi, Loaded, chunk, refused, Called, returned, failed, no_method,
}
use realm_lua_bootcamp.Playground.Main.{arg_index, createargtable, run_script}
use realm_lua_bootcamp.Playground.Chunks.{after_chunk}
use realm_lua_bootcamp.Playground.Arguments.{arg_or, createargtable-arg}
use realm_lua_bootcamp.Playground.Scripts.{options, run_texts, run_file, HasRun, run_script-options}
use realm_lua_bootcamp.Tests.World.{no_floats}

abbrev Written : Type 0
Written = List Bytes

abbrev load : Bytes → Loaded
load [] = refused 2 (codes "empty")
load (c ∷ name) = chunk (function c)

abbrev run_chunk : Value → List Value → Written → Called × Written
run_chunk (function c) args w = if c == 98 then (failed nil, w) else (returned [], (c ∷ []) ∷ w)
run_chunk _ args w = (returned [], w)

instance abbrev console : HostApi Written
console = record {
  address = λ f. 1;
  run = run_chunk;
  load_buffer = λ text name w. (load text, w);
  load_file = λ name w. (load name, w);
  call_method = λ v event w. (no_method, w);
  traceback = λ message level w. message;
  write_error = λ text w. text ∷ w;
  getenv = λ name w. none;
  setenv = λ name value w. w;
  new_state = λ w. w;
  loaded = λ name w. none;
  set_loaded = λ name v w. w;
  set_global = λ name v w. name ∷ w;
  close_state = λ w. w;
}

abbrev begun : State Written
begun = record { stack = table Fields.end ∷ []; boxes = []; refs = []; type_metas = []; world = [] }

-- A failing chunk writes one line.
failing_file :
    (after_chunk (console.load_file (codes "b.lua") [])).1
    ≡ (codes "(error object is a nil value)" ++ 10 ∷ []) ∷ []
unfolding type_of c_string to_text
failing_file = refl

abbrev argv : List Bytes
argv = codes "play" ∷ codes "-e" ∷ codes "x=1" ∷ codes "a.lua" ∷ codes "fast" ∷ []

createargtable-arg_example :
    (arg : Fields) × (createargtable argv 3 begun
      ≡ (ok tt, record begun { world = console.set_global (codes "arg") (table arg) [] }))
    × (get_index (arg_index 4 3) arg ≡ arg_or nil (get_elem? argv 4))
createargtable-arg_example =
    createargtable-arg argv 3 4 begun (omega arith) (omega arith) (omega arith)

run_script-options_example :
    let texts = codes "x=1" ∷ [] in
    let after = codes "a.lua" ∷ codes "fast" ∷ [] in
    HasRun false
      (codes "a.lua")
      after
      1
      (run_texts texts [])
      begun
      (run_script false (codes "main.lua") (codes "play" ∷ (options texts ++ after)) begun)
    × (run_script false (codes "main.lua") (codes "play" ∷ []) begun
        ≡ (ok 0, record begun { world = run_file (codes "main.lua") [] }))
    × ((run_script false
          (codes "main.lua")
          (codes "play" ∷ (options texts ++ codes "-e" ∷ []))
          begun).0
        ≡ fault)
run_script-options_example =
    run_script-options false (codes "main.lua") (codes "play") (codes "a.lua") (codes "x=1" ∷ [])
      (codes "fast" ∷ []) 1 begun refl (omega arith) (omega arith)
