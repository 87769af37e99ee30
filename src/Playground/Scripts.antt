-- ===== src/Playground/Scripts.antt =====
-- What the program runs, by its arguments.
use realm_lua_bootcamp.Prelude.{
  get_elem?-behind, ℕ, ◌+◌, ◌*◌, ◌≤◌, ◌≢◌, ◌^◌, ◌<◌, ◌≡◌, refl, ap, ◌∙◌, Bool, false, ◌==◌, List,
  [], ◌∷◌, ◌++◌, length, length-append, arith, get_elem?, subst,
}
use realm_lua_bootcamp.Text.{Bytes, codes, c_string}
use realm_lua_bootcamp.Lua.{nil, table, Fields, get_index, State, Outcome, ok, fault, Conversions}
use realm_lua_bootcamp.Playground.{HostApi}
use realm_lua_bootcamp.Playground.Chunks.{after_chunk, dofile-dostring}
use realm_lua_bootcamp.Playground.Arguments.{arg_or, createargtable-arg}
use realm_lua_bootcamp.Playground.Main.{arg_index, Script, first_byte, scan, run_script}

-- The options that run some texts.
abbrev pub options : List Bytes → List Bytes
options [] = []
options (text ∷ texts) = codes "-e" ∷ text ∷ options texts

module _ {W : Type 0} ⦃cv : Conversions⦄ ⦃host : HostApi W⦄ where
  abbrev pub run_texts : List Bytes → W → W
  run_texts [] w = w
  run_texts (text ∷ texts) w =
      run_texts texts (after_chunk (host.load_buffer (c_string text) (codes "=(command line)") w)).1

  abbrev pub run_file : Bytes → W → W
  run_file file w = (after_chunk (host.load_file (c_string file) w)).1

module _ {W : Type 0} ⦃cv : Conversions⦄ ⦃host : HostApi W⦄ (ndebug : Bool) where
  scan-options :
      (texts tail : List Bytes) (i j : ℕ) (script : Script) (s : State W)
      → j ≡ i + 2 * length texts
      → scan ndebug i script (options texts ++ tail) s
        ≡ scan ndebug j script tail (record s { world = run_texts texts s.world })
  unfolding scan
  scan-options [] tail i j script s e = let same : j ≡ i = omega arith in rw same refl
  scan-options (text ∷ texts) tail i j script s e =
      rw (dofile-dostring [] text (codes "=(command line)") s).1 (
        scan-options texts tail (i + 2) j script
          (record s { world = run_texts (text ∷ []) s.world }) (omega arith))

  scan-file :
      (file : Bytes) (rest : List Bytes) (i : ℕ) (script : Script) (s : State W)
      → (first_byte file == 45) ≡ false
      → scan ndebug i script (file ∷ rest) s ≡ (ok (file, i), s)
  unfolding scan
  scan-file file [] i script s h = rw h refl
  scan-file file (next ∷ rest) i script s h = rw h refl

length-options : (texts : List Bytes) → length (options texts) ≡ 2 * length texts
length-options [] = refl
length-options (text ∷ texts) = omega (arith, length-options texts)

append-not_empty : (xs : List Bytes) (y : Bytes) (ys : List Bytes) → xs ++ y ∷ ys ≢ []
append-not_empty [] y ys e = cc
append-not_empty (x ∷ xs) y ys e = cc

module _ {W : Type 0} ⦃cv : Conversions⦄ ⦃host : HostApi W⦄ (ndebug : Bool) where
  -- The file was run, where the arguments from itself on are what follows.
  abbrev pub HasRun : Bytes → List Bytes → ℕ → W → State W → Outcome ℕ × State W → Type 0
  HasRun file argv k w s t =
      (arg : Fields) × (t
        ≡ (ok 0, record s { world = run_file file (host.set_global (codes "arg") (table arg) w) }))
      × (get_index k arg ≡ arg_or nil (get_elem? argv k))

  run_scanned :
      (main_file program file : Bytes) (argv rest : List Bytes) (script k : ℕ) (w : W) (s : State W)
      → scan ndebug 1 (main_file, 0) argv s ≡ (ok (file, script), record s { world = w })
      → argv ≢ []
      → get_elem? (program ∷ argv) (script + k) ≡ get_elem? rest k
      → script + k ≤ length (program ∷ argv)
      → script < length (program ∷ argv)
      → length (program ∷ argv) < 2 ^ 31
      → HasRun file rest k w s (run_script ndebug main_file (program ∷ argv) s)
  unfolding run_script
  run_scanned main_file program file [] rest script k w s h some_argument at hk hs ha =
      absurd (some_argument refl)
  run_scanned main_file program file (x ∷ xs) rest script k w s h some_argument at hk hs ha =
      let t : State W = record s { world = w } in
      let made = createargtable-arg (program ∷ x ∷ xs) script (script + k) t hs ha hk in
      let index : arg_index (script + k) script ≡ k = omega arith in
      (
        made.0,
        rw
            (
              h,
              made.1,
              (dofile-dostring file [] []
                  (record s { world = host.set_global (codes "arg") (table made.0) w })).0,
            )
            refl,
        subst (λ n. get_index n made.0 ≡ arg_or nil (get_elem? rest k)) index
            (made.2 ∙ ap (arg_or nil) at),
      )

  dangling_option :
      (main_file program : Bytes) (texts : List Bytes) (s : State W)
      → (run_script ndebug main_file (program ∷ (options texts ++ codes "-e" ∷ [])) s).0 ≡ fault
  unfolding run_script scan
  dangling_option main_file program [] s = refl
  dangling_option main_file program (text ∷ texts) s =
      rw
        (scan-options ndebug (text ∷ texts) (codes "-e" ∷ []) 1 (1 + 2 * length (text ∷ texts))
          (main_file, 0) s refl)
        refl

  -- With options `-e text` and a file: the texts are run in their order and then the file, which finds
  -- itself and the arguments behind it in the global `arg`, from index 0 on. Without arguments the
  -- program's own script is run. An option `-e` at the end reads through a null pointer. The file's
  -- name does not begin with a dash, and there are fewer than 2^31 arguments.
  pub run_script-options :
      (main_file program file : Bytes) (texts rest : List Bytes) (k : ℕ) (s : State W)
      → (first_byte file == 45) ≡ false
      → length (program ∷ (options texts ++ file ∷ rest)) < 2 ^ 31
      → k ≤ length (file ∷ rest)
      → HasRun file
          (file ∷ rest)
          k
          (run_texts texts s.world)
          s
          (run_script ndebug main_file (program ∷ (options texts ++ file ∷ rest)) s)
        × (run_script ndebug main_file (program ∷ []) s
            ≡ (ok 0, record s { world = run_file main_file s.world }))
        × ((run_script ndebug main_file (program ∷ (options texts ++ codes "-e" ∷ [])) s).0 ≡ fault)
  unfolding run_script
  run_script-options main_file program file texts rest k s hf ha hk =
      let w = run_texts texts s.world in
      let script = 1 + 2 * length texts in
      let total : length (program ∷ (options texts ++ file ∷ rest))
          ≡ script + length (file ∷ rest) =
        omega (arith, length-append (options texts) (file ∷ rest), length-options texts) in
      let scanned =
        scan-options ndebug texts (file ∷ rest) 1 script (main_file, 0) s refl
        ∙ scan-file ndebug file rest script (main_file, 0) (record s { world = w }) hf in
      (
        run_scanned main_file program file (options texts ++ file ∷ rest) (file ∷ rest) script k w s
            scanned (append-not_empty (options texts) file rest)
            (get_elem?-behind (program ∷ options texts) (file ∷ rest) (script + k) k
              (omega (arith, length-options texts)))
            (omega arith) (omega arith) ha,
        rw (dofile-dostring main_file [] [] s).0 refl,
        dangling_option main_file program texts s,
      )
