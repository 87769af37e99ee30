-- ===== src/Playground/Chunks.antt =====
-- What a chunk that the program runs leaves behind.
use realm_lua_bootcamp.Prelude.{
  ℕ, suc, ◌-◌, ◌≡◌, refl, true, false, ◌==◌, List, [], ◌∷◌, ◌++◌, Option, none, some, Option-cases,
  inl, inr, length, arith, leb, le→leb,
}
use realm_lua_bootcamp.Text.{Bytes, codes, c_string}
use realm_lua_bootcamp.Lua.{
  Value, nil, boolean, integer, number, string, table, function, userdata, light, type_of, State,
  ◌>>=◌, Outcome, ok, on, Conversions, to_text, place, bottom,
}
use realm_lua_bootcamp.Playground.{
  push_loaded, HostApi, Loaded, chunk, refused, Called, returned, failed, exhausted, MetaResult,
  no_method, result, error, object_message, msghandler, handle, lua_ok, lua_errrun, lua_errmem,
  docall, report, dochunk, dofile, dostring,
}

-- The place of the handler, under the function that is called without arguments.
place_below :
    (x h : Value) (below : List Value) → place (bottom (length (h ∷ below) - 0)) (x ∷ h ∷ below) ≡ 1
place_below x h below =
    let deep : leb (length (h ∷ below) - 0) (length (x ∷ h ∷ below)) ≡ true =
      le→leb _ _ (omega arith) in
    let at : length (x ∷ h ∷ below) - (length (h ∷ below) - 0) ≡ 1 = omega arith in rw (deep, at)

place_top :
    (h : Value) (below : List Value) → place (bottom (length (h ∷ below) - 0)) (h ∷ below) ≡ 0
place_top h below =
    let deep : leb (length (h ∷ below) - 0) (length (h ∷ below)) ≡ true =
      le→leb _ _ (omega arith) in
    let at : length (h ∷ below) - (length (h ∷ below) - 0) ≡ 0 = omega arith in rw (deep, at)

module _ {W : Type 0} ⦃cv : Conversions⦄ ⦃host : HostApi W⦄ where
  abbrev pub traced : Bytes → W → Bytes × W
  traced message w = (host.traceback (c_string message) 1 w, w)

  abbrev pub from_method : Value → MetaResult × W → Bytes × W
  from_method e (result (string text), w) = (text, w)
  from_method e (error message, w) = traced message w
  from_method e (_, w) = traced (object_message (type_of e)) w

  abbrev pub text_or_method : Value → Option Bytes → W → Bytes × W
  text_or_method e (some message) w = traced message w
  text_or_method e none w = from_method e (host.call_method e (codes "__tostring") w)

  -- The message of an error object: a text is given a traceback, and so is the message of an error
  -- of the object's `__tostring`; a text that this gives is the message itself.
  abbrev pub message_of : Value → W → Bytes × W
  message_of e w = text_or_method e (to_text e) w

  abbrev Handles : Bytes × W → State W → Outcome ℕ × State W → Type 0
  Handles (m, w) s t = t ≡ (ok lua_errrun, record s { stack = string m ∷ s.stack; world = w })

  handle_text :
      (n : ℕ) (e : Value) (m : Bytes) (s : State W)
      → to_text e ≡ some m
      → Handles (traced m s.world) s (handle (suc n) e s)
  unfolding handle to_text c_string
  handle_text n e m s h = rw h refl

  handle_method :
      (n : ℕ) (e : Value) (r : MetaResult) (w : W) (s : State W)
      → to_text e ≡ none
      → host.call_method e (codes "__tostring") s.world ≡ (r, w)
      → Handles (from_method e (r, w)) s (handle (suc (suc n)) e s)
  unfolding handle type_of to_text
  handle_method n e no_method w s h k = rw (h, k) refl
  handle_method n e (error m) w s h k = rw (h, k) refl
  handle_method n e (result (string t)) w s h k = rw (h, k) refl
  handle_method n e (result nil) w s h k = rw (h, k) refl
  handle_method n e (result (boolean b)) w s h k = rw (h, k) refl
  handle_method n e (result (integer i)) w s h k = rw (h, k) refl
  handle_method n e (result (number d)) w s h k = rw (h, k) refl
  handle_method n e (result (table fs)) w s h k = rw (h, k) refl
  handle_method n e (result (function f)) w s h k = rw (h, k) refl
  handle_method n e (result (userdata u)) w s h k = rw (h, k) refl
  handle_method n e (result (light p)) w s h k = rw (h, k) refl

  handle_lem :
      (n : ℕ) (e : Value) (s : State W)
      → Handles (message_of e s.world) s (handle (suc (suc n)) e s)
  handle_lem n e s = elim (Option-cases (to_text e)) [
    | inl h ↦ rw h (handle_method n e _ _ s h refl)
    | inr (m, h) ↦ rw h (handle_text (suc n) e m s h)
  ]

  -- The status of a call, and the world after its error has been written.
  abbrev pub after_call : Called × W → ℕ × W
  after_call (returned vs, w) = (lua_ok, w)
  after_call (failed e, w) =
      let (m, v) = message_of e w in (lua_errrun, host.write_error (c_string m ++ 10 ∷ []) v)
  after_call (exhausted, w) =
      (lua_errmem, host.write_error (c_string (codes "not enough memory") ++ 10 ∷ []) w)

  abbrev pub after_chunk : Loaded × W → ℕ × W
  after_chunk (chunk f, w) = after_call (host.run f [] w)
  after_chunk (refused n message, w) = (suc n, host.write_error (c_string message ++ 10 ∷ []) w)

  abbrev Ends : ℕ × W → State W → Outcome ℕ × State W → Type 0
  Ends (status, w) s t = t ≡ (ok status, record s { world = w })

  dochunk_run :
      (f : Value) (r : Called) (w : W) (s : State W)
      → host.run f [] s.world ≡ (r, w)
      → Ends (after_call (r, w)) s (dochunk lua_ok (on s (f ∷ s.stack)))
  unfolding dochunk docall report to_text
  dochunk_run f (returned vs) w s h =
      let handler = function (host.address msghandler) in
      rw
        (place_below handler f s.stack, place_below f handler s.stack, h, place_top handler s.stack)
        refl
  dochunk_run f (failed e) w s h =
      let handler = function (host.address msghandler) in
      let same : (host.address msghandler == host.address msghandler) ≡ true = ground arith in
      rw
        (
          place_below handler f s.stack,
          place_below f handler s.stack,
          h,
          same,
          handle_lem 198 e (record s { stack = handler ∷ s.stack; world = w }),
          place_below (string (message_of e w).0) handler s.stack,
        )
        refl
  dochunk_run f exhausted w s h =
      let handler = function (host.address msghandler) in
      rw
        (
          place_below handler f s.stack,
          place_below f handler s.stack,
          h,
          place_below (string (codes "not enough memory")) handler s.stack,
        )
        refl

  dochunk_loaded :
      (l : Loaded) (w : W) (s : State W)
      → Ends
          (after_chunk (l, w))
          s
          ((do status ← push_loaded l; dochunk status) (record s { world = w }))
  unfolding dochunk report to_text
  dochunk_loaded (chunk f) w s =
      dochunk_run f (host.run f [] w).0 (host.run f [] w).1 (record s { world = w }) refl
  dochunk_loaded (refused n message) w s =
      let differ : (suc n == lua_ok) ≡ false = ground arith in rw differ refl

  -- Running a file, and running a text, come to an end whatever the chunk does: a chunk that cannot be
  -- loaded, one that fails and one that succeeds all leave the stack, the userdata and the references
  -- as they were. The result is the status. An error is written out once, with a line's end: the
  -- loader's message, or what becomes of the error object, which is a text or has `__tostring` or is
  -- named by its type.
  pub dofile-dostring :
      (name text chunk_name : Bytes) (s : State W)
      → let (status, v) = after_chunk (host.load_file (c_string name) s.world) in
        let (string_status, w) =
          after_chunk (host.load_buffer (c_string text) chunk_name s.world) in
        (dofile name s ≡ (ok status, record s { world = v }))
        × (dostring text chunk_name s ≡ (ok string_status, record s { world = w }))
  unfolding dofile dostring
  dofile-dostring name text chunk_name s =
      let (l, w) = host.load_file (c_string name) s.world in
      let (m, v) = host.load_buffer (c_string text) chunk_name s.world in
      (dochunk_loaded l w s, dochunk_loaded m v s)
