-- ===== src/App/Completion.antt =====
-- What a user's callback is given when the server has answered.
use realm_lua_bootcamp.Prelude.{
  ℕ, suc, ◌≡◌, List, [], ◌∷◌, ◌++◌, Option, none, some, arith, length, get_elem?,
}
use realm_lua_bootcamp.Text.{Bytes, c_string}
use realm_lua_bootcamp.Lua.{Value, nil, string, function, userdata, State, ok}
use realm_lua_bootcamp.Callbacks.{Behaviour}
use realm_lua_bootcamp.Native.Api.{RealmApi}
use realm_lua_bootcamp.Native.Convert.Handles.{handle_box, push_handle_lem}
use realm_lua_bootcamp.App.{AppApi, on_register_email_complete, on_log_in_complete}

abbrev pub message_arguments : Option Bytes → List Value
message_arguments none = []
message_arguments (some message) = string (c_string message) ∷ []

-- When an email is registered, or is not, the callback is called once: with no argument, or with the
-- message of the error. An error of the callback itself is swallowed, and the stack, the userdata
-- and the references are as before.
on_register_email_complete-calls :
    {W : Type 0} (run : Behaviour W) (r f : ℕ) (error : Option Bytes) (s : State W)
    → get_elem? s.refs r ≡ some (some (function f))
    → let called = run (function f) (message_arguments error) s.world in
      on_register_email_complete run (record { callback_reference = some r }) error s
      ≡ (ok called.0, record s { world = called.1 })
unfolding on_register_email_complete
on_register_email_complete-calls run r f none s h = ground arith
on_register_email_complete-calls run r f (some m) s h = ground arith

-- When a log-in is answered, the callback is called once: with a handle of its own on a clone of the
-- user, or with nil and the message of the error. An error of the callback itself is swallowed, and
-- the stack and the references are as before.
pub on_log_in_complete-calls :
    {W : Type 0} ⦃api : RealmApi W⦄ ⦃app : AppApi W⦄ (run : Behaviour W) (r f user : ℕ)
    (message : Bytes) (s : State W)
    → get_elem? s.refs r ≡ some (some (function f))
    → let clone = app.clone (suc user) s.world in
      let welcomed = run (function f) (userdata (length s.boxes) ∷ []) clone.1 in
      let refused = run (function f) (nil ∷ string (c_string message) ∷ []) s.world in
      (on_log_in_complete run (record { callback_reference = some r }) (suc user) none s ≡ (
        ok welcomed.0,
        record s { boxes = s.boxes ++ handle_box clone.0 ∷ []; world = welcomed.1 },
      ))
      × (on_log_in_complete run (record { callback_reference = some r }) 0 (some message) s
          ≡ (ok refused.0, record s { world = refused.1 }))
unfolding on_log_in_complete
on_log_in_complete-calls {W} ⦃api⦄ ⦃app⦄ run r f user message s h =
    let t : State W = record s { stack = function f ∷ s.stack } in
    (rw (h, push_handle_lem (app.clone (suc user)) t) (ground arith), ground arith)
