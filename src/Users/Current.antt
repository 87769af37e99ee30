-- ===== src/Users/Current.antt =====
-- The users that a Lua program is given.
use realm_lua_bootcamp.Prelude.{
  ℕ, zero, suc, ◌≡◌, refl, [], ◌∷◌, ◌++◌, Option, none, some, length, get_elem?, get_elem?-append,
}
use realm_lua_bootcamp.Text.{Bytes, c_string}
use realm_lua_bootcamp.Lua.{Value, nil, string, userdata, State, Outcome, ok, Exec, bind_ok}
use realm_lua_bootcamp.Native.Api.{RealmApi}
use realm_lua_bootcamp.Native.Convert.Handles.{handle_box, push_handle_lem}
use realm_lua_bootcamp.App.{AppApi, lib_realm_app_get_current_user, lib_realm_user_get_identity}
use realm_lua_bootcamp.Users.{LuaUser, user_new, current_user, logged_in}

module _ {W : Type 0} ⦃api : RealmApi W⦄ ⦃app : AppApi W⦄ where
  -- The user of a handle `u` that holds `p`.
  abbrev pub user_of_handle : ℕ → ℕ → W → LuaUser
  user_of_handle u p w = record {
    handle = userdata u;
    identity = string (c_string (app.user_get_identity p w).0);
  }

  user_new_lem :
      (u p : ℕ) (s : State W)
      → get_elem? s.boxes u ≡ some (handle_box p)
      → user_new (userdata u) s ≡ (
        ok (some (user_of_handle u p s.world)),
        record s { world = (app.user_get_identity p s.world).1 },
      )
  unfolding user_new lib_realm_user_get_identity
  user_new_lem u p s h = rw h refl

  -- What `currentUser` gives, by the user that realm-core has, and the world after it.
  abbrev expected_user : State W → ℕ × W → Outcome (Option LuaUser) × State W
  expected_user s (zero, w) = (ok none, record s { world = w })
  expected_user s (suc p, w) = (
    ok (some (user_of_handle (length s.boxes) (suc p) w)),
    record s {
      boxes = s.boxes ++ handle_box (suc p) ∷ [];
      world = (app.user_get_identity (suc p) w).1;
    },
  )

  get_current_user_lem :
      (u p : ℕ) (s : State W) (found : ℕ × W)
      → get_elem? s.boxes u ≡ some (handle_box p)
      → app.get_current_user p s.world ≡ found
      → current_user (userdata u) s ≡ expected_user s found
  unfolding current_user lib_realm_app_get_current_user
  get_current_user_lem u p s (zero, w) h e = rw (h, e) refl
  get_current_user_lem u p s (suc x, w) h e =
      let t : State W = record s { boxes = s.boxes ++ handle_box (suc x) ∷ []; world = w } in
      rw (h, e, push_handle_lem (λ y. (suc x, y)) (record s { stack = userdata u ∷ []; world = w }))
        (user_new_lem (length s.boxes) (suc x) t (get_elem?-append s.boxes (handle_box (suc x)) []))

  -- `App:currentUser` gives nil if realm-core has no user, and otherwise a user with a handle of its own
  -- on it and with its identity, up to a zero byte. Stack and references are as before. The handle is an app's.
  current_user-expected :
      (u p : ℕ) (s : State W)
      → get_elem? s.boxes u ≡ some (handle_box p)
      → current_user (userdata u) s ≡ expected_user s (app.get_current_user p s.world)
  current_user-expected u p s h = get_current_user_lem u p s (app.get_current_user p s.world) h refl

  -- When a log-in is answered, the program's function is given the user of the handle, with its identity,
  -- and no error; or nil and the error.
  logged_in-calls :
      {A : Type 0} (on_logged_in : Option LuaUser → Value → Exec W A) (u p : ℕ) (message : Bytes)
      (s : State W)
      → get_elem? s.boxes u ≡ some (handle_box p)
      → (logged_in on_logged_in (userdata u) nil s
          ≡ on_logged_in
              (some (user_of_handle u p s.world))
              nil
              (record s { world = (app.user_get_identity p s.world).1 }))
        × (logged_in on_logged_in nil (string message) s ≡ on_logged_in none (string message) s)
  unfolding logged_in
  logged_in-calls on_logged_in u p message s h =
      (bind_ok (user_new (userdata u)) _ s _ _ (user_new_lem u p s h), refl)
