-- ===== src/Native/Objects/Nil.antt =====
-- A property that is set to nil.
use realm_lua_bootcamp.Prelude.{ℕ, ◌≡◌, [], ◌∷◌, some, get_elem?}
use realm_lua_bootcamp.Text.{codes, c_string}
use realm_lua_bootcamp.Lua.{nil, userdata, State, Box, raised, on, Conversions, type_of}
use realm_lua_bootcamp.Native.Api.{RealmApi}
use realm_lua_bootcamp.Native.Convert.{lua_to_realm_value}
use realm_lua_bootcamp.Native.Objects.{lib_realm_set_value}

-- Setting any property of any object to nil raises an error that names the type nil, and changes
-- nothing: realm-core is not called, so a nullable property cannot be set to null.
set_value-nil :
    {W : Type 0} ⦃cv : Conversions⦄ ⦃api : RealmApi W⦄ (r o k : ℕ) (realm object key : Box)
    (s : State W)
    → get_elem? s.boxes r ≡ some realm
    → get_elem? s.boxes o ≡ some object
    → get_elem? s.boxes k ≡ some key
    → let start = on s (nil ∷ userdata k ∷ userdata o ∷ userdata r ∷ []) in
      lib_realm_set_value start
      ≡ (raised (c_string (api.format (codes "Uknown Lua type: %1") (codes "nil" ∷ []))), start)
unfolding lib_realm_set_value lua_to_realm_value type_of
set_value-nil r o k realm object key s hr ho hk = rw (hr, ho, hk)
