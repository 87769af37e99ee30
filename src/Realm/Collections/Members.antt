-- ===== src/Realm/Collections/Members.antt =====
-- What a Lua program finds in a set after it has written to it.
use realm_lua_bootcamp.Prelude.{ℕ, ◌≡◌, refl, Bool, true, false, [], ◌∷◌, some, get_elem?}
use realm_lua_bootcamp.Lua.{
  Value, nil, boolean, integer, number, string, table, function, userdata, light, State, ok, on,
  call_c, to_boolean,
}
use realm_lua_bootcamp.Native.Api.{RealmApi, RealmValue}
use realm_lua_bootcamp.Native.Convert.Handles.{handle_box}
use realm_lua_bootcamp.Native.Convert.RoundTrip.{
  IsScalar, a_boolean, an_integer, a_number, a_string,
}
use realm_lua_bootcamp.Native.Sets.{lib_realm_set_insert, lib_realm_set_erase}
use realm_lua_bootcamp.Native.Sets.Members.{SetLaws, arguments, set_find-erase-insert}
use realm_lua_bootcamp.Realm.{Messages}
use realm_lua_bootcamp.Realm.Collections.{
  Item, plain, Collection, argument, set_index, set_newindex,
}
use realm_lua_bootcamp.Realm.Collections.Indices.{call_c-first}

argument-scalar : (v : Value) → IsScalar v → argument (plain v) ≡ v
unfolding argument
argument-scalar _ (a_boolean b) = refl
argument-scalar _ (an_integer n) = refl
argument-scalar _ (a_number d) = refl
argument-scalar _ (a_string t h) = refl

module _ {W : Type 0} ⦃api : RealmApi W⦄ where
  set_newindex-insert :
      (c : Collection) (messages : Messages W) (entry : Item) (x : Value) (s : State W)
      → to_boolean x ≡ true
      → set_newindex c messages entry x s
        ≡ call_c lib_realm_set_insert (argument entry ∷ c.handle ∷ []) s
  unfolding set_newindex to_boolean
  set_newindex-insert c messages entry nil s h = cc
  set_newindex-insert c messages entry (boolean false) s h = cc
  set_newindex-insert c messages entry (boolean true) s h = refl
  set_newindex-insert c messages entry (integer n) s h = refl
  set_newindex-insert c messages entry (number d) s h = refl
  set_newindex-insert c messages entry (string t) s h = refl
  set_newindex-insert c messages entry (table fs) s h = refl
  set_newindex-insert c messages entry (function f) s h = refl
  set_newindex-insert c messages entry (userdata u) s h = refl
  set_newindex-insert c messages entry (light p) s h = refl

module _ {W : Type 0} ⦃api : RealmApi W⦄ {view : W → RealmValue → Bool} {InWrite : W → Type 0}
    (p : ℕ) (laws : SetLaws api p view InWrite) where
  -- After `set[v] = x`, with a scalar `v` and whatever `x` but nil and false, `set[v]` is true; after
  -- `set[v] = nil` it is false; reading changes nothing. The handle is a set's, as `laws` has it, and
  -- the realm is in a write transaction.
  pub set_index-newindex :
      (c : Collection) (messages : Messages W) (u : ℕ) (v x : Value) (s : State W)
      → IsScalar v
      → to_boolean x ≡ true
      → c.handle ≡ userdata u
      → get_elem? s.boxes u ≡ some (handle_box p)
      → InWrite s.world
      → let t = set_newindex c messages (plain v) x s in
        let e = set_newindex c messages (plain v) nil t.1 in
        (t.0 ≡ ok nil)
        × (set_index c (plain v) t.1 ≡ (ok (boolean true), t.1))
        × (set_index c (plain v) e.1 ≡ (ok (boolean false), e.1))
  unfolding set_index set_newindex
  set_index-newindex c messages u v x s scalar truthy handle h w =
      let args = arguments u v in
      let l = set_find-erase-insert p laws s u v scalar h w in
      let inserted = lib_realm_set_insert (on s args) in
      let erased = lib_realm_set_erase (on inserted.1 args) in
      rw
        (
          set_newindex-insert c messages (plain v) x s truthy,
          argument-scalar v scalar,
          handle,
          call_c-first lib_realm_set_insert args 0 s l.0,
        )
        (
          refl,
          rw l.1 refl,
          rw (call_c-first lib_realm_set_erase args 1 (on inserted.1 s.stack) l.2, l.4) refl,
        )
