-- ===== src/Realm/Collections/Entries.antt =====
-- What a Lua program finds in a dictionary after it has written to it.
use realm_lua_bootcamp.Prelude.{
  ℕ, ◌≡◌, ◌≢◌, ◌⊎◌, inl, inr, refl, ap, ◌∙◌, [], ◌∷◌, Option, some, get_elem?,
}
use realm_lua_bootcamp.Text.{Bytes}
use realm_lua_bootcamp.Lua.{Value, nil, string, userdata, State, ok, on, Exec, call_c, pure, ◌>>=◌}
use realm_lua_bootcamp.Native.Api.{RealmApi, RealmValue}
use realm_lua_bootcamp.Native.Convert.Handles.{handle_box}
use realm_lua_bootcamp.Native.Convert.RoundTrip.{
  IsScalar, a_boolean, an_integer, a_number, a_string, realm_value,
}
use realm_lua_bootcamp.Native.Dictionaries.{lib_realm_dictionary_insert, lib_realm_dictionary_find}
use realm_lua_bootcamp.Native.Dictionaries.Keys.{
  DictionaryLaws, insert_arguments, find_arguments, dictionary_find-insert,
}
use realm_lua_bootcamp.Realm.{LuaRealm}
use realm_lua_bootcamp.Realm.Collections.{
  Item, plain, Collection, argument, item_of, dictionary_index, dictionary_newindex,
}
use realm_lua_bootcamp.Realm.Collections.Indices.{
  call_c-first, realm_to_lua_value-scalar, item_of-scalar,
}

module _ {W : Type 0} ⦃api : RealmApi W⦄ where
  dictionary_newindex-insert :
      (c : Collection) (k v : Value) (s : State W)
      → IsScalar v
      → dictionary_newindex c k (plain v) s
        ≡ call_c lib_realm_dictionary_insert (v ∷ k ∷ c.handle ∷ []) s
  unfolding dictionary_newindex argument
  dictionary_newindex-insert c k _ s (a_boolean b) = refl
  dictionary_newindex-insert c k _ s (an_integer n) = refl
  dictionary_newindex-insert c k _ s (a_number d) = refl
  dictionary_newindex-insert c k _ s (a_string t h) = refl

  -- Reading a key of a dictionary.
  abbrev fetch : LuaRealm → Value → Value → Value → Exec W (Item × LuaRealm)
  fetch owner key realm handle = do
    value ← call_c lib_realm_dictionary_find (realm ∷ key ∷ handle ∷ [])
    pure (item_of value owner)

module _ {W : Type 0} ⦃api : RealmApi W⦄ {view : W → Bytes → Option RealmValue}
    {InWrite : W → Type 0} (p : ℕ) (laws : DictionaryLaws api p view InWrite) where
  -- After `dictionary[k] = v`, with a scalar, `dictionary[k]` is `v`, and `dictionary[j]` of another
  -- key, under which a scalar was, is what it was; reading changes nothing. The handle is a
  -- dictionary's, as `laws` has it, and the realm is in a write transaction.
  pub dictionary_index-newindex :
      (c : Collection) (u r q : ℕ) (k j : Bytes) (v x : Value) (s : State W)
      → IsScalar v
      → IsScalar x
      → c.handle ≡ userdata u
      → c.realm.handle ≡ userdata r
      → get_elem? s.boxes u ≡ some (handle_box p)
      → get_elem? s.boxes r ≡ some (handle_box q)
      → InWrite s.world
      → ((j ≡ k) × (x ≡ v)) ⊎ ((j ≢ k) × (view s.world j ≡ some (realm_value x)))
      → let t = dictionary_newindex c (string k) (plain v) s in
        (t.0 ≡ ok nil) × (dictionary_index c (string j) t.1 ≡ (ok (plain x, c.realm), t.1))
  unfolding dictionary_index
  dictionary_index-newindex c u r q k j v x s scalar found_scalar handle realm h hr w expected =
      let args = insert_arguments u k v in
      let asked : ((j ≡ k) × (realm_value x ≡ realm_value v))
          ⊎ ((j ≢ k) × (view s.world j ≡ some (realm_value x))) =
        elim expected [ inl same ↦ inl (same.0, ap realm_value same.1) | inr other ↦ inr other ] in
      let l = dictionary_find-insert p laws s u r q k v j (realm_value x) scalar h hr w asked in
      let inserted = lib_realm_dictionary_insert (on s args) in
      let t = on inserted.1 s.stack in
      rw
        (
          dictionary_newindex-insert c (string k) v s scalar,
          handle,
          call_c-first lib_realm_dictionary_insert args 0 s l.0,
        )
        (
          refl,
          ap (λ y. fetch c.realm (string j) y (userdata u) t) realm
              ∙ rw
                  (
                    l.1,
                    realm_to_lua_value-scalar q x (on inserted.1 (find_arguments u j r))
                        found_scalar,
                    item_of-scalar x c.realm found_scalar,
                  )
                  refl,
        )
