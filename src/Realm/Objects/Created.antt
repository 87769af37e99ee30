-- ===== src/Realm/Objects/Created.antt =====
-- `Realm:create`: the object has the values that it is made with.
use realm_lua_bootcamp.Prelude.{
  ℕ, suc, ◌%◌, ◌^◌, ◌≡◌, refl, ◌∙◌, List, [], ◌∷◌, ◌++◌, Option, none, some, get_elem?,
  get_elem?-append, get_elem?-grown, length,
}
use realm_lua_bootcamp.Text.{Bytes, codes}
use realm_lua_bootcamp.Lua.{
  Value, nil, integer, userdata, table, Fields, get_field, State, ok, Conversions, bind_ok,
}
use realm_lua_bootcamp.Native.Api.{RealmApi, RealmValue}
use realm_lua_bootcamp.Native.Objects.Created.{object_create_lem}
use realm_lua_bootcamp.Native.Convert.Handles.{handle_box}
use realm_lua_bootcamp.Native.Convert.RoundTrip.{IsScalar, realm_value}
use realm_lua_bootcamp.Realm.{LuaRealm, Messages, safe_get_class}
use realm_lua_bootcamp.Realm.Collections as Collections
use realm_lua_bootcamp.Realm.Collections.{with_child}
use realm_lua_bootcamp.Realm.Objects.{LuaObject, item, object_index}
use realm_lua_bootcamp.Realm.Objects.Creation.{Values, new_object, object_new, realm_create}
use realm_lua_bootcamp.Realm.Objects.Properties.{PropertyLaws, HasProperty, index_lem}
use realm_lua_bootcamp.Realm.Objects.Initial.{
  Written, Assigns, AllFit, AllFresh, IsGiven, HasProperty-grown, Assigns-grown, write_all,
  view-write_all, assign_values-write_all,
}

-- The object that is made, whose handle is the next userdata.
abbrev pub next_object : LuaRealm → Fields → ℕ → LuaObject
next_object realm class u = record {
  handle = userdata u;
  realm = with_child (userdata u) realm;
  class = table class;
}

module _ {W : Type 0} ⦃cv : Conversions⦄ ⦃api : RealmApi W⦄ {view : W → ℕ → RealmValue}
    {InWrite : W → Type 0} {Fits : ℕ → RealmValue → Type 0} (p : ℕ)
    (laws : PropertyLaws api (suc p) view InWrite Fits) (messages : Messages W) where
  safe_get_class_lem :
      (realm : LuaRealm) (class_name : Bytes) (schema class : Fields) (s : State W)
      → realm.schema ≡ table schema
      → get_field class_name schema ≡ table class
      → safe_get_class messages realm class_name s ≡ (ok (table class), s)
  unfolding safe_get_class
  safe_get_class_lem realm class_name schema class s known found = rw (known, found) refl

  pub realm_create_lem :
      (realm : LuaRealm) (class_name : Bytes) (schema class : Fields) (r q : ℕ) (key : Option Value)
      (vs : Values) (ws : List Written) (name : Bytes) (k : ℕ) (v : Value) (s : State W) (w : W)
      → realm.handle ≡ userdata r
      → get_elem? s.boxes r ≡ some (handle_box q)
      → realm.schema ≡ table schema
      → get_field class_name schema ≡ table class
      → let o = next_object realm class (length s.boxes) in
        let boxes = s.boxes ++ handle_box (suc p) ∷ [] in
        new_object messages realm (table class) (some vs) s
          ≡ (ok (o, key), record s { boxes = boxes; world = w })
        → InWrite w
        → Assigns (table class) realm.schema boxes key vs ws
        → AllFit Fits ws
        → HasProperty (table class) realm.schema boxes name k
        → IsScalar v
        → view (write_all (suc p) laws ws w) k ≡ realm_value v
        → let t = realm_create messages realm class_name (some vs) nil s in
          (t.0 ≡ ok o)
          × (object_index messages o name t.1 ≡ (ok (item (Collections.plain v, o.realm)), t.1))
  unfolding realm_create safe_get_class object_new
  realm_create_lem realm class_name schema class r q key vs ws name k v s w own hr known found
        started writing entries fit property scalar seen =
      let o = next_object realm class (length s.boxes) in
      let t : State W = record s { boxes = s.boxes ++ handle_box (suc p) ∷ [] } in
      let grown = get_elem?-grown s.boxes (handle_box (suc p) ∷ []) r hr in
      let mine = get_elem?-append s.boxes (handle_box (suc p)) [] in
      let made : realm_create messages realm class_name (some vs) nil s
          ≡ (ok o, record t { world = write_all (suc p) laws ws w }) =
        bind_ok (safe_get_class messages realm class_name) _ s (table class) s
          (safe_get_class_lem realm class_name schema class s known found)
        ∙ bind_ok (new_object messages realm (table class) (some vs)) _ s (o, key)
            (record t { world = w }) started
        ∙ assign_values-write_all (suc p) laws messages o r q (length s.boxes) key t refl own grown
            mine vs ws w entries fit writing in
      rw made (
        refl,
        index_lem (suc p) laws messages o name (record t { world = write_all (suc p) laws ws w }) r
            q (length s.boxes) k v scalar refl own grown mine property seen,
      )

  new_object-unkeyed :
      (realm : LuaRealm) (class : Fields) (r q n : ℕ) (vs : Option Values) (s : State W)
      → realm.handle ≡ userdata r
      → get_elem? s.boxes r ≡ some (handle_box q)
      → get_field (codes "primaryKey") class ≡ nil
      → get_field (codes "key") class ≡ integer n
      → (api.object_create q (n % 2 ^ 32) s.world).0 ≡ suc p
      → new_object messages realm (table class) vs s ≡ (
        ok (next_object realm class (length s.boxes), none),
        record s {
          boxes = s.boxes ++ handle_box (suc p) ∷ [];
          world = (api.object_create q (n % 2 ^ 32) s.world).1;
        },
      )
  unfolding new_object
  new_object-unkeyed realm class r q n vs s own hr no_key keyed made =
      rw (no_key, keyed, own, object_create_lem s r q n p hr made) refl

  -- A new object of a class without a primary key, made with a table of scalars: `Realm:create` returns
  -- it, with the next userdata as its handle, which is a child of the realm, and each property that the
  -- table names reads as the table's value. The names are properties of the class, no two of them
  -- with the same key, none a collection or named like a field of the object's own, and take the values;
  -- realm-core makes the object, `laws` is of it, and the realm is in a write transaction.
  pub realm_create-values :
      (realm : LuaRealm) (class_name : Bytes) (schema class : Fields) (r q n : ℕ) (vs : Values)
      (ws : List Written) (name : Bytes) (k : ℕ) (v : Value) (s : State W)
      → realm.handle ≡ userdata r
      → get_elem? s.boxes r ≡ some (handle_box q)
      → realm.schema ≡ table schema
      → get_field class_name schema ≡ table class
      → get_field (codes "primaryKey") class ≡ nil
      → get_field (codes "key") class ≡ integer n
      → (api.object_create q (n % 2 ^ 32) s.world).0 ≡ suc p
      → InWrite (api.object_create q (n % 2 ^ 32) s.world).1
      → Assigns (table class) realm.schema s.boxes none vs ws
      → AllFit Fits ws
      → AllFresh ws
      → HasProperty (table class) realm.schema s.boxes name k
      → IsScalar v
      → IsGiven k v ws
      → let t = realm_create messages realm class_name (some vs) nil s in
        let o = next_object realm class (length s.boxes) in
        (t.0 ≡ ok o)
        × (object_index messages o name t.1 ≡ (ok (item (Collections.plain v, o.realm)), t.1))
  realm_create-values realm class_name schema class r q n vs ws name k v s own hr known found no_key
        keyed made writing entries fit fresh property scalar given =
      let others = handle_box (suc p) ∷ [] in
      realm_create_lem realm class_name schema class r q none vs ws name k v s
        (api.object_create q (n % 2 ^ 32) s.world).1 own hr known found
        (new_object-unkeyed realm class r q n (some vs) s own hr no_key keyed made) writing
        (Assigns-grown (table class) realm.schema s.boxes others none vs ws entries) fit
        (HasProperty-grown (table class) realm.schema s.boxes others name k property) scalar
        (view-write_all (suc p) laws k v ws _ given fresh fit writing)
