-- ===== src/Realm/Objects/Opened.antt =====
-- From the schema that is pushed for a realm to the object that a Lua program makes in it.
use realm_lua_bootcamp.Prelude.{
  ℕ, suc, ◌%◌, ◌^◌, ◌≡◌, refl, ap, sym, subst, ◌∙◌, inl, false, List, [], ◌∷◌, ◌++◌, some,
  get_elem?, get_elem?-grown, length,
}
use realm_lua_bootcamp.Text.{c_string}
use realm_lua_bootcamp.Lua.{Value, nil, userdata, table, Fields, State, ok, Conversions}
use realm_lua_bootcamp.Native.Api.{RealmApi, RealmValue}
use realm_lua_bootcamp.Native.Convert.Handles.{handle_box}
use realm_lua_bootcamp.Native.Convert.RoundTrip.{IsScalar, realm_value}
use realm_lua_bootcamp.Schema.Push.{Property, ObjectSchema, push_schema_info}
use realm_lua_bootcamp.Schema.Push.Frame.{AllClasses, all_key_boxes, push_schema_info-fields}
use realm_lua_bootcamp.Schema.Push.Lookup.{NoProperty, NoClass}
use realm_lua_bootcamp.Realm.{LuaRealm, Messages}
use realm_lua_bootcamp.Realm.Collections as Collections
use realm_lua_bootcamp.Realm.Objects.{item, object_index}
use realm_lua_bootcamp.Realm.Objects.Creation.{plain, no_values, entry, is_own, realm_create}
use realm_lua_bootcamp.Realm.Objects.Properties.{PropertyLaws}
use realm_lua_bootcamp.Realm.Objects.Initial.{nothing, assigns}
use realm_lua_bootcamp.Realm.Objects.Created.{next_object, realm_create-values}
use realm_lua_bootcamp.Realm.Objects.Described.{push_schema_info-HasProperty}

-- The realm whose schema is a table of classes.
abbrev pub realm_of : ℕ → Fields → LuaRealm
realm_of r classes = record { handle = userdata r; schema = table classes; child_handles = [] }

module _ {W : Type 0} ⦃cv : Conversions⦄ ⦃api : RealmApi W⦄ {view : W → ℕ → RealmValue}
    {InWrite : W → Type 0} {Fits : ℕ → RealmValue → Type 0} (o : ℕ)
    (laws : PropertyLaws api (suc o) view InWrite Fits) (messages : Messages W) where
  -- With the table of classes that `_push_schema_info` pushes for a realm, `Realm:create` makes an object
  -- of any of its classes without a primary key from a value of one property, and the property then
  -- reads as that value. The property is no collection, takes the value and is not named like a field of
  -- the object's own; no later class or property of the class has the same name; realm-core makes the
  -- object, `laws` is of it, and the realm is in a write transaction.
  pub push_schema_info-create :
      (before : List ObjectSchema) (c : ObjectSchema) (after : List ObjectSchema)
      (left : List Property) (p : Property) (right : List Property) (r q : ℕ) (v : Value)
      (s : State W)
      → AllClasses (before ++ c ∷ after)
      → NoClass (c_string c.name) after
      → c.persisted_properties ≡ left ++ p ∷ right
      → NoProperty (c_string p.name) right
      → p.is_collection ≡ false
      → c.primary_key ≡ []
      → is_own (c_string p.name) ≡ false
      → IsScalar v
      → get_elem? s.boxes r ≡ some (handle_box q)
      → (api.object_create q (c.table_key % 2 ^ 32) s.world).0 ≡ suc o
      → InWrite (api.object_create q (c.table_key % 2 ^ 32) s.world).1
      → Fits p.column_key (realm_value v)
      → let t = (push_schema_info (before ++ c ∷ after) s).1 in
        (classes class : Fields) × (t.stack ≡ table classes ∷ s.stack)
        × (let realm = realm_of r classes in
            let vs = entry (c_string p.name) (plain v) no_values in
            let made = realm_create messages realm (c_string c.name) (some vs) nil t in
            let object = next_object realm class (length t.boxes) in
            (made.0 ≡ ok object)
            × (object_index messages object (c_string p.name) made.1
                ≡ (ok (item (Collections.plain v, object.realm)), made.1)))
  push_schema_info-create before c after left p right r q v s kinds last_class split last_property
        single no_key foreign scalar hr made writing fits =
      let h =
        push_schema_info-HasProperty before c after left p right s kinds last_class split
          last_property single in
      let n = c.table_key % 2 ^ 32 in
      let pushed = push_schema_info-fields (before ++ c ∷ after) s kinds in
      let t = (push_schema_info (before ++ c ∷ after) s).1 in
      (
        h.0,
        h.1,
        h.3,
        realm_create-values o laws messages (realm_of r h.0) (c_string c.name) h.0 h.1 r q
            c.table_key (entry (c_string p.name) (plain v) no_values) ((p.column_key, v) ∷ [])
            (c_string p.name) p.column_key v t refl
            (ap (λ y. get_elem? y.1.boxes r) pushed
              ∙ get_elem?-grown s.boxes (all_key_boxes (before ++ c ∷ after)) r hr)
            refl h.4 (h.6 ∙ rw no_key refl) h.5
            (ap (λ y. (api.object_create q n y.1.world).0) pushed ∙ made)
            (subst (λ y. InWrite (api.object_create q n y.1.world).1) (sym pushed) writing)
            (assigns (c_string p.name) v no_values p.column_key [] scalar refl foreign h.7 nothing)
            (fits, tt) (tt, tt) h.7 scalar (inl (refl, refl)),
      )
