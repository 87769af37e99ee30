-- ===== src/Realm/Objects/Keyed.antt =====
-- `Realm:create` of a class with a primary key: the object has its key and the values it is made with.
use realm_lua_bootcamp.Prelude.{
  ℕ, suc, ◌%◌, ◌^◌, ◌≡◌, inl, inr, refl, ◌∙◌, false, List, [], ◌∷◌, ◌++◌, some, get_elem?, length,
}
use realm_lua_bootcamp.Text.{Bytes, codes}
use realm_lua_bootcamp.Lua.{
  Value, nil, integer, string, userdata, table, Fields, get_field, State, ok, Conversions,
}
use realm_lua_bootcamp.Native.Api.{RealmApi, RealmValue}
use realm_lua_bootcamp.Native.Objects.Created.{object_create_with_primary_key_lem}
use realm_lua_bootcamp.Native.Convert.Handles.{handle_box}
use realm_lua_bootcamp.Native.Convert.RoundTrip.{
  IsScalar, a_boolean, an_integer, a_number, a_string, realm_value,
}
use realm_lua_bootcamp.Realm.{LuaRealm, Messages}
use realm_lua_bootcamp.Realm.Collections as Collections
use realm_lua_bootcamp.Realm.Collections.{with_child}
use realm_lua_bootcamp.Realm.Objects.{item, object_index}
use realm_lua_bootcamp.Realm.Objects.Creation.{
  plain, Values, value_of_name, is_absent, new_object, realm_create,
}
use realm_lua_bootcamp.Realm.Objects.Created.{next_object, realm_create_lem}
use realm_lua_bootcamp.Realm.Objects.Properties.{PropertyLaws, HasProperty}
use realm_lua_bootcamp.Realm.Objects.Initial.{
  Written, Assigns, AllFit, AllFresh, IsGiven, HasProperty-grown, Assigns-grown,
  view-write_all-fresh, write_all, view-write_all,
}

is_absent-scalar : (x : Value) → IsScalar x → is_absent (plain x) ≡ false
is_absent-scalar _ (a_boolean b) = refl
is_absent-scalar _ (an_integer n) = refl
is_absent-scalar _ (a_number d) = refl
is_absent-scalar _ (a_string t z) = refl

-- What realm-core documents of an object `p` that is created in the table `n` of the realm `q` with a
-- primary key: the property with the key `kk` has it, and the write transaction goes on.
pub record KeyedLaws {W : Type 0} (api : RealmApi W) (q n p : ℕ) (view : W → ℕ → RealmValue)
    (InWrite : W → Type 0) (kk : ℕ) : Type 0 where
  pub has_key :
      (w : W) (v : RealmValue)
      → InWrite w
      → (api.object_create_with_primary_key q n v w).0 ≡ p
      → view (api.object_create_with_primary_key q n v w).1 kk ≡ v
  pub writes :
      (w : W) (v : RealmValue)
      → InWrite w
      → (api.object_create_with_primary_key q n v w).0 ≡ p
      → InWrite (api.object_create_with_primary_key q n v w).1

module _ {W : Type 0} ⦃cv : Conversions⦄ ⦃api : RealmApi W⦄ {view : W → ℕ → RealmValue}
    {InWrite : W → Type 0} {Fits : ℕ → RealmValue → Type 0} (p : ℕ)
    (laws : PropertyLaws api (suc p) view InWrite Fits) (messages : Messages W) where
  new_object-keyed :
      (realm : LuaRealm) (class : Fields) (r q n c : ℕ) (key : Bytes) (x : Value) (vs : Values)
      (s : State W)
      → realm.handle ≡ userdata r
      → get_elem? s.boxes r ≡ some (handle_box q)
      → get_field (codes "primaryKey") class ≡ string (c ∷ key)
      → get_field (codes "key") class ≡ integer n
      → value_of_name (c ∷ key) vs ≡ plain x
      → IsScalar x
      → (api.object_create_with_primary_key q (n % 2 ^ 32) (realm_value x) s.world).0 ≡ suc p
      → new_object messages realm (table class) (some vs) s ≡ (
        ok (next_object realm class (length s.boxes), some (string (c ∷ key))),
        record s {
          boxes = s.boxes ++ handle_box (suc p) ∷ [];
          world = (api.object_create_with_primary_key q (n % 2 ^ 32) (realm_value x) s.world).1;
        },
      )
  unfolding new_object
  new_object-keyed realm class r q n c key x vs s own hr has_key keyed given scalar made =
      rw
        (
          has_key,
          keyed,
          given,
          is_absent-scalar x scalar,
          own,
          object_create_with_primary_key_lem s r q n p x scalar hr made,
        )
        refl

  -- The values of a new object: the primary key's, and those that were assigned after it.
  view-keyed :
      (kk k : ℕ) (x v : Value) (ws : List Written) (w : W)
      → InWrite w
      → view w kk ≡ realm_value x
      → AllFit Fits ws
      → AllFresh ((kk, x) ∷ ws)
      → IsGiven k v ((kk, x) ∷ ws)
      → view (write_all (suc p) laws ws w) k ≡ realm_value v
  view-keyed kk k x v ws w writing keyed fit fresh given = elim given [
    | inr there ↦ view-write_all (suc p) laws k v ws w there fresh.1 fit writing
    | inl same ↦
        rw (same.0, same.1) (view-write_all-fresh (suc p) laws kk ws w fresh.0 fit writing ∙ keyed)
  ]

  -- A new object of a class with a primary key, made with a table that gives the key and other scalars:
  -- `Realm:create` hands the key to realm-core with the object and assigns the other entries. It returns
  -- the object, with the next userdata as its handle, which is a child of the realm, and the primary
  -- key's property reads as the table's value of it, as each other property that the table names does.
  -- The names are properties of the class, no two of them with the same key, none a collection or named
  -- like a field of the object's own, and take the values; realm-core makes the object, `laws` and
  -- `keyed_laws` are of it, and the realm is in a write transaction.
  pub realm_create-keyed :
      (realm : LuaRealm) (class_name : Bytes) (schema class : Fields) (r q n c : ℕ) (key : Bytes)
      (kk : ℕ) (x : Value) (vs : Values) (ws : List Written) (name : Bytes) (k : ℕ) (v : Value)
      (s : State W)
      → KeyedLaws api q (n % 2 ^ 32) (suc p) view InWrite kk
      → realm.handle ≡ userdata r
      → get_elem? s.boxes r ≡ some (handle_box q)
      → realm.schema ≡ table schema
      → get_field class_name schema ≡ table class
      → get_field (codes "primaryKey") class ≡ string (c ∷ key)
      → get_field (codes "key") class ≡ integer n
      → HasProperty (table class) realm.schema s.boxes (c ∷ key) kk
      → value_of_name (c ∷ key) vs ≡ plain x
      → IsScalar x
      → (api.object_create_with_primary_key q (n % 2 ^ 32) (realm_value x) s.world).0 ≡ suc p
      → InWrite s.world
      → Assigns (table class) realm.schema s.boxes (some (string (c ∷ key))) vs ws
      → AllFit Fits ws
      → AllFresh ((kk, x) ∷ ws)
      → HasProperty (table class) realm.schema s.boxes name k
      → IsScalar v
      → IsGiven k v ((kk, x) ∷ ws)
      → let t = realm_create messages realm class_name (some vs) nil s in
        let o = next_object realm class (length s.boxes) in
        (t.0 ≡ ok o)
        × (object_index messages o (c ∷ key) t.1 ≡ (ok (item (Collections.plain x, o.realm)), t.1))
        × (object_index messages o name t.1 ≡ (ok (item (Collections.plain v, o.realm)), t.1))
  realm_create-keyed realm class_name schema class r q n c key kk x vs ws name k v s keyed_laws own
        hr known found has_key keyed is_property key_given key_scalar made writing entries fit fresh
        property scalar given =
      let others = handle_box (suc p) ∷ [] in
      let w = api.object_create_with_primary_key q (n % 2 ^ 32) (realm_value x) s.world in
      let writes : InWrite w.1 = keyed_laws.writes s.world (realm_value x) writing made in
      let has : view w.1 kk ≡ realm_value x =
        keyed_laws.has_key s.world (realm_value x) writing made in
      let reads =
        λ (name : Bytes) (k : ℕ) (v : Value)
            (property : HasProperty (table class) realm.schema s.boxes name k) (scalar : IsScalar v)
            (given : IsGiven k v ((kk, x) ∷ ws)).
          realm_create_lem p laws messages realm class_name schema class r q
            (some (string (c ∷ key))) vs ws name k v s w.1 own hr known found
            (new_object-keyed realm class r q n c key x vs s own hr has_key keyed key_given
              key_scalar made)
            writes (Assigns-grown (table class) realm.schema s.boxes others _ vs ws entries) fit
            (HasProperty-grown (table class) realm.schema s.boxes others name k property) scalar
            (view-keyed kk k x v ws w.1 writes has fit fresh given) in
      let other = reads name k v property scalar given in
      (other.0, (reads (c ∷ key) kk x is_property key_scalar (inl (refl, refl))).1, other.1)
