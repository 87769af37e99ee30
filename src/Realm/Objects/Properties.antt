-- ===== src/Realm/Objects/Properties.antt =====
-- What a Lua program finds in an object's properties after it has written to one of them.
use realm_lua_bootcamp.Prelude.{
  ℕ, ◌≡◌, ◌≢◌, ◌⊎◌, inl, inr, refl, ap, sym, ◌∙◌, true, List, [], ◌∷◌, some, get_elem?,
}
use realm_lua_bootcamp.Text.{Bytes, codes}
use realm_lua_bootcamp.Lua.{
  Value, nil, string, userdata, table, Fields, get_field, to_boolean, State, ok, on, bottom,
  Conversions, Box, Meta,
}
use realm_lua_bootcamp.Native.Api.{RealmApi, RealmValue}
use realm_lua_bootcamp.Native.Convert.{realm_to_lua_value}
use realm_lua_bootcamp.Native.Convert.Handles.{handle_box}
use realm_lua_bootcamp.Native.Convert.RoundTrip.{IsScalar, realm_value, lua_to_realm_value-scalar}
use realm_lua_bootcamp.Native.Objects.{lib_realm_get_value, lib_realm_set_value}
use realm_lua_bootcamp.Realm.{Messages}
use realm_lua_bootcamp.Realm.Collections as Collections
use realm_lua_bootcamp.Realm.Collections.Indices.{realm_to_lua_value-scalar}
use realm_lua_bootcamp.Realm.Objects.{
  LuaObject, item, read_scalar, read_property, lookup, object_index, property_of,
}
use realm_lua_bootcamp.Realm.Objects.Creation.{plain, object_newindex}

-- What realm-core documents of an object `p`: `view` is the value under each property's key, and
-- `Fits` says which values a property may have.
pub record PropertyLaws {W : Type 0} (api : RealmApi W) (p : ℕ) (view : W → ℕ → RealmValue)
    (InWrite : W → Type 0) (Fits : ℕ → RealmValue → Type 0) : Type 0 where
  pub get : (w : W) (k : ℕ) → api.get_value p k w ≡ (some (view w k), w)
  pub set_ok :
      (w : W) (k : ℕ) (v : RealmValue) → InWrite w → Fits k v → (api.set_value p k v w).0 ≡ true
  pub set_writes :
      (w : W) (k : ℕ) (v : RealmValue) → InWrite w → Fits k v → InWrite (api.set_value p k v w).1
  pub set_same :
      (w : W) (k : ℕ) (v : RealmValue) → InWrite w → Fits k v → view (api.set_value p k v w).1 k ≡ v
  pub set_other :
      (w : W) (k : ℕ) (v : RealmValue) (j : ℕ)
      → InWrite w
      → j ≢ k
      → view (api.set_value p k v w).1 j ≡ view w j

-- The class has a property of this name, which is no collection, and whose key is `k`.
pub record HasProperty (class_info all_classes : Value) (boxes : List Box) (name : Bytes) (k : ℕ)
    : Type 0 where
  pub class : Fields
  pub properties : Fields
  pub info : Fields
  pub schema : Fields
  pub key : ℕ
  pub is_class : class_info ≡ table class
  pub has_properties : get_field (codes "properties") class ≡ table properties
  pub has_info : get_field name properties ≡ table info
  pub no_collection : get_field (codes "collectionType") info ≡ nil
  pub has_key : get_field (codes "key") info ≡ userdata key
  pub key_meta : Meta
  pub is_key : get_elem? boxes key ≡ some (record { pointer = k; meta = key_meta })
  pub has_schema : all_classes ≡ table schema

abbrev pub set_arguments : ℕ → ℕ → ℕ → Value → List Value
set_arguments r u k v = v ∷ userdata k ∷ userdata u ∷ userdata r ∷ []

abbrev pub get_arguments : ℕ → ℕ → ℕ → List Value
get_arguments r u k = userdata k ∷ userdata u ∷ userdata r ∷ []

abbrev pub looked_up : Fields → Value → Value
looked_up fs (string k) = get_field k fs
looked_up fs _ = nil

pub lookup-table :
    {W : Type 0} (fs : Fields) (k : Value) (s : State W)
    → lookup (table fs) k s ≡ (ok (looked_up fs k), s)
lookup-table fs (string k) s = refl
lookup-table fs _ s = refl

module _ {W : Type 0} ⦃cv : Conversions⦄ ⦃api : RealmApi W⦄ {view : W → ℕ → RealmValue}
    {InWrite : W → Type 0} {Fits : ℕ → RealmValue → Type 0} (p : ℕ)
    (laws : PropertyLaws api p view InWrite Fits) where
  set_value_lem :
      (s : State W) (r q u key k : ℕ) (m : Meta) (v : Value)
      → IsScalar v
      → get_elem? s.boxes r ≡ some (handle_box q)
      → get_elem? s.boxes u ≡ some (handle_box p)
      → get_elem? s.boxes key ≡ some (record { pointer = k; meta = m })
      → InWrite s.world
      → Fits k (realm_value v)
      → lib_realm_set_value (on s (set_arguments r u key v)) ≡ (
        ok 0,
        record s {
          stack = set_arguments r u key v;
          world = (api.set_value p k (realm_value v) s.world).1;
        },
      )
  unfolding lib_realm_set_value
  set_value_lem s r q u key k m v scalar hr hu hk w fits =
      let t = on s (set_arguments r u key v) in
      rw (
        hr,
        hu,
        hk,
        lua_to_realm_value-scalar (bottom 4) v t refl scalar,
        laws.set_ok s.world k (realm_value v) w fits,
      )

  pub get_value_lem :
      (s : State W) (r q u key k : ℕ) (m : Meta)
      → get_elem? s.boxes r ≡ some (handle_box q)
      → get_elem? s.boxes u ≡ some (handle_box p)
      → get_elem? s.boxes key ≡ some (record { pointer = k; meta = m })
      → lib_realm_get_value (on s (get_arguments r u key))
        ≡ realm_to_lua_value q (view s.world k) (on s (get_arguments r u key))
  unfolding lib_realm_get_value
  get_value_lem s r q u key k m hr hu hk = rw (hr, hu, hk, laws.get s.world k)

  read_scalar_lem :
      (messages : Messages W) (o : LuaObject) (s : State W) (r q u key k : ℕ) (m : Meta) (x : Value)
      → IsScalar x
      → o.handle ≡ userdata u
      → o.realm.handle ≡ userdata r
      → get_elem? s.boxes r ≡ some (handle_box q)
      → get_elem? s.boxes u ≡ some (handle_box p)
      → get_elem? s.boxes key ≡ some (record { pointer = k; meta = m })
      → view s.world k ≡ realm_value x
      → read_scalar messages o (userdata key) s ≡ (ok (item (Collections.plain x, o.realm)), s)
  unfolding read_scalar
  read_scalar_lem messages o s r q u key k m x scalar ho hor hr hu hk found =
      rw
        (
          ho,
          hor,
          get_value_lem s r q u key k m hr hu hk,
          found,
          realm_to_lua_value-scalar q x (on s (get_arguments r u key)) scalar,
        )
        refl

  -- A property that is no collection is read by its key.
  pub index_scalar :
      (messages : Messages W) (o : LuaObject) (name : Bytes) (s : State W) (k : ℕ)
      → (h : HasProperty o.class o.realm.schema s.boxes name k)
      → object_index messages o name s ≡ read_scalar messages o (userdata h.key) s
  unfolding object_index read_property
  index_scalar messages o name s k h = simp (
    h.is_class,
    h.has_properties,
    h.has_info,
    h.has_schema,
    lookup-table h.schema (get_field (codes "objectType") h.info) s,
    h.no_collection,
    h.has_key,
  )

  pub index_lem :
      (messages : Messages W) (o : LuaObject) (name : Bytes) (s : State W) (r q u k : ℕ) (x : Value)
      → IsScalar x
      → o.handle ≡ userdata u
      → o.realm.handle ≡ userdata r
      → get_elem? s.boxes r ≡ some (handle_box q)
      → get_elem? s.boxes u ≡ some (handle_box p)
      → HasProperty o.class o.realm.schema s.boxes name k
      → view s.world k ≡ realm_value x
      → object_index messages o name s ≡ (ok (item (Collections.plain x, o.realm)), s)
  index_lem messages o name s r q u k x scalar ho hor hr hu h found =
      index_scalar messages o name s k h
      ∙ read_scalar_lem messages o s r q u h.key k h.key_meta x scalar ho hor hr hu h.is_key found

  pub newindex_lem :
      (messages : Messages W) (o : LuaObject) (name : Bytes) (s : State W) (r q u k : ℕ) (v : Value)
      → IsScalar v
      → o.handle ≡ userdata u
      → o.realm.handle ≡ userdata r
      → get_elem? s.boxes r ≡ some (handle_box q)
      → get_elem? s.boxes u ≡ some (handle_box p)
      → HasProperty o.class o.realm.schema s.boxes name k
      → InWrite s.world
      → Fits k (realm_value v)
      → object_newindex messages (plain v) o name s
        ≡ (ok o.realm, record s { world = (api.set_value p k (realm_value v) s.world).1 })
  unfolding object_newindex property_of to_boolean
  newindex_lem messages o name s r q u k v scalar ho hor hr hu h w fits =
      rw
        (
          h.is_class,
          h.has_properties,
          h.has_info,
          h.has_key,
          ho,
          hor,
          set_value_lem s r q u h.key k h.key_meta v scalar hr hu h.is_key w fits,
        )
        refl

  -- After `object.name = v`, with a scalar that the property takes, `object.name` is `v`, and another
  -- property, in which a scalar was, is what it was; reading changes nothing. Both are properties of the
  -- object's class and no collections, `laws` is of the object, and the realm is in a write transaction.
  pub object_index-newindex :
      (messages : Messages W) (o : LuaObject) (name other : Bytes) (k j r q u : ℕ) (v x : Value)
      (s : State W)
      → IsScalar v
      → IsScalar x
      → o.handle ≡ userdata u
      → o.realm.handle ≡ userdata r
      → get_elem? s.boxes r ≡ some (handle_box q)
      → get_elem? s.boxes u ≡ some (handle_box p)
      → HasProperty o.class o.realm.schema s.boxes name k
      → HasProperty o.class o.realm.schema s.boxes other j
      → InWrite s.world
      → Fits k (realm_value v)
      → ((j ≡ k) × (x ≡ v)) ⊎ ((j ≢ k) × (view s.world j ≡ realm_value x))
      → let t = object_newindex messages (plain v) o name s in
        (t.0 ≡ ok o.realm)
        × (object_index messages o other t.1 ≡ (ok (item (Collections.plain x, o.realm)), t.1))
  object_index-newindex messages o name other k j r q u v x s scalar found_scalar ho hor hr hu named
        asked w fits expected =
      let after = (api.set_value p k (realm_value v) s.world).1 in
      let t : State W = record s { world = after } in
      let found : view after j ≡ realm_value x = elim expected [
        | inl same ↦
            ap (λ i. view after i) same.0
            ∙ laws.set_same s.world k (realm_value v) w fits
            ∙ ap realm_value (sym same.1)
        | inr distinct ↦ laws.set_other s.world k (realm_value v) j w distinct.0 ∙ distinct.1
      ] in
      rw (newindex_lem messages o name s r q u k v scalar ho hor hr hu named w fits)
        (refl, index_lem messages o other t r q u j x found_scalar ho hor hr hu asked found)
