-- ===== src/Realm/Objects/References.antt =====
-- A property that refers to an object.
use realm_lua_bootcamp.Prelude.{
  ℕ, ◌≡◌, refl, ap, sym, subst, ◌∙◌, [], ◌∷◌, ◌++◌, some, get_elem?, set_same, length,
}
use realm_lua_bootcamp.Text.{Bytes}
use realm_lua_bootcamp.Lua.{
  integer, userdata, table, Fields, to_boolean, State, ok, on, Conversions, Meta,
}
use realm_lua_bootcamp.Native.Api.{RealmApi, RealmValue, link}
use realm_lua_bootcamp.Native.Convert.{lua_to_realm_value, realm_to_lua_value}
use realm_lua_bootcamp.Native.Convert.Handles.{handle_box, push_handle_lem}
use realm_lua_bootcamp.Native.Objects.{lib_realm_set_value}
use realm_lua_bootcamp.Realm.{Messages}
use realm_lua_bootcamp.Realm.Collections.{object_of_handle}
use realm_lua_bootcamp.Realm.Objects.{
  LuaObject, item, find_class, read_scalar, object_index, property_of,
}
use realm_lua_bootcamp.Realm.Objects.Creation.{object, object_newindex}
use realm_lua_bootcamp.Realm.Objects.Properties.{
  PropertyLaws, HasProperty, get_value_lem, get_arguments, set_arguments, index_scalar,
}

module _ {W : Type 0} ⦃cv : Conversions⦄ ⦃api : RealmApi W⦄ {view : W → ℕ → RealmValue}
    {InWrite : W → Type 0} {Fits : ℕ → RealmValue → Type 0} (p : ℕ)
    (laws : PropertyLaws api p view InWrite Fits) where
  set_handle_lem :
      (s : State W) (r q u key k : ℕ) (m : Meta) (v x : ℕ)
      → get_elem? s.boxes r ≡ some (handle_box q)
      → get_elem? s.boxes u ≡ some (handle_box p)
      → get_elem? s.boxes key ≡ some (record { pointer = k; meta = m })
      → get_elem? s.boxes v ≡ some (handle_box x)
      → let l = api.object_as_link x s.world in
        InWrite l.1
        → Fits k (link l.0)
        → lib_realm_set_value (on s (set_arguments r u key (userdata v))) ≡ (
          ok 0,
          record s {
            stack = set_arguments r u key (userdata v);
            world = (api.set_value p k (link l.0) l.1).1;
          },
        )
  unfolding lib_realm_set_value lua_to_realm_value
  set_handle_lem s r q u key k m v x hr hu hk hv writing fits =
      let l = api.object_as_link x s.world in
      rw (
        hr,
        hu,
        hk,
        hv,
        hv,
        hv,
        set_same s.boxes v (handle_box x) hv,
        laws.set_ok l.1 k (link l.0) writing fits,
      )

  newindex_object :
      (messages : Messages W) (o : LuaObject) (name : Bytes) (s : State W) (r q u k v x : ℕ)
      → o.handle ≡ userdata u
      → o.realm.handle ≡ userdata r
      → get_elem? s.boxes r ≡ some (handle_box q)
      → get_elem? s.boxes u ≡ some (handle_box p)
      → get_elem? s.boxes v ≡ some (handle_box x)
      → HasProperty o.class o.realm.schema s.boxes name k
      → let l = api.object_as_link x s.world in
        InWrite l.1
        → Fits k (link l.0)
        → object_newindex messages (object (userdata v)) o name s
          ≡ (ok o.realm, record s { world = (api.set_value p k (link l.0) l.1).1 })
  unfolding object_newindex property_of to_boolean
  newindex_object messages o name s r q u k v x ho hor hr hu hv h writing fits =
      rw
        (
          h.is_class,
          h.has_properties,
          h.has_info,
          h.has_key,
          ho,
          hor,
          set_handle_lem s r q u h.key k h.key_meta v x hr hu h.is_key hv writing fits,
        )
        refl

  -- Reading a property with a link.
  read_link :
      (messages : Messages W) (o : LuaObject) (schema info : Fields) (s : State W) (r q u key k : ℕ)
      (m : Meta) (t n : ℕ)
      → o.handle ≡ userdata u
      → o.realm.handle ≡ userdata r
      → o.realm.schema ≡ table schema
      → get_elem? s.boxes r ≡ some (handle_box q)
      → get_elem? s.boxes u ≡ some (handle_box p)
      → get_elem? s.boxes key ≡ some (record { pointer = k; meta = m })
      → view s.world k ≡ link (record { target_table = t; target = n })
      → ((z : State W) → find_class messages schema (integer t) z ≡ (ok (table info), z))
      → let got = api.get_object q t n s.world in
        read_scalar messages o (userdata key) s ≡ (
          ok (item (object_of_handle (userdata (length s.boxes)) o.realm)),
          record s { boxes = s.boxes ++ handle_box got.0 ∷ []; world = got.1 },
        )
  unfolding read_scalar realm_to_lua_value
  read_link messages o schema info s r q u key k m t n ho hor hs hr hu hk found known = simp (
    ho,
    hor,
    hs,
    get_value_lem p laws s r q u key k m hr hu hk,
    found,
    push_handle_lem (api.get_object q t n) (on s (get_arguments r u key)),
    known,
  )

  pub object_index-newindex_object :
      (messages : Messages W) (o : LuaObject) (name : Bytes) (schema info : Fields) (s : State W)
      (r q u k v x t n : ℕ) (w : W)
      → o.handle ≡ userdata u
      → o.realm.handle ≡ userdata r
      → o.realm.schema ≡ table schema
      → get_elem? s.boxes r ≡ some (handle_box q)
      → get_elem? s.boxes u ≡ some (handle_box p)
      → get_elem? s.boxes v ≡ some (handle_box x)
      → HasProperty o.class o.realm.schema s.boxes name k
      → api.object_as_link x s.world ≡ (record { target_table = t; target = n }, w)
      → InWrite w
      → Fits k (link (record { target_table = t; target = n }))
      → ((z : State W) → find_class messages schema (integer t) z ≡ (ok (table info), z))
      → let after = (api.set_value p k (link (record { target_table = t; target = n })) w).1 in
        let got = api.get_object q t n after in
        let written = object_newindex messages (object (userdata v)) o name s in
        (written.0 ≡ ok o.realm)
        × (object_index messages o name written.1 ≡ (
          ok (item (object_of_handle (userdata (length s.boxes)) o.realm)),
          record s { boxes = s.boxes ++ handle_box got.0 ∷ []; world = got.1 },
        ))
  object_index-newindex_object messages o name schema info s r q u k v x t n w ho hor hs hr hu hv h
        linked writing fits known =
      let l = link (record { target_table = t; target = n }) in
      let after = (api.set_value p k l w).1 in
      let z : State W = record s { world = after } in
      let wrote : object_newindex messages (object (userdata v)) o name s ≡ (ok o.realm, z) =
        newindex_object messages o name s r q u k v x ho hor hr hu hv h
          (subst (λ y. InWrite y.1) (sym linked) writing)
          (subst (λ y. Fits k (link y.0)) (sym linked) fits)
        ∙ ap (λ y. (ok o.realm, record s { world = (api.set_value p k (link y.0) y.1).1 }))
            linked in
      rw wrote (
        refl,
        index_scalar p laws messages o name z k h
            ∙ read_link messages o schema info z r q u h.key k h.key_meta t n ho hor hs hr hu
                h.is_key (laws.set_same w k l writing fits) known,
      )
