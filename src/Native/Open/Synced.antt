-- ===== src/Native/Open/Synced.antt =====
-- Opening a realm that is synced.
use realm_lua_bootcamp.Prelude.{
  length, map, ℕ, suc, ◌≡◌, refl, List, [], ◌∷◌, ◌++◌, some, get_elem?,
}
use realm_lua_bootcamp.Text.{Bytes, codes, c_string}
use realm_lua_bootcamp.Lua.{
  Value, integer, number, string, table, userdata, Fields, get_field, raw_len, State, ok, on,
  type_of, to_text, Conversions,
}
use realm_lua_bootcamp.Schema.Parse.Encoded.{
  ClassDefinition, EncodesFrom, class_of, parse_schema-some,
}
use realm_lua_bootcamp.Native.Api.{RealmApi}
use realm_lua_bootcamp.Native.Convert.Handles.{handle_box, with_handle, push_handle_lem}
use realm_lua_bootcamp.Native.Open.{
  OpenApi, ConfigOption, schema, scheduler, sync_config, schema_version, path, schema_mode,
  additive_explicit, version_of, partition_value, user_of, or_no_user, path_text, configure_path,
  configure_sync, open_with_schema, lib_realm_open,
}
use realm_lua_bootcamp.Native.Open.Local.{
  config_at, scheduler_at, left_above, pop-left_above, cached_option, set_all, finish, opening_at,
  configure_version-local, configure_cached-local, set_if_boolean-cached,
}

-- The path of a synced realm: a string or a number, or else what realm-core chooses.
abbrev pub synced_path : {W : Type 0} ⦃cv : Conversions⦄ → OpenApi W → Value → ℕ → W → Bytes × W
synced_path ⦃cv⦄ opening (string t) sync w = (c_string t, w)
synced_path ⦃cv⦄ opening (integer n) sync w = (c_string (cv.text_of_integer n), w)
synced_path ⦃cv⦄ opening (number d) sync w = (c_string (cv.text_of_float d), w)
synced_path ⦃cv⦄ opening _ sync w = opening.default_file_path sync w

-- What a synced configuration asks for, after its path.
abbrev pub synced_options :
    {W : Type 0} ⦃cv : Conversions⦄ → OpenApi W → Fields → ℕ → List ConfigOption
synced_options opening fs sch =
    schema_version (version_of opening (get_field (codes "schemaVersion") fs))
      ∷ cached_option (get_field (codes "_cached") fs)
    ++ schema_mode additive_explicit ∷ scheduler sch ∷ []

-- `sf` is a sync configuration: a partition, and a user whose handle is the userdata `v`.
pub record IsSync (sf uf : Fields) (t : Bytes) (v : ℕ) : Type 0 where
  pub at_partition : get_field (codes "partitionValue") sf ≡ string t
  pub at_user : get_field (codes "user") sf ≡ table uf
  pub at_handle : get_field (codes "_handle") uf ≡ userdata v

module _ {W : Type 0} ⦃cv : Conversions⦄ ⦃api : RealmApi W⦄ ⦃opening : OpenApi W⦄ where
  path_text-synced :
      (sc : ℕ) (v : Value) (s : State W) (below : List Value)
      → let found = synced_path opening v (suc sc) s.world in
        path_text (suc sc) v (on s (v ∷ below))
        ≡ (ok found.0, record s { stack = v ∷ below; world = found.1 })
  unfolding path_text to_text
  path_text-synced sc (string t) s below = refl
  path_text-synced sc (integer n) s below = refl
  path_text-synced sc (number d) s below = refl
  path_text-synced sc _ s below = refl

  configure_sync-synced :
      (config : ℕ) (sf uf : Fields) (t : Bytes) (v user : ℕ) (s : State W) (below : List Value)
      → IsSync sf uf t v
      → get_elem? s.boxes v ≡ some (handle_box (suc user))
      → let sync = opening.sync_config_new (suc user) (c_string t) s.world in
        configure_sync config (table sf) (on s (table sf ∷ below)) ≡ (
          ok sync.0,
          record s {
            stack = table sf ∷ below;
            world = opening.config_set config (sync_config sync.0) sync.1;
          },
        )
  unfolding configure_sync partition_value user_of or_no_user to_text
  configure_sync-synced config sf uf t v user s below e h =
      rw (e.at_partition, e.at_user, e.at_handle, h, h)

  module _ (above : List Value) (u : ℕ) (fs : Fields) (s : State W) where
    configure_path-synced :
        (config sc : ℕ) (w : W)
        → let found = synced_path opening (get_field (codes "path") fs) (suc sc) w in
          configure_path config (suc sc) (opening_at above u fs s w)
          ≡ (ok tt, opening_at above u fs s (opening.config_set config (path found.0) found.1))
    unfolding configure_path
    configure_path-synced config sc w = rw (
      config_at above u fs s,
      path_text-synced sc (get_field (codes "path") fs) (opening_at above u fs s w)
          (above ++ userdata u ∷ table fs ∷ []),
    )

    open_with_schema-synced :
        (p sch v user sc : ℕ) (t : Bytes) (sf uf : Fields) (w w' : W)
        → get_elem? s.boxes u ≡ some (handle_box sch)
        → get_field (codes "sync") fs ≡ table sf
        → IsSync sf uf t v
        → get_elem? s.boxes v ≡ some (handle_box (suc user))
        → let config = opening.config_new w in
          let held = api.release p (opening.config_set config.0 (schema p) config.1) in
          opening.sync_config_new (suc user) (c_string t) held ≡ (suc sc, w')
          → let synced = opening.config_set config.0 (sync_config (suc sc)) w' in
            let found = synced_path opening (get_field (codes "path") fs) (suc sc) synced in
            let at_path = opening.config_set config.0 (path found.0) found.1 in
            let ready = set_all opening config.0 (synced_options opening fs sch) at_path in
            let realm = opening.realm_open config.0 ready in
            open_with_schema p (opening_at above u fs s w)
            ≡ finish realm.0 (
                with_handle
                  (opening_at above u fs s w)
                  realm.0
                  (api.release (suc sc) (api.release config.0 realm.1)))
    unfolding open_with_schema
    open_with_schema-synced p sch v user sc t sf uf w w' h at_sync sync hv new =
        let config = opening.config_new w in
        let held = api.release p (opening.config_set config.0 (schema p) config.1) in
        let synced = opening.config_set config.0 (sync_config (suc sc)) w' in
        rw (
          config_at above u fs s,
          at_sync,
          configure_sync-synced config.0 sf uf t v user (record s { world = held })
              (above ++ userdata u ∷ table fs ∷ []) sync hv,
          new,
          configure_path-synced config.0 sc synced,
          configure_version-local above u fs s config.0,
          configure_cached-local above u fs s config.0,
          scheduler_at above u fs s,
          h,
          h,
          push_handle_lem,
          ← set_if_boolean-cached config.0 (get_field (codes "_cached") fs),
        )

  -- Opening a synced realm whose schema is some classes, at least one, written as README.md says,
  -- and whose user has a handle that is not null: after the schema, the configuration is given a
  -- sync configuration of that user and the partition, then the path, or else the one that
  -- realm-core chooses for it, the version or 0, `_cached` if it is there, the mode that only adds to
  -- a schema, and the scheduler. The schema and, after opening, both configurations are released
  -- once. The results are the realm's handle and its schema, or an error if there is no realm; what
  -- the parser has left on the stack is below them.
  pub lib_realm_open-synced :
      (u sch v user p sc : ℕ) (t : Bytes) (fs classes sf uf : Fields) (c : ClassDefinition)
      (cs : List ClassDefinition) (w w' : W) (s : State W)
      → get_elem? s.boxes u ≡ some (handle_box sch)
      → get_field (codes "schema") fs ≡ table classes
      → raw_len (table classes) ≡ length (c ∷ cs)
      → EncodesFrom 1 (c ∷ cs) classes
      → get_field (codes "sync") fs ≡ table sf
      → IsSync sf uf t v
      → get_elem? s.boxes v ≡ some (handle_box (suc user))
      → opening.schema_new (map class_of (c ∷ cs)) s.world ≡ (suc p, w)
      → let config = opening.config_new w in
        let held = api.release (suc p) (opening.config_set config.0 (schema (suc p)) config.1) in
        opening.sync_config_new (suc user) (c_string t) held ≡ (suc sc, w')
        → let synced = opening.config_set config.0 (sync_config (suc sc)) w' in
          let found = synced_path opening (get_field (codes "path") fs) (suc sc) synced in
          let at_path = opening.config_set config.0 (path found.0) found.1 in
          let ready = set_all opening config.0 (synced_options opening fs sch) at_path in
          let realm = opening.realm_open config.0 ready in
          let freed = api.release (suc sc) (api.release config.0 realm.1) in
          (above : List Value) × (lib_realm_open (on s (userdata u ∷ table fs ∷ []))
            ≡ finish realm.0
                (with_handle (on s (above ++ userdata u ∷ table fs ∷ [])) realm.0 freed))
  unfolding lib_realm_open type_of
  lib_realm_open-synced u sch v user p sc t fs classes sf uf c cs w w' s h at_schema size e at_sync
        sync hv made new =
      let below = userdata u ∷ table fs ∷ [] in
      let parse = parse_schema-some opening.schema_new c cs classes s below size e in
      let above = left_above parse.0 (table classes) in
      let t' : State W = record s { world = w } in
      (
        above,
        rw
            (
              at_schema,
              parse.1,
              made,
              pop-left_above (open_with_schema (suc p)) parse.0 (table classes) below t',
            )
            (open_with_schema-synced above u fs s (suc p) sch v user sc t sf uf w w' h at_sync sync
              hv new),
      )
