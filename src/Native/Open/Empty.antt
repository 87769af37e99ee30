-- ===== src/Native/Open/Empty.antt =====
-- Opening a realm with an empty schema.
use realm_lua_bootcamp.Prelude.{suc, ℕ, ◌≡◌, [], ◌∷◌, ◌++◌}
use realm_lua_bootcamp.Text.{codes}
use realm_lua_bootcamp.Lua.{
  nil, table, userdata, Fields, get_field, raw_len, State, raised, on, type_of, Conversions,
  bad_argument,
}
use realm_lua_bootcamp.Schema.Parse.{parse_schema, parse_classes}
use realm_lua_bootcamp.Native.Api.{RealmApi}
use realm_lua_bootcamp.Native.Open.{
  OpenApi, schema, schema_version, path, schema_mode, soft_reset_file, version_of, configure_path,
  configure_sync, configure_version, configure_cached, open_with_schema, lib_realm_open,
}
use realm_lua_bootcamp.Native.Open.Local.{
  local_path, cached_option, set_all, path_text-local, set_if_boolean-cached,
}

module _ {W : Type 0} ⦃cv : Conversions⦄ ⦃api : RealmApi W⦄ ⦃opening : OpenApi W⦄ where
  -- Opening a local realm without a schema, or with an empty one, raises the error of a bad argument
  -- once realm-core has made the empty schema and the configuration: the scheduler has been popped
  -- off the stack before it is read. Neither the configuration is released nor a realm opened.
  pub lib_realm_open-empty_schema :
      (u : ℕ) (fs : Fields) (p : ℕ) (w : W) (s : State W)
      → raw_len (get_field (codes "schema") fs) ≡ 0
      → get_field (codes "sync") fs ≡ nil
      → opening.schema_new [] s.world ≡ (suc p, w)
      → let config = opening.config_new w in
        let held = api.release (suc p) (opening.config_set config.0 (schema (suc p)) config.1) in
        let options =
          path (local_path (get_field (codes "path") fs))
            ∷ schema_version (version_of opening (get_field (codes "schemaVersion") fs))
            ∷ cached_option (get_field (codes "_cached") fs)
          ++ schema_mode soft_reset_file ∷ [] in
        lib_realm_open (on s (userdata u ∷ table fs ∷ [])) ≡ (
          raised bad_argument,
          record s { stack = table fs ∷ []; world = set_all opening config.0 options held },
        )
  unfolding lib_realm_open type_of open_with_schema parse_schema parse_classes configure_sync
      configure_path configure_version configure_cached
  lib_realm_open-empty_schema u fs p w s size unsynced made =
      let config = opening.config_new w in
      let held = api.release (suc p) (opening.config_set config.0 (schema (suc p)) config.1) in
      rw (
        size,
        made,
        unsynced,
        path_text-local (get_field (codes "path") fs) (record s { world = held }) (table fs ∷ []),
        ← set_if_boolean-cached config.0 (get_field (codes "_cached") fs),
      )
