-- ===== src/Tests/OpenRuns.antt =====
-- Runs of `lib_realm_open`: userdata 2 stands for the scheduler.
use realm_lua_bootcamp.Prelude.{length, set, List, ◌≡◌, refl, true, [], ◌∷◌, ◌++◌}
use realm_lua_bootcamp.Text.{codes, text_eq}
use realm_lua_bootcamp.Lua.{
  Value, nil, boolean, string, table, userdata, Fields, end, field, get_field, raw_len, raised, on,
  ok, Exec, bad_argument,
}
use realm_lua_bootcamp.Schema.Parse.Encoded.{class_of}
use realm_lua_bootcamp.Native.Convert.Handles.{handle_box, with_handle}
use realm_lua_bootcamp.Schema.Push.Frame.{schema_fields, all_key_boxes}
use realm_lua_bootcamp.Realm.{realm_open}
use realm_lua_bootcamp.Realm.Open.{realm_open-local}
use realm_lua_bootcamp.Native.Open.{
  OpenApi, schema, schema_mode, soft_reset_file, schema_version, path, version_of, lib_realm_open,
  sync_config,
}
use realm_lua_bootcamp.Native.Open.Local.{local_options, local_path, cached_option, set_all, finish}
use realm_lua_bootcamp.Native.Open.Empty.{lib_realm_open-empty_schema}
use realm_lua_bootcamp.Native.Open.Synced.{
  synced_path, synced_options, IsSync, lib_realm_open-synced,
}
use realm_lua_bootcamp.Tests.World.{World, one_list, no_floats, start}
use realm_lua_bootcamp.Tests.SchemaRuns.{
  dog, dog_fields, schema_new, dog-Encodes, schema-raw_len, schema-get_index,
}
use realm_lua_bootcamp.Tests.SchemaRuns as Dogs

instance abbrev pub one_realm : OpenApi World
one_realm = record {
  schema_new = schema_new;
  config_new = λ w. (13, w);
  config_set = λ c o w. record w { released = c ∷ w.released };
  sync_config_new = λ u p w. (14, w);
  default_file_path = λ c w. (codes "synced.realm", w);
  uint64_of_double = λ d. d;
  realm_open = λ c w. (5, w);
  schema_of = λ r w. [];
}

abbrev config : Fields
config = field (string (codes "schema")) (table Dogs.schema) (
    field (string (codes "path")) (string (codes "dogs.realm"))
      (field (string (codes "_cached")) (boolean true) end))

config-fields :
    (get_field (codes "schema") config ≡ table Dogs.schema)
    × (get_field (codes "sync") config ≡ nil)
unfolding get_field text_eq
config-fields = (refl, refl)

abbrev parsed : World
parsed = (schema_new (class_of dog ∷ []) start.world).1

abbrev one_scheduler : Exec World Value
one_scheduler s = (ok (userdata 2), s)

config-scheduler : get_field (codes "scheduler") config ≡ nil
unfolding get_field text_eq
config-scheduler = refl

realm_open-local_example :
    let held = one_list.release 11 (one_realm.config_set 13 (schema 11) parsed) in
    let ready = set_all one_realm 13 (local_options one_realm config 9) held in
    let freed = one_list.release 0 (one_list.release 13 ready) in
    let boxes = start.boxes ++ handle_box 5 ∷ [] in
    realm_open one_scheduler (table config) start ≡ (
      ok (record {
        handle = userdata 4;
        schema = table (schema_fields (length boxes) [] end);
        child_handles = [];
      }),
      record start {
        boxes = set (boxes ++ all_key_boxes []) 2 (handle_box 0);
        world = one_list.release 9 freed;
      },
    )
realm_open-local_example =
    realm_open-local one_scheduler 2 9 config Dogs.schema dog [] 10 4 parsed start start
      config-scheduler refl refl config-fields.0 schema-raw_len
      (dog_fields, schema-get_index, dog-Encodes, tt) config-fields.1 refl refl tt

abbrev unschemed : Fields
unschemed = field (string (codes "path")) (string (codes "dogs.realm")) end

unschemed-fields :
    (raw_len (get_field (codes "schema") unschemed) ≡ 0)
    × (get_field (codes "sync") unschemed ≡ nil)
unfolding get_field text_eq raw_len
unschemed-fields = (refl, refl)

abbrev empty : World
empty = (schema_new [] start.world).1

lib_realm_open-empty_schema_example :
    let held = one_list.release 11 (one_realm.config_set 13 (schema 11) empty) in
    let options =
      path (local_path (get_field (codes "path") unschemed))
        ∷ schema_version (version_of one_realm (get_field (codes "schemaVersion") unschemed))
        ∷ cached_option (get_field (codes "_cached") unschemed)
      ++ schema_mode soft_reset_file ∷ [] in
    lib_realm_open (on start (userdata 2 ∷ table unschemed ∷ [])) ≡ (
      raised bad_argument,
      record start { stack = table unschemed ∷ []; world = set_all one_realm 13 options held },
    )
lib_realm_open-empty_schema_example =
    lib_realm_open-empty_schema 2 unschemed 10 empty start unschemed-fields.0 unschemed-fields.1
      refl

abbrev user_fields : Fields
user_fields = field (string (codes "_handle")) (userdata 1) end

abbrev sync_fields : Fields
sync_fields =
    field (string (codes "partitionValue")) (string (codes "team"))
      (field (string (codes "user")) (table user_fields) end)

abbrev synced_config : Fields
synced_config =
    field (string (codes "schema")) (table Dogs.schema)
      (field (string (codes "sync")) (table sync_fields) end)

synced-fields :
    (get_field (codes "schema") synced_config ≡ table Dogs.schema)
    × (get_field (codes "sync") synced_config ≡ table sync_fields)
unfolding get_field text_eq
synced-fields = (refl, refl)

sync_fields-IsSync : IsSync sync_fields user_fields (codes "team") 1
unfolding get_field text_eq
sync_fields-IsSync = record { at_partition = refl; at_user = refl; at_handle = refl }

lib_realm_open-synced_example :
    let held = one_list.release 11 (one_realm.config_set 13 (schema 11) parsed) in
    let synced = one_realm.config_set 13 (sync_config 14) held in
    let found = synced_path one_realm (get_field (codes "path") synced_config) 14 synced in
    let at_path = one_realm.config_set 13 (path found.0) found.1 in
    let ready = set_all one_realm 13 (synced_options one_realm synced_config 9) at_path in
    let asked = on start (userdata 2 ∷ table synced_config ∷ []) in
    (above : List Value) × (lib_realm_open asked
      ≡ finish 5 (
          with_handle
            (on start (above ++ userdata 2 ∷ table synced_config ∷ []))
            5
            (one_list.release 14 (one_list.release 13 ready))))
lib_realm_open-synced_example =
    let held = one_list.release 11 (one_realm.config_set 13 (schema 11) parsed) in
    lib_realm_open-synced 2 9 1 6 10 13 (codes "team") synced_config Dogs.schema sync_fields
      user_fields dog [] parsed held start refl synced-fields.0 schema-raw_len
      (dog_fields, schema-get_index, dog-Encodes, tt) synced-fields.1 sync_fields-IsSync refl refl
      refl

abbrev no_user : Fields
no_user = field (string (codes "partitionValue")) (boolean true) end

no_user-fields :
    (get_field (codes "partitionValue") no_user ≡ boolean true)
    × (get_field (codes "user") no_user ≡ nil)
unfolding get_field text_eq
no_user-fields = (refl, refl)
