-- ===== src/Realm/Open.antt =====
-- `Realm.open` over the functions that it calls.
use realm_lua_bootcamp.Prelude.{
  ℕ, suc, map, ◌≡◌, refl, List, [], ◌∷◌, ◌++◌, some, length, set, get_elem?, get_elem?-grown,
}
use realm_lua_bootcamp.Text.{codes}
use realm_lua_bootcamp.Lua.{
  Value, nil, table, userdata, Fields, end, get_field, raw_len, to_boolean, State, ok, on, Exec,
  Conversions,
}
use realm_lua_bootcamp.Schema.Parse.Encoded.{ClassDefinition, class_of, EncodesFrom}
use realm_lua_bootcamp.Schema.Push.Frame.{
  AllClasses, all_key_boxes, schema_fields, push_schema_info-fields,
}
use realm_lua_bootcamp.Native.Api.{RealmApi}
use realm_lua_bootcamp.Native.Convert.Handles.{handle_box, with_handle}
use realm_lua_bootcamp.Native.Open.{OpenApi, schema}
use realm_lua_bootcamp.Native.Open.Local.{local_options, set_all, finish, lib_realm_open-local}
use realm_lua_bootcamp.Realm.{scheduler_of, realm_open}
use realm_lua_bootcamp.Realm.Close.{release_call}

module _ {W : Type 0} ⦃cv : Conversions⦄ ⦃api : RealmApi W⦄ ⦃opening : OpenApi W⦄ where
  finish_lem :
      (x : ℕ) (s : State W)
      → AllClasses (opening.schema_of (suc x) s.world)
      → let infos = opening.schema_of (suc x) s.world in
        finish (suc x) s ≡ (
          ok 2,
          record s {
            stack = table (schema_fields (length s.boxes) infos end) ∷ s.stack;
            boxes = s.boxes ++ all_key_boxes infos;
          },
        )
  finish_lem x s kinds =
      rw (push_schema_info-fields (opening.schema_of (suc x) s.world) s kinds) refl

  scheduler_of-default :
      (default_factory : Exec W Value) (fs : Fields) (s : State W)
      → get_field (codes "scheduler") fs ≡ nil
      → scheduler_of default_factory (table fs) s ≡ default_factory s
  unfolding scheduler_of to_boolean
  scheduler_of-default default_factory fs s h = rw h refl

  -- `Realm.open` with a local configuration, a schema of some classes as README.md writes it, and no
  -- scheduler of its own: it gives a realm without children, with the next userdata as its handle and
  -- the classes that realm-core has for it as its schema; the handle of the scheduler that the default
  -- factory made is released once and is null; the schema and the configuration are released. The
  -- factory succeeds, realm-core makes the schema and opens the realm, and each of its collections
  -- is a list, a set or a dictionary.
  pub realm_open-local :
      (default_factory : Exec W Value) (u sch : ℕ) (fs classes : Fields) (c : ClassDefinition)
      (cs : List ClassDefinition) (p x : ℕ) (w : W) (s0 s : State W)
      → get_field (codes "scheduler") fs ≡ nil
      → default_factory s0 ≡ (ok (userdata u), s)
      → get_elem? s.boxes u ≡ some (handle_box sch)
      → get_field (codes "schema") fs ≡ table classes
      → raw_len (table classes) ≡ length (c ∷ cs)
      → EncodesFrom 1 (c ∷ cs) classes
      → get_field (codes "sync") fs ≡ nil
      → opening.schema_new (map class_of (c ∷ cs)) s.world ≡ (suc p, w)
      → let config = opening.config_new w in
        let held = api.release (suc p) (opening.config_set config.0 (schema (suc p)) config.1) in
        let ready = set_all opening config.0 (local_options opening fs sch) held in
        let opened = opening.realm_open config.0 ready in
        let freed = api.release 0 (api.release config.0 opened.1) in
        let infos = opening.schema_of (suc x) freed in
        let boxes = s.boxes ++ handle_box (suc x) ∷ [] in
        opened.0 ≡ suc x
        → AllClasses infos
        → realm_open default_factory (table fs) s0 ≡ (
          ok (record {
            handle = userdata (length s.boxes);
            schema = table (schema_fields (length boxes) infos end);
            child_handles = [];
          }),
          record s {
            boxes = set (boxes ++ all_key_boxes infos) u (handle_box 0);
            world = api.release sch freed;
          },
        )
  unfolding realm_open
  realm_open-local default_factory u sch fs classes c cs p x w s0 s no_scheduler made h at_schema
        size e unsynced parsed opened kinds =
      let config = opening.config_new w in
      let held = api.release (suc p) (opening.config_set config.0 (schema (suc p)) config.1) in
      let ready = set_all opening config.0 (local_options opening fs sch) held in
      let freed = api.release 0 (api.release config.0 (opening.realm_open config.0 ready).1) in
      let infos = opening.schema_of (suc x) freed in
      let native =
        lib_realm_open-local u sch fs classes c cs p w s h at_schema size e unsynced parsed in
      let t : State W = with_handle (on s (native.0 ++ userdata u ∷ table fs ∷ [])) (suc x) freed in
      let z : State W = record s {
        boxes = (s.boxes ++ handle_box (suc x) ∷ []) ++ all_key_boxes infos;
        world = freed;
      } in
      let still : get_elem? z.boxes u ≡ some (handle_box sch) =
        get_elem?-grown (s.boxes ++ handle_box (suc x) ∷ []) (all_key_boxes infos) u
          (get_elem?-grown s.boxes (handle_box (suc x) ∷ []) u h) in
      rw
        (
          scheduler_of-default default_factory fs s0 no_scheduler,
          made,
          native.1,
          opened,
          finish_lem x t kinds,
          release_call u sch z still,
        )
        refl
