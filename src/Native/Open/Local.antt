-- ===== src/Native/Open/Local.antt =====
-- Opening a realm that is not synced.
use realm_lua_bootcamp.Prelude.{
  suc, map, length, ap, sym, ◌∙◌, append_assoc, ℕ, ◌≡◌, refl, List, [], ◌∷◌, ◌++◌, some, get_elem?,
}
use realm_lua_bootcamp.Text.{Bytes, codes, c_string}
use realm_lua_bootcamp.Lua.{
  bottom, value_at, value_at-append, pop, Value, nil, boolean, integer, number, string, table,
  userdata, Fields, get_field, raw_len, State, ok, on, Exec, pure, gets, type_of, to_text,
  Conversions, ◌>>=◌, ◌>>◌,
}
use realm_lua_bootcamp.Schema.Parse.Encoded.{
  ClassDefinition, class_of, parse_schema-some, EncodesFrom,
}
use realm_lua_bootcamp.Schema.Push.{push_schema_info}
use realm_lua_bootcamp.Native.Api.{RealmApi}
use realm_lua_bootcamp.Native.Convert.{handle_or_realm_error}
use realm_lua_bootcamp.Native.Convert.Handles.{handle_box, with_handle, push_handle_lem}
use realm_lua_bootcamp.Native.Open.{
  OpenApi, ConfigOption, schema, scheduler, schema_version, path, cached, schema_mode,
  soft_reset_file, version_of, set_if_boolean, path_text, configure_path, configure_sync,
  configure_version, configure_cached, open_with_schema, lib_realm_open,
}

-- The path of a local realm: a string or a number, or else a fixed name.
abbrev pub local_path : ⦃cv : Conversions⦄ → Value → Bytes
local_path ⦃cv⦄ (string t) = c_string t
local_path ⦃cv⦄ (integer n) = c_string (cv.text_of_integer n)
local_path ⦃cv⦄ (number d) = c_string (cv.text_of_float d)
local_path ⦃cv⦄ _ = codes "default.realm"

abbrev pub cached_option : Value → List ConfigOption
cached_option (boolean b) = cached b ∷ []
cached_option _ = []

-- What a local configuration asks for, after its schema.
abbrev pub local_options :
    {W : Type 0} ⦃cv : Conversions⦄ → OpenApi W → Fields → ℕ → List ConfigOption
local_options opening fs s =
    path (local_path (get_field (codes "path") fs))
      ∷ schema_version (version_of opening (get_field (codes "schemaVersion") fs))
      ∷ cached_option (get_field (codes "_cached") fs)
    ++ schema_mode soft_reset_file ∷ scheduler s ∷ []

abbrev pub set_all : {W : Type 0} → OpenApi W → ℕ → List ConfigOption → W → W
set_all opening config [] w = w
set_all opening config (o ∷ os) w = set_all opening config os (opening.config_set config o w)

-- What is left of the parser's stack once the schema has been popped.
abbrev pub left_above : List Value → Value → List Value
left_above [] classes = []
left_above (v ∷ vs) classes = vs ++ classes ∷ []

module _ {W : Type 0} ⦃cv : Conversions⦄ ⦃api : RealmApi W⦄ ⦃opening : OpenApi W⦄ where
  -- The end of opening: an error if there is no realm, and otherwise its schema.
  abbrev pub finish : ℕ → Exec W ℕ
  finish realm = do
    handle_or_realm_error realm
    info ← gets (λ t. opening.schema_of realm t.world)
    push_schema_info info
    pure 2

  pub path_text-local :
      (v : Value) (s : State W) (below : List Value)
      → path_text 0 v (on s (v ∷ below)) ≡ (ok (local_path v), on s (v ∷ below))
  unfolding path_text to_text
  path_text-local (string t) s below = refl
  path_text-local (integer n) s below = refl
  path_text-local (number d) s below = refl
  path_text-local _ s below = refl

  pub set_if_boolean-cached :
      (config : ℕ) (v : Value) (os : List ConfigOption) (w : W)
      → set_all opening config os (set_if_boolean config v w)
        ≡ set_all opening config (cached_option v ++ os) w
  set_if_boolean-cached config (boolean b) os w = refl
  set_if_boolean-cached config _ os w = refl

  module _ (above : List Value) (u : ℕ) (fs : Fields) (s : State W) where
    -- The state while a realm with the configuration `fs` is opened, with what the schema's parser
    -- has left on the stack.
    abbrev pub opening_at : W → State W
    opening_at w = record s { stack = above ++ userdata u ∷ table fs ∷ []; world = w }

    pub config_at : value_at (bottom 1) (above ++ userdata u ∷ table fs ∷ []) ≡ some (table fs)
    config_at =
        ap (value_at (bottom 1)) (sym (append_assoc above (userdata u ∷ []) (table fs ∷ [])))
        ∙ value_at-append (above ++ userdata u ∷ []) (table fs) []

    pub scheduler_at : value_at (bottom 2) (above ++ userdata u ∷ table fs ∷ []) ≡ some (userdata u)
    scheduler_at = value_at-append above (userdata u) (table fs ∷ [])

    configure_sync-local : (config : ℕ) (t : State W) → configure_sync config nil t ≡ (ok 0, t)
    unfolding configure_sync
    configure_sync-local config t = refl

    configure_path-local :
        (config : ℕ) (w : W)
        → configure_path config 0 (opening_at w) ≡ (
          ok tt,
          opening_at
              (opening.config_set config (path (local_path (get_field (codes "path") fs))) w),
        )
    unfolding configure_path
    configure_path-local config w = rw (
      config_at,
      path_text-local (get_field (codes "path") fs) (opening_at w)
          (above ++ userdata u ∷ table fs ∷ []),
    )

    pub configure_version-local :
        (config : ℕ) (w : W)
        → configure_version config (opening_at w) ≡ (
          ok tt,
          opening_at (
              opening.config_set config
                (schema_version (version_of opening (get_field (codes "schemaVersion") fs)))
                w),
        )
    unfolding configure_version
    configure_version-local config w = rw config_at

    pub configure_cached-local :
        (config : ℕ) (w : W)
        → configure_cached config (opening_at w)
          ≡ (ok tt, opening_at (set_if_boolean config (get_field (codes "_cached") fs) w))
    unfolding configure_cached
    configure_cached-local config w = rw config_at

    open_with_schema-local :
        (p sch : ℕ) (w : W)
        → get_elem? s.boxes u ≡ some (handle_box sch)
        → get_field (codes "sync") fs ≡ nil
        → let config = opening.config_new w in
          let held = api.release p (opening.config_set config.0 (schema p) config.1) in
          let ready = set_all opening config.0 (local_options opening fs sch) held in
          let realm = opening.realm_open config.0 ready in
          open_with_schema p (opening_at w)
          ≡ finish realm.0
              (with_handle (opening_at w) realm.0 (api.release 0 (api.release config.0 realm.1)))
    unfolding open_with_schema
    open_with_schema-local p sch w h unsynced =
        let config = opening.config_new w in
        let held = api.release p (opening.config_set config.0 (schema p) config.1) in
        rw (
          config_at,
          unsynced,
          configure_sync-local config.0
              (record (opening_at held) { stack = nil ∷ above ++ userdata u ∷ table fs ∷ [] }),
          configure_path-local config.0 held,
          configure_version-local config.0,
          configure_cached-local config.0,
          scheduler_at,
          h,
          h,
          push_handle_lem,
          ← set_if_boolean-cached config.0 (get_field (codes "_cached") fs),
        )

  pub pop-left_above :
      {A : Type 0} (f : Exec W A) (vs : List Value) (classes : Value) (below : List Value)
      (s : State W)
      → (pop 1 >> f) (on s (vs ++ classes ∷ below)) ≡ f (on s (left_above vs classes ++ below))
  pop-left_above f [] classes below s = refl
  pop-left_above f (v ∷ vs) classes below s =
      ap (λ l. f (on s l)) (sym (append_assoc vs (classes ∷ []) below))

  -- Opening a local realm whose schema is some classes, at least one, written as README.md says:
  -- realm-core makes the schema of these classes and a configuration, which is given the schema, the
  -- path or "default.realm", the version or 0, `_cached` if it is there, the mode that resets the
  -- file, and the scheduler, in this order; the schema and, after opening, the configuration are
  -- released once. The results are the realm's handle and its schema, or an error if there is no
  -- realm; what the parser has left on the stack is below them.
  pub lib_realm_open-local :
      (u sch : ℕ) (fs classes : Fields) (c : ClassDefinition) (cs : List ClassDefinition) (p : ℕ)
      (w : W) (s : State W)
      → get_elem? s.boxes u ≡ some (handle_box sch)
      → get_field (codes "schema") fs ≡ table classes
      → raw_len (table classes) ≡ length (c ∷ cs)
      → EncodesFrom 1 (c ∷ cs) classes
      → get_field (codes "sync") fs ≡ nil
      → opening.schema_new (map class_of (c ∷ cs)) s.world ≡ (suc p, w)
      → let config = opening.config_new w in
        let held = api.release (suc p) (opening.config_set config.0 (schema (suc p)) config.1) in
        let ready = set_all opening config.0 (local_options opening fs sch) held in
        let realm = opening.realm_open config.0 ready in
        let freed = api.release 0 (api.release config.0 realm.1) in
        (above : List Value) × (lib_realm_open (on s (userdata u ∷ table fs ∷ []))
          ≡ finish realm.0 (with_handle (on s (above ++ userdata u ∷ table fs ∷ [])) realm.0 freed))
  unfolding lib_realm_open type_of
  lib_realm_open-local u sch fs classes c cs p w s h at_schema size e unsynced made =
      let below = userdata u ∷ table fs ∷ [] in
      let parse = parse_schema-some opening.schema_new c cs classes s below size e in
      let above = left_above parse.0 (table classes) in
      let t : State W = record s { world = w } in
      (
        above,
        rw
            (
              at_schema,
              parse.1,
              made,
              pop-left_above (open_with_schema (suc p)) parse.0 (table classes) below t,
            )
            (open_with_schema-local above u fs s (suc p) sch w h unsynced),
      )
