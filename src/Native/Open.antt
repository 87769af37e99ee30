-- ===== src/Native/Open.antt =====
-- `lib_realm_open` of src/realm_native_lib.cpp: from a configuration, a Lua table, to an open realm.
pub mod Local
pub mod Synced
pub mod Empty
pub mod Refused
use realm_lua_bootcamp.Prelude.{ℕ, zero, suc, Bool, List, [], ◌∷◌, if◌then◌else◌}
use realm_lua_bootcamp.Text.{Bytes, codes}
use realm_lua_bootcamp.Lua.{
  Value, boolean, table, Exec, bottom, top, realm_handle, t_table, pure, pop, read, call, load,
  gets, type_at, lua_getfield, lua_l_checktype, lua_l_checkudata, Conversions, c_text_at, to_number,
  is_string, is_integer, ◌>>=◌, ◌>>◌,
}
use realm_lua_bootcamp.Schema.Parse.{Class, parse_schema}
use realm_lua_bootcamp.Schema.Push.{ObjectSchema, push_schema_info}
use realm_lua_bootcamp.Native.Api.{RealmApi}
use realm_lua_bootcamp.Native.Convert.{typename, inform_error, push_handle, handle_or_realm_error}

pub data SchemaMode : Type 0 where
  additive_explicit soft_reset_file : SchemaMode

-- The setters of `realm_config_t`; a handle is its address.
pub data ConfigOption : Type 0 where
  schema sync_config scheduler schema_version : ℕ → ConfigOption
  path : Bytes → ConfigOption
  cached : Bool → ConfigOption
  schema_mode : SchemaMode → ConfigOption

-- The part of realm-core that opening calls. A schema version is the `uint64_t` of a double.
pub record OpenApi (W : Type 0) : Type 0 where
  pub schema_new : List Class → W → ℕ × W
  pub config_new : W → ℕ × W
  pub config_set : ℕ → ConfigOption → W → W
  pub sync_config_new : ℕ → Bytes → W → ℕ × W
  pub default_file_path : ℕ → W → Bytes × W
  pub uint64_of_double : ℕ → ℕ
  pub realm_open : ℕ → W → ℕ × W
  pub schema_of : ℕ → W → List ObjectSchema

-- An integer version goes through a double.
abbrev pub version_of : {W : Type 0} ⦃cv : Conversions⦄ → OpenApi W → Value → ℕ
version_of opening v = if is_integer v then opening.uint64_of_double (to_number v) else 0

abbrev pub mode_of : ℕ → SchemaMode
mode_of zero = soft_reset_file
mode_of (suc sync) = additive_explicit

module _ {W : Type 0} ⦃cv : Conversions⦄ ⦃api : RealmApi W⦄ ⦃opening : OpenApi W⦄ where
  abbrev pub effect : (W → W) → Exec W (Unit {0})
  effect f = call (λ w. (tt, f w))

  unfoldable pub partition_value : Exec W Bytes
  unfolding typename inform_error is_string
  partition_value = do
    v ← read (top 1)
    t ← type_at (top 1)
    if is_string v
        then c_text_at (top 1)
        else inform_error (codes "sync.partitionValue must be a string, got %1.") (typename t ∷ [])

  -- The pointer of `user._handle`; null if `user` is no table.
  unfoldable pub user_of : Value → Exec W ℕ
  user_of (table fs) = do
    lua_getfield (top 1) (codes "_handle")
    u ← lua_l_checkudata (top 1) realm_handle
    user ← load u
    pop 1
    pure user
  user_of _ = pure 0

  unfoldable pub or_no_user : ℕ → Exec W (Unit {0})
  unfolding inform_error
  or_no_user zero = inform_error (codes "sync.user must be a User object.") []
  or_no_user (suc user) = pure tt

  -- The sync configuration of a config's `sync` table, which is on the top; null without one.
  unfoldable pub configure_sync : ℕ → Value → Exec W ℕ
  configure_sync config (table fs) = do
    lua_getfield (top 1) (codes "partitionValue")
    partition ← partition_value
    pop 1
    lua_getfield (top 1) (codes "user")
    v ← read (top 1)
    user ← user_of v
    pop 1
    or_no_user user
    p ← call (opening.sync_config_new user partition)
    effect (opening.config_set config (sync_config p))
    pure p
  configure_sync config _ = pure 0

  -- Without a path it is the one that realm-core chooses for a synced realm, or a name.
  abbrev default_path : ℕ → Exec W Bytes
  default_path zero = pure (codes "default.realm")
  default_path (suc p) = call (opening.default_file_path (suc p))

  unfoldable pub path_text : ℕ → Value → Exec W Bytes
  unfolding is_string
  path_text sync v = if is_string v then c_text_at (top 1) else default_path sync

  unfoldable pub configure_path : ℕ → ℕ → Exec W (Unit {0})
  configure_path config sync = do
    lua_getfield (bottom 1) (codes "path")
    v ← read (top 1)
    text ← path_text sync v
    effect (opening.config_set config (path text))
    pop 1

  unfoldable pub configure_version : ℕ → Exec W (Unit {0})
  unfolding is_integer to_number
  configure_version config = do
    lua_getfield (bottom 1) (codes "schemaVersion")
    v ← read (top 1)
    effect (opening.config_set config (schema_version (version_of opening v)))
    pop 1

  abbrev pub set_if_boolean : ℕ → Value → W → W
  set_if_boolean config (boolean b) w = opening.config_set config (cached b) w
  set_if_boolean config _ w = w

  unfoldable pub configure_cached : ℕ → Exec W (Unit {0})
  configure_cached config = do
    lua_getfield (bottom 1) (codes "_cached")
    v ← read (top 1)
    effect (set_if_boolean config v)
    pop 1

  -- From the parsed schema on, whose table has been popped.
  unfoldable pub open_with_schema : ℕ → Exec W ℕ
  open_with_schema p = do
    config ← call opening.config_new
    effect (opening.config_set config (schema p))
    effect (api.release p)
    lua_getfield (bottom 1) (codes "sync")
    v ← read (top 1)
    sync ← configure_sync config v
    pop 1
    configure_path config sync
    configure_version config
    configure_cached config
    effect (opening.config_set config (schema_mode (mode_of sync)))
    u ← lua_l_checkudata (bottom 2) realm_handle
    s ← load u
    effect (opening.config_set config (scheduler s))
    realm ← push_handle (opening.realm_open config)
    effect (api.release config)
    effect (api.release sync)
    handle_or_realm_error realm
    info ← gets (λ t. opening.schema_of realm t.world)
    push_schema_info info
    pure 2

  unfoldable pub lib_realm_open : Exec W ℕ
  lib_realm_open = do
    lua_l_checktype (bottom 1) t_table
    lua_getfield (bottom 1) (codes "schema")
    p ← parse_schema opening.schema_new
    handle_or_realm_error p
    pop 1
    open_with_schema p
