-- ===== src/Notifications.antt =====
-- src/realm_notifications.cpp: the tables of changes that a Lua listener is given, and the
-- registration of listeners.
pub mod Collections
pub mod References
pub mod Listeners
use realm_lua_bootcamp.Prelude.{
  ℕ, zero, suc, ◌+◌, ◌%◌, ◌^◌, Bool, List, [], ◌∷◌, Option, none, some, if◌then◌else◌,
}
use realm_lua_bootcamp.Text.{Bytes, codes, c_string}
use realm_lua_bootcamp.Lua.{
  boolean, integer, Exec, bottom, top, realm_handle, gettop, pop, push, pure, call, handle_at,
  lua_newtable, lua_setfield, lua_rawseti, lua_newuserdata, lua_l_setmetatable, store, push_ref,
  ◌>>=◌, ◌>>◌,
}
use realm_lua_bootcamp.Callbacks.{Behaviour, LuaUserdata, lua_pcall, new_userdata}
use realm_lua_bootcamp.Native.Api.{RealmApi}
use realm_lua_bootcamp.Native.Convert.{inform_error, inform_realm_error}

-- What realm-core reports of a collection and of an object.
pub record CollectionChanges : Type 0 where
  pub deletions : List ℕ
  pub insertions : List ℕ
  pub modifications_old : List ℕ
  pub modifications_new : List ℕ

pub record ObjectChanges : Type 0 where
  pub is_deleted : Bool
  pub modified_properties : List ℕ

-- The functions that register a callback; 0 is the null token.
pub record NotificationApi (W : Type 0) : Type 0 where
  pub results_add_notification_callback : ℕ → LuaUserdata → W → ℕ × W
  pub object_add_notification_callback : ℕ → LuaUserdata → W → ℕ × W

-- A Lua index of a position: `changes_indices[index] + 1`, as a `size_t`.
abbrev pub one_based : ℕ → ℕ
one_based i = (i + 1) % 2 ^ 64

module _ {W : Type 0} where
  -- The loops of the two functions below, over the values `element` makes.
  unfoldable pub fill : (ℕ → ℕ) → ℕ → List ℕ → Exec W (Unit {0})
  fill element index [] = pure tt
  fill element index (change ∷ changes) = do
    push (integer (element change))
    lua_rawseti (top 2) (index + 1)
    fill element (index + 1) changes

  unfoldable pub populate_lua_object_changes_table : ℕ → Bytes → List ℕ → Exec W (Unit {0})
  populate_lua_object_changes_table table_index field_name changes_properties = do
    lua_newtable
    fill (λ key. key) 0 changes_properties
    lua_setfield (bottom table_index) field_name

  unfoldable pub populate_lua_collection_changes_table : ℕ → Bytes → List ℕ → Exec W (Unit {0})
  populate_lua_collection_changes_table table_index field_name changes_indices = do
    lua_newtable
    fill one_based 0 changes_indices
    lua_setfield (bottom table_index) field_name

module _ {W : Type 0} ⦃api : RealmApi W⦄ (run : Behaviour W) where
  -- A listener's error is raised again, out of the notification.
  unfoldable pub report : Option Bytes → Exec W (Unit {0})
  unfolding inform_error
  report none = pure tt
  report (some message) =
      inform_error (codes "Could not call the callback function:\n%1") (c_string message ∷ [])

  unfoldable pub on_collection_change : LuaUserdata → CollectionChanges → Exec W (Unit {0})
  on_collection_change userdata changes = do
    push_ref userdata.callback_reference
    lua_newtable
    table_index ← gettop
    populate_lua_collection_changes_table table_index (codes "deletions") changes.deletions
    populate_lua_collection_changes_table table_index (codes "insertions") changes.insertions
    populate_lua_collection_changes_table table_index (codes "modificationsOld")
        changes.modifications_old
    populate_lua_collection_changes_table table_index (codes "modificationsNew")
        changes.modifications_new
    status ← lua_pcall run 1
    report status

  -- The array of keys is left as it was made, `garbage`, if the object is deleted.
  unfoldable pub on_object_change : List ℕ → LuaUserdata → ObjectChanges → Exec W (Unit {0})
  on_object_change garbage userdata changes = do
    push_ref userdata.callback_reference
    lua_newtable
    table_index ← gettop
    push (boolean changes.is_deleted)
    lua_setfield (bottom table_index) (codes "isDeleted")
    populate_lua_object_changes_table table_index (codes "modifiedProperties")
        (if changes.is_deleted then garbage else changes.modified_properties)
    status ← lua_pcall run 1
    report status

module _ {W : Type 0} ⦃api : RealmApi W⦄ ⦃notifications : NotificationApi W⦄ where
  -- The token, in a handle of its own; a null token is popped again.
  unfoldable pub add_token : (W → ℕ × W) → Exec W ℕ
  unfolding inform_realm_error
  add_token add = do
    u ← lua_newuserdata
    lua_l_setmetatable realm_handle
    token ← call add
    store u token
    elim token [ zero ↦ (do pop 1; inform_realm_error) | suc t ↦ pure 1 ]

  unfoldable pub lib_realm_results_add_listener : Exec W ℕ
  unfolding add_token new_userdata
  lib_realm_results_add_listener = do
    results ← handle_at (bottom 1)
    userdata ← new_userdata
    add_token (notifications.results_add_notification_callback results userdata)

  unfoldable pub lib_realm_object_add_listener : Exec W ℕ
  unfolding add_token new_userdata
  lib_realm_object_add_listener = do
    object ← handle_at (bottom 1)
    userdata ← new_userdata
    add_token (notifications.object_add_notification_callback object userdata)
