-- ===== src/Native/Api.antt =====
-- realm-core's C interface, as far as src/realm_native_lib.cpp and src/realm_util.cpp call it. Its
-- code is not in this repository: it is an argument, functions on the world `W` that holds what
-- realm-core keeps. A handle is an address, 0 is the null pointer that a constructor returns on an
-- error. `none` is a call that returned false and set the last error.
use realm_lua_bootcamp.Prelude.{ℕ, Bool, List, Option}
use realm_lua_bootcamp.Text.{Bytes}

pub record Link : Type 0 where
  pub target_table : ℕ
  pub target : ℕ

-- `realm_value_t`; `other` are the types that `realm_to_lua_value` has no case for.
pub data RealmValue : Type 0 where
  null : RealmValue
  int : ℕ → RealmValue
  bool : Bool → RealmValue
  string : Bytes → RealmValue
  float : ℕ → RealmValue
  double : ℕ → RealmValue
  link : Link → RealmValue
  other : ℕ → RealmValue

pub record RealmApi (W : Type 0) : Type 0 where
  -- `realm::util::format`
  pub format : Bytes → List Bytes → Bytes
  pub get_last_error : W → Bytes
  pub release : ℕ → W → W
  pub begin_write : ℕ → W → Bool × W
  pub commit : ℕ → W → Bool × W
  pub rollback : ℕ → W → Bool × W
  pub object_create : ℕ → ℕ → W → ℕ × W
  pub object_create_with_primary_key : ℕ → ℕ → RealmValue → W → ℕ × W
  pub object_delete : ℕ → W → Bool × W
  pub object_is_valid : ℕ → W → Bool × W
  pub object_as_link : ℕ → W → Link × W
  pub get_object : ℕ → ℕ → ℕ → W → ℕ × W
  pub object_find_all : ℕ → ℕ → W → ℕ × W
  pub set_value : ℕ → ℕ → RealmValue → W → Bool × W
  pub get_value : ℕ → ℕ → W → Option RealmValue × W
  -- The class key, if the call succeeds and the class is found.
  pub find_class : ℕ → Bytes → W → Option (Option ℕ) × W
  pub results_get_object : ℕ → ℕ → W → ℕ × W
  pub results_count : ℕ → W → Option ℕ × W
  pub query_parse : ℕ → ℕ → Bytes → List RealmValue → W → ℕ × W
  pub results_filter : ℕ → ℕ → W → ℕ × W
  pub get_list : ℕ → ℕ → W → ℕ × W
  pub list_size : ℕ → W → Option ℕ × W
  pub list_insert : ℕ → ℕ → RealmValue → W → Bool × W
  pub list_set : ℕ → ℕ → RealmValue → W → Bool × W
  pub list_get : ℕ → ℕ → W → Option RealmValue × W
  pub list_erase : ℕ → ℕ → W → Bool × W
  pub get_dictionary : ℕ → ℕ → W → ℕ × W
  pub dictionary_size : ℕ → W → Option ℕ × W
  pub dictionary_find : ℕ → RealmValue → W → Option RealmValue × W
  pub dictionary_insert : ℕ → RealmValue → RealmValue → W → Bool × W
  pub dictionary_erase : ℕ → RealmValue → W → Bool × W
  pub get_set : ℕ → ℕ → W → ℕ × W
  pub set_size : ℕ → W → Option ℕ × W
  pub set_insert : ℕ → RealmValue → W → Bool × W
  pub set_erase : ℕ → RealmValue → W → Option Bool × W
  pub set_find : ℕ → RealmValue → W → Option Bool × W
  -- The keys of an object's class and of a property; `none` within is "not found".
  pub object_get_table : ℕ → W → ℕ × W
  pub find_property : ℕ → ℕ → Bytes → W → Option (Option ℕ) × W
  pub get_property : ℕ → ℕ → ℕ → W → Option ℕ × W
