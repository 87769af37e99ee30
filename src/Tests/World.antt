-- ===== src/Tests/World.antt =====
-- A world with one list, in place of realm-core, and the conversions of a Lua without floats.
use realm_lua_bootcamp.Prelude.{
  ℕ, suc, take, drop, ◌≡◌, ◌≢◌, refl, sym, inl, inr, Bool, true, false, Bool-cases, if◌then◌else◌,
  List, [], ◌∷◌, ◌++◌, Option, none, some, length, get_elem?, set,
}
use realm_lua_bootcamp.Text.{Bytes, codes, text_eq, text_eq→eq, text_eq_refl}
use realm_lua_bootcamp.Lua.{function, State, Conversions}
use realm_lua_bootcamp.Native.Api.{RealmApi, RealmValue}
use realm_lua_bootcamp.Native.Convert.Handles.{handle_box}
use realm_lua_bootcamp.Native.Lists.Assign.{ListLaws}
use realm_lua_bootcamp.Native.Dictionaries.Keys.{DictionaryLaws}
use realm_lua_bootcamp.Native.Sets.Members.{SetLaws}
use realm_lua_bootcamp.Realm.Objects.Keyed.{KeyedLaws}
use realm_lua_bootcamp.Realm.Objects.Properties.{PropertyLaws}
use realm_lua_bootcamp.Realm.Collections.Erased.{EraseLaws}
use realm_lua_bootcamp.App.{AppApi}
use realm_lua_bootcamp.Callbacks.{Behaviour}

-- The list's elements, the pointers that were released, the newest first, the dictionary's entries,
-- whether the set has its one member, whether there is a transaction, and the elements before it.
pub record World : Type 0 where
  pub elements : List RealmValue
  pub released : List ℕ
  pub entries : Bytes → Option RealmValue
  pub full : Bool
  pub writing : Bool
  pub saved : List RealmValue

instance abbrev pub no_floats : Conversions
no_floats = record {
  integer_of_float = λ d. d;
  integer_of_text = λ t. 0;
  float_of_integer = λ n. n;
  float_of_text = λ t. 0;
  text_of_integer = λ n. n ∷ [];
  text_of_float = λ d. d ∷ [];
}

abbrev insert_element : ℕ → RealmValue → World → Bool × World
insert_element i v w = (true, record w { elements = w.elements ++ v ∷ [] })

abbrev set_element : ℕ → RealmValue → World → Bool × World
set_element i v w = (true, record w { elements = set w.elements i v })

abbrev erase_element : ℕ → World → Bool × World
erase_element i w = (true, record w { elements = take i w.elements ++ drop (suc i) w.elements })

abbrev entry_of : RealmValue → World → Option RealmValue
entry_of (RealmValue.string k) w = w.entries k
entry_of _ w = none

abbrev insert_entry : RealmValue → RealmValue → World → Bool × World
insert_entry (RealmValue.string k) v w =
    (true, record w { entries = λ j. if text_eq k j then some v else w.entries j })
insert_entry _ v w = (false, w)

abbrev or_null : Option RealmValue → RealmValue
or_null none = RealmValue.null
or_null (some v) = v

-- The property with key `k` is kept under a text of its own.
abbrev pub value_under : World → ℕ → RealmValue
value_under w k = or_null (w.entries (k ∷ []))

-- The primary key is the property with the key 7.
instance abbrev pub one_list : RealmApi World
one_list = record {
  format = λ message args. message;
  get_last_error = λ w. codes "no such thing";
  release = λ p w. record w { released = p ∷ w.released };
  begin_write = λ p w. (true, record w { writing = true; saved = w.elements });
  commit = λ p w. (true, record w { writing = false });
  rollback = λ p w. (true, record w { writing = false; elements = w.saved });
  object_create = λ r k w. (7, w);
  object_create_with_primary_key =
      λ r k v w. (7, (insert_entry (RealmValue.string (7 ∷ [])) v w).1);
  object_delete = λ o w. (true, w);
  object_is_valid = λ o w. (true, w);
  object_as_link = λ o w. (record { target_table = 4; target = o }, w);
  get_object = λ r t o w. (o, w);
  object_find_all = λ r k w. (8, w);
  set_value = λ o k v. insert_entry (RealmValue.string (k ∷ [])) v;
  get_value = λ o k w. (some (value_under w k), w);
  find_class = λ r name w. (some (some 4), w);
  results_get_object = λ p i w. (i, w);
  results_count = λ p w. (some 1, w);
  query_parse = λ r k text vs w. (length vs, w);
  results_filter = λ p q w. (8, w);
  get_list = λ o k w. (9, w);
  list_size = λ p w. (some (length w.elements), w);
  list_insert = λ p i v. insert_element i v;
  list_set = λ p i v. set_element i v;
  list_get = λ p i w. (get_elem? w.elements i, w);
  list_erase = λ p i. erase_element i;
  get_dictionary = λ o k w. (9, w);
  dictionary_size = λ p w. (some 0, w);
  dictionary_find = λ p k w. (entry_of k w, w);
  dictionary_insert = λ p k v. insert_entry k v;
  dictionary_erase = λ p k w. (true, w);
  get_set = λ o k w. (9, w);
  set_size = λ p w. (some 0, w);
  set_insert = λ p v w. (true, record w { full = true });
  set_erase = λ p v w. (some w.full, record w { full = false });
  set_find = λ p v w. (some w.full, w);
  object_get_table = λ o w. (4, w);
  find_property = λ r k name w. (none, w);
  get_property = λ r k p w. (none, w);
}

abbrev pub InWrite : World → Type 0
InWrite w = Unit {0}

abbrev pub elements_of : World → List RealmValue
elements_of w = w.elements

abbrev pub list_laws : ListLaws one_list 9 elements_of InWrite
list_laws = record {
  size = λ w. refl;
  get = λ w i h. refl;
  append = λ w v h. (refl, refl);
  overwrite = λ w i v h inside. (refl, refl);
}

abbrev pub erase_laws : EraseLaws one_list 9 elements_of InWrite
erase_laws = record {
  size = λ w. refl;
  erase_ok = λ w i h inside. refl;
  erase_takes = λ w i h inside. refl;
}

text_eq_other : (k j : Bytes) → k ≢ j → text_eq k j ≡ false
text_eq_other k j differ = elim (Bool-cases (text_eq k j)) [
  | inl same ↦ absurd (differ (text_eq→eq k j same))
  | inr other ↦ other
]

abbrev pub entries_of : World → Bytes → Option RealmValue
entries_of w = w.entries

pub dictionary_laws : DictionaryLaws one_list 9 entries_of InWrite
dictionary_laws = record {
  find = λ w k v h. rw h;
  insert_ok = λ w k v h. refl;
  insert_same = λ w k v h. rw (text_eq_refl k);
  insert_other = λ w k v j h differ. rw (text_eq_other k j (λ e. differ (sym e)));
}

abbrev pub AnyValue : ℕ → RealmValue → Type 0
AnyValue k v = Unit {0}

pub property_laws : PropertyLaws one_list 7 value_under InWrite AnyValue
property_laws = record {
  get = λ w k. refl;
  set_ok = λ w k v h fits. refl;
  set_writes = λ w k v h fits. h;
  set_same = λ w k v h fits. rw (text_eq_refl (k ∷ []));
  set_other = λ w k v j h differ. rw (text_eq_other (k ∷ []) (j ∷ []) (λ e. differ (cc e)));
}

pub keyed_laws : KeyedLaws one_list 5 4 7 value_under InWrite 7
keyed_laws = record { has_key = λ w v h made. rw (text_eq_refl (7 ∷ [])); writes = λ w v h made. h }

abbrev pub has_member : World → RealmValue → Bool
has_member w v = w.full

abbrev pub set_laws : SetLaws one_list 9 has_member InWrite
set_laws = record {
  find = λ w v. refl;
  insert_ok = λ w v h. refl;
  insert_same = λ w v h. refl;
  insert_writes = λ w v h. h;
  erase = λ w v h. refl;
  erase_same = λ w v h. refl;
}

instance abbrev pub one_user : AppApi World
one_user = record {
  make_curl_http_transport = λ w. (1, w);
  app_config_new = λ id t w. (2, w);
  app_config_set = λ c o w. w;
  sync_client_config_new = λ w. (3, w);
  current_path = λ w. codes "/tmp";
  set_base_file_path = λ c p w. w;
  set_plaintext_metadata = λ c w. w;
  app_create = λ c s w. (4, w);
  register_email = λ a e p u w. (true, w);
  credentials_new_email_password = λ e p w. (5, w);
  credentials_new_anonymous = λ b w. (5, w);
  log_in_with_credentials = λ a c u w. (true, w);
  get_current_user = λ a w. (6, w);
  clone = λ u w. (u, w);
  user_log_out = λ u w. (true, w);
  user_get_identity = λ u w. (codes "me", w);
}

-- A listener that does nothing but note that it was called.
abbrev pub noting : Behaviour World
noting f args w = (none, record w { released = length args ∷ w.released })

-- A state with a realm, an object, a list and a key, and with the function 3 under reference 0.
abbrev pub start : State World
start = record {
  stack = [];
  boxes = handle_box 5 ∷ handle_box 7 ∷ handle_box 9 ∷ handle_box 2 ∷ [];
  refs = some (function 3) ∷ [];
  type_metas = [];
  world = record {
    elements = RealmValue.int 10 ∷ RealmValue.int 20 ∷ [];
    released = [];
    entries = λ k. none;
    full = false;
    writing = false;
    saved = [];
  };
}
