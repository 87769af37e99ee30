-- ===== src/Native/Dictionaries/Keys.antt =====
-- A dictionary's entries, key by key.
use realm_lua_bootcamp.Prelude.{
  ℕ, ◌≡◌, ◌≢◌, ◌⊎◌, inl, inr, refl, ap, sym, ◌∙◌, true, List, [], ◌∷◌, Option, some, get_elem?,
}
use realm_lua_bootcamp.Text.{Bytes}
use realm_lua_bootcamp.Lua.{Value, string, userdata, State, ok, on, bottom}
use realm_lua_bootcamp.Native.Api.{RealmApi, RealmValue}
use realm_lua_bootcamp.Native.Convert.{lua_to_realm_value, realm_to_lua_value}
use realm_lua_bootcamp.Native.Convert.Handles.{handle_box}
use realm_lua_bootcamp.Native.Convert.RoundTrip.{IsScalar, realm_value, lua_to_realm_value-scalar}
use realm_lua_bootcamp.Native.Dictionaries.{lib_realm_dictionary_find, lib_realm_dictionary_insert}

-- What realm-core documents of a dictionary handle `p` in a write transaction: `view` is its entries,
-- whose keys are texts. Of a key that it has not, nothing is assumed.
pub record DictionaryLaws {W : Type 0} (api : RealmApi W) (p : ℕ)
    (view : W → Bytes → Option RealmValue) (InWrite : W → Type 0) : Type 0 where
  pub find :
      (w : W) (k : Bytes) (v : RealmValue)
      → view w k ≡ some v
      → api.dictionary_find p (RealmValue.string k) w ≡ (some v, w)
  pub insert_ok :
      (w : W) (k : Bytes) (v : RealmValue)
      → InWrite w
      → (api.dictionary_insert p (RealmValue.string k) v w).0 ≡ true
  pub insert_same :
      (w : W) (k : Bytes) (v : RealmValue)
      → InWrite w
      → view (api.dictionary_insert p (RealmValue.string k) v w).1 k ≡ some v
  pub insert_other :
      (w : W) (k : Bytes) (v : RealmValue) (j : Bytes)
      → InWrite w
      → j ≢ k
      → view (api.dictionary_insert p (RealmValue.string k) v w).1 j ≡ view w j

-- The arguments of `realm_dictionary_insert(dictionary, k, v)` and of
-- `realm_dictionary_find(dictionary, j, realm)`.
abbrev pub insert_arguments : ℕ → Bytes → Value → List Value
insert_arguments u k v = v ∷ string k ∷ userdata u ∷ []

abbrev pub find_arguments : ℕ → Bytes → ℕ → List Value
find_arguments u j r = userdata r ∷ string j ∷ userdata u ∷ []

module _ {W : Type 0} ⦃api : RealmApi W⦄ {view : W → Bytes → Option RealmValue}
    {InWrite : W → Type 0} (p : ℕ) (laws : DictionaryLaws api p view InWrite) where
  insert_lem :
      (s : State W) (u : ℕ) (k : Bytes) (v : Value)
      → IsScalar v
      → get_elem? s.boxes u ≡ some (handle_box p)
      → InWrite s.world
      → lib_realm_dictionary_insert (on s (insert_arguments u k v)) ≡ (
        ok 0,
        record s {
          stack = insert_arguments u k v;
          world = (api.dictionary_insert p (RealmValue.string k) (realm_value v) s.world).1;
        },
      )
  unfolding lib_realm_dictionary_insert lua_to_realm_value
  insert_lem s u k v scalar h w =
      let t = on s (insert_arguments u k v) in
      rw (
        lua_to_realm_value-scalar (bottom 3) v t refl scalar,
        h,
        laws.insert_ok s.world k (realm_value v) w,
      )

  find_lem :
      (s : State W) (u r q : ℕ) (j : Bytes) (x : RealmValue)
      → get_elem? s.boxes u ≡ some (handle_box p)
      → get_elem? s.boxes r ≡ some (handle_box q)
      → view s.world j ≡ some x
      → lib_realm_dictionary_find (on s (find_arguments u j r))
        ≡ realm_to_lua_value q x (on s (find_arguments u j r))
  unfolding lib_realm_dictionary_find lua_to_realm_value
  find_lem s u r q j x h hr found = rw (h, hr, laws.find s.world j x found)

  -- After `dictionary[k] = v`, with a scalar, `dictionary[k]` is `v`, and `dictionary[j]` of another
  -- key that it has is what it was. The handle is a dictionary's, as `laws` has it, and the realm is
  -- in a write transaction.
  pub dictionary_find-insert :
      (s : State W) (u r q : ℕ) (k : Bytes) (v : Value) (j : Bytes) (x : RealmValue)
      → IsScalar v
      → get_elem? s.boxes u ≡ some (handle_box p)
      → get_elem? s.boxes r ≡ some (handle_box q)
      → InWrite s.world
      → ((j ≡ k) × (x ≡ realm_value v)) ⊎ ((j ≢ k) × (view s.world j ≡ some x))
      → let t = lib_realm_dictionary_insert (on s (insert_arguments u k v)) in
        (t.0 ≡ ok 0)
        × (lib_realm_dictionary_find (on t.1 (find_arguments u j r))
            ≡ realm_to_lua_value q x (on t.1 (find_arguments u j r)))
  dictionary_find-insert s u r q k v j x scalar h hr w expected =
      let after = (api.dictionary_insert p (RealmValue.string k) (realm_value v) s.world).1 in
      let t : State W = record s { stack = insert_arguments u k v; world = after } in
      let found : view after j ≡ some x = elim expected [
        | inl same ↦
            ap (λ i. view after i) same.0
            ∙ laws.insert_same s.world k (realm_value v) w
            ∙ ap some (sym same.1)
        | inr other ↦ laws.insert_other s.world k (realm_value v) j w other.0 ∙ other.1
      ] in
      rw (insert_lem s u k v scalar h w) (refl, find_lem t u r q j x h hr found)
