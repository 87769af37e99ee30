-- ===== src/Realm/Collections/Filters.antt =====
-- What a filter with arguments asks of realm-core.
use realm_lua_bootcamp.Prelude.{
  ℕ, suc, ◌+◌, ◌≡◌, refl, sym, ap, subst, ◌∙◌, List, [], ◌∷◌, ◌++◌, append_assoc, some, length,
  arith, map, get_elem?,
}
use realm_lua_bootcamp.Text.{Bytes, c_string}
use realm_lua_bootcamp.Lua.{
  Value, integer, string, userdata, State, ok, on, value_at-append, value_at-behind, Conversions,
  Exec, pure, ◌>>=◌, call_c, to_integer, to_text,
}
use realm_lua_bootcamp.Native.Api.{RealmApi}
use realm_lua_bootcamp.Native.Convert.Handles.{handle_box, with_handle, push_handle_lem}
use realm_lua_bootcamp.Native.Convert.RoundTrip.{IsScalar, realm_value}
use realm_lua_bootcamp.Native.Results.{
  lib_realm_results_filter, lib_realm_query_parse, find_class_key,
}
use realm_lua_bootcamp.Native.Results.Arguments.{ArgumentsAt, query_arguments-scalars}
use realm_lua_bootcamp.Realm.{LuaRealm}
use realm_lua_bootcamp.Realm.Collections.{Collection, with_child, push_all, results_filter}

abbrev pub AllScalars : List Value → Type 0
AllScalars [] = Unit {0}
AllScalars (v ∷ vs) = IsScalar v × AllScalars vs

push_all-append : (vs base : List Value) → (us : List Value) × (push_all vs base ≡ us ++ base)
push_all-append [] base = ([], refl)
push_all-append (v ∷ vs) base =
    let rest = push_all-append vs (v ∷ base) in
    (rest.0 ++ v ∷ [], rest.1 ∙ sym (append_assoc rest.0 (v ∷ []) base))

push_all-ArgumentsAt :
    (vs base : List Value) (i : ℕ)
    → AllScalars vs
    → i ≡ length base + 1
    → ArgumentsAt i vs (push_all vs base)
push_all-ArgumentsAt [] base i h e = tt
push_all-ArgumentsAt (v ∷ vs) base i h e =
    let split = push_all-append vs (v ∷ base) in
    let at : i ≡ suc (length base) = omega arith in
    (
      rw (split.1, at) (value_at-append split.0 v base),
      h.0,
      push_all-ArgumentsAt vs (v ∷ base) (i + 1) h.1 (omega arith),
    )

-- The arguments of `realm_results_filter` in front of the query's.
abbrev base_arguments : ℕ → ℕ → Bytes → Bytes → ℕ → List Value
base_arguments u r class_name text n =
    integer n ∷ string text ∷ string class_name ∷ userdata r ∷ userdata u ∷ []

module _ {W : Type 0} ⦃cv : Conversions⦄ ⦃api : RealmApi W⦄ where
  -- The call of a filter with given handles.
  abbrev filter_call : LuaRealm → Bytes → Bytes → List Value → Value → Value → Exec W Collection
  filter_call owner class_name text vs realm handle = do
    filtered ←
        call_c lib_realm_results_filter (
          push_all vs (integer (length vs) ∷ string text ∷ string class_name ∷ realm ∷ handle ∷ []))
    pure (record { handle = filtered; realm = with_child filtered owner })

  query_parse_lem :
      (q key query : ℕ) (class_name text : Bytes) (vs : List Value) (w1 w2 : W) (s : State W)
      → ArgumentsAt 6 vs s.stack
      → api.find_class q class_name s.world ≡ (some (some key), w1)
      → api.query_parse q key text (map realm_value vs) w1 ≡ (query, w2)
      → lib_realm_query_parse q class_name text (length vs) 6 s
        ≡ (ok query, record s { world = w2 })
  unfolding lib_realm_query_parse find_class_key
  query_parse_lem q key query class_name text vs w1 w2 s h found parsed =
      rw (query_arguments-scalars 6 vs s h, found, parsed) refl

  filter_lem :
      (u r p q key query : ℕ) (class_name text : Bytes) (us vs : List Value) (w1 w2 : W)
      (s : State W)
      → let stack = us ++ base_arguments u r class_name text (length vs) in
        ArgumentsAt 6 vs stack
        → get_elem? s.boxes u ≡ some (handle_box p)
        → get_elem? s.boxes r ≡ some (handle_box q)
        → api.find_class q (c_string class_name) s.world ≡ (some (some key), w1)
        → api.query_parse q key (c_string text) (map realm_value vs) w1 ≡ (suc query, w2)
        → lib_realm_results_filter (on s stack) ≡ (
          ok 1,
          with_handle
              (record s { stack = stack; world = w2 })
              (api.results_filter p (suc query) w2).0
              (api.results_filter p (suc query) w2).1,
        )
  unfolding lib_realm_results_filter to_integer to_text
  filter_lem u r p q key query class_name text us vs w1 w2 s h hu hr found parsed =
      let base = base_arguments u r class_name text (length vs) in
      rw
        (
          value_at-behind us base 1 (omega arith) (omega arith),
          hu,
          value_at-behind us base 2 (omega arith) (omega arith),
          hr,
          value_at-behind us base 3 (omega arith) (omega arith),
          value_at-behind us base 4 (omega arith) (omega arith),
          value_at-behind us base 5 (omega arith) (omega arith),
          query_parse_lem q key (suc query) (c_string class_name) (c_string text) vs w1 w2
              (on s (us ++ base)) h found parsed,
          push_handle_lem,
        )
        refl

  -- Filtering results with a query and any scalar arguments: realm-core finds the class by its name,
  -- parses the query's text with that class's key and the arguments' values in their order, and
  -- filters the results that the handle holds. What comes back are results in a new handle, which is a
  -- child of the realm; nothing else changes. The class is there and the query is accepted.
  pub results_filter-scalars :
      (c : Collection) (u r p q key query : ℕ) (class_name text : Bytes) (vs : List Value)
      (w1 w2 : W) (s : State W)
      → AllScalars vs
      → c.handle ≡ userdata u
      → c.realm.handle ≡ userdata r
      → get_elem? s.boxes u ≡ some (handle_box p)
      → get_elem? s.boxes r ≡ some (handle_box q)
      → api.find_class q (c_string class_name) s.world ≡ (some (some key), w1)
      → api.query_parse q key (c_string text) (map realm_value vs) w1 ≡ (suc query, w2)
      → let made = api.results_filter p (suc query) w2 in
        let filtered = userdata (length s.boxes) in
        results_filter c class_name (string text) vs s ≡ (
          ok (record { handle = filtered; realm = with_child filtered c.realm }),
          record s { boxes = s.boxes ++ handle_box made.0 ∷ []; world = made.1 },
        )
  unfolding results_filter
  results_filter-scalars c u r p q key query class_name text vs w1 w2 s scalars handle realm hu hr
        found parsed =
      let base = base_arguments u r class_name text (length vs) in
      let split = push_all-append vs base in
      let arguments : ArgumentsAt 6 vs (split.0 ++ base) =
        subst (ArgumentsAt 6 vs) split.1 (push_all-ArgumentsAt vs base 6 scalars (omega arith)) in
      ap (λ x. filter_call c.realm class_name text vs x c.handle s) realm
      ∙ ap (λ x. filter_call c.realm class_name text vs (userdata r) x s) handle
      ∙ rw
          (
            split.1,
            filter_lem u r p q key query class_name text split.0 vs w1 w2 s arguments hu hr found
                parsed,
          )
          refl
