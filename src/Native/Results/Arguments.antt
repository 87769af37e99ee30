-- ===== src/Native/Results/Arguments.antt =====
-- The arguments of a query, and the index of a result.
use realm_lua_bootcamp.Prelude.{
  ℕ, ◌+◌, ◌-◌, ◌%◌, ◌^◌, ◌<◌, ◌≡◌, refl, List, [], ◌∷◌, Option, none, some, map, length, arith,
  get_elem?, ltb, if◌then◌else◌,
}
use realm_lua_bootcamp.Text.{Bytes, codes, c_string}
use realm_lua_bootcamp.Lua.{
  Value, integer, userdata, State, Outcome, ok, raised, on, bottom, value_at, Conversions,
}
use realm_lua_bootcamp.Native.Api.{RealmApi, RealmValue}
use realm_lua_bootcamp.Native.Convert.Handles.{handle_box, with_handle, push_handle_lem}
use realm_lua_bootcamp.Native.Convert.RoundTrip.{IsScalar, realm_value, lua_to_realm_value-scalar}
use realm_lua_bootcamp.Native.Results.{
  query_arguments, find_class_key, lib_realm_query_parse, lib_realm_results_get, size_of_int,
}

-- The values `vs` are scalars and stand from the index `i` on.
abbrev pub ArgumentsAt : ℕ → List Value → List Value → Type 0
ArgumentsAt i [] stack = Unit {0}
ArgumentsAt i (v ∷ vs) stack =
    (value_at (bottom i) stack ≡ some v) × IsScalar v × ArgumentsAt (i + 1) vs stack

pub query_arguments-scalars :
    {W : Type 0} ⦃api : RealmApi W⦄ (i : ℕ) (vs : List Value) (s : State W)
    → ArgumentsAt i vs s.stack
    → query_arguments i (length vs) s ≡ (ok (map realm_value vs), s)
unfolding query_arguments
query_arguments-scalars i [] s h = refl
query_arguments-scalars i (v ∷ vs) s h =
    rw (lua_to_realm_value-scalar (bottom i) v s h.0 h.1, query_arguments-scalars (i + 1) vs s h.2)

-- What becomes of a query, by what realm-core finds of its class.
abbrev pub parsed :
    {W : Type 0} → RealmApi W → ℕ → Bytes → List RealmValue → Option (Option ℕ) → W → Outcome ℕ
parsed api realm text values none w = raised (c_string (api.format (api.get_last_error w) []))
parsed api realm text values (some none) w =
    raised (c_string (api.format (codes "Unable to find collection") []))
parsed api realm text values (some (some key)) w = ok (api.query_parse realm key text values w).0

-- A query with scalar arguments from index `i` on: realm-core is asked for the class; if it is
-- there, the query is parsed with the class's key, its text and the arguments' values in their
-- order, and otherwise there is an error. The stack and the userdata stay.
pub query_parse-scalars :
    {W : Type 0} ⦃api : RealmApi W⦄ (realm i : ℕ) (class_name text : Bytes) (vs : List Value)
    (s : State W)
    → ArgumentsAt i vs s.stack
    → let found = api.find_class realm class_name s.world in
      let t = lib_realm_query_parse realm class_name text (length vs) i s in
      (t.0 ≡ parsed api realm text (map realm_value vs) found.0 found.1)
      × (t.1.stack ≡ s.stack)
      × (t.1.boxes ≡ s.boxes)
unfolding lib_realm_query_parse find_class_key
query_parse-scalars realm i class_name text vs s h =
    rw (query_arguments-scalars i vs s h) (ground arith)

-- The index that realm-core is asked for: from 2^31 on, the `int` is negative.
abbrev pub asked_index : ℕ → ℕ
asked_index n = if ltb n (2 ^ 31) then n else 2 ^ 64 - (2 ^ 32 - n)

size_of_int-asked : (n : ℕ) → n < 2 ^ 32 → size_of_int (n % 2 ^ 32) ≡ asked_index n
unfolding size_of_int
size_of_int-asked n bound = ground arith

-- The index of a result is an `int`: below 2^31 it is passed on as it is, and from 2^31 on, within
-- 32 bits, realm-core is asked for an index near 2^64. The object's handle is all that is pushed.
pub results_get-index :
    {W : Type 0} ⦃cv : Conversions⦄ ⦃api : RealmApi W⦄ (u p n : ℕ) (s : State W)
    → get_elem? s.boxes u ≡ some (handle_box p)
    → n < 2 ^ 32
    → let start = on s (integer n ∷ userdata u ∷ []) in
      let object = api.results_get_object p (asked_index n) s.world in
      lib_realm_results_get start ≡ (ok 1, with_handle start object.0 object.1)
unfolding lib_realm_results_get
results_get-index u p n s h bound = rw (h, push_handle_lem, size_of_int-asked n bound)
