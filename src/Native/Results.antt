-- ===== src/Native/Results.antt =====
-- Results and queries, of src/realm_native_lib.cpp.
pub mod Arguments
use realm_lua_bootcamp.Prelude.{
  ℕ, zero, suc, ◌+◌, ◌-◌, ◌%◌, ◌^◌, List, [], ◌∷◌, none, some, ltb, if◌then◌else◌,
}
use realm_lua_bootcamp.Text.{Bytes, codes}
use realm_lua_bootcamp.Lua.{
  integer, Exec, bottom, pure, push, read, call, handle_at, c_text_at, Conversions, to_integer,
  to_text, ◌>>=◌, ◌>>◌,
}
use realm_lua_bootcamp.Native.Api.{RealmApi, RealmValue}
use realm_lua_bootcamp.Native.Convert.{
  inform_error, inform_realm_error, lua_to_realm_value, push_handle, value_or_realm_error,
  handle_or_realm_error,
}

-- An `int` that is passed on as a `size_t`: 32 bits, extended by their sign.
unfoldable pub size_of_int : ℕ → ℕ
size_of_int n = if ltb n (2 ^ 31) then n else n + 2 ^ 64 - 2 ^ 32

module _ {W : Type 0} ⦃api : RealmApi W⦄ where
  -- The key of a class, or an error if there is none of this name.
  unfoldable pub find_class_key : ℕ → Bytes → Exec W ℕ
  unfolding inform_error inform_realm_error
  find_class_key realm class_name = do
    found ← call (api.find_class realm class_name)
    elim found [
      | none ↦ inform_realm_error
      | some none ↦ inform_error (codes "Unable to find collection") []
      | some (some key) ↦ pure key
    ]

  -- The loop over the arguments, from the stack's index `i` on.
  unfoldable pub query_arguments : ℕ → ℕ → Exec W (List RealmValue)
  query_arguments i zero = pure []
  query_arguments i (suc n) = do
    value ← lua_to_realm_value (bottom i)
    values ← query_arguments (i + 1) n
    pure (value ∷ values)

  unfoldable pub lib_realm_query_parse : ℕ → Bytes → Bytes → ℕ → ℕ → Exec W ℕ
  lib_realm_query_parse realm class_name query_string num_args lua_arg_offset = do
    args ← query_arguments lua_arg_offset num_args
    class_key ← find_class_key realm class_name
    call (api.query_parse realm class_key query_string args)

module _ {W : Type 0} ⦃cv : Conversions⦄ ⦃api : RealmApi W⦄ where
  unfoldable pub lib_realm_object_get_all : Exec W ℕ
  unfolding to_text
  lib_realm_object_get_all = do
    realm ← handle_at (bottom 1)
    class_name ← c_text_at (bottom 2)
    class_key ← find_class_key realm class_name
    push_handle (api.object_find_all realm class_key)
    pure 1

  unfoldable pub lib_realm_results_get : Exec W ℕ
  unfolding to_integer
  lib_realm_results_get = do
    results ← handle_at (bottom 1)
    index ← read (bottom 2)
    push_handle (api.results_get_object results (size_of_int (to_integer index % 2 ^ 32)))
    pure 1

  unfoldable pub lib_realm_results_count : Exec W ℕ
  unfolding inform_realm_error
  lib_realm_results_count = do
    results ← handle_at (bottom 1)
    counted ← call (api.results_count results)
    count ← value_or_realm_error counted
    push (integer count)
    pure 1

  -- The query that it parses is not released.
  unfoldable pub lib_realm_results_filter : Exec W ℕ
  unfolding to_text to_integer inform_realm_error
  lib_realm_results_filter = do
    unfiltered_result ← handle_at (bottom 1)
    realm ← handle_at (bottom 2)
    class_name ← c_text_at (bottom 3)
    query_string ← c_text_at (bottom 4)
    num_args ← read (bottom 5)
    query ← lib_realm_query_parse realm class_name query_string (to_integer num_args) 6
    handle_or_realm_error query
    push_handle (api.results_filter unfiltered_result query)
    pure 1
