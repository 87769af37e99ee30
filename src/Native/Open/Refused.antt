-- ===== src/Native/Open/Refused.antt =====
-- A sync configuration without a partition or a user.
use realm_lua_bootcamp.Prelude.{ℕ, ◌≡◌, refl, false, List, ◌∷◌, [], if◌then◌else◌}
use realm_lua_bootcamp.Text.{Bytes, codes, c_string}
use realm_lua_bootcamp.Lua.{
  Value, integer, number, string, table, Fields, get_field, State, ok, raised, on, type_of, to_text,
  is_string, is_table, Conversions,
}
use realm_lua_bootcamp.Native.Api.{RealmApi}
use realm_lua_bootcamp.Native.Convert.{typename, inform_error}
use realm_lua_bootcamp.Native.Open.{OpenApi, partition_value, user_of, or_no_user, configure_sync}

-- The message, by the partition.
abbrev pub refusal : {W : Type 0} → RealmApi W → Value → Bytes
refusal api partition =
    if is_string partition
    then api.format (codes "sync.user must be a User object.") []
    else api.format (codes "sync.partitionValue must be a string, got %1.")
        (typename (type_of partition) ∷ [])

module _ {W : Type 0} ⦃cv : Conversions⦄ ⦃api : RealmApi W⦄ ⦃opening : OpenApi W⦄ where
  user_of-other : (v : Value) (s : State W) → is_table v ≡ false → user_of v s ≡ (ok 0, s)
  unfolding user_of
  user_of-other (table fs) s h = cc h
  user_of-other _ s h = refl

  -- A sync configuration whose user is no table is refused: with the type of the partition, if that
  -- is neither a string nor a number, and otherwise for the user. realm-core is not called, not even
  -- to release the configuration.
  configure_sync-refused :
      (config : ℕ) (sf : Fields) (partition user : Value) (s : State W) (below : List Value)
      → get_field (codes "partitionValue") sf ≡ partition
      → get_field (codes "user") sf ≡ user
      → is_table user ≡ false
      → let t = configure_sync config (table sf) (on s (table sf ∷ below)) in
        (t.0 ≡ raised (c_string (refusal api partition)))
        × (t.1.world ≡ s.world)
        × (t.1.boxes ≡ s.boxes)
  unfolding configure_sync partition_value or_no_user is_string to_text inform_error type_of
  configure_sync-refused config sf (string t) user s below at_partition at_user h =
      let t' = on s (user ∷ table sf ∷ below) in
      rw (at_partition, at_user, user_of-other user t' h) (refl, refl, refl)
  configure_sync-refused config sf (integer n) user s below at_partition at_user h =
      let t' = on s (user ∷ table sf ∷ below) in
      rw (at_partition, at_user, user_of-other user t' h) (refl, refl, refl)
  configure_sync-refused config sf (number d) user s below at_partition at_user h =
      let t' = on s (user ∷ table sf ∷ below) in
      rw (at_partition, at_user, user_of-other user t' h) (refl, refl, refl)
  configure_sync-refused config sf _ user s below at_partition at_user h =
      rw at_partition (refl, refl, refl)
