-- ===== src/Notifications/Collections.antt =====
-- The tables that a listener is given.
use realm_lua_bootcamp.Prelude.{
  ℕ, ◌+◌, ◌≡◌, refl, List, [], ◌∷◌, ◌++◌, append_assoc, append-nil, Option, none, some, length,
  length-append, map, arith, get_elem?, if◌then◌else◌,
}
use realm_lua_bootcamp.Text.{Bytes, codes, c_string}
use realm_lua_bootcamp.Lua.{
  Value, boolean, integer, string, table, function, Fields, end, field, set_field, State, Outcome,
  ok, raised, on, array, place-append, set_index-array,
}
use realm_lua_bootcamp.Callbacks.{Behaviour}
use realm_lua_bootcamp.Native.Api.{RealmApi}
use realm_lua_bootcamp.Notifications.{
  CollectionChanges, ObjectChanges, one_based, fill, populate_lua_collection_changes_table,
  populate_lua_object_changes_table, report, on_collection_change, on_object_change,
}

abbrev pub integers : (ℕ → ℕ) → List ℕ → List Value
integers element = map (λ n. integer (element n))

fill-array :
    {W : Type 0} (element : ℕ → ℕ) (vs : List Value) (changes : List ℕ) (s : State W)
    (below : List Value)
    → fill element (length vs) changes (on s (table (array 1 vs) ∷ below))
      ≡ (ok tt, on s (table (array 1 (vs ++ integers element changes)) ∷ below))
unfolding fill
fill-array element vs [] s below = rw (append-nil vs)
fill-array element vs (c ∷ cs) s below =
    let v = integer (element c) in
    let next : length vs + 1 ≡ length (vs ++ v ∷ []) = omega (arith, length-append vs (v ∷ [])) in
    rw (
      set_index-array (length vs + 1) 1 vs v refl,
      next,
      fill-array element (vs ++ v ∷ []) cs s below,
      append_assoc vs (v ∷ []) (integers element cs),
    )

-- The array of the changes.
abbrev pub changes_array : (ℕ → ℕ) → List ℕ → Value
changes_array element changes = table (array 1 (integers element changes))

module _ {W : Type 0} (s : State W) (name : Bytes) (changes : List ℕ) (fs : Fields)
    (below : List Value) where
  populate_collection-field :
      populate_lua_collection_changes_table
        (length (table fs ∷ below))
        name
        changes
        (on s (table fs ∷ below))
      ≡ (ok tt, on s (table (set_field name (changes_array one_based changes) fs) ∷ below))
  unfolding populate_lua_collection_changes_table
  populate_collection-field = rw (
    fill-array one_based [] changes s (table fs ∷ below),
    place-append (changes_array one_based changes ∷ []) (table fs) below,
  )

  populate_object-field :
      populate_lua_object_changes_table
        (length (table fs ∷ below))
        name
        changes
        (on s (table fs ∷ below))
      ≡ (ok tt, on s (table (set_field name (changes_array (λ key. key) changes) fs) ∷ below))
  unfolding populate_lua_object_changes_table
  populate_object-field = rw (
    fill-array (λ key. key) [] changes s (table fs ∷ below),
    place-append (changes_array (λ key. key) changes ∷ []) (table fs) below,
  )

abbrev pub collection_table : CollectionChanges → Value
collection_table c = table (
    field (string (codes "deletions")) (changes_array one_based c.deletions) (
      field (string (codes "insertions")) (changes_array one_based c.insertions) (
        field (string (codes "modificationsOld")) (changes_array one_based c.modifications_old) (
          field (string (codes "modificationsNew")) (changes_array one_based c.modifications_new)
            end))))

-- What becomes of a notification, by what its listener does.
abbrev pub notified : {W : Type 0} → RealmApi W → Option Bytes → Outcome (Unit {0})
notified api none = ok tt
notified api (some message) = raised (
    c_string
      (api.format (codes "Could not call the callback function:\n%1") (c_string message ∷ [])))

-- An error's message stays on the stack.
abbrev pub left_on : Option Bytes → List Value → List Value
left_on none stack = stack
left_on (some message) stack = string message ∷ stack

-- A change of a collection calls its listener once, with one table: the arrays of the deletions, the
-- insertions and the old and new places of the modifications, in their order and counted from 1. An
-- error of the listener is raised again, its message still on the stack, and otherwise the stack is
-- as before.
pub on_collection_change-calls :
    {W : Type 0} ⦃api : RealmApi W⦄ (run : Behaviour W) (r f : ℕ) (changes : CollectionChanges)
    (s : State W)
    → get_elem? s.refs r ≡ some (some (function f))
    → let called = run (function f) (collection_table changes ∷ []) s.world in
      let t = on_collection_change run (record { callback_reference = some r }) changes s in
      (t.0 ≡ notified api called.0)
      × (t.1.world ≡ called.1)
      × (t.1.stack ≡ left_on called.0 s.stack)
unfolding on_collection_change set_field report
on_collection_change-calls run r f changes s h =
    let rest = function f ∷ s.stack in
    let one = field (string (codes "deletions")) (changes_array one_based changes.deletions) end in
    let two =
      field (string (codes "deletions")) (changes_array one_based changes.deletions)
        (field (string (codes "insertions")) (changes_array one_based changes.insertions) end) in
    let three = field (string (codes "deletions")) (changes_array one_based changes.deletions) (
      field (string (codes "insertions")) (changes_array one_based changes.insertions) (
        field (string (codes "modificationsOld"))
          (changes_array one_based changes.modifications_old) end)) in
    rw
      (
        h,
        populate_collection-field s (codes "deletions") changes.deletions end rest,
        populate_collection-field s (codes "insertions") changes.insertions one rest,
        populate_collection-field s (codes "modificationsOld") changes.modifications_old two rest,
        populate_collection-field s (codes "modificationsNew") changes.modifications_new three rest,
      )
      (ground arith)

abbrev pub object_table : List ℕ → ObjectChanges → Value
object_table garbage c = table (
    field (string (codes "isDeleted")) (boolean c.is_deleted) (
      field (string (codes "modifiedProperties"))
        (changes_array (λ key. key) (if c.is_deleted then garbage else c.modified_properties)) end))

-- A change of an object calls its listener once, with one table: whether the object is deleted, and
-- the keys of the properties that changed, in their order. Of a deleted object the keys are whatever
-- stood in the array. An error of the listener is raised again, its message still on the stack, and otherwise the stack is
-- as before.
pub on_object_change-calls :
    {W : Type 0} ⦃api : RealmApi W⦄ (run : Behaviour W) (garbage : List ℕ) (r f : ℕ)
    (changes : ObjectChanges) (s : State W)
    → get_elem? s.refs r ≡ some (some (function f))
    → let called = run (function f) (object_table garbage changes ∷ []) s.world in
      let t = on_object_change run garbage (record { callback_reference = some r }) changes s in
      (t.0 ≡ notified api called.0)
      × (t.1.world ≡ called.1)
      × (t.1.stack ≡ left_on called.0 s.stack)
unfolding on_object_change set_field report
on_object_change-calls run garbage r f changes s h =
    let one = field (string (codes "isDeleted")) (boolean changes.is_deleted) end in
    rw
      (
        h,
        place-append (boolean changes.is_deleted ∷ []) (table end) (function f ∷ s.stack),
        populate_object-field s (codes "modifiedProperties")
            (if changes.is_deleted then garbage else changes.modified_properties) one
            (function f ∷ s.stack),
      )
      (ground arith)
