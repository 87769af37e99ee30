-- ===== src/Notifications/Listeners.antt =====
-- The listeners of a Lua state over its whole life: which function a change reaches.
use realm_lua_bootcamp.Prelude.{ℕ, zero, suc, ◌≡◌, refl, List, [], ◌∷◌, some, get_elem?}
use realm_lua_bootcamp.Lua.{function, userdata, Box, State, on, free_ref, put_ref}
use realm_lua_bootcamp.Native.Api.{RealmApi}
use realm_lua_bootcamp.Callbacks.{Behaviour, LuaUserdata, new_userdata, free_lua_userdata}
use realm_lua_bootcamp.Notifications.References.{
  Listener, remove, AreHeld, AreHeld-added, held, AllHeld-remove, AllDiffer-remove,
}
use realm_lua_bootcamp.Notifications.{
  NotificationApi, CollectionChanges, ObjectChanges, add_token, lib_realm_results_add_listener,
  lib_realm_object_add_listener, on_collection_change, on_object_change,
}
use realm_lua_bootcamp.Notifications.Collections.{
  collection_table, object_table, notified, left_on, on_collection_change-calls,
  on_object_change-calls,
}

module _ {W : Type 0} ⦃api : RealmApi W⦄ ⦃notifications : NotificationApi W⦄ where
  add_token-refs :
      (add : W → ℕ × W) (token : ℕ) (w : W) (s : State W)
      → add s.world ≡ (token, w)
      → (add_token add s).1.refs ≡ s.refs
  unfolding add_token
  add_token-refs add zero w s h = rw h refl
  add_token-refs add (suc t) w s h = rw h refl

  added-refs :
      (add : LuaUserdata → W → ℕ × W) (f u : ℕ) (s : State W)
      → let refs = put_ref s.refs (free_ref s.refs) (some (function f)) in
        (add_token
          (add (record { callback_reference = some (free_ref s.refs) }))
          (record s { stack = userdata u ∷ []; refs = refs })).1.refs
        ≡ refs
  added-refs add f u s =
      let r = add (record { callback_reference = some (free_ref s.refs) }) s.world in
      add_token-refs _ r.0 r.1
        (record s {
          stack = userdata u ∷ [];
          refs = put_ref s.refs (free_ref s.refs) (some (function f));
        })
        refl

  -- Both functions keep the listener's function under a reference of its own.
  results-refs :
      (f u : ℕ) (b : Box) (s : State W)
      → get_elem? s.boxes u ≡ some b
      → (lib_realm_results_add_listener (on s (function f ∷ userdata u ∷ []))).1.refs
        ≡ put_ref s.refs (free_ref s.refs) (some (function f))
  unfolding lib_realm_results_add_listener new_userdata
  results-refs f u b s h =
      rw h (added-refs (notifications.results_add_notification_callback b.pointer) f u s)

  object-refs :
      (f u : ℕ) (b : Box) (s : State W)
      → get_elem? s.boxes u ≡ some b
      → (lib_realm_object_add_listener (on s (function f ∷ userdata u ∷ []))).1.refs
        ≡ put_ref s.refs (free_ref s.refs) (some (function f))
  unfolding lib_realm_object_add_listener new_userdata
  object-refs f u b s h =
      rw h (added-refs (notifications.object_add_notification_callback b.pointer) f u s)

  -- What happens to listeners: one is added to results or to an object, in a call with the function
  -- and the handle; realm-core frees one; and whatever else leaves the references alone.
  pub data Listening : State W → List Listener → Type 0 where
    silent : (s : State W) → Listening s []
    results_added :
        {s : State W} {ls : List Listener} (f u : ℕ) (b : Box)
        → Listening s ls
        → get_elem? s.boxes u ≡ some b
        → Listening
            (lib_realm_results_add_listener (on s (function f ∷ userdata u ∷ []))).1
            ((free_ref s.refs, f) ∷ ls)
    object_added :
        {s : State W} {ls : List Listener} (f u : ℕ) (b : Box)
        → Listening s ls
        → get_elem? s.boxes u ≡ some b
        → Listening
            (lib_realm_object_add_listener (on s (function f ∷ userdata u ∷ []))).1
            ((free_ref s.refs, f) ∷ ls)
    freed :
        {s : State W} {ls : List Listener} (i r f : ℕ)
        → Listening s ls
        → get_elem? ls i ≡ some (r, f)
        → Listening (free_lua_userdata (record { callback_reference = some r }) s).1 (remove ls i)
    elsewhere :
        {s : State W} {ls : List Listener} (t : State W)
        → Listening s ls
        → t.refs ≡ s.refs
        → Listening t ls

  Listening-AreHeld : {s : State W} {ls : List Listener} → Listening s ls → AreHeld s.refs ls
  unfolding free_lua_userdata
  Listening-AreHeld (silent s) = (tt, tt)
  Listening-AreHeld (results_added {s} {ls} f u b r h) =
      AreHeld-added s.refs _ ls f (Listening-AreHeld r) (results-refs f u b s h)
  Listening-AreHeld (object_added {s} {ls} f u b r h) =
      AreHeld-added s.refs _ ls f (Listening-AreHeld r) (object-refs f u b s h)
  Listening-AreHeld (freed {s} {ls} i r f l at) =
      let h = Listening-AreHeld l in
      (AllHeld-remove s.refs ls i h.0 h.1 at, AllDiffer-remove ls i h.1)
  Listening-AreHeld (elsewhere t l e) = rw e (Listening-AreHeld l)

  pub Listening-calls :
      {s : State W} {ls : List Listener} (run : Behaviour W) (garbage : List ℕ) (i r f : ℕ)
      (c : CollectionChanges) (o : ObjectChanges)
      → Listening s ls
      → get_elem? ls i ≡ some (r, f)
      → let userdata : LuaUserdata = record { callback_reference = some r } in
        let called = run (function f) (collection_table c ∷ []) s.world in
        let t = on_collection_change run userdata c s in
        let told = run (function f) (object_table garbage o ∷ []) s.world in
        let u = on_object_change run garbage userdata o s in
        (t.0 ≡ notified api called.0)
        × (t.1.world ≡ called.1)
        × (t.1.stack ≡ left_on called.0 s.stack)
        × (u.0 ≡ notified api told.0)
        × (u.1.world ≡ told.1)
        × (u.1.stack ≡ left_on told.0 s.stack)
  Listening-calls {s} {ls} run garbage i r f c o l at =
      let h = held s.refs ls i (Listening-AreHeld l).0 at in
      let collection = on_collection_change-calls run r f c s h in
      let object = on_object_change-calls run garbage r f o s h in
      (collection.0, collection.1, collection.2, object.0, object.1, object.2)
