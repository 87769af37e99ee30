-- ===== src/Callbacks/Lifetime.antt =====
-- How long the registry keeps a callback.
use realm_lua_bootcamp.Prelude.{
  ℕ, zero, suc, ◌≡◌, ◌≢◌, refl, ap, List, [], ◌∷◌, Option, none, some, arith, get_elem?,
}
use realm_lua_bootcamp.Lua.{Value, function, State, ok, on, free_ref, put_ref, drop_ref}
use realm_lua_bootcamp.Callbacks.{new_userdata, free_lua_userdata}

-- A reference that is in use.
abbrev pub Holds : List (Option Value) → ℕ → Value → Type 0
Holds refs r v = get_elem? refs r ≡ some (some v)

pub Holds-put :
    (refs : List (Option Value)) (v : Value)
    → Holds (put_ref refs (free_ref refs) (some v)) (free_ref refs) v
Holds-put [] v = refl
Holds-put (none ∷ rs) v = refl
Holds-put (some w ∷ rs) v = Holds-put rs v

pub Holds-put_other :
    (refs : List (Option Value)) (v : Value) (r : ℕ) (w : Value)
    → Holds refs r w
    → Holds (put_ref refs (free_ref refs) (some v)) r w
Holds-put_other [] v r w h = cc
Holds-put_other (none ∷ rs) v zero w h = cc
Holds-put_other (none ∷ rs) v (suc r) w h = h
Holds-put_other (some x ∷ rs) v zero w h = h
Holds-put_other (some x ∷ rs) v (suc r) w h = Holds-put_other rs v r w h

pub Holds-drop_other :
    (refs : List (Option Value)) (n r : ℕ) (w : Value)
    → n ≢ r
    → Holds refs r w
    → Holds (drop_ref refs n) r w
Holds-drop_other [] n r w differ h = cc
Holds-drop_other (x ∷ rs) zero zero w differ h = absurd (differ refl)
Holds-drop_other (x ∷ rs) zero (suc r) w differ h = h
Holds-drop_other (x ∷ rs) (suc n) zero w differ h = h
Holds-drop_other (x ∷ rs) (suc n) (suc r) w differ h =
    Holds-drop_other rs n r w (λ e. differ (ap suc e)) h

pub free_ref-unused :
    (refs : List (Option Value)) (r : ℕ) (w : Value) → Holds refs r w → free_ref refs ≢ r
free_ref-unused [] r w h e = cc
free_ref-unused (none ∷ rs) zero w h e = cc
free_ref-unused (none ∷ rs) (suc r) w h e = omega arith
free_ref-unused (some x ∷ rs) zero w h e = omega arith
free_ref-unused (some x ∷ rs) (suc r) w h e = free_ref-unused rs r w h (omega arith)

drop-put :
    (refs : List (Option Value)) (v : Value)
    → get_elem? (drop_ref (put_ref refs (free_ref refs) (some v)) (free_ref refs)) (free_ref refs)
      ≡ some none
drop-put [] v = refl
drop-put (none ∷ rs) v = refl
drop-put (some w ∷ rs) v = drop-put rs v

-- Registering a callback takes the function off the stack and gives it a reference that no live
-- callback `q` has; `q` keeps its function, also when the new one is freed again, and then the new
-- reference is free.
new_userdata-free :
    {W : Type 0} (f q : ℕ) (w : Value) (s : State W) (below : List Value)
    → Holds s.refs q w
    → let t = new_userdata (on s (function f ∷ below)) in
      let r = free_ref s.refs in
      let freed = free_lua_userdata (record { callback_reference = some r }) t.1 in
      (t.0 ≡ ok (record { callback_reference = some r }))
      × (t.1.stack ≡ below)
      × Holds t.1.refs r (function f)
      × (r ≢ q)
      × Holds t.1.refs q w
      × Holds freed.1.refs q w
      × (get_elem? freed.1.refs r ≡ some none)
unfolding new_userdata free_lua_userdata
new_userdata-free f q w s below h =
    let other = free_ref-unused s.refs q w h in
    let kept = Holds-put_other s.refs (function f) q w h in
    (
      refl,
      refl,
      Holds-put s.refs (function f),
      other,
      kept,
      Holds-drop_other _ _ q w other kept,
      drop-put s.refs (function f),
    )
