-- ===== src/Lua/Calls.antt =====
-- A C function that Lua code calls: it has a stack of its own, with the arguments, of which it leaves
-- its results on the top.
use realm_lua_bootcamp.Prelude.{◌≡◌, refl, ℕ, zero, suc, List, [], get_elem?}
use realm_lua_bootcamp.Text.{Bytes}
use realm_lua_bootcamp.Lua.Values.{Value, nil}
use realm_lua_bootcamp.Lua.Machine.{◌>>=◌, State, Outcome, ok, raised, fault, Exec, or_nil, on}

-- Result `i` of `n`, from 0 on.
abbrev pub result_of : ℕ → ℕ → List Value → Value
result_of zero i vs = nil
result_of (suc n) zero vs = or_nil (get_elem? vs n)
result_of (suc n) (suc i) vs = result_of n i vs

module _ {W : Type 0} where
  abbrev pub after_call : State W → Outcome ℕ × State W → Outcome (ℕ → Value) × State W
  after_call s (ok n, t) = (ok (λ i. result_of n i t.stack), on t s.stack)
  after_call s (raised m, t) = (raised m, on t s.stack)
  after_call s (fault, t) = (fault, t)

  -- The results by their places; where there is none it is nil.
  abbrev pub call_results : Exec W ℕ → List Value → Exec W (ℕ → Value)
  call_results f args s = after_call s (f (on s args))

  abbrev pub first_of : Outcome (ℕ → Value) × State W → Outcome Value × State W
  first_of (ok rs, t) = (ok (rs 0), t)
  first_of (raised m, t) = (raised m, t)
  first_of (fault, t) = (fault, t)

  -- The first result.
  abbrev pub call_c : Exec W ℕ → List Value → Exec W Value
  call_c f args s = first_of (call_results f args s)

-- What `xpcall` gives.
pub data Protected : Type 0 where
  succeeded : Value → Protected
  failed : Bytes → Protected

module _ {W : Type 0} where
  abbrev protected :
      (Bytes → W → Bytes) → State W → Outcome Value × State W → Outcome Protected × State W
  protected handler s (ok v, t) = (ok (succeeded v), on t s.stack)
  protected handler s (raised m, t) = (ok (failed (handler m t.world)), on t s.stack)
  protected handler s (fault, t) = (fault, t)

  -- A Lua function that is called without arguments, and the message that the handler makes of an
  -- error.
  abbrev pub lua_xpcall : (Bytes → W → Bytes) → Exec W Value → Exec W Protected
  lua_xpcall handler f s = protected handler s (f (on s []))

-- A step that succeeds.
pub bind_ok :
    {W A B : Type 0} (m : Exec W A) (f : A → Exec W B) (s : State W) (a : A) (t : State W)
    → m s ≡ (ok a, t)
    → (m >>= f) s ≡ f a t
bind_ok m f s a t h = rw h refl
