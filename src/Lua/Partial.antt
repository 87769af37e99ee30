-- ===== src/Lua/Partial.antt =====
-- Partial correctness of an action: what holds of its result and of the state that it leaves, if it
-- neither raises nor faults. The rules are about the result `r` of the first step.
use realm_lua_bootcamp.Prelude.{◌≡◌, refl, subst, sym, arith}
use realm_lua_bootcamp.Text.{Bytes}
use realm_lua_bootcamp.Lua.Machine.{State, Outcome, ok, raised, fault, Exec, continue}

pub data WhenOk {W A : Type 0} (P : A → State W → Type 0) : Outcome A × State W → Type 0 where
  holds : {a : A} {s : State W} → P a s → WhenOk P (ok a, s)
  raises : {m : Bytes} {s : State W} → WhenOk P (raised m, s)
  faults : {s : State W} → WhenOk P (fault, s)

module _ {W A : Type 0} {P : A → State W → Type 0} where
  pub WhenOk-intro : (r : Outcome A × State W) → ((a : A) → r.0 ≡ ok a → P a r.1) → WhenOk P r
  WhenOk-intro (ok a, s) h = holds (h a refl)
  WhenOk-intro (raised m, s) h = raises
  WhenOk-intro (fault, s) h = faults

  pub WhenOk-elim : {r : Outcome A × State W} (a : A) → WhenOk P r → r.0 ≡ ok a → P a r.1
  WhenOk-elim a (holds {a = b} {s} h) e = subst (λ c. P c s) (ground (arith, e)) h
  WhenOk-elim a raises e = cc
  WhenOk-elim a faults e = cc

  pub WhenOk-mono :
      {Q : A → State W → Type 0} {r : Outcome A × State W}
      → WhenOk P r
      → ((a : A) (s : State W) → P a s → Q a s)
      → WhenOk Q r
  WhenOk-mono (holds h) k = holds (k _ _ h)
  WhenOk-mono raises k = raises
  WhenOk-mono faults k = faults

  pub WhenOk-bind :
      {B : Type 0} {Q : B → State W → Type 0} {f : A → Exec W B} (r : Outcome A × State W)
      → WhenOk P r
      → ((a : A) (t : State W) → P a t → WhenOk Q (f a t))
      → WhenOk Q (continue r.0 f r.1)
  WhenOk-bind r (holds h) k = k _ _ h
  WhenOk-bind r raises k = raises
  WhenOk-bind r faults k = faults

module _ {W A B : Type 0} {Q : B → State W → Type 0} where
  -- The rule where the first step leaves one of the states `T v`.
  pub WhenOk-bind_some :
      {V : Type 0} (T : V → State W) (r : Outcome A × State W) (f : A → Exec W B)
      → WhenOk (λ _ u. (v : V) × (u ≡ T v)) r
      → ((a : A) (v : V) → WhenOk Q (f a (T v)))
      → WhenOk Q (continue r.0 f r.1)
  WhenOk-bind_some T r f h k =
      WhenOk-bind r h (λ a u e. subst (λ x. WhenOk Q (f a x)) (sym e.1) (k a e.0))

  -- And where it leaves a state that is known.
  pub WhenOk-bind_at :
      (t : State W) (r : Outcome A × State W) (f : A → Exec W B)
      → WhenOk (λ _ u. u ≡ t) r
      → ((a : A) → WhenOk Q (f a t))
      → WhenOk Q (continue r.0 f r.1)
  WhenOk-bind_at t r f h k = WhenOk-bind r h (λ a u e. subst (λ x. WhenOk Q (f a x)) (sym e) (k a))
