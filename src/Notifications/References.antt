-- ===== src/Notifications/References.antt =====
-- The references of listeners, apart from what else a state has.
use realm_lua_bootcamp.Prelude.{
  ℕ, zero, suc, ◌≡◌, ◌≢◌, ap, sym, subst, List, [], ◌∷◌, Option, none, some, get_elem?,
}
use realm_lua_bootcamp.Lua.{Value, function, free_ref, put_ref, drop_ref}
use realm_lua_bootcamp.Callbacks.Lifetime.{
  Holds, Holds-put, Holds-put_other, Holds-drop_other, free_ref-unused,
}

-- A listener: its reference and its function.
abbrev pub Listener : Type 0
Listener = ℕ × ℕ

abbrev pub remove : List Listener → ℕ → List Listener
remove [] i = []
remove (l ∷ ls) zero = ls
remove (l ∷ ls) (suc i) = l ∷ remove ls i

abbrev pub AllHeld : List (Option Value) → List Listener → Type 0
AllHeld refs [] = Unit {0}
AllHeld refs ((r, f) ∷ ls) = Holds refs r (function f) × AllHeld refs ls

abbrev pub IsOther : ℕ → List Listener → Type 0
IsOther r [] = Unit {0}
IsOther r ((q, g) ∷ ls) = (q ≢ r) × IsOther r ls

abbrev pub AllDiffer : List Listener → Type 0
AllDiffer [] = Unit {0}
AllDiffer ((r, f) ∷ ls) = IsOther r ls × AllDiffer ls

abbrev or_listener : Option Listener → Listener → Listener
or_listener none l = l
or_listener (some l) other = l

pub held :
    (refs : List (Option Value)) (ls : List Listener) (i : ℕ) {r f : ℕ}
    → AllHeld refs ls
    → get_elem? ls i ≡ some (r, f)
    → Holds refs r (function f)
held refs [] i h at = cc
held refs ((r, f) ∷ ls) zero h at =
    let same : (r, f) ≡ _ = ap (λ o. or_listener o (r, f)) at in
    subst (λ l. Holds refs l.0 (function l.1)) same h.0
held refs (l ∷ ls) (suc i) h at = held refs ls i h.1 at

-- A new listener.
pub AllHeld-put :
    (refs : List (Option Value)) (v : Value) (ls : List Listener)
    → AllHeld refs ls
    → AllHeld (put_ref refs (free_ref refs) (some v)) ls × IsOther (free_ref refs) ls
AllHeld-put refs v [] h = (tt, tt)
AllHeld-put refs v ((r, f) ∷ ls) h =
    let rest = AllHeld-put refs v ls h.1 in
    (
      (Holds-put_other refs v r (function f) h.0, rest.0),
      (λ e. free_ref-unused refs r (function f) h.0 (sym e), rest.1),
    )

-- One that is freed.
AllHeld-drop :
    (refs : List (Option Value)) (r : ℕ) (ls : List Listener)
    → AllHeld refs ls
    → IsOther r ls
    → AllHeld (drop_ref refs r) ls
AllHeld-drop refs r [] h other = tt
AllHeld-drop refs r ((q, g) ∷ ls) h other = (
  Holds-drop_other refs r q (function g) (λ e. other.0 (sym e)) h.0,
  AllHeld-drop refs r ls h.1 other.1,
)

IsOther-remove : (r : ℕ) (ls : List Listener) (i : ℕ) → IsOther r ls → IsOther r (remove ls i)
IsOther-remove r [] i h = tt
IsOther-remove r (l ∷ ls) zero h = h.1
IsOther-remove r (l ∷ ls) (suc i) h = (h.0, IsOther-remove r ls i h.1)

pub AllDiffer-remove : (ls : List Listener) (i : ℕ) → AllDiffer ls → AllDiffer (remove ls i)
AllDiffer-remove [] i h = tt
AllDiffer-remove (l ∷ ls) zero h = h.1
AllDiffer-remove ((r, f) ∷ ls) (suc i) h = (IsOther-remove r ls i h.0, AllDiffer-remove ls i h.1)

differs :
    (ls : List Listener) (i q : ℕ) {r f : ℕ} → IsOther q ls → get_elem? ls i ≡ some (r, f) → r ≢ q
differs [] i q h at = cc
differs ((r, f) ∷ ls) zero q h at = subst (λ l. l.0 ≢ q) (ap (λ o. or_listener o (r, f)) at) h.0
differs (l ∷ ls) (suc i) q h at = differs ls i q h.1 at

pub AllHeld-remove :
    (refs : List (Option Value)) (ls : List Listener) (i : ℕ) {r f : ℕ}
    → AllHeld refs ls
    → AllDiffer ls
    → get_elem? ls i ≡ some (r, f)
    → AllHeld (drop_ref refs r) (remove ls i)
AllHeld-remove refs [] i h differ at = tt
AllHeld-remove refs ((q, g) ∷ ls) zero h differ at =
    subst (λ l. AllHeld (drop_ref refs l.0) ls) (ap (λ o. or_listener o (q, g)) at)
      (AllHeld-drop refs q ls h.1 differ.0)
AllHeld-remove refs ((q, g) ∷ ls) (suc i) h differ at = (
  Holds-drop_other refs _ q (function g) (differs ls i q differ.0 at) h.0,
  AllHeld-remove refs ls i h.1 differ.1 at,
)

abbrev pub AreHeld : List (Option Value) → List Listener → Type 0
AreHeld refs ls = AllHeld refs ls × AllDiffer ls

pub AreHeld-added :
    (refs refs' : List (Option Value)) (ls : List Listener) (f : ℕ)
    → AreHeld refs ls
    → refs' ≡ put_ref refs (free_ref refs) (some (function f))
    → AreHeld refs' ((free_ref refs, f) ∷ ls)
AreHeld-added refs refs' ls f h e =
    let others = AllHeld-put refs (function f) ls h.0 in
    subst (λ rs. AreHeld rs ((free_ref refs, f) ∷ ls)) (sym e)
      ((Holds-put refs (function f), others.0), (others.1, h.1))
