-- ===== src/Http/Guard.antt =====
-- `CurlGlobalGuard`: the number of requests under way, under a mutex, decides when libcurl is set up
-- and taken down. A constructor or a destructor is one step, since it holds the mutex throughout.
use realm_lua_bootcamp.Prelude.{
  ℕ, zero, suc, ◌+◌, ◌-◌, ◌≡◌, refl, Bool, true, false, List, [], ◌∷◌, Option, none, some, arith,
  ltb, ◌==◌, if◌then◌else◌,
}

pub data GlobalCall : Type 0 where
  curl_global_init curl_global_cleanup : GlobalCall

-- `m_users`, and the calls of libcurl, the newest first.
pub record Guards : Type 0 where
  pub m_users : ℕ
  pub calls : List GlobalCall

abbrev pub no_guards : Guards
no_guards = record { m_users = 0; calls = [] }

-- `CurlGlobalGuard()`
unfoldable pub construct : Guards → Guards
construct g =
    let users = g.m_users + 1 in
    if users == 1
    then record { m_users = users; calls = curl_global_init ∷ g.calls }
    else record g { m_users = users }

-- `~CurlGlobalGuard()`
unfoldable pub destroy : Guards → Guards
destroy g =
    let users = g.m_users - 1 in
    if users == 0
    then record { m_users = users; calls = curl_global_cleanup ∷ g.calls }
    else record g { m_users = users }

-- Any interleaving of requests: `alive` counts the guards that exist.
pub data Reach : Guards → ℕ → Type 0 where
  start : Reach no_guards 0
  enter : {g : Guards} {alive : ℕ} → Reach g alive → Reach (construct g) (suc alive)
  leave : {g : Guards} {alive : ℕ} → Reach g (suc alive) → Reach (destroy g) alive

-- Whether libcurl is set up after the calls; `none` if they set it up twice in a row, or take it
-- down when it is not set up.
abbrev pub toggled : GlobalCall → Option Bool → Option Bool
toggled curl_global_init (some false) = some true
toggled curl_global_cleanup (some true) = some false
toggled _ _ = none

abbrev pub is_set_up : List GlobalCall → Option Bool
is_set_up [] = some false
is_set_up (c ∷ cs) = toggled c (is_set_up cs)

pub record IsGuarded (g : Guards) (alive : ℕ) : Type 0 where
  pub counted : g.m_users ≡ alive
  pub in_turn : is_set_up g.calls ≡ some (ltb 0 alive)

construct-IsGuarded :
    {g : Guards} (alive : ℕ) → IsGuarded g alive → IsGuarded (construct g) (suc alive)
unfolding construct
construct-IsGuarded zero v = ground arith
construct-IsGuarded (suc n) v = ground arith

destroy-IsGuarded : {g : Guards} (alive : ℕ) → IsGuarded g (suc alive) → IsGuarded (destroy g) alive
unfolding destroy
destroy-IsGuarded zero v = ground arith
destroy-IsGuarded (suc n) v = ground arith

-- However the guards of requests come and go, `m_users` is the number of those that exist, the
-- set-ups and take-downs of libcurl alternate, and libcurl is set up exactly while a guard exists.
pub Reach-IsGuarded : {g : Guards} {alive : ℕ} → Reach g alive → IsGuarded g alive
Reach-IsGuarded start = record { counted = refl; in_turn = refl }
Reach-IsGuarded (enter {alive} r) = construct-IsGuarded alive (Reach-IsGuarded r)
Reach-IsGuarded (leave {alive} r) = destroy-IsGuarded alive (Reach-IsGuarded r)
