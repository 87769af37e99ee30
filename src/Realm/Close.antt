-- ===== src/Realm/Close.antt =====
-- What closing a realm releases.
use realm_lua_bootcamp.Prelude.{
  ℕ, ◌≡◌, ◌≢◌, refl, subst, ap, sym, ◌∙◌, List, [], ◌∷◌, Option, none, some, get_elem?, set,
  get_elem?-set_self, get_elem?-set_other, lt_of_get_elem?,
}
use realm_lua_bootcamp.Lua.{Value, nil, userdata, Box, State, ok, call_c}
use realm_lua_bootcamp.Native.Api.{RealmApi}
use realm_lua_bootcamp.Native.Convert.Handles.{handle_box}
use realm_lua_bootcamp.Native.Transactions.{lib_realm_release}
use realm_lua_bootcamp.Realm.{LuaRealm, release_children, realm_close}

-- A userdata and the pointer that it holds as a handle.
abbrev pub Held : Type 0
Held = ℕ × ℕ

abbrev pub HoldAll : List Box → List Held → Type 0
HoldAll bs [] = Unit {0}
HoldAll bs ((u, p) ∷ hs) = (get_elem? bs u ≡ some (handle_box p)) × HoldAll bs hs

abbrev pub IsOther : ℕ → List Held → Type 0
IsOther u [] = Unit {0}
IsOther u ((v, p) ∷ hs) = (u ≢ v) × IsOther u hs

abbrev pub AllDiffer : List Held → Type 0
AllDiffer [] = Unit {0}
AllDiffer ((u, p) ∷ hs) = IsOther u hs × AllDiffer hs

-- The handles with null pointers.
abbrev pub nulled : List Held → List Held
nulled [] = []
nulled ((u, p) ∷ hs) = (u, 0) ∷ nulled hs

abbrev null_all : List Held → List Box → List Box
null_all [] bs = bs
null_all ((u, p) ∷ hs) bs = null_all hs (set bs u (handle_box 0))

-- The table of child handles: after these there may be one that the collector has taken out, with any
-- others after it.
abbrev pub entries : List Held → Option (List (Option Value)) → List (Option Value)
entries [] none = []
entries [] (some others) = none ∷ others
entries ((u, p) ∷ hs) gap = some (userdata u) ∷ entries hs gap

HoldAll-set :
    (bs : List Box) (u : ℕ) (hs : List Held)
    → IsOther u hs
    → HoldAll bs hs
    → HoldAll (set bs u (handle_box 0)) hs
HoldAll-set bs u [] other h = tt
HoldAll-set bs u ((v, p) ∷ hs) other h =
    (get_elem?-set_other bs u v _ (λ e. other.0 (sym e)) ∙ h.0, HoldAll-set bs u hs other.1 h.1)

null_all-other :
    (hs : List Held) (bs : List Box) (u : ℕ)
    → IsOther u hs
    → get_elem? (null_all hs bs) u ≡ get_elem? bs u
null_all-other [] bs u other = refl
null_all-other ((v, p) ∷ hs) bs u other =
    null_all-other hs (set bs v (handle_box 0)) u other.1 ∙ get_elem?-set_other bs v u _ other.0

null_all-HoldAll :
    (hs : List Held) (bs : List Box)
    → AllDiffer hs
    → HoldAll bs hs
    → HoldAll (null_all hs bs) (nulled hs)
null_all-HoldAll [] bs differ h = tt
null_all-HoldAll ((u, p) ∷ hs) bs differ h =
    let bs' = set bs u (handle_box 0) in
    (
      null_all-other hs bs' u differ.0 ∙ get_elem?-set_self bs u _ (lt_of_get_elem? bs u h.0),
      null_all-HoldAll hs bs' differ.1 (HoldAll-set bs u hs differ.0 h.1),
    )

IsOther-nulled : (u : ℕ) (hs : List Held) → IsOther u hs → IsOther u (nulled hs)
IsOther-nulled u [] h = tt
IsOther-nulled u ((v, p) ∷ hs) h = (h.0, IsOther-nulled u hs h.1)

AllDiffer-nulled : (hs : List Held) → AllDiffer hs → AllDiffer (nulled hs)
AllDiffer-nulled [] h = tt
AllDiffer-nulled ((u, p) ∷ hs) h = (IsOther-nulled u hs h.0, AllDiffer-nulled hs h.1)

entries-nulled :
    (hs : List Held) (gap : Option (List (Option Value))) → entries (nulled hs) gap ≡ entries hs gap
entries-nulled [] none = refl
entries-nulled [] (some others) = refl
entries-nulled ((u, p) ∷ hs) gap = ap (λ es. some (userdata u) ∷ es) (entries-nulled hs gap)

module _ {W : Type 0} ⦃api : RealmApi W⦄ where
  abbrev pub release_all : List Held → W → W
  release_all [] w = w
  release_all ((u, p) ∷ hs) w = release_all hs (api.release p w)

  pub release_call :
      (u p : ℕ) (s : State W)
      → get_elem? s.boxes u ≡ some (handle_box p)
      → call_c lib_realm_release (userdata u ∷ []) s
        ≡ (ok nil, record s { boxes = set s.boxes u (handle_box 0); world = api.release p s.world })
  unfolding lib_realm_release
  release_call u p s h = rw (h, h, h) refl

  release_children_lem :
      (hs : List Held) (gap : Option (List (Option Value))) (s : State W)
      → AllDiffer hs
      → HoldAll s.boxes hs
      → release_children (entries hs gap) s
        ≡ (ok tt, record s { boxes = null_all hs s.boxes; world = release_all hs s.world })
  unfolding release_children
  release_children_lem [] none s differ h = refl
  release_children_lem [] (some others) s differ h = refl
  release_children_lem ((u, p) ∷ hs) gap s differ h = rw (release_call u p s h.0) (
      release_children_lem hs gap
        (record s { boxes = set s.boxes u (handle_box 0); world = api.release p s.world }) differ.1
        (HoldAll-set s.boxes u hs differ.0 h.1))

  realm_close_lem :
      (realm : LuaRealm) (own p : ℕ) (hs : List Held) (gap : Option (List (Option Value)))
      (s : State W)
      → realm.handle ≡ userdata own
      → realm.child_handles ≡ entries hs gap
      → AllDiffer ((own, p) ∷ hs)
      → HoldAll s.boxes ((own, p) ∷ hs)
      → realm_close realm s ≡ (
        ok tt,
        record s {
          boxes = set (null_all hs s.boxes) own (handle_box 0);
          world = api.release p (release_all hs s.world);
        },
      )
  unfolding realm_close
  realm_close_lem realm own p hs gap s handle children differ h =
      let t : State W = record s { boxes = null_all hs s.boxes; world = release_all hs s.world } in
      rw
        (
          children,
          release_children_lem hs gap s differ.1 h.1,
          handle,
          release_call own p t (null_all-other hs s.boxes own differ.0 ∙ h.0),
        )
        refl

  -- Closing a realm releases the pointers of its child handles, in their order, and then its own, and
  -- leaves null pointers; closing it again, as the collector does, gives `realm_release` only null
  -- pointers. The child handles are those in front of the first that the collector has taken out of
  -- the table: what is behind it is not released. The handles are different userdata.
  pub realm_close-releases :
      (realm : LuaRealm) (own p : ℕ) (hs : List Held) (gap : Option (List (Option Value)))
      (s : State W)
      → realm.handle ≡ userdata own
      → realm.child_handles ≡ entries hs gap
      → AllDiffer ((own, p) ∷ hs)
      → HoldAll s.boxes ((own, p) ∷ hs)
      → let once = realm_close realm s in
        let twice = realm_close realm once.1 in
        (once.0 ≡ ok tt)
        × (once.1.world ≡ api.release p (release_all hs s.world))
        × HoldAll once.1.boxes (nulled ((own, p) ∷ hs))
        × (twice.0 ≡ ok tt)
        × (twice.1.world ≡ api.release 0 (release_all (nulled hs) once.1.world))
  realm_close-releases realm own p hs gap s handle children differ h =
      let first = realm_close_lem realm own p hs gap s handle children differ h in
      let bs = null_all hs s.boxes in
      let w = api.release p (release_all hs s.world) in
      let own_box : get_elem? bs own ≡ some (handle_box p) =
        null_all-other hs s.boxes own differ.0 ∙ h.0 in
      let closed : HoldAll (set bs own (handle_box 0)) ((own, 0) ∷ nulled hs) = (
        get_elem?-set_self bs own _ (lt_of_get_elem? bs own own_box),
        HoldAll-set bs own (nulled hs) (IsOther-nulled own hs differ.0)
            (null_all-HoldAll hs s.boxes differ.1 h.1),
      ) in
      let second =
        realm_close_lem realm own 0 (nulled hs) gap
          (record s { boxes = set bs own (handle_box 0); world = w }) handle
          (children ∙ sym (entries-nulled hs gap)) (AllDiffer-nulled ((own, p) ∷ hs) differ)
          closed in
      subst
        (λ once.
          (once.0 ≡ ok tt)
          × (once.1.world ≡ w)
          × HoldAll once.1.boxes (nulled ((own, p) ∷ hs))
          × ((realm_close realm once.1).0 ≡ ok tt)
          × ((realm_close realm once.1).1.world
              ≡ api.release 0 (release_all (nulled hs) once.1.world)))
        (sym first) (refl, refl, closed, ap (λ t. t.0) second, ap (λ t. t.1.world) second)
