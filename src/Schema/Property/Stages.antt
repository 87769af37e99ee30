-- ===== src/Schema/Property/Stages.antt =====
-- What each stage of the property notation does to a text that has its suffix, and to one that
-- has not.
use realm_lua_bootcamp.Prelude.{◌≡◌, ◌≢◌, refl, false, [], ◌++◌, inl, inr, Bool-cases}
use realm_lua_bootcamp.Text.{Bytes, codes, text_eq, text_eq→eq, ends_with}
use realm_lua_bootcamp.Text.Laws.{ends_with-append, substr-append}
use realm_lua_bootcamp.Schema.Types.{PropertyInfo, list_of, set_of, dictionary_of}
use realm_lua_bootcamp.Schema.Property.{
  strip_list, strip_set, strip_nullable, set_nullable, dictionary_or_base, base_type, parsed_type,
}

module _ (p : PropertyInfo) (t : Bytes) where
  pub parsed_type_lem :
      parsed_type p t ≡ dictionary_or_base (strip_nullable (strip_set (strip_list (p, t))))
  unfolding parsed_type
  parsed_type_lem = refl

  pub strip_list_hit : strip_list (p, t ++ codes "[]") ≡ (record p { collection_type = list_of }, t)
  unfolding strip_list
  strip_list_hit = rw (ends_with-append, substr-append t (codes "[]") 2 refl)

  pub strip_list_miss : ends_with t (codes "[]") ≡ false → strip_list (p, t) ≡ (p, t)
  unfolding strip_list
  strip_list_miss h = rw h

  pub strip_set_hit : strip_set (p, t ++ codes "<>") ≡ (record p { collection_type = set_of }, t)
  unfolding strip_set
  strip_set_hit = rw (ends_with-append, substr-append t (codes "<>") 2 refl)

  pub strip_set_miss : ends_with t (codes "<>") ≡ false → strip_set (p, t) ≡ (p, t)
  unfolding strip_set
  strip_set_miss h = rw h

  pub strip_nullable_hit : strip_nullable (p, t ++ codes "?") ≡ (set_nullable p, t)
  unfolding strip_nullable
  strip_nullable_hit = rw (ends_with-append, substr-append t (codes "?") 1 refl)

  pub strip_nullable_miss : ends_with t (codes "?") ≡ false → strip_nullable (p, t) ≡ (p, t)
  unfolding strip_nullable
  strip_nullable_miss h = rw h

  pub dictionary_hit :
      t ≢ []
      → dictionary_or_base (p, t ++ codes "{}")
        ≡ base_type (record p { collection_type = dictionary_of }) t
  unfolding dictionary_or_base
  dictionary_hit filled = elim (Bool-cases (text_eq t [])) [
    | inl e ↦ absurd (filled (text_eq→eq t [] e))
    | inr e ↦ rw (ends_with-append, substr-append t (codes "{}") 2 refl, e)
  ]

  pub dictionary_miss : ends_with t (codes "{}") ≡ false → dictionary_or_base (p, t) ≡ base_type p t
  unfolding dictionary_or_base
  dictionary_miss h = rw h
