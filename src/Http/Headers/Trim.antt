-- ===== src/Http/Headers/Trim.antt =====
-- The two loops that trim the value of a header, on any bytes.
use realm_lua_bootcamp.Prelude.{
  ℕ, zero, suc, ◌+◌, ◌-◌, ◌≤◌, ◌≡◌, ◌≢◌, refl, subst, ap, sym, ◌∙◌, true, false, [], ◌∷◌, ◌++◌,
  append-nil, append_assoc, arith, length, length-append, ltb, lt→ltb, Bool-cases, inl, inr, ◌==◌,
}
use realm_lua_bootcamp.Text.{Bytes, substr}
use realm_lua_bootcamp.Text.Laws.{last_byte}
use realm_lua_bootcamp.Http.Headers.{skip_spaces, is_line_end, drop_line_end, header_value}
use realm_lua_bootcamp.Http.Headers.Line.{
  spaces, IsTrimmed, IsLineEnd, done, more, drop_line_end-append, drop_line_end-keeps,
  length-spaces,
}

skip_spaces-split :
    (s : Bytes) → IsTrimmed (skip_spaces s) × ((n : ℕ) × (s ≡ spaces n (skip_spaces s)))
unfolding skip_spaces
skip_spaces-split [] = (tt, (0, refl))
skip_spaces-split (c ∷ s) = elim (Bool-cases (c == 32)) [
  | inl space ↦
      let inner = skip_spaces-split s in
      let same : c ≡ 32 = ground arith in
      rw space (inner.0, (suc inner.1.0, rw same (ap (λ t. 32 ∷ t) inner.1.1)))
  | inr other ↦ let differ : c ≢ 32 = ground arith in rw other (differ, (0, refl))
]

init-last :
    (c : ℕ) (s : Bytes) → substr (c ∷ s) 0 (length (c ∷ s) - 1) ++ last_byte (c ∷ s) ∷ [] ≡ c ∷ s
init-last c [] = refl
init-last c (d ∷ s) =
    let one : suc (suc (length s)) - 1 ≡ suc (length s) = omega arith in
    let less : suc (length s) - 1 ≡ length s = omega arith in
    rw one (ap (λ t. c ∷ t) (rw less at (init-last d s)))

-- What a text is cut into.
pub record IsCut (s v : Bytes) : Type 0 where
  pub tail : Bytes
  pub ended : IsLineEnd tail
  pub whole : s ≡ v ++ tail
  pub last : is_line_end (last_byte v) ≡ false

IsCut-more :
    (s v : Bytes) (c : ℕ) (t : Bytes)
    → IsCut s v
    → is_line_end c ≡ true
    → t ≡ s ++ c ∷ []
    → IsCut t v
IsCut-more s v c t cut at_end split = record {
  tail = cut.tail ++ c ∷ [];
  ended = more cut.tail c cut.ended at_end refl;
  whole = split ∙ ap (λ x. x ++ c ∷ []) cut.whole ∙ append_assoc v cut.tail (c ∷ []);
  last = cut.last;
}

drop_line_end-IsCut : (fuel : ℕ) (s : Bytes) → length s ≤ fuel → IsCut s (drop_line_end fuel s)
unfolding drop_line_end
drop_line_end-IsCut zero [] h = record { tail = []; ended = done; whole = refl; last = refl }
drop_line_end-IsCut zero (c ∷ s) h = absurd (omega arith)
drop_line_end-IsCut (suc fuel) [] h = record { tail = []; ended = done; whole = refl; last = refl }
drop_line_end-IsCut (suc fuel) (c ∷ s) h = elim (Bool-cases (is_line_end (last_byte (c ∷ s)))) [
  | inl at_end ↦
      let init = substr (c ∷ s) 0 (length (c ∷ s) - 1) in
      let filled : ltb 0 (length (c ∷ s)) ≡ true = lt→ltb _ _ (omega arith) in
      let short : length init ≤ fuel =
        omega (arith, ap length (init-last c s), length-append init (last_byte (c ∷ s) ∷ [])) in
      rw (filled, at_end)
        (IsCut-more init (drop_line_end fuel init) (last_byte (c ∷ s)) (c ∷ s)
          (drop_line_end-IsCut fuel init short) at_end (sym (init-last c s)))
  | inr inside ↦
      let kept : drop_line_end (suc fuel) (c ∷ s) ≡ c ∷ s =
        drop_line_end-keeps (suc fuel) (c ∷ s) inside in
      subst (IsCut (c ∷ s)) (sym kept)
        (record { tail = []; ended = done; whole = sym (append-nil (c ∷ s)); last = inside })
]

-- Both loops end, on whatever bytes stand behind the colon, and the value is what is between: in front
-- of it were spaces, all that there were, behind it CRs and LFs, all that there were. As many rounds
-- as there are bytes are enough: more change nothing.
pub header_value-IsCut :
    (s : Bytes) (extra : ℕ)
    → IsTrimmed (skip_spaces s)
      × ((n : ℕ) × (s ≡ spaces n (skip_spaces s)))
      × IsCut (skip_spaces s) (header_value s)
      × (drop_line_end (length s + extra) (skip_spaces s) ≡ header_value s)
unfolding header_value
header_value-IsCut s extra =
    let split = skip_spaces-split s in
    let short : length (skip_spaces s) ≤ length s =
      omega (arith, ap length split.1.1, length-spaces split.1.0 (skip_spaces s)) in
    let cut = drop_line_end-IsCut (length s) (skip_spaces s) short in
    let v = drop_line_end (length s) (skip_spaces s) in
    let room : length cut.tail ≤ length s + extra =
      omega (arith, ap length cut.whole, length-append v cut.tail) in
    (
      split.0,
      split.1,
      cut,
      ap (drop_line_end (length s + extra)) cut.whole
          ∙ drop_line_end-append (length s + extra) v cut.tail cut.ended cut.last room,
    )
