-- ===== src/Text/Laws.antt =====
-- Laws of the string helpers: a suffix test means a split, and what a suffix test is on a text
-- with a known end.
use realm_lua_bootcamp.Prelude.{
  ℕ, zero, suc, ◌-◌, ◌≡◌, ◌≢◌, refl, ap, sym, ◌∙◌, ◌↔◌, true, false, inl, inr, [], ◌∷◌, ◌++◌, arith,
  leb, length, take, drop, length-append, drop-append, take-append, take_long, length-drop,
  take-append-drop, Bool-cases, le→leb,
}
use realm_lua_bootcamp.Text.{Bytes, text_eq→eq, text_eq_refl, c_string, substr, ends_with}

pub ends_with-append : (s e : Bytes) → ends_with (s ++ e) e ≡ true
unfolding ends_with
ends_with-append s e =
    let room : leb (length e) (length (s ++ e)) ≡ true =
      le→leb _ _ (omega (arith, length-append s e)) in
    let at_end : length (s ++ e) - length e ≡ length s = omega (arith, length-append s e) in
    rw (room, at_end, drop-append, take_long (length e) e (omega arith)) (text_eq_refl e)

pub ends_with→append : (s e : Bytes) → ends_with s e ≡ true → s ≡ take (length s - length e) s ++ e
unfolding ends_with
ends_with→append s e h = elim (Bool-cases (leb (length e) (length s))) [
  | inl room ↦
      let n = length s - length e in
      let short : length (drop n s) ≡ length e = ground (arith, length-drop n s) in
      let same : take (length e) (drop n s) ≡ e = text_eq→eq _ e (rw room at h) in
      let whole : take (length e) (drop n s) ≡ drop n s =
        take_long (length e) (drop n s) (omega arith) in
      sym (take-append-drop n s) ∙ ap (λ t. take n s ++ t) (sym whole ∙ same)
  | inr short ↦ cc (rw short at h)
]

-- A text ends with another exactly if it is some text followed by that other.
pub ends_with_iff : (s e : Bytes) → (ends_with s e ≡ true) ↔ ((p : Bytes) × (s ≡ p ++ e))
ends_with_iff s e = (
  λ h. (take (length s - length e) s, ends_with→append s e h),
  λ split. rw split.1 (ends_with-append split.0 e),
)

-- The last byte, 0 for an empty text.
abbrev pub last_byte : Bytes → ℕ
last_byte [] = 0
last_byte (c ∷ []) = c
last_byte (c ∷ d ∷ s) = last_byte (d ∷ s)

pub last_byte-append : (s : Bytes) (c : ℕ) (e : Bytes) → last_byte (s ++ c ∷ e) ≡ last_byte (c ∷ e)
last_byte-append [] c e = refl
last_byte-append (d ∷ []) c e = refl
last_byte-append (d ∷ d' ∷ s) c e = last_byte-append (d' ∷ s) c e

-- A text does not end with another if their last bytes differ.
pub ends_with_other :
    (s : Bytes) (c : ℕ) (e : Bytes) → last_byte s ≢ last_byte (c ∷ e) → ends_with s (c ∷ e) ≡ false
ends_with_other s c e differ = elim (Bool-cases (ends_with s (c ∷ e))) [
  | inl h ↦ absurd (
      differ (
        ap last_byte (ends_with→append s (c ∷ e) h)
        ∙ last_byte-append (take (length s - length (c ∷ e)) s) c e))
  | inr h ↦ h
]

-- What is left when a suffix is cut off.
pub substr-append :
    (s e : Bytes) (n : ℕ) → n ≡ length e → substr (s ++ e) 0 (length (s ++ e) - n) ≡ s
substr-append s e n same =
    let at_end : length (s ++ e) - n ≡ length s = omega (arith, length-append s e) in
    rw at_end (take-append s e)

-- A text without a zero byte is read whole.
abbrev pub NoZero : Bytes → Type 0
NoZero [] = Unit {0}
NoZero (c ∷ s) = (c ≢ 0) × NoZero s

pub c_string_whole : (s : Bytes) → NoZero s → c_string s ≡ s
unfolding c_string
c_string_whole [] h = refl
c_string_whole (zero ∷ s) h = absurd (h.0 refl)
c_string_whole (suc c ∷ s) h = ap (λ t. suc c ∷ t) (c_string_whole s h.1)

-- What is read through a `const char*` has no zero byte.
pub c_string-NoZero : (s : Bytes) → NoZero (c_string s)
unfolding c_string
c_string-NoZero [] = tt
c_string-NoZero (zero ∷ s) = tt
c_string-NoZero (suc c ∷ s) = (omega arith, c_string-NoZero s)
