-- ===== src/Text.antt =====
-- Byte strings, and the string helpers of src/realm_util.hpp.
-- A `std::string` or a Lua string is the list of its bytes; a `const char*` is read up to its
-- first zero byte.
use Prim.Native.Char.{code}
pub mod Laws
use realm_lua_bootcamp.Prelude.{
  ℕ, zero, ◌-◌, ◌≡◌, refl, ap, sym, ◌∙◌, ◌↔◌, Bool, true, false, ◌&&◌, List, [], ◌∷◌, String, arith,
  leb, ◌==◌, if◌then◌else◌, length, take, drop,
}

abbrev pub Bytes : Type 0
Bytes = List ℕ

-- The bytes of a literal of the source, all of them ASCII.
abbrev pub codes : String → Bytes
codes String.[] = []
codes (String.◌∷◌ c s) = code c ∷ codes s

-- `std::string::operator==`.
unfoldable pub text_eq : Bytes → Bytes → Bool
text_eq [] [] = true
text_eq [] (y ∷ ys) = false
text_eq (x ∷ xs) [] = false
text_eq (x ∷ xs) (y ∷ ys) = (x == y) && text_eq xs ys

pub text_eq→eq : (a b : Bytes) → text_eq a b ≡ true → a ≡ b
unfolding text_eq
text_eq→eq [] [] h = refl
text_eq→eq [] (y ∷ ys) h = ground arith
text_eq→eq (x ∷ xs) [] h = ground arith
text_eq→eq (x ∷ xs) (y ∷ ys) h = ground (arith, text_eq→eq xs ys)

pub text_eq_refl : (a : Bytes) → text_eq a a ≡ true
unfolding text_eq
text_eq_refl [] = refl
text_eq_refl (x ∷ xs) = ground (arith, text_eq_refl xs)

pub text_eq_iff : (a b : Bytes) → (text_eq a b ≡ true) ↔ (a ≡ b)
text_eq_iff a b = (text_eq→eq a b, λ e. ap (text_eq a) (sym e) ∙ text_eq_refl a)

-- The bytes that are read through a `const char*`.
unfoldable pub c_string : Bytes → Bytes
c_string [] = []
c_string (zero ∷ s) = []
c_string (c ∷ s) = c ∷ c_string s

-- `s.substr(pos, n)` at a position in the string; `std::string_view::compare` reads the same.
abbrev pub substr : Bytes → ℕ → ℕ → Bytes
substr s pos n = take n (drop pos s)

unfoldable pub ends_with : Bytes → Bytes → Bool
unfolding text_eq
ends_with full_string ending =
    if leb (length ending) (length full_string)
    then text_eq (substr full_string (length full_string - length ending) (length ending)) ending
    else false
