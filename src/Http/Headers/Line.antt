-- ===== src/Http/Headers/Line.antt =====
-- A header line of a response, and the map of headers.
use realm_lua_bootcamp.Prelude.{
  ℕ, zero, suc, ◌+◌, ◌*◌, ◌%◌, ◌^◌, ◌≤◌, ◌<◌, ◌≡◌, ◌≢◌, refl, ap, Bool, true, false, ◌&&◌, List, [],
  ◌∷◌, ◌++◌, append_assoc, append-nil, Option, none, some, length, arith, ltb, lt→ltb, ◌==◌,
  if◌then◌else◌, length-append, take-append, take_long, drop_past,
}
use realm_lua_bootcamp.Text.{Bytes, text_eq, text_eq_iff}
use realm_lua_bootcamp.Text.Laws.{last_byte, last_byte-append, substr-append}
use realm_lua_bootcamp.Http.Headers.{
  Headers, lookup, insert, find, skip_spaces, is_line_end, drop_line_end, header_value, add_header,
  curl_header_cb, curl_write_cb,
}

abbrev pub Avoids : ℕ → Bytes → Type 0
Avoids c [] = Unit {0}
Avoids c (d ∷ s) = (d ≢ c) × Avoids c s

find_first : (c : ℕ) (s rest : Bytes) → Avoids c s → find c (s ++ c ∷ rest) ≡ some (length s)
unfolding find
find_first c [] rest h = ground arith
find_first c (d ∷ s) rest h = ground (arith, find_first c s rest h.1)

abbrev pub spaces : ℕ → Bytes → Bytes
spaces zero s = s
spaces (suc n) s = 32 ∷ spaces n s

-- What no space is dropped from.
abbrev pub IsTrimmed : Bytes → Type 0
IsTrimmed [] = Unit {0}
IsTrimmed (c ∷ s) = c ≢ 32

skip_spaces-spaces : (n : ℕ) (s : Bytes) → IsTrimmed s → skip_spaces (spaces n s) ≡ s
unfolding skip_spaces
skip_spaces-spaces zero [] h = refl
skip_spaces-spaces zero (c ∷ s) h = ground arith
skip_spaces-spaces (suc n) s h = skip_spaces-spaces n s h

-- CR and LF, any number of them.
pub data IsLineEnd : Bytes → Type 0 where
  done : IsLineEnd []
  more :
      (e : Bytes) (c : ℕ) {t : Bytes}
      → IsLineEnd e
      → is_line_end c ≡ true
      → t ≡ e ++ c ∷ []
      → IsLineEnd t

pub drop_line_end-keeps :
    (fuel : ℕ) (v : Bytes) → is_line_end (last_byte v) ≡ false → drop_line_end fuel v ≡ v
unfolding drop_line_end
drop_line_end-keeps zero v h = refl
drop_line_end-keeps (suc fuel) v h = ground arith

drop_line_end-step :
    (fuel : ℕ) (s : Bytes) (c : ℕ)
    → is_line_end c ≡ true
    → drop_line_end (suc fuel) (s ++ c ∷ []) ≡ drop_line_end fuel s
unfolding drop_line_end
drop_line_end-step fuel s c h =
    let filled : ltb 0 (length (s ++ c ∷ [])) ≡ true =
      lt→ltb _ _ (omega (arith, length-append s (c ∷ []))) in
    rw (filled, last_byte-append s c [], h, substr-append s (c ∷ []) 1 refl)

pub drop_line_end-append :
    (fuel : ℕ) (v e : Bytes)
    → IsLineEnd e
    → is_line_end (last_byte v) ≡ false
    → length e ≤ fuel
    → drop_line_end fuel (v ++ e) ≡ v
drop_line_end-append fuel v _ done h bound = rw (append-nil v) (drop_line_end-keeps fuel v h)
drop_line_end-append zero v t (more e c inner at split) h bound =
    absurd (omega (arith, ap length split, length-append e (c ∷ [])))
drop_line_end-append (suc fuel) v t (more e c inner at split) h bound =
    rw (split, ← append_assoc v e (c ∷ []), drop_line_end-step fuel (v ++ e) c at)
      (drop_line_end-append fuel v e inner h
        (omega (arith, ap length split, length-append e (c ∷ []))))

pub length-spaces : (n : ℕ) (s : Bytes) → length (spaces n s) ≡ n + length s
length-spaces zero s = omega arith
length-spaces (suc n) s = omega (arith, length-spaces n s)

IsTrimmed-append : (v e : Bytes) → IsTrimmed v → IsTrimmed e → IsTrimmed (v ++ e)
IsTrimmed-append [] e hv he = he
IsTrimmed-append (c ∷ v) e hv he = hv

IsLineEnd-IsTrimmed : {e : Bytes} → IsLineEnd e → IsTrimmed e
IsLineEnd-IsTrimmed done = tt
IsLineEnd-IsTrimmed (more e c inner at split) =
    rw split (IsTrimmed-append e (c ∷ []) (IsLineEnd-IsTrimmed inner) (ground (arith, at)))

-- The value of a header without the spaces before it and the line's end.
header_value-line :
    (n : ℕ) (v e : Bytes)
    → IsTrimmed v
    → is_line_end (last_byte v) ≡ false
    → IsLineEnd e
    → header_value (spaces n (v ++ e)) ≡ v
unfolding header_value
header_value-line n v e trimmed h ended =
    rw (skip_spaces-spaces n (v ++ e) (IsTrimmed-append v e trimmed (IsLineEnd-IsTrimmed ended))) (
      drop_line_end-append _ v e ended h
        (omega (arith, length-spaces n (v ++ e), length-append v e)))

abbrev pub or_else : Option Bytes → Bytes → Bytes
or_else none v = v
or_else (some w) v = w

-- The first of two headers with one name stays.
lookup-insert :
    (k j v : Bytes) (hs : Headers)
    → lookup j (insert k v hs)
      ≡ (if text_eq k j then some (or_else (lookup k hs) v) else lookup j hs)
unfolding lookup insert
lookup-insert k j v [] = refl
lookup-insert k j v ((i, w) ∷ hs) =
    ground (arith, text_eq_iff i k, text_eq_iff i j, text_eq_iff k j, lookup-insert k j v hs)

-- A line "name:", any number of spaces, a value, and any CRs and LFs.
abbrev pub header_line : Bytes → ℕ → Bytes → Bytes → Bytes
header_line name n value e = name ++ b':' ∷ spaces n (value ++ e)

-- A header line is taken whole, and its value is found under its name, without the spaces before it
-- and the line's end, unless a header of that name came earlier, which then stays; the headers of
-- other names stay. The name has no colon, the value does not begin with a space or end in CR or
-- LF, and the line is shorter than 2^64 bytes.
pub curl_header_cb-line :
    (name value e : Bytes) (n size nitems : ℕ) (hs : Headers) (j : Bytes)
    → Avoids b':' name
    → IsTrimmed value
    → is_line_end (last_byte value) ≡ false
    → IsLineEnd e
    → size * nitems ≡ length (header_line name n value e)
    → size * nitems < 2 ^ 64
    → let (taken, after) = curl_header_cb (header_line name n value e) size nitems hs in
      (taken ≡ length (header_line name n value e))
      × (lookup j after
          ≡ (if text_eq name j then some (or_else (lookup name hs) value) else lookup j hs))
unfolding curl_header_cb add_header
curl_header_cb-line name value e n size nitems hs j colon trimmed last ended whole bound =
    let line = header_line name n value e in
    let exact : size * nitems % 2 ^ 64 ≡ length line = omega arith in
    let exact' : nitems * size % 2 ^ 64 ≡ length line = omega arith in
    let past : length name + 1 ≡ suc (length name) = omega arith in
    rw
      (
        exact,
        exact',
        take_long (length line) line (omega arith),
        find_first b':' name (spaces n (value ++ e)) colon,
        take-append name _,
        past,
        drop_past name _ _,
        header_value-line n value e trimmed last ended,
      )
      (refl, lookup-insert name j value hs)

-- A block that libcurl delivers.
pub record Chunk : Type 0 where
  pub bytes : Bytes
  pub size : ℕ
  pub nmemb : ℕ

abbrev pub IsChunk : Chunk → Type 0
IsChunk c = (c.size * c.nmemb ≡ length c.bytes) × (c.size * c.nmemb < 2 ^ 64)

abbrev pub AllChunks : List Chunk → Type 0
AllChunks [] = Unit {0}
AllChunks (c ∷ cs) = IsChunk c × AllChunks cs

-- The body after the chunks, and whether each of them was taken whole: libcurl ends the transfer
-- at one that was not.
abbrev pub deliver : List Chunk → Bytes → Bool × Bytes
deliver [] response = (true, response)
deliver (c ∷ cs) response =
    let (taken, response') = curl_write_cb c.bytes c.size c.nmemb response in
    let rest = deliver cs response' in ((taken == length c.bytes) && rest.0, rest.1)

abbrev pub joined : List Chunk → Bytes
joined [] = []
joined (c ∷ cs) = c.bytes ++ joined cs

-- The body of a response is what libcurl delivered, in its order, however it is cut into chunks,
-- and every chunk is taken whole. A chunk has `size * nmemb` bytes, fewer than 2^64.
pub deliver-joined :
    (cs : List Chunk) (response : Bytes)
    → AllChunks cs
    → deliver cs response ≡ (true, response ++ joined cs)
unfolding curl_write_cb
deliver-joined [] response h = rw (append-nil response)
deliver-joined (c ∷ cs) response h =
    let exact : c.size * c.nmemb % 2 ^ 64 ≡ length c.bytes = omega (arith, h.0) in
    rw
      (
        exact,
        take_long (length c.bytes) c.bytes (omega arith),
        deliver-joined cs (response ++ c.bytes) h.1,
        append_assoc response c.bytes (joined cs),
      )
      (ground arith)
