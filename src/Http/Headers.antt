-- ===== src/Http/Headers.antt =====
-- `curl_header_cb` and `curl_write_cb`: what a response is put together from.
pub mod Line
pub mod Trim
use realm_lua_bootcamp.Prelude.{
  ℕ, zero, suc, ◌+◌, ◌-◌, ◌*◌, ◌%◌, ◌^◌, Bool, ◌&&◌, ◌||◌, List, [], ◌∷◌, ◌++◌, Option, none, some,
  length, take, drop, ltb, ◌==◌, if◌then◌else◌,
}
use realm_lua_bootcamp.Text.{Bytes, text_eq, substr}
use realm_lua_bootcamp.Text.Laws.{last_byte}

-- `std::map<std::string, std::string>`, by its entries.
abbrev pub Headers : Type 0
Headers = List (Bytes × Bytes)

unfoldable pub lookup : Bytes → Headers → Option Bytes
lookup k [] = none
lookup k ((j, v) ∷ hs) = if text_eq j k then some v else lookup k hs

-- `insert` leaves an entry that is there.
unfoldable pub insert : Bytes → Bytes → Headers → Headers
insert k v [] = (k, v) ∷ []
insert k v ((j, w) ∷ hs) = if text_eq j k then (j, w) ∷ hs else (j, w) ∷ insert k v hs

abbrev pub further : Option ℕ → Option ℕ
further none = none
further (some i) = some (suc i)

-- `combined.find(c)`
unfoldable pub find : ℕ → Bytes → Option ℕ
find c [] = none
find c (d ∷ s) = if d == c then some 0 else further (find c s)

-- The loop that drops leading spaces.
unfoldable pub skip_spaces : Bytes → Bytes
skip_spaces [] = []
skip_spaces (c ∷ s) = if c == b' ' then skip_spaces s else c ∷ s

abbrev pub is_line_end : ℕ → Bool
is_line_end c = (c == 13) || (c == 10)

-- The loop that drops CR and LF at the end, in at most as many rounds as there are bytes.
unfoldable pub drop_line_end : ℕ → Bytes → Bytes
drop_line_end zero s = s
drop_line_end (suc fuel) s =
    let rest = drop_line_end fuel (substr s 0 (length s - 1)) in
    if ltb 0 (length s) && is_line_end (last_byte s) then rest else s

unfoldable pub header_value : Bytes → Bytes
header_value s = drop_line_end (length s) (skip_spaces s)

-- A line with no colon is left out; that it is reported on the error stream is not modelled.
unfoldable pub add_header : Bytes → Option ℕ → Headers → Headers
add_header combined none hs = hs
add_header combined (some pos) hs =
    insert (substr combined 0 pos) (header_value (drop (pos + 1) combined)) hs

-- The number of bytes that were taken, as a `size_t`, and the headers.
unfoldable pub curl_header_cb : Bytes → ℕ → ℕ → Headers → ℕ × Headers
curl_header_cb buffer size nitems response_headers =
    let combined = take (size * nitems % 2 ^ 64) buffer in
    (nitems * size % 2 ^ 64, add_header combined (find b':' combined) response_headers)

unfoldable pub curl_write_cb : Bytes → ℕ → ℕ → Bytes → ℕ × Bytes
curl_write_cb ptr size nmemb response =
    let realsize = size * nmemb % 2 ^ 64 in (realsize, response ++ take realsize ptr)
