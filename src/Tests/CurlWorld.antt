-- ===== src/Tests/CurlWorld.antt =====
-- A libcurl whose every transfer fails after a header and a part of the body.
use realm_lua_bootcamp.Prelude.{
  ℕ, zero, suc, ◌≡◌, ◌≢◌, refl, ap, ◌∙◌, List, [], ◌∷◌, ◌++◌, Option, none, some, length, sym,
  arith,
}
use realm_lua_bootcamp.Text.{Bytes, codes}
use realm_lua_bootcamp.Http.Request.{
  CurlOption, CurlApi, Response, Transfer, header_line, body_part,
}
use realm_lua_bootcamp.Http.Request.Laws.{
  Resource, handle, slist, Content, settings, texts, CurlLaws,
}

abbrev Cells : Type 0
Cells = List (Option Content)

abbrev at : Cells → ℕ → Option Content
at [] n = none
at (c ∷ cs) zero = c
at (c ∷ cs) (suc n) = at cs n

abbrev update : (Option Content → Option Content) → Cells → ℕ → Cells
update f [] n = []
update f (c ∷ cs) zero = f c ∷ cs
update f (c ∷ cs) (suc n) = c ∷ update f cs n

at-update :
    (f : Option Content → Option Content) (cs : Cells) (n : ℕ)
    → f none ≡ none
    → at (update f cs n) n ≡ f (at cs n)
at-update f [] n h = rw h refl
at-update f (c ∷ cs) zero h = refl
at-update f (c ∷ cs) (suc n) h = at-update f cs n h

at-update_other :
    (f : Option Content → Option Content) (cs : Cells) (n j : ℕ)
    → j ≢ n
    → at (update f cs n) j ≡ at cs j
at-update_other f [] n j h = refl
at-update_other f (c ∷ cs) zero zero h = absurd (h refl)
at-update_other f (c ∷ cs) zero (suc j) h = refl
at-update_other f (c ∷ cs) (suc n) zero h = refl
at-update_other f (c ∷ cs) (suc n) (suc j) h = at-update_other f cs n j (λ e. h (ap suc e))

at-length : (cs : Cells) → at cs (length cs) ≡ none
at-length [] = refl
at-length (c ∷ cs) = at-length cs

at-grown : (cs : Cells) (c : Option Content) → at (cs ++ c ∷ []) (length cs) ≡ c
at-grown [] c = refl
at-grown (d ∷ cs) c = at-grown cs c

at-grown_other :
    (cs : Cells) (c : Option Content) (j : ℕ) → j ≢ length cs → at (cs ++ c ∷ []) j ≡ at cs j
at-grown_other [] c zero h = absurd (h refl)
at-grown_other [] c (suc j) h = refl
at-grown_other (d ∷ cs) c zero h = refl
at-grown_other (d ∷ cs) c (suc j) h = at-grown_other cs c j (λ e. h (ap suc e))

-- What was made, and the responses that were handed on, the newest first.
pub record CurlWorld : Type 0 where
  pub handles : Cells
  pub lists : Cells
  pub answers : List Response

abbrev pub held : CurlWorld → Resource → Option Content
held w (handle zero) = none
held w (handle (suc h)) = at w.handles h
held w (slist zero) = some (texts [])
held w (slist (suc l)) = at w.lists l

pub same_held :
    (w : CurlWorld) (rs : List Response) (x : Resource)
    → held (record w { answers = rs }) x ≡ held w x
same_held w rs (handle zero) = refl
same_held w rs (handle (suc h)) = refl
same_held w rs (slist zero) = refl
same_held w rs (slist (suc l)) = refl

abbrev add_option : CurlOption → Option Content → Option Content
add_option o (some (settings os)) = some (settings (os ++ o ∷ []))
add_option o (some (texts ts)) = some (texts ts)
add_option o none = none

abbrev add_text : Bytes → Option Content → Option Content
add_text t (some (settings os)) = some (settings os)
add_text t (some (texts ts)) = some (texts (ts ++ t ∷ []))
add_text t none = none

abbrev dropped : Option Content → Option Content
dropped c = none

abbrev set_option : ℕ → CurlOption → CurlWorld → CurlWorld
set_option zero o w = w
set_option (suc h) o w = record w { handles = update (add_option o) w.handles h }

abbrev append_text : ℕ → Bytes → CurlWorld → ℕ × CurlWorld
append_text zero t w =
    (suc (length w.lists), record w { lists = w.lists ++ some (texts (t ∷ [])) ∷ [] })
append_text (suc l) t w = (suc l, record w { lists = update (add_text t) w.lists l })

abbrev close : ℕ → CurlWorld → CurlWorld
close zero w = w
close (suc h) w = record w { handles = update dropped w.handles h }

abbrev free : ℕ → CurlWorld → CurlWorld
free zero w = w
free (suc l) w = record w { lists = update dropped w.lists l }

abbrev pub timed_out : Transfer
timed_out = record {
  status = 28;
  deliveries =
      header_line (record { bytes = codes "Age: 7"; size = 1; nmemb = 6 })
      ∷ body_part (record { bytes = codes "ab"; size = 1; nmemb = 2 })
      ∷ [];
}

instance abbrev pub slow_curl : CurlApi CurlWorld
slow_curl = record {
  format = λ n v. n ++ codes ": " ++ v;
  easy_init =
      λ w. (suc (length w.handles), record w { handles = w.handles ++ some (settings []) ∷ [] });
  easy_setopt = set_option;
  slist_append = append_text;
  easy_perform = λ h w. (timed_out, w);
  print_failure = λ url body n w. w;
  get_response_code = λ h w. (some 200, w);
  easy_cleanup = close;
  slist_free_all = free;
}

new_lem : (w : CurlWorld) (h : ℕ) → length w.handles ≡ h → held w (handle (suc h)) ≡ none
new_lem w h e = rw (sym e) (at-length w.handles)

made_lem :
    (w : CurlWorld) (h : ℕ)
    → length w.handles ≡ h
    → held (slow_curl.easy_init w).1 (handle (suc h)) ≡ some (settings [])
made_lem w h e = rw (sym e) (at-grown w.handles (some (settings [])))

init_other_lem :
    (w : CurlWorld) (x : Resource)
    → x ≢ handle (suc (length w.handles))
    → held (slow_curl.easy_init w).1 x ≡ held w x
init_other_lem w (handle zero) h = refl
init_other_lem w (handle (suc j)) h =
    at-grown_other w.handles (some (settings [])) j (λ e. h (ap (λ n. handle (suc n)) e))
init_other_lem w (slist zero) h = refl
init_other_lem w (slist (suc l)) h = refl

handles_other :
    (f : Option Content → Option Content) (w : CurlWorld) (h : ℕ) (x : Resource)
    → x ≢ handle (suc h)
    → held (record w { handles = update f w.handles h }) x ≡ held w x
handles_other f w h (handle zero) n = refl
handles_other f w h (handle (suc j)) n =
    at-update_other f w.handles h j (λ e. n (ap (λ m. handle (suc m)) e))
handles_other f w h (slist zero) n = refl
handles_other f w h (slist (suc l)) n = refl

lists_other :
    (f : Option Content → Option Content) (w : CurlWorld) (l : ℕ) (x : Resource)
    → x ≢ slist (suc l)
    → held (record w { lists = update f w.lists l }) x ≡ held w x
lists_other f w l (handle zero) n = refl
lists_other f w l (handle (suc j)) n = refl
lists_other f w l (slist zero) n = refl
lists_other f w l (slist (suc j)) n =
    at-update_other f w.lists l j (λ e. n (ap (λ m. slist (suc m)) e))

setopt_lem :
    (w : CurlWorld) (h : ℕ) (o : CurlOption) (os : List CurlOption)
    → held w (handle h) ≡ some (settings os)
    → held (set_option h o w) (handle h) ≡ some (settings (os ++ o ∷ []))
setopt_lem w zero o os e = absurd (cc e)
setopt_lem w (suc h) o os e = at-update (add_option o) w.handles h refl ∙ ap (add_option o) e

setopt_other_lem :
    (w : CurlWorld) (h : ℕ) (o : CurlOption) (x : Resource)
    → x ≢ handle h
    → held (set_option h o w) x ≡ held w x
setopt_other_lem w zero o x n = refl
setopt_other_lem w (suc h) o x n = handles_other (add_option o) w h x n

append_lem :
    (w : CurlWorld) (l : ℕ) (t : Bytes) (ts : List Bytes)
    → held w (slist l) ≡ some (texts ts)
    → held (append_text l t w).1 (slist (append_text l t w).0) ≡ some (texts (ts ++ t ∷ []))
append_lem w zero t ts e = at-grown w.lists (some (texts (t ∷ []))) ∙ ap (add_text t) e
append_lem w (suc l) t ts e = at-update (add_text t) w.lists l refl ∙ ap (add_text t) e

append_other_lem :
    (w : CurlWorld) (l : ℕ) (t : Bytes) (x : Resource)
    → x ≢ slist (append_text l t w).0
    → held (append_text l t w).1 x ≡ held w x
append_other_lem w (suc l) t x n = lists_other (add_text t) w l x n
append_other_lem w zero t (handle zero) n = refl
append_other_lem w zero t (handle (suc h)) n = refl
append_other_lem w zero t (slist zero) n = refl
append_other_lem w zero t (slist (suc j)) n =
    at-grown_other w.lists (some (texts (t ∷ []))) j (λ e. n (ap (λ m. slist (suc m)) e))

cleanup_lem :
    (w : CurlWorld) (h : ℕ) (os : List CurlOption)
    → held w (handle h) ≡ some (settings os)
    → held (close h w) (handle h) ≡ none
cleanup_lem w zero os e = refl
cleanup_lem w (suc h) os e = at-update dropped w.handles h refl

cleanup_other_lem :
    (w : CurlWorld) (h : ℕ) (x : Resource) → x ≢ handle h → held (close h w) x ≡ held w x
cleanup_other_lem w zero x n = refl
cleanup_other_lem w (suc h) x n = handles_other dropped w h x n

free_other_lem : (w : CurlWorld) (l : ℕ) (x : Resource) → x ≢ slist l → held (free l w) x ≡ held w x
free_other_lem w zero x n = refl
free_other_lem w (suc l) x n = lists_other dropped w l x n

pub slow_laws : CurlLaws slow_curl held
slow_laws = record {
  null = λ w. refl;
  init_none = λ w x e. absurd (ground (arith, e));
  init_new = λ w h e. new_lem w h (cc e);
  init_made = λ w h e. made_lem w h (cc e);
  init_other = init_other_lem;
  setopt = setopt_lem;
  setopt_other = setopt_other_lem;
  append = append_lem;
  append_first = λ w t. at-length w.lists;
  append_more = λ w l t ts e. refl;
  append_other = append_other_lem;
  perform = λ w h x. refl;
  print = λ w url body n x. refl;
  get_info = λ w h x. refl;
  cleanup = cleanup_lem;
  cleanup_other = cleanup_other_lem;
  free_all = λ w l ts e. at-update dropped w.lists l refl;
  free_other = free_other_lem;
}
