-- ===== src/Http/Request/Uses.antt =====
-- What one request has of libcurl while it is under way: its handle and its list, beside what there
-- was before.
use realm_lua_bootcamp.Prelude.{
  ℕ, zero, suc, ◌≡◌, ◌≢◌, refl, sym, ap, ◌∙◌, ◌⊎◌, inl, inr, List, [], ◌∷◌, ◌++◌, append_assoc,
  append-nil, Option, none, some, map,
}
use realm_lua_bootcamp.Text.{Bytes, c_string}
use realm_lua_bootcamp.Http.Headers.{Headers}
use realm_lua_bootcamp.Http.Request.{CurlOption, CurlApi, set_options, append_headers}
use realm_lua_bootcamp.Http.Request.Laws.{
  Resource, handle, slist, Content, settings, texts, CurlLaws,
}

-- The pointers are those of a handle and a list that are the request's own.
pub record Uses {W : Type 0} (held : W → Resource → Option Content) (w0 w : W) (h l : ℕ)
    (os : List CurlOption) (ts : List Bytes) : Type 0 where
  pub has_handle : held w (handle h) ≡ some (settings os)
  pub has_list : held w (slist l) ≡ some (texts ts)
  pub handle_new : held w0 (handle h) ≡ none
  pub list_new : (l ≡ 0) ⊎ (held w0 (slist l) ≡ none)
  pub others : (x : Resource) → x ≢ handle h → x ≢ slist l → held w x ≡ held w0 x

pub handle_not_slist : (h l : ℕ) → handle h ≢ slist l
handle_not_slist h l e = cc e

pub slist_not_handle : (h l : ℕ) → slist l ≢ handle h
slist_not_handle h l e = cc e

none_not_some : {A : Type 0} (a : A) (x : Option A) → x ≡ none → x ≢ some a
none_not_some a x p q = cc (p, q)

-- The strings that a list of headers is made of.
abbrev pub header_texts : (Bytes → Bytes → Bytes) → Headers → List Bytes
header_texts format hs = map (λ nv. c_string (format nv.0 nv.1)) hs

module _ {W : Type 0} ⦃curl : CurlApi W⦄ {held : W → Resource → Option Content}
    (laws : CurlLaws curl held) where
  pub easy_init-Uses :
      (w0 : W) (h : ℕ)
      → (curl.easy_init w0).0 ≡ suc h
      → Uses held w0 (curl.easy_init w0).1 (suc h) 0 [] []
  easy_init-Uses w0 h made = record {
    has_handle = laws.init_made w0 h made;
    has_list = laws.null (curl.easy_init w0).1;
    handle_new = laws.init_new w0 h made;
    list_new = inl refl;
    others = λ x other list. laws.init_other w0 x (λ e. other (e ∙ ap handle made));
  }

  pub same-Uses :
      {w0 w : W} {h l : ℕ} {os : List CurlOption} {ts : List Bytes} (w' : W)
      → ((x : Resource) → held w' x ≡ held w x)
      → Uses held w0 w h l os ts
      → Uses held w0 w' h l os ts
  same-Uses {h} {l} w' same u = record {
    has_handle = same (handle h) ∙ u.has_handle;
    has_list = same (slist l) ∙ u.has_list;
    handle_new = u.handle_new;
    list_new = u.list_new;
    others = λ x n m. same x ∙ u.others x n m;
  }

  easy_setopt-Uses :
      {w0 w : W} {h l : ℕ} {os : List CurlOption} {ts : List Bytes} (o : CurlOption)
      → Uses held w0 w h l os ts
      → Uses held w0 (curl.easy_setopt h o w) h l (os ++ o ∷ []) ts
  easy_setopt-Uses {w} {h} {l} {os} o u = record {
    has_handle = laws.setopt w h o os u.has_handle;
    has_list = laws.setopt_other w h o (slist l) (slist_not_handle h l) ∙ u.has_list;
    handle_new = u.handle_new;
    list_new = u.list_new;
    others = λ x n m. laws.setopt_other w h o x n ∙ u.others x n m;
  }

  pub set_options-Uses :
      {w0 : W} {h l : ℕ} {ts : List Bytes} (new os : List CurlOption) (w : W)
      → Uses held w0 w h l os ts
      → Uses held w0 (set_options h new w) h l (os ++ new) ts
  set_options-Uses [] os w u = rw (append-nil os) u
  set_options-Uses {h} (o ∷ new) os w u =
      rw (sym (append_assoc os (o ∷ []) new))
        (set_options-Uses new (os ++ o ∷ []) (curl.easy_setopt h o w) (easy_setopt-Uses o u))

  -- With the null pointer for a list, every other resource is as it was.
  as_before :
      {w0 w : W} {h : ℕ} {os : List CurlOption} {ts : List Bytes} (x : Resource)
      → Uses held w0 w h 0 os ts
      → x ≢ handle h
      → held w x ≡ held w0 x
  as_before (handle j) u n = u.others (handle j) n (handle_not_slist j 0)
  as_before {w0} {w} (slist zero) u n = laws.null w ∙ sym (laws.null w0)
  as_before (slist (suc j)) u n = u.others (slist (suc j)) n (λ e. cc e)

  slist_first-Uses :
      {w0 w : W} {h : ℕ} {os : List CurlOption} {ts : List Bytes} (t : Bytes)
      → Uses held w0 w h 0 os ts
      → Uses held w0 (curl.slist_append 0 t w).1 h (curl.slist_append 0 t w).0 os (ts ++ t ∷ [])
  slist_first-Uses {w0} {w} {h} {os} {ts} t u =
      let l = (curl.slist_append 0 t w).0 in
      let fresh = laws.append_first w t in
      let not_null : slist l ≢ slist 0 =
        λ e. none_not_some (texts []) (held w (slist l)) fresh (ap (held w) e ∙ laws.null w) in
      record {
        has_handle = laws.append_other w 0 t (handle h) (handle_not_slist h l) ∙ u.has_handle;
        has_list = laws.append w 0 t ts u.has_list;
        handle_new = u.handle_new;
        list_new = inr (sym (u.others (slist l) (slist_not_handle h l) not_null) ∙ fresh);
        others = λ x n m. laws.append_other w 0 t x m ∙ as_before x u n;
      }

  slist_append-Uses :
      {w0 w : W} {h : ℕ} (l : ℕ) {os : List CurlOption} {ts : List Bytes} (t : Bytes)
      → Uses held w0 w h l os ts
      → Uses held w0 (curl.slist_append l t w).1 h (curl.slist_append l t w).0 os (ts ++ t ∷ [])
  slist_append-Uses zero t u = slist_first-Uses t u
  slist_append-Uses {w0} {w} {h} (suc l) {os} {ts} t u =
      let same : (curl.slist_append (suc l) t w).0 ≡ suc l = laws.append_more w l t ts u.has_list in
      record {
        has_handle = laws.append_other w (suc l) t (handle h) (handle_not_slist h _) ∙ u.has_handle;
        has_list = laws.append w (suc l) t ts u.has_list;
        handle_new = u.handle_new;
        list_new = rw same u.list_new;
        others = λ x n m.
            laws.append_other w (suc l) t x m ∙ u.others x n (λ e. m (e ∙ ap slist (sym same)));
      }

  pub append_headers-Uses :
      {w0 : W} {h : ℕ} {os : List CurlOption} (ts : List Bytes) (hs : Headers) (l : ℕ) (w : W)
      → Uses held w0 w h l os ts
      → Uses held w0
          (append_headers hs l w).1
          h
          (append_headers hs l w).0
          os
          (ts ++ header_texts curl.format hs)
  unfolding append_headers
  append_headers-Uses ts [] l w u = rw (append-nil ts) u
  append_headers-Uses ts ((name, value) ∷ hs) l w u =
      let t = c_string (curl.format name value) in
      let appended = curl.slist_append l t w in
      rw (sym (append_assoc ts (t ∷ []) (header_texts curl.format hs)))
        (append_headers-Uses (ts ++ t ∷ []) hs appended.0 appended.1 (slist_append-Uses l t u))
