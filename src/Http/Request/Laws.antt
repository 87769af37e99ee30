-- ===== src/Http/Request/Laws.antt =====
-- What libcurl documents of its handles and lists, for a world with memory for them.
use realm_lua_bootcamp.Prelude.{ℕ, suc, ◌≡◌, ◌≢◌, List, [], ◌∷◌, ◌++◌, Option, none, some}
use realm_lua_bootcamp.Text.{Bytes}
use realm_lua_bootcamp.Http.Request.{CurlOption, CurlApi}

pub data Resource : Type 0 where
  handle slist : ℕ → Resource

-- The options that were set on a handle, in their order, and the strings of a list.
pub data Content : Type 0 where
  settings : List CurlOption → Content
  texts : List Bytes → Content

-- `held` is what there is of a resource; the null pointer is the empty list, and no handle.
pub record CurlLaws {W : Type 0} (api : CurlApi W) (held : W → Resource → Option Content)
    : Type 0 where
  pub null : (w : W) → held w (slist 0) ≡ some (texts [])
  pub init_none :
      (w : W) (x : Resource) → (api.easy_init w).0 ≡ 0 → held (api.easy_init w).1 x ≡ held w x
  pub init_new : (w : W) (h : ℕ) → (api.easy_init w).0 ≡ suc h → held w (handle (suc h)) ≡ none
  pub init_made :
      (w : W) (h : ℕ)
      → (api.easy_init w).0 ≡ suc h
      → held (api.easy_init w).1 (handle (suc h)) ≡ some (settings [])
  pub init_other :
      (w : W) (x : Resource)
      → x ≢ handle (api.easy_init w).0
      → held (api.easy_init w).1 x ≡ held w x
  pub setopt :
      (w : W) (h : ℕ) (o : CurlOption) (os : List CurlOption)
      → held w (handle h) ≡ some (settings os)
      → held (api.easy_setopt h o w) (handle h) ≡ some (settings (os ++ o ∷ []))
  pub setopt_other :
      (w : W) (h : ℕ) (o : CurlOption) (x : Resource)
      → x ≢ handle h
      → held (api.easy_setopt h o w) x ≡ held w x
  pub append :
      (w : W) (l : ℕ) (t : Bytes) (ts : List Bytes)
      → held w (slist l) ≡ some (texts ts)
      → held (api.slist_append l t w).1 (slist (api.slist_append l t w).0)
        ≡ some (texts (ts ++ t ∷ []))
  pub append_first : (w : W) (t : Bytes) → held w (slist (api.slist_append 0 t w).0) ≡ none
  pub append_more :
      (w : W) (l : ℕ) (t : Bytes) (ts : List Bytes)
      → held w (slist (suc l)) ≡ some (texts ts)
      → (api.slist_append (suc l) t w).0 ≡ suc l
  pub append_other :
      (w : W) (l : ℕ) (t : Bytes) (x : Resource)
      → x ≢ slist (api.slist_append l t w).0
      → held (api.slist_append l t w).1 x ≡ held w x
  pub perform : (w : W) (h : ℕ) (x : Resource) → held (api.easy_perform h w).1 x ≡ held w x
  pub print :
      (w : W) (url body : Bytes) (n : ℕ) (x : Resource)
      → held (api.print_failure url body n w) x ≡ held w x
  pub get_info : (w : W) (h : ℕ) (x : Resource) → held (api.get_response_code h w).1 x ≡ held w x
  pub cleanup :
      (w : W) (h : ℕ) (os : List CurlOption)
      → held w (handle h) ≡ some (settings os)
      → held (api.easy_cleanup h w) (handle h) ≡ none
  pub cleanup_other :
      (w : W) (h : ℕ) (x : Resource) → x ≢ handle h → held (api.easy_cleanup h w) x ≡ held w x
  pub free_all :
      (w : W) (l : ℕ) (ts : List Bytes)
      → held w (slist (suc l)) ≡ some (texts ts)
      → held (api.slist_free_all (suc l) w) (slist (suc l)) ≡ none
  pub free_other :
      (w : W) (l : ℕ) (x : Resource) → x ≢ slist l → held (api.slist_free_all l w) x ≡ held w x
