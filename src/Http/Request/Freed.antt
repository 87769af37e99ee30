-- ===== src/Http/Request/Freed.antt =====
-- A request gives back what it took from libcurl, whatever became of it.
use realm_lua_bootcamp.Prelude.{
  ℕ, zero, suc, ◌≡◌, ◌≢◌, refl, sym, ap, ◌∙◌, ◌⊎◌, inl, inr, List, [], ◌++◌, Option, false,
  ℕ_discrete, Bool-cases, arith, ◌==◌,
}
use realm_lua_bootcamp.Text.{Bytes, c_string}
use realm_lua_bootcamp.Http.Guard.{Guards, construct, destroy}
use realm_lua_bootcamp.Http.Request.{
  Request, Response, CurlOption, CurlApi, Transport, Transfer, set_options, append_headers, prepare,
  request_options, transfer_options, reported, perform_request, cleaned_up, unguarded, no_response,
  send_request_to_server,
}
use realm_lua_bootcamp.Http.Request.Laws.{Resource, handle, slist, Content, CurlLaws}
use realm_lua_bootcamp.Http.Request.Uses.{
  Uses, header_texts, easy_init-Uses, same-Uses, set_options-Uses, append_headers-Uses,
  handle_not_slist, slist_not_handle,
}

module _ {W : Type 0} ⦃curl : CurlApi W⦄ {held : W → Resource → Option Content}
    (laws : CurlLaws curl held) where
  pub prepare-Uses :
      (w0 w : W) (h : ℕ) (request : Request)
      → Uses held w0 w h 0 [] []
      → let t = prepare h request w in
        Uses held w0 t.1 h t.0
          (request_options request ++ transfer_options t.0)
          (header_texts curl.format request.headers)
  unfolding prepare
  prepare-Uses w0 w h request u =
      let before = set_options-Uses laws (request_options request) [] w u in
      let w1 = set_options h (request_options request) w in
      let t = append_headers request.headers 0 w1 in
      set_options-Uses laws (transfer_options t.0) (request_options request) t.1
        (append_headers-Uses laws [] request.headers 0 w1 before)

  reported_same :
      (w w' : W) (t : Transfer) (request : Request) (x : Resource)
      → held w' x ≡ held w x
      → held (reported request (t, w')) x ≡ held w x
  unfolding reported c_string
  reported_same w w' t request x same = elim (Bool-cases (t.status == 0)) [
    | inl fine ↦ rw fine same
    | inr failed ↦
        rw failed (laws.print w' (c_string request.url) (c_string request.body) t.status x ∙ same)
  ]

  pub perform_request_same :
      (w : W) (h : ℕ) (request : Request) (x : Resource)
      → held (perform_request h request w).1 x ≡ held w x
  unfolding perform_request
  perform_request_same w h request x =
      let t = curl.easy_perform h w in
      laws.get_info (reported request t) h x
      ∙ reported_same w t.1 t.0 request x (laws.perform w h x)

  handle_freed :
      {w0 w : W} {h : ℕ} (l : ℕ) {os : List CurlOption} {ts : List Bytes}
      → Uses held w0 w h l os ts
      → held (curl.slist_free_all l (curl.easy_cleanup h w)) (handle h) ≡ held w0 (handle h)
  handle_freed {w} {h} l {os} u =
      laws.free_other (curl.easy_cleanup h w) l (handle h) (handle_not_slist h l)
      ∙ laws.cleanup w h os u.has_handle
      ∙ sym u.handle_new

  list_freed :
      {w0 w : W} {h : ℕ} (l : ℕ) {os : List CurlOption} {ts : List Bytes}
      → Uses held w0 w h l os ts
      → held (curl.slist_free_all l (curl.easy_cleanup h w)) (slist l) ≡ held w0 (slist l)
  list_freed {w0} {w} {h} zero u =
      laws.null (curl.slist_free_all 0 (curl.easy_cleanup h w)) ∙ sym (laws.null w0)
  list_freed {w0} {w} {h} (suc l) {ts} u =
      laws.free_all (curl.easy_cleanup h w) l ts
        (laws.cleanup_other w h (slist (suc l)) (slist_not_handle h (suc l)) ∙ u.has_list)
      ∙ elim u.list_new [ inl null ↦ absurd (ground (arith, null)) | inr new ↦ sym new ]

  other_kept :
      {w0 w : W} {h l : ℕ} {os : List CurlOption} {ts : List Bytes} (x : Resource)
      → Uses held w0 w h l os ts
      → x ≢ handle h
      → x ≢ slist l
      → held (curl.slist_free_all l (curl.easy_cleanup h w)) x ≡ held w0 x
  other_kept {w} {h} {l} x u n m =
      laws.free_other (curl.easy_cleanup h w) l x m ∙ laws.cleanup_other w h x n ∙ u.others x n m

  cleaned_up-kept :
      {w0 w : W} {h l : ℕ} {os : List CurlOption} {ts : List Bytes} (x : Resource)
      → Uses held w0 w h l os ts
      → held (curl.slist_free_all l (curl.easy_cleanup h w)) x ≡ held w0 x
  cleaned_up-kept {h} {l} (handle j) u = elim (ℕ_discrete j h) [
    | yes same ↦ rw same (handle_freed l u)
    | no differ ↦ other_kept (handle j) u (λ e. differ (cc e)) (handle_not_slist j l)
  ]
  cleaned_up-kept {h} {l} (slist j) u = elim (ℕ_discrete j l) [
    | yes same ↦ rw same (list_freed l u)
    | no differ ↦ other_kept (slist j) u (slist_not_handle h j) (λ e. differ (cc e))
  ]

users_kept : (g : Guards) → (destroy (construct g)).m_users ≡ g.m_users
unfolding construct destroy
users_kept g = ground arith

pub zero_or_suc : (n : ℕ) → (n ≡ 0) ⊎ ((m : ℕ) × (n ≡ suc m))
zero_or_suc zero = inl refl
zero_or_suc (suc m) = inr (m, refl)

not_null : (h : ℕ) → (suc h == 0) ≡ false
not_null h = ground arith

module _ {W : Type 0} ⦃curl : CurlApi W⦄ (request : Request)
    (completion_block : Response → Transport W → Transport W) (t : Transport W) where
  pub send_request-no_handle :
      (curl.easy_init t.world).0 ≡ 0
      → send_request_to_server request completion_block t
        ≡ unguarded (
            completion_block no_response
              (record { guards = construct t.guards; world = (curl.easy_init t.world).1 }))
  unfolding send_request_to_server
  send_request-no_handle none_made = rw none_made refl

  -- With the handle `h`: the world before the transfer, its pointer to the list, and what comes of it.
  abbrev pub prepared : ℕ → ℕ × W
  prepared h = prepare h request (curl.easy_init t.world).1

  abbrev pub answered : ℕ → Response × W
  answered h = perform_request h request (prepared h).1

  abbrev pub completed : ℕ → Transport W
  completed h =
      completion_block (answered h).0
        (record { guards = construct t.guards; world = (answered h).1 })

  pub send_request-handle :
      (h : ℕ)
      → (curl.easy_init t.world).0 ≡ suc h
      → send_request_to_server request completion_block t
        ≡ unguarded (cleaned_up (suc h) (prepared (suc h)).0 (completed (suc h)))
  unfolding send_request_to_server cleaned_up
  send_request-handle h made = rw (made, not_null h) refl

module _ {W : Type 0} ⦃curl : CurlApi W⦄ {held : W → Resource → Option Content}
    (laws : CurlLaws curl held) where
  -- Whatever the request and whatever libcurl answers, a handle or none, a transfer that fails or one
  -- that does not, every handle and every list is after the request what it was before it: what the
  -- request took is freed, and nothing else is. The number of guards is the same too. `laws` is
  -- documented of libcurl, whose memory suffices, and the completion block leaves libcurl's resources
  -- and the guards as they are.
  pub send_request-frees :
      (request : Request) (completion_block : Response → Transport W → Transport W)
      (t : Transport W) (x : Resource)
      → ((r : Response) (u : Transport W) (y : Resource)
          → held (completion_block r u).world y ≡ held u.world y)
      → ((r : Response) (u : Transport W) → (completion_block r u).guards ≡ u.guards)
      → let after = send_request_to_server request completion_block t in
        (held after.world x ≡ held t.world x) × (after.guards.m_users ≡ t.guards.m_users)
  unfolding cleaned_up
  send_request-frees request completion_block t x keeps keeps_guards =
      elim (zero_or_suc (curl.easy_init t.world).0) [
        | inl none_made ↦ rw (send_request-no_handle request completion_block t none_made) (
          keeps _ _ x ∙ laws.init_none t.world x none_made,
          ap (λ g. (destroy g).m_users) (keeps_guards _ _) ∙ users_kept t.guards,
        )
        | inr (h, made) ↦
            let p = prepared request completion_block t (suc h) in
            let u =
              prepare-Uses laws t.world (curl.easy_init t.world).1 (suc h) request
                (easy_init-Uses laws t.world h made) in
            let v =
              same-Uses laws (completed request completion_block t (suc h)).world
                (λ y. keeps _ _ y ∙ perform_request_same laws p.1 (suc h) request y) u in
            rw (send_request-handle request completion_block t h made) (
              cleaned_up-kept laws x v,
              ap (λ g. (destroy g).m_users) (keeps_guards _ _) ∙ users_kept t.guards,
            )
      ]
