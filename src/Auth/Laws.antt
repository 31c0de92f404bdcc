-- ===== src/Auth/Laws.antt =====
-- What a login, a validation, the middleware and the deletion of a user do to the sessions.
use photo_core.Base.{
  ◌≤◌, String, true, false, Option, some, none, ◌≡◌, refl, ◌⊎◌, inl, inr, ◌==◌, eq_refl, arith,
  if◌then◌else◌, Result, ok, err, ◌∙◌, Result-cases, Bool-cases, Option-cases, loaded-cases,
}
use text.Mathlib.Text.{starts_with}
use photo_core.Disk.Table.{write}
use photo_core.Storage.Models.{User, Session, ApiToken, Time}
use photo_core.Storage.Db.{Env, Store, update}
use photo_core.Storage.Db.Laws.{load-write}
use photo_core.Storage.Accounts.{
  get_user, save_user, delete_user, get_session, save_session, get_api_token,
}
use photo_core.Auth.{
  Bcrypt, AuthConfig, Request, add_seconds, next, open_session, login, validate_session,
  validate_api_token, serve_token, serve_session, token_session, bearer_of, middleware,
}

module _ (E : Env) where
  save_session-write :
      (x : Session) (s : Store E)
      → (save_session E x s).0 ≡ ok tt
      → write E.disk E.sessions_json s.sessions x.id x ≡ ok (save_session E x s).1.sessions
  unfolding save_session update
  save_session-write x s h = ground arith

  get_session-save_session :
      (x : Session) (s : Store E) (j : String)
      → (save_session E x s).0 ≡ ok tt
      → get_session E (save_session E x s).1 j
        ≡ (if x.id == j then ok (some x) else get_session E s j)
  unfolding get_session
  get_session-save_session x s j h =
      load-write E.disk E.sessions_json (λ x. x.id) s.sessions _ j x (save_session-write x s h)

  sessions-save_user : (u : User) (s : Store E) → (save_user E u s).1.sessions ≡ s.sessions
  unfolding save_user update
  sessions-save_user u s = ground arith

  -- A session that ValidateSession returns is stored under that id and has not expired.
  pub validate_session-valid :
      (now : Time) (id : String) (s : Store E) (x : Session)
      → (validate_session E now id s).0 ≡ ok (some x)
      → (get_session E s id ≡ ok (some x)) × (now ≤ x.expires_at)
  unfolding validate_session
  validate_session-valid now id s x h = (ground arith, ground arith)

  validate_api_token-valid :
      (now : Time) (token : String) (s : Store E) (x : ApiToken)
      → (validate_api_token E now token s).0 ≡ ok (some x)
      → (get_api_token E s token ≡ ok (some x)) × (now ≤ x.expires_at)
  unfolding validate_api_token
  validate_api_token-valid now token s x h = (ground arith, ground arith)

  -- DeleteUser leaves every session and every API token of the user as it was, so they stay valid.
  pub validate_session-delete_user :
      (now : Time) (username id token : String) (s : Store E)
      → ((validate_session E now id (delete_user E username s).1).0
          ≡ (validate_session E now id s).0)
        × ((validate_api_token E now token (delete_user E username s).1).0
            ≡ (validate_api_token E now token s).0)
  unfolding validate_session validate_api_token get_session get_api_token delete_user update
  validate_session-delete_user now username id token s = (ground arith, ground arith)

  -- What opens the door to the next handler.
  pub record IsKnown (now : Time) (r : Request) (s : Store E) (x : Session) : Type 0 where
    pub proof :
        ((t : ApiToken) × (starts_with r.authorization "Bearer " ≡ true)
          × (get_api_token E s (bearer_of E r.authorization) ≡ ok (some t))
          × (now ≤ t.expires_at)
          × (token_session E t ≡ x))
        ⊎ ((id : String) × (starts_with r.authorization "Bearer " ≡ false)
            × (r.cookie ≡ some id)
            × (get_session E s id ≡ ok (some x))
            × (now ≤ x.expires_at))

  serve_token-next :
      (r : Result (Option ApiToken)) (x : Session)
      → serve_token E r ≡ next x
      → (t : ApiToken) × (r ≡ ok (some t)) × (token_session E t ≡ x)
  unfolding serve_token
  serve_token-next (err e) x h = cc
  serve_token-next (ok none) x h = cc
  serve_token-next (ok (some t)) x h = (t, refl, cc)

  serve_session-next :
      (r : Result (Option Session)) (x : Session) → serve_session E r ≡ next x → r ≡ ok (some x)
  unfolding serve_session
  serve_session-next (err e) x h = cc
  serve_session-next (ok none) x h = cc
  serve_session-next (ok (some y)) x h = (let e : y ≡ x = cc in rw e)

  -- Middleware calls the next handler only with the session of a stored API token, or with a
  -- stored session, that has not expired: the token of the Bearer header if there is such a
  -- header, else the session that the cookie names.
  pub middleware-IsKnown :
      (now : Time) (r : Request) (s : Store E) (x : Session)
      → (middleware E now r s).0 ≡ next x
      → IsKnown now r s x
  unfolding middleware
  middleware-IsKnown now r s x h = elim (Bool-cases (starts_with r.authorization "Bearer ")) [
    | inl bearer ↦
        let (t, valid, same) = serve_token-next _ x (rw bearer at h) in
        let (stored, fresh) =
          validate_api_token-valid now (bearer_of E r.authorization) s t valid in
        record { proof = inl (t, bearer, stored, fresh, same) }
    | inr plain ↦ elim (Option-cases r.cookie) [
      | inl e ↦ absurd (ground arith)
      | inr (id, e) ↦
          let h' : serve_session E (validate_session E now id s).0 ≡ next x = ground arith in
          let (stored, fresh) = validate_session-valid now id s x (serve_session-next _ x h') in
          record { proof = inr (id, plain, e, stored, fresh) }
    ]
  ]

  abbrev session_of : AuthConfig → String → Time → User → Session
  session_of cfg id now user = record {
    id = id;
    user_id = user.id;
    username = user.username;
    role = user.role;
    created_at = now;
    expires_at = add_seconds now cfg.session_max_age;
  }

  abbrev logged_in : Time → User → Store E → Store E
  logged_in now user s = (save_user E (record user { last_login = now }) s).1

  open_session-parts :
      (cfg : AuthConfig) (id : String) (now : Time) (user : User) (s : Store E) (x : Session)
      → (open_session E cfg id now user s).0 ≡ ok x
      → (x ≡ session_of cfg id now user)
        × ((save_session E (session_of cfg id now user) (logged_in now user s)).0 ≡ ok tt)
        × ((open_session E cfg id now user s).1
            ≡ (save_session E (session_of cfg id now user) (logged_in now user s)).1)
  unfolding open_session
  open_session-parts cfg id now user s x h =
      elim (Result-cases (save_session E (session_of cfg id now user) (logged_in now user s)).0) [
        | inl (u, e) ↦ (ground arith, e, ground arith)
        | inr (error, e) ↦ absurd (ground arith)
      ]

  get_session-logged_in :
      (now : Time) (user : User) (s : Store E) (j : String)
      → get_session E (logged_in now user s) j ≡ get_session E s j
  unfolding get_session
  get_session-logged_in now user s j = rw (sessions-save_user (record user { last_login = now }) s)

  get_session-open_session :
      (cfg : AuthConfig) (id : String) (now : Time) (user : User) (s : Store E) (x : Session)
      (j : String)
      → (open_session E cfg id now user s).0 ≡ ok x
      → get_session E (open_session E cfg id now user s).1 j
        ≡ (if id == j then ok (some x) else get_session E s j)
  get_session-open_session cfg id now user s x j h =
      let (same, saved, t) = open_session-parts cfg id now user s x h in
      rw (t, same)
        (rw (← get_session-logged_in now user s j)
          (get_session-save_session (session_of cfg id now user) (logged_in now user s) j saved))

  validate_session-fresh :
      (later : Time) (id : String) (s : Store E) (x : Session)
      → get_session E s id ≡ ok (some x)
      → later ≤ x.expires_at
      → (validate_session E later id s).0 ≡ ok (some x)
  unfolding validate_session
  validate_session-fresh later id s x found fresh = ground arith

  -- A Login that succeeds found a user under that name whose password hash matches, and returns
  -- a session of that user with the user's role; ValidateSession accepts the session's id until
  -- it expires, and every other session is as it was.
  pub validate_session-login :
      (crypt : Bcrypt) (cfg : AuthConfig) (id : String) (now : Time) (username password : String)
      (s : Store E) (x : Session) (later : Time) (j : String)
      → (login E crypt cfg id now username password s).0 ≡ ok x
      → later ≤ x.expires_at
      → ((user : User) × (get_user E s username ≡ ok (some user))
          × (crypt.compare user.password_hash password ≡ true)
          × (x.user_id ≡ user.id)
          × (x.role ≡ user.role))
        × ((validate_session E later id (login E crypt cfg id now username password s).1).0
            ≡ ok (some x))
        × (get_session E (login E crypt cfg id now username password s).1 j
            ≡ (if id == j then ok (some x) else get_session E s j))
  unfolding login
  validate_session-login crypt cfg id now username password s x later j h fresh =
      elim (loaded-cases (get_user E s username)) [
        | inl (inl e) ↦ absurd (ground arith)
        | inl (inr (error, e)) ↦ absurd (ground arith)
        | inr (user, e) ↦ elim (Bool-cases (crypt.compare user.password_hash password)) [
          | inl right ↦
              let opened : (login E crypt cfg id now username password s)
                  ≡ open_session E cfg id now user s =
                rw (login, e) (rw right) in
              let h' : (open_session E cfg id now user s).0 ≡ ok x = rw opened at h in
              let (same, saved, t) = open_session-parts cfg id now user s x h' in
              let read = get_session-open_session cfg id now user s x in
              rw opened (
                (user, e, right, rw same, rw same),
                validate_session-fresh later id _ x (read id h' ∙ rw (eq_refl id)) fresh,
                read j h',
              )
          | inr wrong ↦ absurd (ground arith)
        ]
      ]
