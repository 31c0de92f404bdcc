-- ===== src/Auth.antt =====
-- internal/auth/auth.go: roles, login, sessions, API tokens and the middleware. bcrypt is a
-- parameter; what time.Now and generateID return is an argument.
pub mod Laws
use photo_core.Base.{
  ℕ, int_bound, ◌+◌, ◌-◌, ◌*◌, ◌%◌, String, Bool, true, false, ◌||◌, List, [], ◌∷◌, Option, some,
  none, ◌==◌, ltb, if◌then◌else◌, ◌≡◌, Result, ok, err, invalid_credentials, hash_error, rand_error,
}
use mathlib.Core.Option
use Prim.Native.String.{len}
use text.Mathlib.Text.{starts_with, get?}
use photo_core.Storage.Models.{User, Session, ApiToken, Time, role_admin, role_editor}
use photo_core.Storage.Db.{Env, Store}
use photo_core.Storage.Accounts.{
  get_user, save_user, get_session, save_session, delete_session, get_api_token, save_api_token,
  delete_api_token,
}

unfoldable pub can_delete_media : String → Bool
can_delete_media role = role == role_admin

unfoldable pub can_delete_album : String → Bool
can_delete_album role = role == role_admin

unfoldable pub can_create_album : String → Bool
can_create_album role = role == role_admin || role == role_editor

unfoldable pub can_edit_album : String → Bool
can_edit_album role = role == role_admin || role == role_editor

unfoldable pub can_edit : String → Bool
can_edit role = role == role_admin || role == role_editor

unfoldable pub can_manage_tags : String → Bool
can_manage_tags role = role == role_admin || role == role_editor

unfoldable pub can_delete_tags : String → Bool
can_delete_tags role = role == role_admin

unfoldable pub can_manage_users : String → Bool
can_manage_users role = role == role_admin

unfoldable pub is_admin : String → Bool
is_admin role = role == role_admin

-- GenerateFromPassword fails on a password that is too long; CompareHashAndPassword returns nil on
-- the password that a hash was made from.
pub record Bcrypt : Type 0 where
  pub hash : String → Option String
  pub compare : String → String → Bool
  pub compare-hash : (p h : String) → hash p ≡ some h → compare h p ≡ true

-- The part of the configuration that auth.go reads; the age is in seconds.
pub record AuthConfig : Type 0 where
  pub admin_username : String
  pub admin_password : String
  pub session_max_age : ℕ

-- The header and the cookie that Middleware reads; an absent header is the empty text.
pub record Request : Type 0 where
  pub authorization : String
  pub cookie : Option String

-- What becomes of a request: an error page, the redirect to the login page, or the next handler
-- with a session in its context.
pub data Response : Type 0 where
  unauthorized forbidden redirect_login : Response
  next : Session → Response

-- `t.Add(time.Duration(age) * time.Second)`, where the product is an int64 that wraps around; a time
-- before Go's zero time is the zero time here.
unfoldable pub add_seconds : Time → ℕ → Time
add_seconds t age =
    let d = (age * 1_000_000_000) % 18446744073709551616 in
    if ltb d int_bound then t + d else t - (18446744073709551616 - d)

module _ (E : Env) where
  -- EnsureAdminUser
  unfoldable pub ensure_admin_user :
      Bcrypt → AuthConfig → String → Time → Store E → Result (Unit {0}) × Store E
  ensure_admin_user crypt cfg id now s = elim (get_user E s cfg.admin_username) [
    | err e ↦ (err e, s)
    | ok (some user) ↦ (ok tt, s)
    | ok none ↦ elim (crypt.hash cfg.admin_password) [
      | none ↦ (err hash_error, s)
      | some h ↦
          save_user E
            (record {
              id = id;
              username = cfg.admin_username;
              display_name = "";
              password_hash = h;
              role = "admin";
              created_at = now;
              last_login = 0;
            })
            s
    ]
  ]

  -- The rest of Login once the password is right; the error of SaveUser is dropped.
  unfoldable pub open_session :
      AuthConfig → String → Time → User → Store E → Result Session × Store E
  unfolding add_seconds
  open_session cfg id now user s =
      let s₁ = (save_user E (record user { last_login = now }) s).1 in
      let session : Session = record {
        id = id;
        user_id = user.id;
        username = user.username;
        role = user.role;
        created_at = now;
        expires_at = add_seconds now cfg.session_max_age;
      } in
      let (saved, s₂) = save_session E session s₁ in
      elim saved [ ok _ ↦ (ok session, s₂) | err e ↦ (err e, s₂) ]

  unfoldable pub login :
      Bcrypt → AuthConfig → String → Time → String → String → Store E → Result Session × Store E
  login crypt cfg id now username password s = elim (get_user E s username) [
    | err e ↦ (err e, s)
    | ok none ↦ (err invalid_credentials, s)
    | ok (some user) ↦
        if crypt.compare user.password_hash password
        then open_session cfg id now user s
        else (err invalid_credentials, s)
  ]

  unfoldable pub logout : String → Store E → Result (Unit {0}) × Store E
  logout id s = delete_session E id s

  unfoldable pub validate_session : Time → String → Store E → Result (Option Session) × Store E
  validate_session now id s = elim (get_session E s id) [
    | err e ↦ (err e, s)
    | ok none ↦ (ok none, s)
    | ok (some x) ↦
        if ltb x.expires_at now then (ok none, (delete_session E id s).1) else (ok (some x), s)
  ]

  -- GenerateAPIToken: `random` is the hex text of 32 random bytes, if rand.Read gives them, and
  -- `expires` the date six months from now.
  unfoldable pub generate_api_token :
      Option String
      → Time
      → Time
      → String
      → String
      → String
      → String
      → Store E
      → Result ApiToken × Store E
  generate_api_token none now expires user_id username role device_name s = (err rand_error, s)
  generate_api_token (some token) now expires user_id username role device_name s =
      let x : ApiToken = record {
        token = token;
        user_id = user_id;
        username = username;
        role = role;
        created_at = now;
        expires_at = expires;
        device_name = device_name;
      } in
      let (saved, s') = save_api_token E x s in
      elim saved [ ok _ ↦ (ok x, s') | err e ↦ (err e, s') ]

  unfoldable pub validate_api_token : Time → String → Store E → Result (Option ApiToken) × Store E
  validate_api_token now token s = elim (get_api_token E s token) [
    | err e ↦ (err e, s)
    | ok none ↦ (ok none, s)
    | ok (some x) ↦
        if ltb x.expires_at now then (ok none, (delete_api_token E token s).1) else (ok (some x), s)
  ]

  -- The session that Middleware makes from a token.
  unfoldable pub token_session : ApiToken → Session
  token_session x = record {
    id = x.token;
    user_id = x.user_id;
    username = x.username;
    role = x.role;
    created_at = 0;
    expires_at = 0;
  }

  unfoldable pub serve_token : Result (Option ApiToken) → Response
  serve_token (err e) = unauthorized
  serve_token (ok none) = unauthorized
  serve_token (ok (some x)) = next (token_session x)

  unfoldable pub serve_session : Result (Option Session) → Response
  serve_session (err e) = redirect_login
  serve_session (ok none) = redirect_login
  serve_session (ok (some x)) = next x

  -- strings.TrimPrefix(header, "Bearer ")
  unfoldable pub bearer_of : String → String
  bearer_of header = Option.get_or (get? header 7 (len header)) header

  unfoldable pub middleware : Time → Request → Store E → Response × Store E
  unfolding serve_token serve_session
  middleware now r s =
      if starts_with r.authorization "Bearer "
      then (let (found, s') = validate_api_token now (bearer_of r.authorization) s in
          (serve_token found, s'))
      else elim r.cookie [
        | none ↦ (redirect_login, s)
        | some id ↦ (let (found, s') = validate_session now id s in (serve_session found, s'))
      ]

unfoldable pub has_role : String → List String → Bool
has_role role [] = false
has_role role (r ∷ roles) = role == r || has_role role roles

-- RequireRole, given the session of the request's context.
unfoldable pub require_role : List String → Option Session → Response
require_role roles none = unauthorized
require_role roles (some x) = if has_role x.role roles then next x else forbidden
