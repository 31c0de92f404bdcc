-- ===== src/Tests/Auth.antt =====
-- The theorems on sessions, at one user with one session.
use photo_core.Base.{String, true, some, ◌≡◌, refl, ok, ◌==◌, eq_refl, arith, if◌then◌else◌}
use photo_core.Storage.Models.{User, Session, role_editor}
use photo_core.Storage.Db.{Store}
use photo_core.Storage.Accounts.{save_user, get_user, get_session, save_session, delete_user}
use photo_core.Auth.{
  Bcrypt, AuthConfig, next, login, open_session, validate_session, validate_api_token, middleware,
  serve_session,
}
use photo_core.Auth.Laws.{
  IsKnown, validate_session-login, validate_session-delete_user, middleware-IsKnown,
}
use photo_core.Tests.Disk.{env, empty_db}
use photo_core.Tests.Storage.{program}

pub compare_own : (p h : String) → some p ≡ some h → (h == p) ≡ true
compare_own p h e = (let same : p ≡ h = cc in rw (← same) (eq_refl p))

-- A hash that hides nothing.
abbrev pub crypt : Bcrypt
crypt = record { hash = λ p. some p; compare = λ h p. h == p; compare-hash = compare_own }

abbrev pub cfg : AuthConfig
cfg = record { admin_username = "admin"; admin_password = "admin"; session_max_age = 100 }

abbrev ann : User
ann = record {
  id = "u1";
  username = "ann";
  display_name = "Ann";
  password_hash = "secret";
  role = role_editor;
  created_at = 1;
  last_login = 0;
}

abbrev users : Store env
users = (save_user env ann empty_db).1

abbrev session : Session
session = record {
  id = "s1";
  user_id = "u1";
  username = "ann";
  role = role_editor;
  created_at = 10;
  expires_at = 100_000_000_010;
}

abbrev after : Store env
after = (login env crypt cfg "s1" 10 "ann" "secret" users).1

runs :
    ((login env crypt cfg "s1" 10 "ann" "secret" users).0 ≡ ok session)
    × (get_session env after "s1" ≡ ok (some session))
    × ((middleware env 20 (record { authorization = ""; cookie = some "s1" }) after).0
        ≡ next session)
unfolding program login open_session get_user save_user save_session get_session middleware
    validate_session serve_session
runs = (refl, refl, refl)

validate_session-login_example :
    ((user : User) × (get_user env users "ann" ≡ ok (some user))
      × (crypt.compare user.password_hash "secret" ≡ true)
      × (session.user_id ≡ user.id)
      × (session.role ≡ user.role))
    × ((validate_session env 20 "s1" after).0 ≡ ok (some session))
    × (get_session env after "s2"
        ≡ (if "s1" == "s2" then ok (some session) else get_session env users "s2"))
validate_session-login_example =
    validate_session-login env crypt cfg "s1" 10 "ann" "secret" users session 20 "s2" runs.0
      (omega arith)

middleware-IsKnown_example :
    IsKnown env 20 (record { authorization = ""; cookie = some "s1" }) after session
middleware-IsKnown_example =
    middleware-IsKnown env 20 (record { authorization = ""; cookie = some "s1" }) after session
      runs.2

validate_session-delete_user_example :
    ((validate_session env 20 "s1" (delete_user env "ann" after).1).0
      ≡ (validate_session env 20 "s1" after).0)
    × ((validate_api_token env 20 "t1" (delete_user env "ann" after).1).0
        ≡ (validate_api_token env 20 "t1" after).0)
validate_session-delete_user_example = validate_session-delete_user env 20 "ann" "s1" "t1" after
