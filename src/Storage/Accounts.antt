-- ===== src/Storage/Accounts.antt =====
-- Users, sessions and API tokens of internal/storage/bbolt.go.
use photo_core.Base.{
  String, List, [], ◌∷◌, Option, some, none, ◌==◌, if◌then◌else◌, Result, ok, ◌>>=◌, select,
}
use photo_core.Disk.Table.{find, write, rows}
use photo_core.Storage.Models.{User, Session, ApiToken}
use photo_core.Storage.Db.{Env, Store, update, load}

module _ (E : Env) where
  unfoldable pub save_user : User → Store E → Result (Unit {0}) × Store E
  unfolding update
  save_user u = update λ s. do
    users ← write E.disk E.users_json s.users u.username u
    ok (record s { users = users })

  unfoldable pub get_user : Store E → String → Result (Option User)
  get_user s username = load E.disk E.users_json (λ u. u.id) s.users username

  -- GetUserByID: ForEach goes on after a match, so the last one is returned.
  unfoldable pub last_with_id : String → Option User → List User → Option User
  last_with_id user_id result [] = result
  last_with_id user_id result (u ∷ us) =
      last_with_id user_id (if u.id == user_id then some u else result) us

  unfoldable pub get_user_by_id : Store E → String → Option User
  unfolding last_with_id
  get_user_by_id s user_id = last_with_id user_id none (rows E.disk E.users_json s.users)

  unfoldable pub list_users : Store E → List User
  list_users s = rows E.disk E.users_json s.users

  -- DeleteUser removes the user's favorites too, if the record can be read; it leaves the
  -- sessions and the API tokens.
  unfoldable pub delete_user : String → Store E → Result (Unit {0}) × Store E
  unfolding update
  delete_user username = update λ s. elim (find E.disk E.users_json s.users username) [
    | none ↦ ok s
    | some (u, valid) ↦ ok (record s {
      userfav = if valid then E.disk.delete s.userfav u.id else s.userfav;
      users = E.disk.delete s.users username;
    })
  ]

  unfoldable pub save_session : Session → Store E → Result (Unit {0}) × Store E
  unfolding update
  save_session x = update λ s. do
    sessions ← write E.disk E.sessions_json s.sessions x.id x
    ok (record s { sessions = sessions })

  unfoldable pub get_session : Store E → String → Result (Option Session)
  get_session s id = load E.disk E.sessions_json (λ x. x.id) s.sessions id

  unfoldable pub delete_session : String → Store E → Result (Unit {0}) × Store E
  unfolding update
  delete_session id = update λ s. ok (record s { sessions = E.disk.delete s.sessions id })

  unfoldable pub save_api_token : ApiToken → Store E → Result (Unit {0}) × Store E
  unfolding update
  save_api_token x = update λ s. do
    api_tokens ← write E.disk E.tokens_json s.api_tokens x.token x
    ok (record s { api_tokens = api_tokens })

  unfoldable pub get_api_token : Store E → String → Result (Option ApiToken)
  get_api_token s token = load E.disk E.tokens_json (λ x. x.token) s.api_tokens token

  unfoldable pub delete_api_token : String → Store E → Result (Unit {0}) × Store E
  unfolding update
  delete_api_token token =
      update λ s. ok (record s { api_tokens = E.disk.delete s.api_tokens token })

  unfoldable pub list_user_api_tokens : Store E → String → List ApiToken
  list_user_api_tokens s user_id =
      select (λ x. x.user_id == user_id) (rows E.disk E.tokens_json s.api_tokens)
