-- ===== src/Web/Users.antt =====
-- The handlers of login, users and API tokens.
use photo_core.Base.{
  String, Bool, false, ◌||◌, Option, some, none, ◌==◌, if◌then◌else◌, Result, ok, err,
}
use photo_core.Storage.Models.{User, Session, ApiToken, Time, role_admin, role_editor, role_viewer}
use photo_core.Storage.Db.{Env, Store}
use photo_core.Storage.Accounts.{get_user, save_user, delete_user, get_api_token, delete_api_token}
use photo_core.Auth.{
  Bcrypt, AuthConfig, login, logout, generate_api_token, can_manage_users, is_admin,
}
use photo_core.Web.{Web, Reply, error, status, account, token, redirect, login_page, role_of}
use photo_core.Web.Albums.{reply_with, or_old}

pub record UserForm : Type 0 where
  pub username : String
  pub display_name : String
  pub password : String
  pub role : String

unfoldable pub is_role : String → Bool
is_role role = role == role_admin || role == role_editor || role == role_viewer

module _ (E : Env) where
  unfoldable pub logged_in : Web E → Result Session × Store E → Reply × Web E
  logged_in w (ok session, s) = (redirect "/gallery", record w { store = s })
  logged_in w (err e, s) = (login_page, record w { store = s })

  -- Login; the cookie with the session's id is left out.
  unfoldable pub handle_login :
      Bcrypt → AuthConfig → String → Time → String → String → Web E → Reply × Web E
  unfolding logged_in
  handle_login crypt cfg id now username password w =
      logged_in w (login E crypt cfg id now username password w.store)

  -- Logout, given the value of the cookie.
  unfoldable pub handle_logout : Option String → Web E → Reply × Web E
  handle_logout none w = (redirect "/login", w)
  handle_logout (some id) w = (redirect "/login", record w { store = (logout E id w.store).1 })

  unfoldable pub save_new : String → Time → UserForm → Option String → Web E → Reply × Web E
  unfolding reply_with is_role or_old
  save_new id now form none w = (error 500, w)
  save_new id now form (some hash) w =
      let u : User = record {
        id = id;
        username = form.username;
        display_name = or_old form.display_name form.username;
        password_hash = hash;
        role = if is_role form.role then form.role else role_viewer;
        created_at = now;
        last_login = 0;
      } in
      reply_with E (account u) w (save_user E u w.store)

  unfoldable pub save_absent :
      String → Time → UserForm → Option String → Web E → Result (Option User) → Reply × Web E
  unfolding save_new
  save_absent id now form hash w (ok (some old)) = (error 409, w)
  save_absent id now form hash w (ok none) = save_new id now form hash w
  save_absent id now form hash w (err e) = save_new id now form hash w

  -- CreateUser; a user that cannot be read does not count as existing.
  unfoldable pub handle_create_user :
      Bcrypt → String → Time → Option Session → Option UserForm → Web E → Reply × Web E
  unfolding save_absent role_of can_manage_users
  handle_create_user crypt id now session none w =
      if can_manage_users (role_of session) then (error 400, w) else (error 403, w)
  handle_create_user crypt id now session (some form) w =
      if can_manage_users (role_of session)
      then (if form.username == "" || form.password == ""
          then (error 400, w)
          else save_absent id now form (crypt.hash form.password) w
              (get_user E w.store form.username))
      else (error 403, w)

  -- The user after the form; `none` where the new password cannot be hashed.
  unfoldable pub edit_user : Bcrypt → UserForm → User → Option User
  unfolding is_role or_old
  edit_user crypt form u =
      let u' = record u {
        display_name = or_old form.display_name u.display_name;
        role = if is_role form.role then form.role else u.role;
      } in
      if form.password == "" then some u' else elim (crypt.hash form.password) [
        | none ↦ none
        | some h ↦ some (record u' { password_hash = h })
      ]

  unfoldable pub save_edited : Web E → Option User → Reply × Web E
  unfolding reply_with
  save_edited w none = (error 500, w)
  save_edited w (some u) = reply_with E (status "updated") w (save_user E u w.store)

  unfoldable pub update_user :
      Bcrypt → Option UserForm → Web E → Result (Option User) → Reply × Web E
  unfolding edit_user save_edited
  update_user crypt form w (err e) = (error 500, w)
  update_user crypt form w (ok none) = (error 404, w)
  update_user crypt none w (ok (some u)) = (error 400, w)
  update_user crypt (some form) w (ok (some u)) = save_edited w (edit_user crypt form u)

  -- UpdateUser; the sessions and tokens of the user keep the role that they were given.
  unfoldable pub handle_update_user :
      Bcrypt → Option Session → String → Option UserForm → Web E → Reply × Web E
  unfolding update_user role_of can_manage_users
  handle_update_user crypt session username form w =
      if can_manage_users (role_of session)
      then update_user crypt form w (get_user E w.store username)
      else (error 403, w)

  unfoldable pub is_self : Option Session → String → Bool
  is_self none username = false
  is_self (some x) username = x.username == username

  -- DeleteUser
  unfoldable pub handle_delete_user : Option Session → String → Web E → Reply × Web E
  unfolding is_self reply_with role_of can_manage_users
  handle_delete_user session username w =
      if can_manage_users (role_of session)
      then (if is_self session username
          then (error 400, w)
          else reply_with E (status "deleted") w (delete_user E username w.store))
      else (error 403, w)

  unfoldable pub token_reply : Web E → Result ApiToken × Store E → Reply × Web E
  token_reply w (ok x, s) = (token x, record w { store = s })
  token_reply w (err e, s) = (error 500, record w { store = s })

  -- GenerateAPIToken, for the session's user and with its role.
  unfoldable pub handle_generate_token :
      Option String → Time → Time → Option Session → Option String → Web E → Reply × Web E
  unfolding token_reply or_old
  handle_generate_token random now expires none device w = (error 401, w)
  handle_generate_token random now expires (some x) none w = (error 400, w)
  handle_generate_token random now expires (some x) (some device) w = token_reply w (
      generate_api_token E random now expires x.user_id x.username x.role
        (or_old device "Unnamed Device") w.store)

  unfoldable pub revoke_found : Session → String → Web E → Result (Option ApiToken) → Reply × Web E
  unfolding reply_with
  revoke_found x tok w (err e) = (error 500, w)
  revoke_found x tok w (ok none) = (error 404, w)
  revoke_found x tok w (ok (some t)) =
      if t.user_id == x.user_id
      then reply_with E (status "revoked") w (delete_api_token E tok w.store)
      else (error 403, w)

  -- RevokeAPIToken: one's own token, or any for an admin.
  unfoldable pub handle_revoke_token : Option Session → String → Web E → Reply × Web E
  unfolding revoke_found reply_with is_admin
  handle_revoke_token none tok w = (error 401, w)
  handle_revoke_token (some x) tok w =
      if tok == ""
      then (error 400, w)
      else if is_admin x.role
      then reply_with E (status "revoked") w (delete_api_token E tok w.store)
      else revoke_found x tok w (get_api_token E w.store tok)
