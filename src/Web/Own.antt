-- ===== src/Web/Own.antt =====
-- The requests of a user about sessions, tokens and favorites of one's own, and those that only read.
use photo_core.Base.{
  String, Bool, true, false, Option, some, none, ◌==◌, if◌then◌else◌, Result, ok, err, arith,
}
use photo_core.Storage.Models.{Media, Session, ApiToken, Time}
use photo_core.Storage.Db.{Env, Store, update, and_then}
use photo_core.Storage.Favorites.{toggle_user_favorite, set_user_favorite}
use photo_core.Storage.Accounts.{delete_session, save_api_token, delete_api_token, get_api_token}
use photo_core.Auth.{is_admin, logout, generate_api_token}
use photo_core.Storage.Library.{get_media, get_stats}
use photo_core.Storage.Models.{Stats}
use photo_core.Cache.Media.{Moment, MediaCache, cache_media, cache_stats}
use photo_core.Web.{Web, Reply, error, status, user_id_of}
use photo_core.Web.Albums.{reply_with, or_old}
use photo_core.Web.Library.{read_media, view_found, stats_found, toggled, handle_toggle_favorite}
use photo_core.Web.Users.{
  handle_logout, token_reply, handle_generate_token, revoke_found, handle_revoke_token,
}
use photo_core.Web.Shared.{
  SameStore, SameLibrary, same, with_store, unchanged, recached, put_sessions, put_tokens,
  put_userfav, either_way,
}

module _ (E : Env) where
  pub handle_logout_lem :
      (w : Web E) (cookie : Option String) → SameLibrary E w (handle_logout E cookie w).1
  unfolding handle_logout logout delete_session update
  handle_logout_lem w none = unchanged E w
  handle_logout_lem w (some id) =
      with_store E w _ (put_sessions E w.store (E.disk.delete w.store.sessions id))

  read_media_lem :
      (t : Moment Media) (w : Web E) (c : MediaCache) (r : Result (Option Media))
      → SameLibrary E w (read_media E t (record w { cache = c }) r).1
  unfolding read_media
  read_media_lem t w c (err e) = recached E w c
  read_media_lem t w c (ok none) = recached E w c
  read_media_lem t w c (ok (some m)) = recached E w (cache_media t m c)

  pub view_found_lem :
      (t : Moment Media) (id : String) (w : Web E) (found : Option Media × MediaCache)
      → SameLibrary E w (view_found E t id w found).1
  unfolding view_found
  view_found_lem t id w (some m, c) = recached E w c
  view_found_lem t id w (none, c) = read_media_lem t w c (get_media E w.store id)

  pub stats_found_lem :
      (t : Moment Stats) (w : Web E) (found : Option Stats × MediaCache)
      → SameLibrary E w (stats_found E t w found).1
  unfolding stats_found
  stats_found_lem t w (some st, c) = recached E w c
  stats_found_lem t w (none, c) = recached E w (cache_stats t (get_stats E w.store) c)

  set_user_favorite_lem :
      (user_id media_id : String) (flag : Bool) (s : Store E)
      → SameStore E s (set_user_favorite E user_id media_id flag s).1
  unfolding set_user_favorite update
  set_user_favorite_lem user_id media_id flag s = ground (arith, same E s, put_userfav E s)

  pub toggle_user_favorite_lem :
      (user_id media_id : String) (s : Store E)
      → SameStore E s (toggle_user_favorite E user_id media_id s).1
  unfolding toggle_user_favorite and_then
  toggle_user_favorite_lem user_id media_id s = ground (
    arith,
    same E s,
    set_user_favorite_lem user_id media_id true s,
    set_user_favorite_lem user_id media_id false s,
  )

  toggled_lem :
      (id : String) (w : Web E) (r : Result Bool × Store E)
      → SameStore E w.store r.1
      → SameLibrary E w (toggled E id w r).1
  unfolding toggled
  toggled_lem id w (ok flag, s) h = with_store E w s h
  toggled_lem id w (err e, s) h = with_store E w s h

  pub handle_toggle_favorite_lem :
      (session : Option Session) (id : String) (w : Web E)
      → SameLibrary E w (handle_toggle_favorite E session id w).1
  unfolding handle_toggle_favorite
  handle_toggle_favorite_lem session id w =
      either_way E w _ _ _ (unchanged E w)
        (toggled_lem id w _ (toggle_user_favorite_lem (user_id_of session) id w.store))

  reply_with_lem :
      (reply : Reply) (w : Web E) (r : Result (Unit {0}) × Store E)
      → SameStore E w.store r.1
      → SameLibrary E w (reply_with E reply w r).1
  unfolding reply_with
  reply_with_lem reply w (ok u, s) h = with_store E w s h
  reply_with_lem reply w (err e, s) h = with_store E w s h

  token_reply_lem :
      (w : Web E) (r : Result ApiToken × Store E)
      → SameStore E w.store r.1
      → SameLibrary E w (token_reply E w r).1
  unfolding token_reply
  token_reply_lem w (ok x, s) h = with_store E w s h
  token_reply_lem w (err e, s) h = with_store E w s h

  pub save_api_token_lem : (x : ApiToken) (s : Store E) → SameStore E s (save_api_token E x s).1
  unfolding save_api_token update
  save_api_token_lem x s = ground (arith, same E s, put_tokens E s)

  delete_api_token_lem : (t : String) (s : Store E) → SameStore E s (delete_api_token E t s).1
  unfolding delete_api_token update
  delete_api_token_lem t s = put_tokens E s (E.disk.delete s.api_tokens t)

  pub generate_api_token_lem :
      (random : Option String) (now expires : Time) (user_id username role device : String)
      (s : Store E)
      → SameStore E s (generate_api_token E random now expires user_id username role device s).1
  unfolding generate_api_token
  generate_api_token_lem none now expires user_id username role device s = same E s
  generate_api_token_lem (some t) now expires user_id username role device s =
      let x : ApiToken = record {
        token = t;
        user_id = user_id;
        username = username;
        role = role;
        created_at = now;
        expires_at = expires;
        device_name = device;
      } in
      ground (arith, save_api_token_lem x s)

  pub handle_generate_token_lem :
      (random : Option String) (now expires : Time) (session : Option Session)
      (device : Option String) (w : Web E)
      → SameLibrary E w (handle_generate_token E random now expires session device w).1
  unfolding handle_generate_token
  handle_generate_token_lem random now expires none device w = unchanged E w
  handle_generate_token_lem random now expires (some x) none w = unchanged E w
  handle_generate_token_lem random now expires (some x) (some device) w = token_reply_lem w _ (
      generate_api_token_lem random now expires x.user_id x.username x.role
        (or_old device "Unnamed Device") w.store)

  revoke_found_lem :
      (x : Session) (t : String) (w : Web E) (found : Result (Option ApiToken))
      → SameLibrary E w (revoke_found E x t w found).1
  unfolding revoke_found
  revoke_found_lem x t w (err e) = unchanged E w
  revoke_found_lem x t w (ok none) = unchanged E w
  revoke_found_lem x t w (ok (some y)) =
      either_way E w _ _ _ (reply_with_lem (status "revoked") w _ (delete_api_token_lem t w.store))
        (unchanged E w)

  pub handle_revoke_token_lem :
      (session : Option Session) (t : String) (w : Web E)
      → SameLibrary E w (handle_revoke_token E session t w).1
  unfolding handle_revoke_token
  handle_revoke_token_lem none t w = unchanged E w
  handle_revoke_token_lem (some x) t w =
      let revoked = reply_with E (status "revoked") w (delete_api_token E t w.store) in
      let found = revoke_found E x t w (get_api_token E w.store t) in
      either_way E w (t == "") (error 400, w) (if is_admin x.role then revoked else found)
        (unchanged E w)
        (either_way E w (is_admin x.role) revoked found
          (reply_with_lem (status "revoked") w _ (delete_api_token_lem t w.store))
          (revoke_found_lem x t w (get_api_token E w.store t)))
