-- ===== src/Web/Replies.antt =====
-- The ends of the handlers, and what they leave of the agreement of cache and database.
use photo_core.Base.{Bool, true, false, some, none, ◌≡◌, ◌==◌}
use photo_core.Storage.Models.{Session}
use photo_core.Storage.Db.{Env}
use photo_core.Web.{Web}
use photo_core.Web.Users.{handle_create_user}
use photo_core.Web.{Reply, error}
use photo_core.Storage.Db.{Store, update}
use photo_core.Base.{String, List, Option, Result, ok, err, ap, ◌==◌, ◌||◌, if◌then◌else◌, refl, []}
use photo_core.Web.Users.{handle_logout, handle_generate_token, handle_revoke_token}
use photo_core.Storage.Models.{Media}
use photo_core.Storage.Models.{Album, User, Stats, Time, ApiToken}
use photo_core.Cache.Media.{MediaCache, Moment, cache_stats}
use photo_core.Storage.Library.{save_media}
use photo_core.Storage.Library.Laws.{save_media_rollback}
use photo_core.Storage.Accounts.{get_user, get_api_token, delete_api_token}
use photo_core.Web.{status}
use photo_core.Web.Albums.{AlbumForm, or_old, reply_with, update_found}
use photo_core.Web.Library.{stats_found, toggled, uncached_reply, uncache_all}
use photo_core.Web.Trash.{delete_found, remove_files, unmark_found, handle_bulk, change_each}
use photo_core.Web.Users.{
  save_new, save_absent, save_edited, update_user as change_user, edit_user, token_reply,
  revoke_found, UserForm,
}
use photo_core.Web.Own.{generate_api_token_lem}
use photo_core.Storage.Accounts.{delete_session}
use photo_core.Auth.{Bcrypt, logout, is_admin}
use photo_core.Web.Coherence.{IsCoherent, store_change, cleared, cleared_reply_lem, reply_with_lem}
use photo_core.Web.Steps.{save_album_media, save_user_media, delete_rollback}

module _ (E : Env) where
  pub either :
      (w : Web E) (test : Bool) (yes_answer no_answer : Reply × Web E)
      → IsCoherent E yes_answer.1
      → IsCoherent E no_answer.1
      → IsCoherent E (if test then yes_answer else no_answer).1
  either w true a b h k = h
  either w false a b h k = k

  pub either_twice :
      (w : Web E) (t u : Bool) (a b c : Reply × Web E)
      → IsCoherent E a.1
      → IsCoherent E b.1
      → IsCoherent E c.1
      → IsCoherent E (if t then (if u then a else b) else c).1
  either_twice w t u a b c h k l = either w t (if u then a else b) c (either w u a b h k) l

  pub stats_found-IsCoherent :
      (t : Moment Stats) (w : Web E) (found : Option Stats × MediaCache)
      → found.1.media_cache ≡ w.cache.media_cache
      → IsCoherent E w
      → IsCoherent E (stats_found E t w found).1
  unfolding stats_found IsCoherent cache_stats
  stats_found-IsCoherent t w (some st, c) e h = rw e h
  stats_found-IsCoherent t w (none, c) e h = rw e h

  pub handle_logout-IsCoherent :
      (cookie : Option String) (w : Web E)
      → IsCoherent E w
      → IsCoherent E (handle_logout E cookie w).1
  unfolding handle_logout logout delete_session update
  handle_logout-IsCoherent none w h = h
  handle_logout-IsCoherent (some id) w h = store_change E w _ refl h

  pub update_found-IsCoherent :
      (now : Time) (form : Option AlbumForm) (w : Web E) (found : Result (Option Album))
      → IsCoherent E w
      → IsCoherent E (update_found E now form w found).1
  unfolding update_found
  update_found-IsCoherent now form w (err e) h = h
  update_found-IsCoherent now form w (ok none) h = h
  update_found-IsCoherent now none w (ok (some a)) h = h
  update_found-IsCoherent now (some form) w (ok (some a)) h =
      reply_with_lem E _ w _ (save_album_media E _ w.store) h

  pub toggled-IsCoherent :
      (id : String) (w : Web E) (r : Result Bool × Store E)
      → r.1.media ≡ w.store.media
      → IsCoherent E w
      → IsCoherent E (toggled E id w r).1
  unfolding toggled
  toggled-IsCoherent id w (ok flag, s) e h = store_change E w s e h
  toggled-IsCoherent id w (err x, s) e h = store_change E w s e h

  pub delete_found-IsCoherent :
      (id : String) (w : Web E) (found : Result (Option Media))
      → IsCoherent E w
      → IsCoherent E (delete_found E id w found).1
  unfolding delete_found remove_files IsCoherent
  delete_found-IsCoherent id w (err e) h = h
  delete_found-IsCoherent id w (ok none) h = h
  delete_found-IsCoherent id w (ok (some m)) h =
      cleared_reply_lem E (status "deleted") (remove_files E m id w) _
        (delete_rollback E id w.store) h

  pub unmark_found-IsCoherent :
      (w : Web E) (found : Result (Option Media))
      → IsCoherent E w
      → IsCoherent E (unmark_found E w found).1
  unfolding unmark_found
  unmark_found-IsCoherent w (err e) h = h
  unmark_found-IsCoherent w (ok none) h = h
  unmark_found-IsCoherent w (ok (some m)) h =
      let n = record m { duplicate_of = ""; deleted_at = none } in
      cleared_reply_lem E (status "unmarked") w (save_media E n w.store)
        (λ e f. ap (λ s. s.media) (save_media_rollback E n w.store e f)) h

  save_new-IsCoherent :
      (id : String) (now : Time) (form : UserForm) (hash : Option String) (w : Web E)
      → IsCoherent E w
      → IsCoherent E (save_new E id now form hash w).1
  unfolding save_new
  save_new-IsCoherent id now form none w h = h
  save_new-IsCoherent id now form (some x) w h =
      reply_with_lem E _ w _ (save_user_media E _ w.store) h

  save_absent-IsCoherent :
      (id : String) (now : Time) (form : UserForm) (hash : Option String) (w : Web E)
      (found : Result (Option User))
      → IsCoherent E w
      → IsCoherent E (save_absent E id now form hash w found).1
  unfolding save_absent
  save_absent-IsCoherent id now form hash w (ok (some old)) h = h
  save_absent-IsCoherent id now form hash w (ok none) h = save_new-IsCoherent id now form hash w h
  save_absent-IsCoherent id now form hash w (err e) h = save_new-IsCoherent id now form hash w h

  save_edited-IsCoherent :
      (w : Web E) (u : Option User) → IsCoherent E w → IsCoherent E (save_edited E w u).1
  unfolding save_edited
  save_edited-IsCoherent w none h = h
  save_edited-IsCoherent w (some u) h =
      reply_with_lem E (status "updated") w _ (save_user_media E u w.store) h

  pub handle_create_user-IsCoherent :
      (crypt : Bcrypt) (id : String) (now : Time) (session : Option Session)
      (form : Option UserForm) (w : Web E)
      → IsCoherent E w
      → IsCoherent E (handle_create_user E crypt id now session form w).1
  unfolding handle_create_user
  handle_create_user-IsCoherent crypt id now session none w h = either w _ _ _ h h
  handle_create_user-IsCoherent crypt id now session (some form) w h =
      let hash = crypt.hash form.password in
      let found = get_user E w.store form.username in
      let absent = save_absent E id now form hash w found in
      let bad = form.username == "" || form.password == "" in
      either w _ (if bad then (error 400, w) else absent) (error 403, w)
        (either w bad (error 400, w) absent h (save_absent-IsCoherent id now form hash w found h)) h

  pub update_user-IsCoherent :
      (crypt : Bcrypt) (form : Option UserForm) (w : Web E) (found : Result (Option User))
      → IsCoherent E w
      → IsCoherent E (change_user E crypt form w found).1
  unfolding change_user
  update_user-IsCoherent crypt form w (err e) h = h
  update_user-IsCoherent crypt form w (ok none) h = h
  update_user-IsCoherent crypt none w (ok (some u)) h = h
  update_user-IsCoherent crypt (some form) w (ok (some u)) h =
      save_edited-IsCoherent w (edit_user E crypt form u) h

  token_reply-IsCoherent :
      (w : Web E) (r : Result ApiToken × Store E)
      → r.1.media ≡ w.store.media
      → IsCoherent E w
      → IsCoherent E (token_reply E w r).1
  unfolding token_reply
  token_reply-IsCoherent w (ok x, s) e h = store_change E w s e h
  token_reply-IsCoherent w (err x, s) e h = store_change E w s e h

  pub handle_generate_token-IsCoherent :
      (random : Option String) (now expires : Time) (session : Option Session)
      (device : Option String) (w : Web E)
      → IsCoherent E w
      → IsCoherent E (handle_generate_token E random now expires session device w).1
  unfolding handle_generate_token
  handle_generate_token-IsCoherent random now expires none device w h = h
  handle_generate_token-IsCoherent random now expires (some x) none w h = h
  handle_generate_token-IsCoherent random now expires (some x) (some device) w h =
      token_reply-IsCoherent w _
        (generate_api_token_lem E random now expires x.user_id x.username x.role
          (or_old device "Unnamed Device") w.store).media
        h

  delete_token_media : (t : String) (s : Store E) → (delete_api_token E t s).1.media ≡ s.media
  unfolding delete_api_token update
  delete_token_media t s = refl

  revoke_found-IsCoherent :
      (x : Session) (t : String) (w : Web E) (found : Result (Option ApiToken))
      → IsCoherent E w
      → IsCoherent E (revoke_found E x t w found).1
  unfolding revoke_found
  revoke_found-IsCoherent x t w (err e) h = h
  revoke_found-IsCoherent x t w (ok none) h = h
  revoke_found-IsCoherent x t w (ok (some y)) h =
      either w _ _ _ (reply_with_lem E (status "revoked") w _ (delete_token_media t w.store) h) h

  pub handle_revoke_token-IsCoherent :
      (session : Option Session) (t : String) (w : Web E)
      → IsCoherent E w
      → IsCoherent E (handle_revoke_token E session t w).1
  unfolding handle_revoke_token
  handle_revoke_token-IsCoherent none t w h = h
  handle_revoke_token-IsCoherent (some x) t w h =
      let revoked = reply_with E (status "revoked") w (delete_api_token E t w.store) in
      let found = revoke_found E x t w (get_api_token E w.store t) in
      either w (t == "") (error 400, w) (if is_admin x.role then revoked else found) h
        (either w (is_admin x.role) revoked found
          (reply_with_lem E (status "revoked") w _ (delete_token_media t w.store) h)
          (revoke_found-IsCoherent x t w (get_api_token E w.store t) h))

  pub handle_bulk-IsCoherent :
      (done : String) (change : String → Store E → Result (Unit {0}) × Store E) (ids : List String)
      (w : Web E)
      → IsCoherent E (handle_bulk E done change ids w).1
  unfolding handle_bulk
  handle_bulk-IsCoherent done change ids w =
      cleared E (record w { store = (change_each E change ids 0 w.store).1 })

  pub no_uncached :
      (reply : Reply) (w : Web E) (r : Result (Unit {0}) × Store E)
      → r.1.media ≡ w.store.media
      → IsCoherent E w
      → IsCoherent E (uncached_reply E reply [] w r).1
  unfolding uncached_reply uncache_all
  no_uncached reply w (ok u, s) e h = store_change E w s e h
  no_uncached reply w (err x, s) e h = store_change E w s e h
