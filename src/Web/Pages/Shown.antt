-- ===== src/Web/Pages/Shown.antt =====
-- What the pages show, and to whom.
use photo_core.Base.{true, false, not, String, List, map, Option, ◌≡◌, ◌==◌, any}
use photo_core.Storage.Models.{Media, Session}
use photo_core.Storage.Db.{Env}
use photo_core.Storage.Library.{is_live}
use photo_core.Storage.Timeline.{geo_point}
use photo_core.Auth.{can_edit, can_manage_users}
use photo_core.Web.{role_of, user_id_of}
use photo_core.Web.Pages.Grouped.{GroupsLive}
use photo_core.Web.Pages.Items.{Reading, cameras, zip_entries}
use photo_core.Web.Pages.Live.{AllLive}
use photo_core.Web.Pages.{
  Content, Page, album_with, media_list, trash, accounts, users, tokens, html, partial, json,
  refused, found, all_groups, points, archive, filters,
}

-- What the content may show in a session.
module _ (R : Reading) (E : Env) where
  unfoldable pub Suits : Option Session → Content → Type 0
  Suits session (media_list ms) = AllLive ms
  Suits session (album_with a ms) = AllLive ms
  Suits session (found result) = AllLive result.media
  Suits session (all_groups gs) = GroupsLive gs
  Suits session (points ps) = (ms : List Media) × AllLive ms × (ps ≡ map (geo_point E) ms)
  Suits session (archive entries) =
      (files : List (String × String)) × (ms : List Media) × AllLive ms
      × (entries ≡ zip_entries R files ms)
  Suits session (filters ts names) =
      (ms : List Media) × AllLive ms × (names ≡ R.sort_texts (cameras ms))
  Suits session (trash items) =
      (can_edit (role_of session) ≡ true) × (any (λ i. is_live i.media) items ≡ false)
  Suits session (accounts us) = can_manage_users (role_of session) ≡ true
  Suits session (users us) = can_manage_users (role_of session) ≡ true
  Suits session (tokens ts) = any (λ x. not (x.user_id == user_id_of session)) ts ≡ false
  Suits session _ = Unit {0}

  unfoldable pub PageSuits : Option Session → Page → Type 0
  unfolding Suits
  PageSuits session (html viewer content) = Suits session content
  PageSuits session (partial content) = Suits session content
  PageSuits session (json content) = Suits session content
  PageSuits session (refused code) = Unit {0}
