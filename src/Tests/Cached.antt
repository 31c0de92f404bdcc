-- ===== src/Tests/Cached.antt =====
-- A media that is shown, tagged, and in the cache no more.
use photo_core.Base.{[], ◌∷◌, ◌≡◌, refl, some, eq_iff, arith}
use photo_core.Storage.Models.{Session, Media, role_editor}
use photo_core.Storage.Library.{get_media}
use photo_core.Cache
use photo_core.Cache.Media.{new_media_cache, cached_media, Moment}
use photo_core.Web.Requests.{dispatch, add_tags}
use photo_core.Web.Library.{view_media, view_found, read_media}
use photo_core.Web.Coherence.{IsCoherent, IsKeyed, direct_reply, view_media-direct_reply}
use photo_core.Web.Cached.{stays_coherent, dispatch-IsCoherent}
use photo_core.Tests.Disk.{env}
use photo_core.Tests.Storage.{saved, program}
use photo_core.Tests.Web.{web, outside}

abbrev pub editor : Session
editor = record {
  id = "s2";
  user_id = "u2";
  username = "bob";
  role = role_editor;
  created_at = 10;
  expires_at = 100;
}

pub web-IsCoherent : IsCoherent env web
unfolding IsCoherent new_media_cache Cache.new
web-IsCoherent id item h = ground arith

saved-IsKeyed : IsKeyed env saved
unfolding program IsKeyed
saved-IsKeyed id m h = ground (arith, eq_iff "c1" id)

abbrev moment : Moment Media
moment = outside.media_moment

view_media-direct_reply_example :
    ((view_media env moment "c1" web).0 ≡ direct_reply env (get_media env saved "c1"))
    × IsCoherent env (view_media env moment "c1" web).1
view_media-direct_reply_example =
    view_media-direct_reply env moment "c1" web saved-IsKeyed web-IsCoherent

dispatch-IsCoherent_example :
    IsCoherent env
      (dispatch env outside
        (some editor)
        (add_tags "c1" (some ("sea" ∷ [])))
        (view_media env moment "c1" web).1).1
unfolding program stays_coherent view_media view_found read_media cached_media Cache.get
    new_media_cache Cache.new
dispatch-IsCoherent_example =
    dispatch-IsCoherent env outside (some editor) (add_tags "c1" (some ("sea" ∷ [])))
      (view_media env moment "c1" web).1 refl saved-IsKeyed view_media-direct_reply_example.1
