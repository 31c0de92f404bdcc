-- ===== src/Tests/Web.antt =====
-- A viewer, and what a request of theirs takes from outside.
use photo_core.Base.{[], none}
use photo_core.Storage.Models.{Session, role_viewer}
use photo_core.Cache.Media.{new_media_cache}
use photo_core.Web.{Web}
use photo_core.Web.Requests.{Outside}
use photo_core.Tests.Disk.{env}
use photo_core.Tests.Storage.{saved}
use photo_core.Tests.Auth.{crypt, cfg}

abbrev pub viewer : Session
viewer = record {
  id = "s1";
  user_id = "u1";
  username = "ann";
  role = role_viewer;
  created_at = 10;
  expires_at = 100;
}

abbrev pub outside : Outside
outside = record {
  crypt = crypt;
  cfg = cfg;
  now = 20;
  expires = 50;
  new_id = "x";
  random = none;
  media_moment = record { now = 20; order = [] };
  stats_moment = record { now = 20; order = [] };
}

abbrev pub web : Web env
web = record { store = saved; cache = new_media_cache; removed = []; thumbs_removed = [] }
