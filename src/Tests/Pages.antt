-- ===== src/Tests/Pages.antt =====
-- An admin who opens the trash.
use photo_core.Base.{true, some, starts_with, pos}
use photo_core.Storage.Models.{Session, role_admin}
use photo_core.Storage.Db.{Store}
use photo_core.Storage.Library.{save_media}
use photo_core.Web.Pages.{Client}
use photo_core.Web.Pages.Items.{Reading}
use photo_core.Tests.Disk.{env, empty_db}
use photo_core.Tests.Storage.{cat}
use photo_core.Tests.Queries.{readers}
use photo_core.Tests.Sorts.{sorter}

abbrev reading : Reading
reading = record {
  has_text = starts_with;
  minute = λ t. "";
  days_since = λ t. pos 2;
  sorter = sorter;
  sort_texts = λ ts. ts;
  zip_create = λ name. true;
  order = λ gs. gs;
  readers = readers;
}

abbrev admin : Session
admin = record {
  id = "s1";
  user_id = "u1";
  username = "ann";
  role = role_admin;
  created_at = 1;
  expires_at = 9;
}

abbrev client : Client
client = record { hx_request = ""; accept = "text/html"; user_agent = "" }

abbrev with_trash : Store env
with_trash = (save_media env (record cat { deleted_at = some 5 }) empty_db).1
