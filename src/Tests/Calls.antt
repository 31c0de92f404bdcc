-- ===== src/Tests/Calls.antt =====
-- A viewer who asks for the permanent deletion of a media.
use photo_core.Base.{[], some, ◌≡◌, refl}
use photo_core.Worker.Thumbnails.{new_thumbnail_service}
use photo_core.Web.{Server}
use photo_core.Web.Requests.{permanent_delete}
use photo_core.Web.Shared.{SameLibrary}
use photo_core.Web.Viewers.{is_bulk_favorite}
use photo_core.Web.Calls.{routed, is_open_to_all, dispatch_call, dispatch_call-SameLibrary}
use photo_core.Tests.Disk.{env}
use photo_core.Tests.Images.{imaging}
use photo_core.Tests.Scanner.{files}
use photo_core.Tests.Upload.{config}
use photo_core.Tests.Web.{viewer, outside, web}

abbrev server : Server env
server = record { web = web; thumbs = new_thumbnail_service; files = [] }

dispatch_call-SameLibrary_example :
    SameLibrary env web
      (dispatch_call env imaging files config outside
        (some viewer)
        (routed (permanent_delete "c1"))
        server).1.web
    × ((dispatch_call env imaging files config outside
          (some viewer)
          (routed (permanent_delete "c1"))
          server).1.files
        ≡ [])
unfolding is_bulk_favorite is_open_to_all
dispatch_call-SameLibrary_example =
    dispatch_call-SameLibrary env imaging files config outside viewer
      (routed (permanent_delete "c1")) server refl refl refl
