-- ===== src/Tests/Watcher.antt =====
-- A picture that is created and written, and a file of another kind, with a handler that was added twice.
use photo_core.Base.{String, true, false, List, [], ◌∷◌, some, none, ◌≡◌, refl, ◌==◌, if◌then◌else◌}
use photo_core.Scanner.Records.{ExtensionsConfig}
use photo_core.Scanner.Watcher.{
  accepted, handle_fs_event, FsEvent, Surroundings, Watcher, FileEvent, new_watcher, add_handler,
  start_watcher, process_pending_events,
}
use photo_core.Scanner.Watcher.Deliveries.{
  handle_events, last_kept, copies_of, calls_for, handle_events-process_pending_events,
}

abbrev extensions : ExtensionsConfig
extensions = record { images = ".jpg" ∷ []; videos = []; raw = [] }

abbrev ext_of : String → String
ext_of name = if name == "/m/a.jpg" then ".jpg" else ".txt"

abbrev watcher : Watcher
watcher =
    start_watcher (("/m", ("/m", "m") ∷ []) ∷ [])
      (add_handler 1 (add_handler 2 (add_handler 1 (new_watcher extensions))))

abbrev created : FsEvent
created = record { name = "/m/a.jpg"; create = true; write = false; remove = false; rename = false }

abbrev written : FsEvent
written = record created { create = false; write = true }

abbrev other : FsEvent
other = record created { name = "/m/notes.txt" }

abbrev events : List (FsEvent × Surroundings)
events =
    (created, record { stat = some false; stat_again = some false; dirs = []; now = 10 })
    ∷ (other, record { stat = some false; stat_again = some false; dirs = []; now = 15 })
    ∷ (written, record { stat = some false; stat_again = some false; dirs = []; now = 20 })
    ∷ []

abbrev last_write : FileEvent
last_write = record { path = "/m/a.jpg"; operation = "modify"; is_dir = false; time = 20 }

handle_events_example :
    (calls_for 1 "/m/a.jpg"
        (process_pending_events (λ m. m) (handle_events ext_of events watcher)).0
      ≡ copies_of 1 watcher.handlers (last_kept ext_of watcher.extensions "/m/a.jpg" none events))
    × ((process_pending_events (λ m. m) (handle_events ext_of events watcher)).1.pending_events
        ≡ [])
unfolding start_watcher add_handler new_watcher handle_events handle_fs_event
handle_events_example =
    handle_events-process_pending_events ext_of events watcher (λ m. m) 1 "/m/a.jpg"
      ((refl, tt), λ k. refl) refl

twice :
    copies_of 1 watcher.handlers (last_kept ext_of watcher.extensions "/m/a.jpg" none events)
    ≡ last_write ∷ last_write ∷ []
unfolding start_watcher add_handler new_watcher copies_of last_kept accepted
twice = refl
