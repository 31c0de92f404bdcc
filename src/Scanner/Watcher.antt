-- ===== src/Scanner/Watcher.antt =====
-- internal/scanner/watcher.go: the events of the file system, grouped by their path until two seconds
-- pass without one. What os.Stat says and the directories that filepath.Walk meets are arguments.
pub mod Deliveries
use photo_core.Base.{
  ℕ, ◌+◌, ◌*◌, String, Bool, true, false, ◌&&◌, ◌||◌, not, List, [], ◌∷◌, ◌++◌, Option, some, none,
  ◌==◌, any, select, map, if◌then◌else◌, insert, starts_with,
}
use photo_core.Storage.Models.{Time}
use photo_core.Scanner.Records.{ExtensionsConfig}

pub record FileEvent : Type 0 where
  pub path : String
  pub operation : String
  pub is_dir : Bool
  pub time : Time

-- fsnotify.Event, by the bits of its Op.
pub record FsEvent : Type 0 where
  pub name : String
  pub create : Bool
  pub write : Bool
  pub remove : Bool
  pub rename : Bool

-- What surrounds an event: the two calls of os.Stat of its path (`none` is an error, else IsDir), the
-- directories under it as (path, name), and time.Now in nanoseconds.
pub record Surroundings : Type 0 where
  pub stat : Option Bool
  pub stat_again : Option Bool
  pub dirs : List (String × String)
  pub now : Time

-- `handlers` are the numbers of the handlers, in the order in which they were added; `stopped` says
-- that stopChan is closed, `debounce_timer` when the timer calls processPendingEvents; `watched` are
-- the paths that were passed to the Add of the fsnotify watcher.
pub record Watcher : Type 0 where
  pub extensions : ExtensionsConfig
  pub handlers : List ℕ
  pub running : Bool
  pub stopped : Bool
  pub pending_events : List (String × FileEvent)
  pub debounce_timer : Option Time
  pub watched : List String

unfoldable pub new_watcher : ExtensionsConfig → Watcher
new_watcher extensions = record {
  extensions = extensions;
  handlers = [];
  running = false;
  stopped = false;
  pending_events = [];
  debounce_timer = none;
  watched = [];
}

unfoldable pub add_handler : ℕ → Watcher → Watcher
add_handler h w = record w { handlers = w.handlers ++ h ∷ [] }

-- AllExtensions
unfoldable pub all_extensions : ExtensionsConfig → List String
all_extensions c = c.images ++ (c.videos ++ c.raw)

unfoldable pub is_supported_extension : String → ExtensionsConfig → Bool
unfolding all_extensions
is_supported_extension ext c = any (λ e. e == ext) (all_extensions c)

-- addRecursive over the directories that the walk meets; below a hidden one the walk does not go.
unfoldable pub add_recursive : String → List (String × String) → Watcher → Watcher
add_recursive root dirs w = record w {
  watched =
      w.watched
      ++ map (λ d. d.0) (select (λ d. not (starts_with d.1 "." && not (d.0 == root))) dirs);
}

-- The switch over the operation; `none` is its default.
unfoldable pub operation_of : FsEvent → Option String
operation_of event =
    if event.create
    then some "create"
    else if event.write
    then some "modify"
    else if event.remove
    then some "delete"
    else if event.rename
    then some "rename"
    else none

-- The event is kept if its extension is supported or it is about a directory.
unfoldable pub is_relevant : (String → String) → ExtensionsConfig → FsEvent → Surroundings → Bool
unfolding is_supported_extension
is_relevant ext_of c event around =
    is_supported_extension (ext_of event.name) c
    || elim around.stat [ none ↦ false | some dir ↦ dir ]

abbrev pub is_directory : Option Bool → Bool
is_directory none = false
is_directory (some dir) = dir

-- The event that is kept, if it is; `ext_of` is the extension in lower case.
unfoldable pub accepted :
    (String → String) → ExtensionsConfig → FsEvent → Surroundings → Option FileEvent
unfolding is_relevant operation_of
accepted ext_of c event around = elim (operation_of event) [
  | none ↦ none
  | some op ↦
      if is_relevant ext_of c event around
      then some (record {
        path = event.name;
        operation = op;
        is_dir = is_directory around.stat_again;
        time = around.now;
      })
      else none
]

unfoldable pub keep_event : FsEvent → Surroundings → Watcher → Option FileEvent → Watcher
unfolding add_recursive
keep_event event around w none = w
keep_event event around w (some e) =
    let w' =
      if e.is_dir && e.operation == "create" then add_recursive event.name around.dirs w else w in
    record w' {
      pending_events = insert event.name e w.pending_events;
      debounce_timer = some (around.now + 2 * 1_000_000_000);
    }

-- handleFSEvent
unfoldable pub handle_fs_event : (String → String) → FsEvent → Surroundings → Watcher → Watcher
unfolding keep_event accepted
handle_fs_event ext_of event around w =
    keep_event event around w (accepted ext_of w.extensions event around)

-- The calls for one event, in the order of the handlers.
unfoldable pub call_handlers : List ℕ → FileEvent → List (ℕ × FileEvent)
call_handlers handlers e = map (λ h. (h, e)) handlers

unfoldable pub call_all : List ℕ → List (String × FileEvent) → List (ℕ × FileEvent)
unfolding call_handlers
call_all handlers [] = []
call_all handlers ((path, e) ∷ order) = call_handlers handlers e ++ call_all handlers order

-- processPendingEvents; `order` is the order in which Go ranges over a map.
unfoldable pub process_pending_events :
    (List (String × FileEvent) → List (String × FileEvent))
    → Watcher
    → List (ℕ × FileEvent) × Watcher
unfolding call_all
process_pending_events order w = (
  call_all w.handlers (order w.pending_events),
  record w { pending_events = []; debounce_timer = none },
)

-- The media directories whose path can be resolved, with what the walks meet.
unfoldable pub watch_all : List (String × List (String × String)) → Watcher → Watcher
unfolding add_recursive
watch_all [] w = w
watch_all ((root, dirs) ∷ roots) w = watch_all roots (add_recursive root dirs w)

-- Start
unfoldable pub start_watcher : List (String × List (String × String)) → Watcher → Watcher
unfolding watch_all
start_watcher roots w = if w.running then w else watch_all roots (record w { running = true })

-- Stop. `none` is the panic of closing a closed channel: Start makes no new one. The timer goes on.
unfoldable pub stop_watcher : Watcher → Option Watcher
stop_watcher w =
    if not w.running
    then some w
    else if w.stopped
    then none
    else some (record w { running = false; stopped = true })
