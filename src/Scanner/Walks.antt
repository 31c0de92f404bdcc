-- ===== src/Scanner/Walks.antt =====
-- internal/scanner/scanner.go: Start, Stop and the walk. The scan runs beside the callers of Start and
-- Stop, so a run is a sequence of their steps. Stop closes the channel and replaces it under the
-- lock, which the select of the scan does not take: these are two steps, and so are the reading of
-- s.stopChan by a select and its receive. Who needs the lock meanwhile takes its step later.
-- `stop_chan` is the number of the channel that s.stopChan holds, `closed` lists those that were
-- closed, `stopping` says that a Stop stands between its two steps, and `looked` is the channel that
-- the last select read.
use photo_core.Base.{
  ℕ, ◌+◌, String, Bool, true, false, List, [], ◌∷◌, Option, some, none, eqb, if◌then◌else◌, any,
}
use photo_core.Storage.Models.{Time}
use photo_core.Storage.Db.{Env, Store}
use photo_core.Scanner.Records.{Files, Visit, ScanProgress}
use photo_core.Scanner.Files.{scan_file}

pub record Scanner (E : Env) : Type 0 where
  pub scanning : Bool
  pub progress : ScanProgress
  pub stop_chan : ℕ
  pub closed : List ℕ
  pub stopping : Bool
  pub looked : ℕ
  pub store : Store E

unfoldable pub started_progress : Time → ScanProgress
started_progress now = record {
  running = true;
  started_at = now;
  total_files = 0;
  scanned = 0;
  new_files = 0;
  updated_files = 0;
  skipped_duplicates = 0;
  errors = 0;
  current_path = "";
}

-- A step of a run: Start; the close and the make of Stop; a select that reads the field, and the
-- rest of the call of the walk's function under a root; the end of scan.
pub data Event : Type 0 where
  starts : Time → Event
  closes renews looks : Event
  visits : String → Visit → Event
  ends : Event

module _ (E : Env) (F : Files) (extensions : List (String × String)) where
  -- NewScanner
  unfoldable pub new_scanner : Store E → Scanner E
  new_scanner s = record {
    scanning = false;
    progress = record {
      running = false;
      started_at = 0;
      total_files = 0;
      scanned = 0;
      new_files = 0;
      updated_files = 0;
      skipped_duplicates = 0;
      errors = 0;
      current_path = "";
    };
    stop_chan = 0;
    closed = [];
    stopping = false;
    looked = 0;
    store = s;
  }

  -- Start; a scan in progress is the error.
  unfoldable pub start : Time → Scanner E → Bool × Scanner E
  unfolding started_progress
  start now sc =
      if sc.scanning
      then (false, sc)
      else (true, record sc { scanning = true; progress = started_progress now })

  -- Stop: the channel is closed,
  unfoldable pub close_channel : Scanner E → Scanner E
  close_channel sc =
      if sc.scanning then record sc { closed = sc.stop_chan ∷ sc.closed; stopping = true } else sc

  -- and replaced.
  unfoldable pub renew_channel : Scanner E → Scanner E
  renew_channel sc =
      if sc.stopping then record sc { stop_chan = sc.stop_chan + 1; stopping = false } else sc

  unfoldable pub look : Scanner E → Scanner E
  look sc = record sc { looked = sc.stop_chan }

  -- `case <-s.stopChan`: whether the channel that was read is closed at the receive.
  unfoldable pub is_stopped : Scanner E → Bool
  is_stopped sc = any (eqb sc.looked) sc.closed

  unfoldable pub after_file : Scanner E → Option (ScanProgress × Store E) → Option (Scanner E)
  after_file sc none = none
  after_file sc (some (p, s)) = some (record sc { progress = p; store = s })

  -- The function of the walk: where the select receives, the walk of the root ends. `none` is a
  -- panic.
  unfoldable pub visit_file : String → Visit → Scanner E → Option (Scanner E)
  unfolding after_file
  visit_file abs_path v sc =
      if is_stopped sc
      then some sc
      else after_file sc (scan_file E F extensions abs_path v (sc.progress, sc.store))

  -- The deferred function of scan.
  unfoldable pub finish : Scanner E → Scanner E
  finish sc = record sc { scanning = false; progress = record sc.progress { running = false } }

  -- A step that needs the lock.
  unfoldable pub locked : Scanner E → Scanner E → Scanner E
  locked sc sc' = if sc.stopping then sc else sc'

  unfoldable pub step : Event → Scanner E → Option (Scanner E)
  unfolding start close_channel renew_channel look visit_file finish is_stopped locked
  step (starts now) sc = some (locked sc (start now sc).1)
  step closes sc = some (locked sc (close_channel sc))
  step renews sc = some (renew_channel sc)
  step looks sc = some (look sc)
  step (visits abs_path v) sc = visit_file abs_path v sc
  step ends sc = some (locked sc (finish sc))

  unfoldable pub run : List Event → Scanner E → Option (Scanner E)
  unfolding step
  run [] sc = some sc
  run (e ∷ events) sc = elim (step e sc) [ none ↦ none | some sc' ↦ run events sc' ]
