-- ===== src/Scanner/Counts.antt =====
-- The counters of ScanProgress.
use photo_core.Base.{
  ℕ, ◌+◌, ◌≤◌, String, Bool, true, false, List, [], ◌∷◌, Option, some, none, ◌≡◌, refl, sym, Result,
  ok, err, arith, lookup, Option-cases, Bool-cases, Result-cases, inl, inr, if◌then◌else◌,
}
use mathlib.Core.Path.{subst}
use photo_core.Storage.Models.{Media, Time}
use photo_core.Storage.Library.{save_media}
use photo_core.Storage.Duplicates.{check_duplicate}
use photo_core.Storage.Db.{Env, Store}
use photo_core.Scanner.Records.{
  Files, FileInfo, Clock, ScanProgress, Visit, failed, entry, keep_old, is_image_type,
}
use photo_core.Scanner.Files.{
  count_saved, save_scanned, save_duplicate, store_file, update_record, scan_found, scan_file,
  with_metadata, new_media, with_hashes, get_media_by_path,
}
use photo_core.Scanner.Walks.{
  Scanner, Event, starts, closes, renews, looks, visits, ends, new_scanner, start, close_channel,
  renew_channel, look, locked, is_stopped, after_file, visit_file, finish, step, run,
}

unfoldable pub handled : ScanProgress → ℕ
handled p = p.new_files + p.updated_files + p.skipped_duplicates

-- No file is counted twice.
unfoldable pub IsCounted : ScanProgress → Type 0
IsCounted p = (p.total_files ≡ p.scanned) × (handled p ≤ p.scanned)

-- What the end of a file's scan may add.
unfoldable pub CountsOne : ScanProgress → ScanProgress → Type 0
CountsOne p q =
    (q.total_files ≡ p.total_files) × (q.scanned ≡ p.scanned) × (handled q ≤ handled p + 1)

module _ (E : Env) (F : Files) where
  count_saved_lem :
      (old : Option Media) (r : Result (Unit {0})) (p : ScanProgress)
      → CountsOne p (count_saved E F old r p)
  unfolding count_saved CountsOne handled
  count_saved_lem old (err e) p = (refl, refl, omega arith)
  count_saved_lem none (ok u) p = (refl, refl, omega arith)
  count_saved_lem (some m) (ok u) p = (refl, refl, omega arith)

  save_duplicate_lem :
      (now : Time) (original : String) (m : Media) (p : ScanProgress) (s : Store E)
      → CountsOne p (save_duplicate E F now original m (p, s)).0
  unfolding save_duplicate CountsOne handled
  save_duplicate_lem now original m p s =
      ground (arith, Result-cases (save_media E (record m { duplicate_of = original }) s).0)

  either :
      (p : ScanProgress) (a b : ScanProgress × Store E) (test : Bool)
      → CountsOne p a.0
      → CountsOne p b.0
      → CountsOne p (if test then a else b).0
  either p a b true h k = h
  either p a b false h k = k

  store_file_lem :
      (now : Clock) (old : Option Media) (m : Media) (p : ScanProgress) (s : Store E)
      → CountsOne p (store_file E F now old m (p, s)).0
  unfolding store_file save_scanned save_duplicate
  store_file_lem now (some old) m p s = count_saved_lem (some old) (save_media E m s).0 p
  store_file_lem now none m p s =
      let found =
        check_duplicate F.min_size F.max_size E s m.size m.checksum m.image_hash
          (is_image_type m.type) 10 in
      either p (save_duplicate E F now.trashed found.existing_id m (p, s))
        (save_scanned E F none m (p, s)) found.is_duplicate
        (save_duplicate_lem now.trashed found.existing_id m p s)
        (count_saved_lem none (save_media E m s).0 p)

  update_record_lem :
      (abs_path path : String) (info : FileInfo) (type : String) (now : Clock) (old : Option Media)
      (p q : ScanProgress) (s t : Store E)
      → update_record E F abs_path path info type now old (p, s) ≡ some (q, t)
      → CountsOne p q
  unfolding update_record
  update_record_lem abs_path path info type now old p q s t h =
      elim (Option-cases (
        with_metadata E F old
          (keep_old E.year old (new_media E F abs_path path info type now.created)))) [
            | inl e ↦ absurd (ground arith)
            | inr (m, e) ↦
                subst (λ r. CountsOne p r) (ground arith)
                  (store_file_lem now old (with_hashes E F m) p s)
          ]

  scan_found_lem :
      (abs_path path : String) (info : FileInfo) (type : String) (now : Clock)
      (r : Result (Option Media)) (p q : ScanProgress) (s t : Store E)
      → scan_found E F abs_path path info type now r (p, s) ≡ some (q, t)
      → CountsOne p q
  unfolding scan_found CountsOne handled
  scan_found_lem abs_path path info type now (err e) p q s t h = ground arith
  scan_found_lem abs_path path info type now (ok none) p q s t h =
      update_record_lem abs_path path info type now none p q s t h
  scan_found_lem abs_path path info type now (ok (some old)) p q s t h =
      ground (arith, update_record_lem abs_path path info type now (some old) p q s t)

  handled_next :
      (p p' q : ScanProgress)
      → IsCounted p
      → p'.total_files ≡ p.total_files + 1
      → p'.scanned ≡ p.scanned + 1
      → handled p' ≡ handled p
      → CountsOne p' q
      → IsCounted q
  unfolding IsCounted CountsOne
  handled_next p p' q c a b d h = (omega (arith, c, h, a, b, d), omega (arith, c, h, a, b, d))

  scan_file-IsCounted :
      (extensions : List (String × String)) (abs_path : String) (v : Visit) (p q : ScanProgress)
      (s t : Store E)
      → IsCounted p
      → scan_file E F extensions abs_path v (p, s) ≡ some (q, t)
      → IsCounted q
  unfolding scan_file IsCounted handled
  scan_file-IsCounted extensions abs_path (failed path) p q s t c h = ground arith
  scan_file-IsCounted extensions abs_path (entry path info now) p q s t c h =
      let p' : ScanProgress = record p {
        total_files = p.total_files + 1;
        scanned = p.scanned + 1;
        current_path = path;
      } in
      elim (Bool-cases info.is_dir) [
        | inl e ↦ ground arith
        | inr e ↦ elim (Option-cases (lookup (E.to_lower (F.ext_of path)) extensions)) [
          | inl f ↦ ground arith
          | inr (type, f) ↦ handled_next p p' q c refl refl refl (
              scan_found_lem abs_path path info type now (get_media_by_path E F s path) p' q s t
                (rw (← h) (sym (rw (e, f) refl))))
        ]
      ]

  step-IsCounted :
      (extensions : List (String × String)) (e : Event) (sc sc' : Scanner E)
      → IsCounted sc.progress
      → step E F extensions e sc ≡ some sc'
      → IsCounted sc'.progress
  unfolding step start close_channel renew_channel look locked finish visit_file after_file
      IsCounted handled
  step-IsCounted extensions (starts now) sc sc' c h = ground arith
  step-IsCounted extensions closes sc sc' c h = ground arith
  step-IsCounted extensions renews sc sc' c h = ground arith
  step-IsCounted extensions looks sc sc' c h = ground arith
  step-IsCounted extensions (visits abs_path v) sc sc' c h =
      elim (Bool-cases (is_stopped E F extensions sc)) [
        | inl e ↦ ground arith
        | inr e ↦
            elim (Option-cases (scan_file E F extensions abs_path v (sc.progress, sc.store))) [
              | inl f ↦ ground arith
              | inr ((q, t), f) ↦
                  ground
                    (arith, scan_file-IsCounted extensions abs_path v sc.progress q sc.store t c f)
            ]
      ]
  step-IsCounted extensions ends sc sc' c h = ground arith

  run-IsCounted :
      (extensions : List (String × String)) (events : List Event) (sc sc' : Scanner E)
      → IsCounted sc.progress
      → run E F extensions events sc ≡ some sc'
      → IsCounted sc'.progress
  unfolding run
  run-IsCounted extensions [] sc sc' c h = subst (λ r. IsCounted r) (ground arith) c
  run-IsCounted extensions (e ∷ events) sc sc' c h =
      elim (Option-cases (step E F extensions e sc)) [
        | inl f ↦ absurd (ground arith)
        | inr (next, f) ↦
            run-IsCounted extensions events next sc' (step-IsCounted extensions e sc next c f)
              (ground arith)
      ]

  -- After any run from a new scanner, TotalFiles is Scanned, and the new files, the updated files
  -- and the skipped duplicates are together no more than the files that were scanned.
  pub run-new_scanner_counts :
      (extensions : List (String × String)) (events : List Event) (s : Store E) (sc : Scanner E)
      → run E F extensions events (new_scanner E F extensions s) ≡ some sc
      → (sc.progress.total_files ≡ sc.progress.scanned)
        × (sc.progress.new_files + sc.progress.updated_files + sc.progress.skipped_duplicates
            ≤ sc.progress.scanned)
  unfolding new_scanner IsCounted handled
  run-new_scanner_counts extensions events s sc h =
      run-IsCounted extensions events (new_scanner E F extensions s) sc (refl, omega arith) h
