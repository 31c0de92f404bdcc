-- ===== src/Scanner/Rescans.antt =====
-- What a second scan of a file does.
use photo_core.Base.{
  ◌+◌, ◌<◌, String, Bool, true, false, not, ◌||◌, List, Option, some, none, ◌≡◌, refl, sym, ap,
  Result, ok, err, Error, arith, lookup, eq_refl, eq_iff, if◌then◌else◌, Option-cases, Bool-cases,
  Result-cases, inl, inr,
}
use mathlib.Core.Path.{subst}
use photo_core.Storage.Models.{Media, Time}
use photo_core.Storage.Library.{get_media, save_media, soft_delete_media, put_media, is_live}
use photo_core.Storage.Library.Laws.{get_media-save_media, get_media-soft_delete_media}
use photo_core.Storage.Duplicates.{check_duplicate}
use photo_core.Storage.Db.{Env, Store, update}
use photo_core.Scanner.Records.{
  Files, FileInfo, Clock, ScanProgress, entry, keep_old, is_unchanged, is_image_type,
}
use photo_core.Scanner.Files.{
  save_scanned, save_duplicate, count_saved, store_file, update_record, scan_found, scan_file,
  with_metadata, new_media, with_hashes, get_media_by_path, generate_id,
}
use photo_core.Scanner.Counts.{handled}
use photo_core.Scanner.Keys.{key, key-record}

-- The scan leaves such a record alone.
unfoldable pub is_skipped : FileInfo → Media → Bool
is_skipped info m = not (is_live m) || is_unchanged info m

module _ (E : Env) (F : Files) where
  soft_delete_rollback :
      (now : Time) (id : String) (s : Store E) (e : Error)
      → (soft_delete_media E now id s).0 ≡ err e
      → (soft_delete_media E now id s).1 ≡ s
  unfolding soft_delete_media put_media update
  soft_delete_rollback now id s e h = ground arith

  -- What the next scan reads is skipped by it.
  abbrev IsSettled : FileInfo → String → Store E → Type 0
  IsSettled info id t = (m : Media) × (get_media E t id ≡ ok (some m)) × (is_skipped info m ≡ true)

  saved_read :
      (m : Media) (id : String) (s : Store E)
      → m.id ≡ id
      → (save_media E m s).0 ≡ ok tt
      → get_media E (save_media E m s).1 id ≡ ok (some m)
  saved_read m id s k h = ground (arith, (get_media-save_media E m s id h).0, eq_iff m.id id)

  key_skipped :
      (info : FileInfo) (id : String) (m : Media)
      → key m ≡ (id, info.size, info.mod_time, none)
      → is_skipped info m ≡ true
  unfolding is_skipped is_unchanged
  key_skipped info id m k = ground arith

  save_scanned-IsSettled :
      (info : FileInfo) (id : String) (old : Option Media) (m : Media) (p : ScanProgress)
      (s : Store E)
      → key m ≡ (id, info.size, info.mod_time, none)
      → handled p < handled (save_scanned E F old m (p, s)).0
      → IsSettled info id (save_scanned E F old m (p, s)).1
  unfolding save_scanned count_saved handled
  save_scanned-IsSettled info id old m p s k h = elim (Result-cases (save_media E m s).0) [
    | inl (u, e) ↦ (m, saved_read m id s (ap (λ x. x.0) k) e, key_skipped info id m k)
    | inr (f, e) ↦ absurd (ground arith)
  ]

  trashed_skipped :
      (info : FileInfo) (m : Media) (now : Time)
      → is_skipped info (record m { deleted_at = some now }) ≡ true
  unfolding is_skipped
  trashed_skipped info m now = refl

  -- Whether or not the duplicate gets to the trash.
  soft_delete_media-IsSettled :
      (info : FileInfo) (now : Time) (d : Media) (s : Store E)
      → get_media E s d.id ≡ ok (some d)
      → is_skipped info d ≡ true
      → IsSettled info d.id (soft_delete_media E now d.id s).1
  soft_delete_media-IsSettled info now d s found skipped =
      elim (Result-cases (soft_delete_media E now d.id s).0) [
        | inl (v, f) ↦ (
          record d { deleted_at = some now },
          ground
              (arith, get_media-soft_delete_media E now d.id s d d.id found refl f, eq_refl d.id),
          trashed_skipped info d now,
        )
        | inr (x, f) ↦ (d, rw (soft_delete_rollback now d.id s x f) found, skipped)
      ]

  save_duplicate-IsSettled :
      (info : FileInfo) (id : String) (now : Time) (original : String) (m : Media)
      (p : ScanProgress) (s : Store E)
      → key m ≡ (id, info.size, info.mod_time, none)
      → handled p < handled (save_duplicate E F now original m (p, s)).0
      → IsSettled info id (save_duplicate E F now original m (p, s)).1
  unfolding save_duplicate handled
  save_duplicate-IsSettled info id now original m p s k h =
      let d : Media = record m { duplicate_of = original } in
      elim (Result-cases (save_media E d s).0) [
        | inl (u, e) ↦
            rw (e, save_duplicate)
              (subst (λ i. IsSettled info i (soft_delete_media E now m.id (save_media E d s).1).1)
                (ap (λ x. x.0) k)
                (soft_delete_media-IsSettled info now d (save_media E d s).1
                  (saved_read d m.id s refl e) (key_skipped info id d k)))
        | inr (f, e) ↦ absurd (ground arith)
      ]

  either-IsSettled :
      (info : FileInfo) (id : String) (p : ScanProgress) (test : Bool)
      (a b : ScanProgress × Store E)
      → (handled p < handled a.0 → IsSettled info id a.1)
      → (handled p < handled b.0 → IsSettled info id b.1)
      → handled p < handled (if test then a else b).0
      → IsSettled info id (if test then a else b).1
  either-IsSettled info id p true a b f g h = f h
  either-IsSettled info id p false a b f g h = g h

  store_file-IsSettled :
      (info : FileInfo) (id : String) (now : Clock) (old : Option Media) (m : Media)
      (p : ScanProgress) (s : Store E)
      → key m ≡ (id, info.size, info.mod_time, none)
      → handled p < handled (store_file E F now old m (p, s)).0
      → IsSettled info id (store_file E F now old m (p, s)).1
  unfolding store_file
  store_file-IsSettled info id now (some old) m p s k h =
      save_scanned-IsSettled info id (some old) m p s k h
  store_file-IsSettled info id now none m p s k h =
      let found =
        check_duplicate F.min_size F.max_size E s m.size m.checksum m.image_hash
          (is_image_type m.type) 10 in
      either-IsSettled info id p found.is_duplicate
        (save_duplicate E F now.trashed found.existing_id m (p, s)) (save_scanned E F none m (p, s))
        (save_duplicate-IsSettled info id now.trashed found.existing_id m p s k)
        (save_scanned-IsSettled info id none m p s k) h

  update_record-IsSettled :
      (abs_path path : String) (info : FileInfo) (type : String) (now : Clock) (old : Option Media)
      (p q : ScanProgress) (s t : Store E)
      → update_record E F abs_path path info type now old (p, s) ≡ some (q, t)
      → handled p < handled q
      → IsSettled info (generate_id E F path) t
  unfolding update_record
  update_record-IsSettled abs_path path info type now old p q s t h more =
      elim (Option-cases (
        with_metadata E F old
          (keep_old E.year old (new_media E F abs_path path info type now.created)))) [
            | inl e ↦ absurd (ground arith)
            | inr (m, e) ↦
                let done : store_file E F now old (with_hashes E F m) (p, s) ≡ (q, t) =
                  ground arith in
                subst
                  (λ (r : ScanProgress × Store E).
                    handled p < handled r.0 → IsSettled info (generate_id E F path) r.1)
                  done
                  (store_file-IsSettled info (generate_id E F path) now old (with_hashes E F m) p s
                    (key-record E F abs_path path info type now.created old m e))
                  more
          ]

  scan_found-IsSettled :
      (abs_path path : String) (info : FileInfo) (type : String) (now : Clock)
      (r : Result (Option Media)) (p q : ScanProgress) (s t : Store E)
      → scan_found E F abs_path path info type now r (p, s) ≡ some (q, t)
      → handled p < handled q
      → IsSettled info (generate_id E F path) t
  unfolding scan_found handled is_skipped is_unchanged
  scan_found-IsSettled abs_path path info type now (err e) p q s t h more = absurd (ground arith)
  scan_found-IsSettled abs_path path info type now (ok none) p q s t h more =
      update_record-IsSettled abs_path path info type now none p q s t h more
  scan_found-IsSettled abs_path path info type now (ok (some old)) p q s t h more =
      elim (Bool-cases (is_skipped info old)) [
        | inl e ↦ absurd (ground arith)
        | inr e ↦
            update_record-IsSettled abs_path path info type now (some old) p q s t (ground arith)
              more
      ]

  skipped_again :
      (abs_path path : String) (info : FileInfo) (type : String) (now : Clock) (m : Media)
      (state : ScanProgress × Store E)
      → is_skipped info m ≡ true
      → scan_found E F abs_path path info type now (ok (some m)) state ≡ some state
  unfolding scan_found is_skipped
  skipped_again abs_path path info type now m state h = ground arith

  -- A file that a scan counted as new, as updated or as a skipped duplicate is left alone by the
  -- next scan of it, if the file did not change: only TotalFiles, Scanned and CurrentPath move.
  pub scan_file-scan_file :
      (extensions : List (String × String)) (abs_path path : String) (info : FileInfo)
      (now later : Clock) (p q r : ScanProgress) (s t : Store E)
      → scan_file E F extensions abs_path (entry path info now) (p, s) ≡ some (q, t)
      → p.new_files + p.updated_files + p.skipped_duplicates
        < q.new_files + q.updated_files + q.skipped_duplicates
      → scan_file E F extensions abs_path (entry path info later) (r, t)
        ≡ some (
          record r {
            total_files = r.total_files + 1;
            scanned = r.scanned + 1;
            current_path = path;
          },
          t,
        )
  unfolding scan_file handled get_media_by_path
  scan_file-scan_file extensions abs_path path info now later p q r s t h more =
      elim (Bool-cases info.is_dir) [
        | inl e ↦ absurd (ground arith)
        | inr e ↦ elim (Option-cases (lookup (E.to_lower (F.ext_of path)) extensions)) [
          | inl f ↦ absurd (ground arith)
          | inr (type, f) ↦
              let p' : ScanProgress = record p {
                total_files = p.total_files + 1;
                scanned = p.scanned + 1;
                current_path = path;
              } in
              let (m, found, skipped) =
                scan_found-IsSettled abs_path path info type now (get_media_by_path E F s path) p' q
                  s t (rw (← h) (sym (rw (e, f) refl))) more in
              rw (e, f, found) (skipped_again abs_path path info type later m _ skipped)
        ]
      ]
