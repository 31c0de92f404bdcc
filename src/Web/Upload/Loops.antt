-- ===== src/Web/Upload/Loops.antt =====
-- The loop of UploadMedia of internal/web/handlers/handlers.go: what one file does, and the rule for
-- what holds between two files.
use photo_core.Base.{
  ℕ, String, false, List, [], ◌∷◌, Option, some, none, ◌≡◌, refl, ap, ◌∙◌, sym, ◌==◌, if◌then◌else◌,
  Result, ok, err, lookup, insert, lookup-insert, lookup-remove, eq_refl, arith, Option-cases,
  Bool-cases, inl, inr,
}
use mathlib.Core.Path.{subst}
use photo_core.Storage.Models.{Media, Time}
use photo_core.Storage.Db.{Env, Store}
use photo_core.Storage.Library.{save_media, get_media}
use photo_core.Storage.Library.Laws.{get_media-save_media, save_media_rollback}
use photo_core.Scanner.Records.{Files}
use photo_core.Scanner.Files.{with_hashes}
use photo_core.Scanner.Keys.{place-with_metadata, place-with_hashes}
use photo_core.Web.{Server}
use photo_core.Web.Upload.{
  UploadConfig, UploadedFile, Outcome, saved, refused, panicked, Tally, count_upload, saved_upload,
  store_upload, stat_upload, typed_upload, drop_upload, write_upload, upload_file, upload_all,
  files_at, upload_record, target_path, with_duplicate, mark_duplicate,
}

module _ (E : Env) where
  -- The files under other paths are as before.
  abbrev pub SameFiles : String → Server E → Server E → Type 0
  SameFiles path st st' =
      (k : String) → (path == k) ≡ false → lookup k st'.files ≡ lookup k st.files

  -- A file that is refused leaves the media and the caches.
  pub record Refused (path : String) (st st' : Server E) : Type 0 where
    pub store : st'.web.store ≡ st.web.store
    pub cache : st'.web.cache ≡ st.web.cache
    pub others : SameFiles path st st'

  -- A file that is saved is there under its path, with a record that names it.
  pub record Saved (path id : String) (st st' : Server E) : Type 0 where
    pub media : Media
    pub named : media.id ≡ id
    pub at_path : media.path ≡ path
    pub found :
        (j : String)
        → get_media E st'.web.store j
          ≡ (if id == j then ok (some media) else get_media E st.web.store j)
    pub there : (bytes : String) × (lookup path st'.files ≡ some bytes)
    pub others : SameFiles path st st'

  abbrev pub Did : String → Server E → Outcome × Server E → Type 0
  Did path st (saved id, st') = Saved path id st st'
  Did path st (refused, st') = Refused path st st'
  Did path st (panicked, st') = Unit {0}

  drop_upload-Refused : (path : String) (st : Server E) → Refused path st (drop_upload E path st).1
  unfolding drop_upload
  drop_upload-Refused path st = record {
    store = refl;
    cache = refl;
    others = λ k h. lookup-remove path k st.files ∙ rw h refl;
  }

  saved_upload-Did :
      (path : String) (u : UploadedFile) (m : Media) (st : Server E)
      (r : Result (Unit {0}) × Store E)
      → save_media E m st.web.store ≡ r
      → m.path ≡ path
      → (bytes : String) × (lookup path st.files ≡ some bytes)
      → Did path st (saved_upload E path u m r st)
  unfolding saved_upload
  saved_upload-Did path u m st (err e, s) h at there = record {
    store = sym (ap (λ r. r.1) h) ∙ save_media_rollback E m st.web.store e (ap (λ r. r.0) h);
    cache = refl;
    others = λ k h. lookup-remove path k st.files ∙ rw h refl;
  }
  saved_upload-Did path u m st (ok done, s) h at there = record {
    media = m;
    named = refl;
    at_path = at;
    found = λ j.
        ap (λ r. get_media E r.1 j) (sym h)
        ∙ (get_media-save_media E m st.web.store j (ap (λ r. r.0) h)).0;
    there = there;
    others = λ k h. refl;
  }

  -- Before what was done to the file, it was written.
  Did-written :
      (path bytes : String) (st : Server E) (r : Outcome × Server E)
      → Did path (record st { files = insert path bytes st.files }) r
      → Did path st r
  Did-written path bytes st (saved id, st') d = record {
    media = d.media;
    named = d.named;
    at_path = d.at_path;
    found = d.found;
    there = d.there;
    others = λ k h. d.others k h ∙ lookup-insert path k bytes st.files ∙ rw h refl;
  }
  Did-written path bytes st (refused, st') d = record {
    store = d.store;
    cache = d.cache;
    others = λ k h. d.others k h ∙ lookup-insert path k bytes st.files ∙ rw h refl;
  }
  Did-written path bytes st (panicked, st') d = tt

  untouched : (path : String) (st : Server E) → Refused path st st
  untouched path st = record { store = refl; cache = refl; others = λ k h. refl }

pub some_inj : {t t' : Tally} → ◌≡◌ {A = Option Tally} (some t) (some t') → t ≡ t'
some_inj e = cc

module _ (E : Env) (F : Files) (p : UploadConfig) where
  path-with_duplicate :
      (now : Time) (s : Store E) (m : Media) → (with_duplicate E F p now s m).path ≡ m.path
  unfolding with_duplicate mark_duplicate
  path-with_duplicate now s m = ground arith

  store_upload-Did :
      (path : String) (now : Time) (u : UploadedFile) (made : Option Media) (st : Server E)
      → ((m : Media) → made ≡ some m → m.path ≡ path)
      → (bytes : String) × (lookup path st.files ≡ some bytes)
      → Did E path st (store_upload E F p path now u made st)
  unfolding store_upload
  store_upload-Did path now u none st at there = tt
  store_upload-Did path now u (some m) st at there =
      saved_upload-Did E path u _ st _ refl
        (path-with_duplicate now st.web.store (with_hashes E (files_at F u) m)
          ∙ ap (λ x. x.1) (place-with_hashes E (files_at F u) m)
          ∙ at m refl)
        there

  stat_upload-Did :
      (base : String) (now : Time) (u : UploadedFile) (type : String) (stat : Option (ℕ × Time))
      (st : Server E)
      → (bytes : String) × (lookup (target_path p base now u.filename) st.files ≡ some bytes)
      → Did E (target_path p base now u.filename) st (stat_upload E F p base now u type stat st)
  unfolding stat_upload upload_record
  stat_upload-Did base now u type none st there = drop_upload-Refused E _ st
  stat_upload-Did base now u type (some stat) st there =
      store_upload-Did _ now u _ st
        (λ m e.
          ap (λ x. x.1)
            (place-with_metadata E (files_at F u) none (upload_record E F p base now u type stat) m
              e))
        there

  write_upload-Did :
      (base : String) (now : Time) (u : UploadedFile) (type : String) (st : Server E)
      → Did E (target_path p base now u.filename) st (write_upload E F p base now u type st)
  unfolding write_upload
  write_upload-Did base now u type st =
      let path = target_path p base now u.filename in
      let st' = record st { files = insert path u.written st.files } in
      let there = lookup-insert path path u.written st.files ∙ rw (eq_refl path) refl in
      Did-written E path u.written st _ (elim (Bool-cases u.copies) [
        | inl e ↦ rw e (stat_upload-Did base now u type u.stat st' (u.written, there))
        | inr e ↦ rw e (drop_upload-Refused E path st')
      ])

  typed_upload-Did :
      (base : String) (now : Time) (u : UploadedFile) (type : Option String) (st : Server E)
      → Did E (target_path p base now u.filename) st (typed_upload E F p base now u type st)
  unfolding typed_upload
  typed_upload-Did base now u none st = untouched E _ st
  typed_upload-Did base now u (some type) st = elim (Bool-cases u.opens) [
    | inr e ↦ rw e (untouched E _ st)
    | inl e ↦ rw e (elim (Bool-cases u.creates) [
      | inr e' ↦ rw e' (untouched E _ st)
      | inl e' ↦ rw e' (write_upload-Did base now u type st)
    ])
  ]

  pub upload_file-Did :
      (extensions : List (String × String)) (base : String) (now : Time) (u : UploadedFile)
      (st : Server E)
      → Did E (target_path p base now u.filename) st (upload_file E F p extensions base now u st)
  unfolding upload_file
  upload_file-Did extensions base now u st = typed_upload-Did base now u _ st

  -- What holds before the loop and is kept by each file holds after the loop.
  pub upload_all_inv {ℓ} :
      (Holds : List UploadedFile → Tally → Server E → Type ℓ) (extensions : List (String × String))
      (base : String) (now : Time)
      → ((u : UploadedFile) (us : List UploadedFile) (t t' : Tally) (st : Server E)
          → count_upload (upload_file E F p extensions base now u st).0 t ≡ some t'
          → Holds (u ∷ us) t st
          → Holds us t' (upload_file E F p extensions base now u st).1)
      → (us : List UploadedFile) (t t' : Tally) (st : Server E)
      → (upload_all E F p extensions base now us t st).0 ≡ some t'
      → Holds us t st
      → Holds [] t' (upload_all E F p extensions base now us t st).1
  unfolding upload_all
  upload_all_inv Holds extensions base now keep [] t t' st e h =
      subst (λ t. Holds [] t st) (some_inj e) h
  upload_all_inv Holds extensions base now keep (u ∷ us) t t' st e h =
      let (outcome, st') = upload_file E F p extensions base now u st in
      elim (Option-cases (count_upload outcome t)) [
        | inl c ↦ absurd (ground (arith, c))
        | inr (t'', c) ↦
            let same : upload_all E F p extensions base now (u ∷ us) t st
                ≡ upload_all E F p extensions base now us t'' st' =
              ground (arith, c) in
            rw same (
              upload_all_inv Holds extensions base now keep us t'' t' st'
                (sym (ap (λ r. r.0) same) ∙ e) (keep u us t t'' st c h))
      ]
