-- ===== src/Web/Upload/Replies.antt =====
-- What a reply of UploadMedia of internal/web/handlers/handlers.go says of the server.
use photo_core.Base.{
  ℕ, String, Bool, true, false, List, [], ◌∷◌, Option, some, none, ◌≡◌, refl, ap, ◌∙◌, sym, arith,
  ltb, Bool-cases, inl, inr, map,
}
use mathlib.Core.Path.{subst}
use photo_core.Storage.Models.{Session, Time}
use photo_core.Storage.Db.{Env}
use photo_core.Scanner.Records.{Files, extensions_of}
use photo_core.Web.{uploads}
use photo_core.Web.Coherence.{IsCoherent, cleared}
use photo_core.Web.{Server}
use photo_core.Web.Upload.{
  UploadConfig, UploadedFile, Tally, count_upload, upload_file, upload_all, upload_reply,
  upload_into, handle_upload, target_path,
}
use photo_core.Web.Upload.Loops.{upload_file-Did, upload_all_inv}
use photo_core.Web.Upload.Kept.{IsCoherentSoFar, so_far}

module _ (E : Env) where
  reply_lem :
      (r : Option Tally × Server E) (n e : ℕ) (ids : List String)
      → (upload_reply E r).0 ≡ uploads n e ids
      → r.0 ≡ some (record { uploaded = n; errors = e; media_ids = ids })
  unfolding upload_reply
  reply_lem (none, st) n e ids h = cc
  reply_lem (some t, st) n e ids h = cc

  upload_reply-IsCoherent :
      (t : Tally) (st : Server E)
      → IsCoherentSoFar E t st
      → IsCoherent E (upload_reply E (some t, st)).1.web
  unfolding upload_reply
  upload_reply-IsCoherent t st h = elim (Bool-cases (ltb 0 t.uploaded)) [
    | inl e ↦ rw e (cleared E st.web)
    | inr e ↦ rw e (h (ground arith))
  ]

module _ (E : Env) (F : Files) (p : UploadConfig) where
  targets : String → Time → List UploadedFile → List String
  targets base now us = map (λ u. target_path p base now u.filename) us

  upload_into_lem :
      (base : String) (bases : List String) (now : Time) (made : Bool) (us : List UploadedFile)
      (st : Server E) (n e : ℕ) (ids : List String)
      → (upload_into E F p now made us (base ∷ bases) st).0 ≡ uploads n e ids
      → upload_into E F p now made us (base ∷ bases) st
        ≡ upload_reply E (
            upload_all E F p
              (extensions_of E.to_lower p.extensions)
              base
              now
              us
              (record { uploaded = 0; errors = 0; media_ids = [] })
              st)
  unfolding upload_into
  upload_into_lem base bases now true us st n e ids h = refl
  upload_into_lem base bases now false us st n e ids h = cc

  handle_upload_lem :
      (base : String) (bases : List String) (now : Time) (made : Bool) (x : Session)
      (us : List UploadedFile) (st : Server E) (n e : ℕ) (ids : List String)
      → p.media_paths ≡ base ∷ bases
      → (handle_upload E F p now made (some x) (some us) st).0 ≡ uploads n e ids
      → handle_upload E F p now made (some x) (some us) st
        ≡ upload_reply E (
            upload_all E F p
              (extensions_of E.to_lower p.extensions)
              base
              now
              us
              (record { uploaded = 0; errors = 0; media_ids = [] })
              st)
  unfolding handle_upload
  handle_upload_lem base bases now made x [] st n e ids paths h = cc
  handle_upload_lem base bases now made x (u ∷ us) st n e ids paths h =
      let into = ap (λ ps. upload_into E F p now made (u ∷ us) ps st) paths in
      into ∙ upload_into_lem base bases now made (u ∷ us) st n e ids (sym (ap (λ r. r.0) into) ∙ h)

  -- What holds between two files of the loop holds where a reply counts the files.
  reply_inv {ℓ} :
      (Holds : List UploadedFile → Tally → Server E → Type ℓ) (base : String) (bases : List String)
      (now : Time) (made : Bool) (x : Session) (us : List UploadedFile) (st : Server E) (n e : ℕ)
      (ids : List String)
      → ((u : UploadedFile) (us : List UploadedFile) (t t' : Tally) (st : Server E)
          → count_upload
              (upload_file E F p (extensions_of E.to_lower p.extensions) base now u st).0
              t
            ≡ some t'
          → Holds (u ∷ us) t st
          → Holds us t' (upload_file E F p (extensions_of E.to_lower p.extensions) base now u st).1)
      → Holds us (record { uploaded = 0; errors = 0; media_ids = [] }) st
      → p.media_paths ≡ base ∷ bases
      → (handle_upload E F p now made (some x) (some us) st).0 ≡ uploads n e ids
      → (st' : Server E) × Holds [] (record { uploaded = n; errors = e; media_ids = ids }) st'
        × ((handle_upload E F p now made (some x) (some us) st).1
            ≡ (upload_reply E (some (record { uploaded = n; errors = e; media_ids = ids }), st')).1)
  reply_inv Holds base bases now made x us st n e ids keep first paths h =
      let none_yet : Tally = record { uploaded = 0; errors = 0; media_ids = [] } in
      let extensions = extensions_of E.to_lower p.extensions in
      let run = upload_all E F p extensions base now us none_yet st in
      let same = handle_upload_lem base bases now made x us st n e ids paths h in
      let tallied = reply_lem E run n e ids (sym (ap (λ r. r.0) same) ∙ h) in
      (
        run.1,
        upload_all_inv E F p Holds extensions base now keep us none_yet _ st tallied first,
        ap (λ r. r.1) same ∙ ap (λ t. (upload_reply E (t, run.1)).1) tallied,
      )

  -- When UploadMedia replies with counts, the media cache is coherent with the database if it was
  -- before.
  pub handle_upload-IsCoherent :
      (base : String) (bases : List String) (now : Time) (made : Bool) (x : Session)
      (us : List UploadedFile) (st : Server E) (n e : ℕ) (ids : List String)
      → p.media_paths ≡ base ∷ bases
      → IsCoherent E st.web
      → (handle_upload E F p now made (some x) (some us) st).0 ≡ uploads n e ids
      → IsCoherent E (handle_upload E F p now made (some x) (some us) st).1.web
  handle_upload-IsCoherent base bases now made x us st n e ids paths coherent h =
      let (st', holds, same) =
        reply_inv (λ us' t s. IsCoherentSoFar E t s) base bases now made x us st n e ids
          (λ u us' t t' s c holds.
            so_far E (target_path p base now u.filename) t t' s _ c
              (upload_file-Did E F p _ base now u s) holds)
          (λ z. coherent) paths h in
      subst (λ s. IsCoherent E s.web) (sym same) (upload_reply-IsCoherent E _ st' holds)
