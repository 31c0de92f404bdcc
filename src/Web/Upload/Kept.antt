-- ===== src/Web/Upload/Kept.antt =====
-- The loop of UploadMedia of internal/web/handlers/handlers.go: what its counters and ids say.
use photo_core.Base.{
  ℕ, suc, ◌+◌, String, Bool, true, false, ◌||◌, List, [], ◌∷◌, ◌++◌, some, ◌≡◌, refl, ap, ◌∙◌, sym,
  ◌==◌, ok, length, length-append, lookup, arith, Bool-cases, inl, inr, contains, contains-append,
}
use mathlib.Core.Path.{subst}
use photo_core.Storage.Models.{Media}
use photo_core.Storage.Db.{Env}
use photo_core.Storage.Library.{get_media}
use photo_core.Cache.Media.{media_key}
use photo_core.Web.Coherence.{IsCoherent}
use photo_core.Web.{Server}
use photo_core.Web.Upload.{Outcome, saved, refused, panicked, Tally, count_upload}
use photo_core.Web.Upload.Loops.{some_inj, SameFiles, Refused, Saved, Did}

-- The counters, when `n` files are left of `all`.
pub record IsCounted (all n : ℕ) (t : Tally) : Type 0 where
  pub sum : t.uploaded + t.errors + n ≡ all
  pub ids : length t.media_ids ≡ t.uploaded

pub count_upload-IsCounted :
    (all n : ℕ) (o : Outcome) (t t' : Tally)
    → count_upload o t ≡ some t'
    → IsCounted all (suc n) t
    → IsCounted all n t'
unfolding count_upload
count_upload-IsCounted all n (saved id) t t' h c = subst (IsCounted all n) (some_inj h) (record {
  sum = omega (arith, c.sum);
  ids = length-append t.media_ids (id ∷ []) ∙ omega (arith, c.ids);
})
count_upload-IsCounted all n refused t t' h c =
    subst (IsCounted all n) (some_inj h) (record { sum = omega (arith, c.sum); ids = c.ids })
count_upload-IsCounted all n panicked t t' h c = cc

module _ (E : Env) where
  -- Each id is that of a record whose file is there, and which no file that is left will overwrite.
  pub record IsStored (id : String) (rest : List String) (st : Server E) : Type 0 where
    pub media : Media
    pub found : get_media E st.web.store id ≡ ok (some media)
    pub there : (bytes : String) × (lookup media.path st.files ≡ some bytes)
    pub apart : contains rest media.path ≡ false

  abbrev pub AllStored : List String → List String → Server E → Type 0
  AllStored ids rest st = (id : String) → contains ids id ≡ true → IsStored id rest st

  -- While nothing is uploaded the cache is coherent; then it will be cleared.
  abbrev pub IsCoherentSoFar : Tally → Server E → Type 0
  IsCoherentSoFar t st = t.uploaded ≡ 0 → IsCoherent E st.web

  pub so_far :
      (path : String) (t t' : Tally) (st : Server E) (r : Outcome × Server E)
      → count_upload r.0 t ≡ some t'
      → Did E path st r
      → IsCoherentSoFar t st
      → IsCoherentSoFar t' r.1
  unfolding IsCoherent count_upload get_media
  so_far path t t' st (saved id, st') c d h nothing =
      absurd (omega (arith, nothing, ap (λ t. t.uploaded) (some_inj c)))
  so_far path t t' st (refused, st') c d h nothing =
      let before = h (ap (λ t. t.uploaded) (some_inj c) ∙ nothing) in
      λ id item there.
        ap (λ s. get_media E s id) d.store
        ∙ before id item (ap (λ c. lookup (media_key id) c.media_cache.items) (sym d.cache) ∙ there)
  so_far path t t' st (panicked, st') c d h nothing = cc

  -- The file of another path, after a file.
  still_there :
      (path other : String) (st st' : Server E)
      → (path == other) ≡ false
      → SameFiles E path st st'
      → (bytes : String) × (lookup other st.files ≡ some bytes)
      → (bytes : String) × (lookup other st'.files ≡ some bytes)
  still_there path other st st' h same (bytes, there) = (bytes, same other h ∙ there)

  or_false : (a b : Bool) → (a || b) ≡ false → (a ≡ false) × (b ≡ false)
  or_false a b h = ground arith

  stored_refused :
      (path : String) (rest ids : List String) (st st' : Server E)
      → Refused E path st st'
      → AllStored ids (path ∷ rest) st
      → AllStored ids rest st'
  unfolding contains
  stored_refused path rest ids st st' d h id c =
      let old = h id c in
      let (apart, later) =
        or_false (path == old.media.path) (contains rest old.media.path) old.apart in
      record {
        media = old.media;
        found = ap (λ s. get_media E s id) d.store ∙ old.found;
        there = still_there path old.media.path st st' apart d.others old.there;
        apart = later;
      }

  stored_saved :
      (path : String) (rest ids : List String) (new : String) (st st' : Server E)
      → contains rest path ≡ false
      → Saved E path new st st'
      → AllStored ids (path ∷ rest) st
      → AllStored (ids ++ new ∷ []) rest st'
  unfolding contains
  stored_saved path rest ids new st st' fresh d h id c = elim (Bool-cases (new == id)) [
    | inl e ↦ record {
      media = d.media;
      found = d.found id ∙ rw e refl;
      there =
          subst (λ x. (bytes : String) × (lookup x st'.files ≡ some bytes)) (sym d.at_path) d.there;
      apart = ap (contains rest) d.at_path ∙ fresh;
    }
    | inr e ↦
        let old = h id (ground (arith, contains-append ids (new ∷ []) id)) in
        let (apart, later) =
          or_false (path == old.media.path) (contains rest old.media.path) old.apart in
        record {
          media = old.media;
          found = d.found id ∙ rw e old.found;
          there = still_there path old.media.path st st' apart d.others old.there;
          apart = later;
        }
  ]

  pub stored :
      (path : String) (rest : List String) (t t' : Tally) (st : Server E) (r : Outcome × Server E)
      → count_upload r.0 t ≡ some t'
      → contains rest path ≡ false
      → Did E path st r
      → AllStored t.media_ids (path ∷ rest) st
      → AllStored t'.media_ids rest r.1
  unfolding count_upload
  stored path rest t t' st (panicked, st') c fresh d h = cc
  stored path rest t t' st (refused, st') c fresh d h =
      subst (λ t. AllStored t.media_ids rest st') (some_inj c)
        (stored_refused path rest t.media_ids st st' d h)
  stored path rest t t' st (saved id, st') c fresh d h =
      subst (λ t. AllStored t.media_ids rest st') (some_inj c)
        (stored_saved path rest t.media_ids id st st' fresh d h)
