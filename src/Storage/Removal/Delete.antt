-- ===== src/Storage/Removal/Delete.antt =====
-- DeleteMedia and CleanupTrash as a whole.
use photo_core.Base.{
  ℕ, ◌+◌, ◌≤◌, String, Bool, false, List, [], ◌∷◌, some, none, ◌≡◌, ◌==◌, eq_refl, if◌then◌else◌,
  Error, ok, err, arith, Bool-cases, inl, inr, ◌⊎◌, contains, contains-without, loaded-cases,
  Result-cases, sym, refl, length, ◌∙◌, ap, ◌-◌, ◌&&◌, ◌||◌, select,
}
use mathlib.Core.Path.{subst}
use photo_core.Storage.Models.{Media, Time}
use photo_core.Storage.Db.{Env, Store}
use photo_core.Storage.Db.Laws.{load-delete}
use photo_core.Storage.Index.{stored_ids, remove_from_index, IsReadable}
use photo_core.Storage.Index.Laws.{stored_ids-remove_from_index}
use photo_core.Storage.Library.{get_media, list_trash_media}
use photo_core.Storage.Albums.Laws.{in_album}
use photo_core.Storage.Favorites.{global}
use photo_core.Storage.Removal.{
  drop_record, drop_references, delete_media, cleanup, cleanup_trash, is_older,
}
use photo_core.Storage.Removal.Conditions.{AcceptsWrites, IsSound}
use photo_core.Storage.Removal.Laws.{
  drop_references-media, Unreferenced, drop_references-Unreferenced, in_album-albums,
}

module _ (E : Env) where
  drop_record-parts :
      (m : Media) (id : String) (s : Store E)
      → (drop_record E m id s).0 ≡ ok tt
      → let t = (drop_record E m id s).1 in
        (remove_from_index E.disk E.names_json s.idx_dir m.dir id ≡ ok t.idx_dir)
        × (t.media ≡ E.disk.delete s.media id)
        × (t.albums ≡ s.albums)
        × (t.favorites ≡ s.favorites)
        × (t.userfav ≡ s.userfav)
  unfolding drop_record
  drop_record-parts m id s h = ground arith

  drop_record_rollback :
      (m : Media) (id : String) (s : Store E) (e : Error)
      → (drop_record E m id s).0 ≡ err e
      → (drop_record E m id s).1 ≡ s
  unfolding drop_record
  drop_record_rollback m id s e h = ground arith

  delete_media-missing :
      (id : String) (s : Store E)
      → (get_media E s id ≡ ok none) ⊎ ((e : Error) × (get_media E s id ≡ err e))
      → (delete_media E id s).1 ≡ s
  unfolding delete_media
  delete_media-missing id s h = ground arith

  get_media-deleted :
      (s t : Store E) (id j : String)
      → t.media ≡ E.disk.delete s.media id
      → get_media E t j ≡ (if id == j then ok none else get_media E s j)
  unfolding get_media
  get_media-deleted s t id j e = rw e (load-delete E.disk E.media_json (λ m. m.id) s.media id j)

  get_media-media :
      (s t : Store E) (j : String) → t.media ≡ s.media → get_media E t j ≡ get_media E s j
  unfolding get_media
  get_media-media s t j e = ground arith

  -- What is true of the database after a DeleteMedia of `m`.
  pub record IsGone (m : Media) (id : String) (s t : Store E) : Type 0 where
    pub record_gone :
        (j : String) → get_media E t j ≡ (if id == j then ok none else get_media E s j)
    pub no_album : (k : String) → in_album E t k id ≡ false
    pub no_favorite : contains (stored_ids E.disk E.names_json t.favorites global) id ≡ false
    pub no_user : (u : String) → contains (stored_ids E.disk E.names_json t.userfav u) id ≡ false
    pub no_dir : contains (stored_ids E.disk E.names_json t.idx_dir m.dir) id ≡ false

  drop_record-IsGone :
      (m : Media) (id : String) (s t : Store E)
      → Unreferenced E id s t
      → IsReadable E.disk E.names_json s.idx_dir
      → (drop_record E m id t).0 ≡ ok tt
      → IsGone m id s (drop_record E m id t).1
  drop_record-IsGone m id s t u dirs h =
      let (dir, media, albums, favorites, userfav) = drop_record-parts m id t h in
      let t' = (drop_record E m id t).1 in
      record {
        record_gone =
            λ j. ground (arith, get_media-deleted t t' id j media, get_media-media s t j u.media);
        no_album = λ k. in_album-albums E t t' k id albums ∙ u.albums k;
        no_favorite = rw favorites u.favorites;
        no_user = λ v. rw userfav (u.users v);
        no_dir = ground (
          arith,
          eq_refl m.dir,
          eq_refl id,
          stored_ids-remove_from_index E.disk E.names_json t.idx_dir t'.idx_dir m.dir id m.dir
              (subst (IsReadable E.disk E.names_json) (sym u.idx_dir) dirs) dir,
          contains-without id (stored_ids E.disk E.names_json t.idx_dir m.dir) id,
        );
      }

  delete_media-eq :
      (id : String) (s : Store E) (m : Media)
      → get_media E s id ≡ ok (some m)
      → delete_media E id s ≡ drop_record E m id (drop_references E m id s)
  unfolding delete_media
  delete_media-eq id s m found = rw (found, delete_media)

  -- After a DeleteMedia that succeeds on a media that is there, GetMedia no longer finds it and
  -- finds every other media as before; it is in no album, in no favorites, global or of a user, and
  -- not in the index of its directory. The database must take the writes of the earlier steps,
  -- whose errors DeleteMedia drops, and be sound before.
  pub delete_media-IsGone :
      (id : String) (s : Store E) (m : Media)
      → AcceptsWrites E
      → IsSound E s
      → get_media E s id ≡ ok (some m)
      → (delete_media E id s).0 ≡ ok tt
      → IsGone m id s (delete_media E id s).1
  delete_media-IsGone id s m accepts sound found h =
      let e = delete_media-eq id s m found in
      rw e (
        drop_record-IsGone m id s (drop_references E m id s)
          (drop_references-Unreferenced E accepts m id s sound) sound.dirs (rw e at h))

  drop_record-media :
      (m : Media) (id : String) (s : Store E)
      → ((drop_record E m id s).1.media ≡ s.media)
        ⊎ ((drop_record E m id s).1.media ≡ E.disk.delete s.media id)
  drop_record-media m id s = elim (Result-cases (drop_record E m id s).0) [
    | inl (tt, done) ↦ inr (drop_record-parts m id s done).1
    | inr (e, failed) ↦ inl (ap (λ (t : Store E). t.media) (drop_record_rollback m id s e failed))
  ]

  -- Whatever DeleteMedia comes to, it leaves the records of all other ids.
  get_media-delete_media_ne :
      (id : String) (s : Store E) (j : String)
      → (id == j) ≡ false
      → get_media E (delete_media E id s).1 j ≡ get_media E s j
  get_media-delete_media_ne id s j other = elim (loaded-cases (get_media E s id)) [
    | inl missing ↦ ap (λ (t : Store E). get_media E t j) (delete_media-missing id s missing)
    | inr (m, found) ↦ rw (delete_media-eq id s m found) (
        let t = drop_references E m id s in
        let same = get_media-media s t j (drop_references-media E m id s) in
        elim (drop_record-media m id t) [
          | inl kept ↦ get_media-media t _ j kept ∙ same
          | inr gone ↦ ground (arith, get_media-deleted t (drop_record E m id t).1 id j gone, same)
        ])
  ]

  -- A record of the list is older than the cutoff and has the id.
  unfoldable pub is_doomed : Time → String → List Media → Bool
  is_doomed cutoff j [] = false
  is_doomed cutoff j (m ∷ ms) = (is_older E cutoff m && m.id == j) || is_doomed cutoff j ms

  cleanup-keeps :
      (cutoff : Time) (l : List Media) (n : ℕ) (s : Store E) (j : String)
      → is_doomed cutoff j l ≡ false
      → get_media E (cleanup E cutoff l n s).1 j ≡ get_media E s j
  unfolding cleanup is_doomed
  cleanup-keeps cutoff [] n s j h = refl
  cleanup-keeps cutoff (m ∷ ms) n s j h = elim (Bool-cases (is_older E cutoff m)) [
    | inl old ↦
        rw (old, cleanup)
          (cleanup-keeps cutoff ms _ _ j (ground arith)
            ∙ get_media-delete_media_ne m.id s j (ground arith))
    | inr young ↦ rw (young, cleanup) (cleanup-keeps cutoff ms n s j (ground arith))
  ]

  cleanup-count :
      (cutoff : Time) (l : List Media) (n : ℕ) (s : Store E)
      → (cleanup E cutoff l n s).0 ≤ n + length (select (is_older E cutoff) l)
  unfolding cleanup
  cleanup-count cutoff [] n s = omega arith
  cleanup-count cutoff (m ∷ ms) n s = elim (Bool-cases (is_older E cutoff m)) [
    | inl old ↦
        let s' = (delete_media E m.id s).1 in
        elim (Result-cases (delete_media E m.id s).0) [
          | inl (t, done) ↦
              rw (old, cleanup, done) (omega (arith, cleanup-count cutoff ms (n + 1) s'))
          | inr (e, failed) ↦
              rw (old, cleanup, failed) (omega (arith, cleanup-count cutoff ms n s'))
        ]
    | inr young ↦ rw (young, cleanup) (cleanup-count cutoff ms n s)
  ]

  -- CleanupTrash deletes only what stands in the trash and went there before the cutoff: every
  -- media whose id no such record has is read as before; and it reports at most as many deletions
  -- as there are such records.
  pub cleanup_trash-keeps :
      (now older_than : ℕ) (s : Store E) (j : String)
      → is_doomed (now - older_than) j (list_trash_media E s) ≡ false
      → (get_media E (cleanup_trash E now older_than s).1 j ≡ get_media E s j)
        × ((cleanup_trash E now older_than s).0
            ≤ length (select (is_older E (now - older_than)) (list_trash_media E s)))
  unfolding cleanup_trash
  cleanup_trash-keeps now older_than s j h =
      let cutoff = now - older_than in
      let l = list_trash_media E s in
      (cleanup-keeps cutoff l 0 s j h, omega (arith, cleanup-count cutoff l 0 s))
