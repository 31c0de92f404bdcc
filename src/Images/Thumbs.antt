-- ===== src/Images/Thumbs.antt =====
-- What GenerateThumbnail of internal/media/thumbnail.go leaves among the files.
use photo_core.Base.{
  String, true, false, List, Option, some, none, ◌==◌, eq_refl, lookup, lookup-insert, ◌⊎◌, inl,
  inr, ◌≡◌, refl, ◌∙◌, ap, Bool-cases,
}
use photo_core.Storage.Models.{Media}
use photo_core.Scanner.Detection.{FormatInfo}
use photo_core.Images.{
  ImageConfig, Imaging, get_thumbnail_path, write_encoded, encode_thumb, generate_in, render,
  make_thumb, load, generate_thumbnail, thumbnail_exists,
}

module _ (I : Imaging) where
  -- The call succeeded: the path is that of the thumbnail, and only a file under it may have come.
  abbrev Leaves :
      String → List (String × String) → (String ⊎ String) × List (String × String) → Type 0
  Leaves path files (made, files') =
      ((k : String) → (path == k) ≡ false → lookup k files' ≡ lookup k files)
      × ((p : String)
          → made ≡ inl p
          → (p ≡ path) × (bytes : String) × (lookup path files' ≡ some bytes))

  same_files :
      (path text : String) (files : List (String × String)) → Leaves path files (inr text, files)
  same_files path text files = (λ k h. refl, λ p h. cc)

  write_encoded-Leaves :
      (path : String) (refused : Option String) (encoded : String × Option String)
      (files : List (String × String))
      → Leaves path files (write_encoded I path refused encoded files)
  unfolding write_encoded
  write_encoded-Leaves path (some text) encoded files = same_files path _ files
  write_encoded-Leaves path none (bytes, some text) files =
      (λ k h. lookup-insert path k bytes files ∙ rw h refl, λ p h. cc)
  write_encoded-Leaves path none (bytes, none) files = (
    λ k h. lookup-insert path k bytes files ∙ rw h refl,
    λ p h. (cc, bytes, lookup-insert path path bytes files ∙ rw (eq_refl path) refl),
  )

  render-Leaves :
      (cfg : ImageConfig) (m : Media) (size : String) (drawn : I.Image ⊎ String)
      (files : List (String × String))
      → Leaves (get_thumbnail_path I m.id size) files (render I cfg m size drawn files)
  unfolding render
  render-Leaves cfg m size (inr text) files = same_files _ text files
  render-Leaves cfg m size (inl img) files =
      write_encoded-Leaves _ (I.create (get_thumbnail_path I m.id size))
        (encode_thumb I cfg m size img) files

  make_thumb-Leaves :
      (cfg : ImageConfig) (m : Media) (size : String) (info : FormatInfo ⊎ String)
      (files : List (String × String))
      → Leaves (get_thumbnail_path I m.id size) files (make_thumb I cfg m size info files)
  unfolding make_thumb
  make_thumb-Leaves cfg m size (inr text) files = same_files _ _ files
  make_thumb-Leaves cfg m size (inl info) files = elim (Bool-cases info.is_supported) [
    | inr e ↦ rw e (same_files _ _ files)
    | inl e ↦ rw e (render-Leaves cfg m size (load I cfg m) files)
  ]

  generate_in-Leaves :
      (cfg : ImageConfig) (m : Media) (size : String) (refused stored : Option String)
      (files : List (String × String))
      → lookup (get_thumbnail_path I m.id size) files ≡ stored
      → Leaves
          (get_thumbnail_path I m.id size)
          files
          (generate_in I cfg m size refused stored files)
  unfolding generate_in
  generate_in-Leaves cfg m size (some text) stored files h = same_files _ text files
  generate_in-Leaves cfg m size none (some bytes) files h = (λ k e. refl, λ p e. (cc, bytes, h))
  generate_in-Leaves cfg m size none none files h = make_thumb-Leaves cfg m size _ files

  directory_made :
      (cfg : ImageConfig) (m : Media) (size : String) (refused stored : Option String)
      (files : List (String × String)) (path : String)
      → (generate_in I cfg m size refused stored files).0 ≡ inl path
      → refused ≡ none
  unfolding generate_in
  directory_made cfg m size none stored files path h = refl
  directory_made cfg m size (some text) stored files path h = cc

  found_already :
      (cfg : ImageConfig) (m : Media) (id size bytes : String) (files : List (String × String))
      → I.make_dir ≡ none
      → m.id ≡ id
      → lookup (get_thumbnail_path I id size) files ≡ some bytes
      → generate_thumbnail I cfg m size files ≡ (inl (get_thumbnail_path I id size), files)
  unfolding generate_thumbnail generate_in
  found_already cfg m id size bytes files made same f =
      ap (λ d. generate_in I cfg m size d (lookup (get_thumbnail_path I m.id size) files) files)
        made
      ∙ ap (λ o. generate_in I cfg m size none o files)
          (ap (λ i. lookup (get_thumbnail_path I i size) files) same ∙ f)
      ∙ ap (λ i. (inl (get_thumbnail_path I i size), files)) same

  -- The path of a thumbnail that was generated, and its file.
  pub generate_thumbnail_found :
      (cfg : ImageConfig) (m : Media) (size path : String) (files : List (String × String))
      → (generate_thumbnail I cfg m size files).0 ≡ inl path
      → (path ≡ get_thumbnail_path I m.id size)
        × (bytes : String) × (lookup
              (get_thumbnail_path I m.id size)
              (generate_thumbnail I cfg m size files).1
            ≡ some bytes)
  unfolding generate_thumbnail
  generate_thumbnail_found cfg m size path files h =
      (generate_in-Leaves cfg m size I.make_dir _ files refl).1 path h

  -- When GenerateThumbnail succeeds, the thumbnail exists under the path that it returns, no other
  -- file changed, and the next call for a media of this id and this size returns the same path and
  -- changes no file, whatever the rest of its record and of the configuration says.
  pub generate_thumbnail_twice :
      (cfg cfg' : ImageConfig) (m m' : Media) (size path : String) (files : List (String × String))
      → (generate_thumbnail I cfg m size files).0 ≡ inl path
      → m'.id ≡ m.id
      → (thumbnail_exists I m.id size (generate_thumbnail I cfg m size files).1 ≡ true)
        × ((k : String)
            → (path == k) ≡ false
            → lookup k (generate_thumbnail I cfg m size files).1 ≡ lookup k files)
        × (generate_thumbnail I cfg' m' size (generate_thumbnail I cfg m size files).1
            ≡ (inl path, (generate_thumbnail I cfg m size files).1))
  unfolding thumbnail_exists generate_thumbnail
  generate_thumbnail_twice cfg cfg' m m' size path files h same =
      let (others, made) = generate_in-Leaves cfg m size I.make_dir _ files refl in
      let (at_path, bytes, found) = made path h in
      (
        ap (λ o. elim o [ none ↦ false | some b ↦ true ]) found,
        λ k e. others k (rw⁻¹ at_path e),
        rw at_path (
            found_already cfg' m' m.id size bytes _
              (directory_made cfg m size I.make_dir _ files path h) same found),
      )
