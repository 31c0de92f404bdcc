-- ===== src/Storage/Db/Laws.antt =====
-- Reads by GetMedia and its like after a write or a Delete, and what a transaction leaves.
use photo_core.Base.{
  true, String, some, none, ◌≡◌, ◌==◌, eq_iff, if◌then◌else◌, ok, arith, Bool-cases, Option-cases,
  inl, inr, ◌≢◌,
}
use mathlib.Core.Path.{subst}
use photo_core.Disk.{Disk, Json}
use photo_core.Disk.Table.{find, write, find-write, find-delete, write_empty_key}
use photo_core.Storage.Db.{load}

module _ (D : Disk) {A : Type 0} (J : Json D.Bytes A) (name_of : A → String) where
  -- The record is stored under its own name, as SaveMedia, SaveUser and their like do.
  pub load-write :
      (b b' : D.Bucket) (j : String) (a : A)
      → write D J b (name_of a) a ≡ ok b'
      → load D J name_of b' j ≡ (if name_of a == j then ok (some a) else load D J name_of b j)
  unfolding load
  load-write b b' j a h = elim (Bool-cases (name_of a == "")) [
    | inl e ↦ absurd (write_empty_key D J b b' a (rw (← (eq_iff (name_of a) "").0 e) h))
    | inr e ↦ ground (arith, find-write D J b b' (name_of a) j a h)
  ]

  -- The same for a record that is written under a key that its name equals.
  pub load-write_at :
      (b b' : D.Bucket) (k j : String) (a : A)
      → name_of a ≡ k
      → write D J b k a ≡ ok b'
      → load D J name_of b' j ≡ (if k == j then ok (some a) else load D J name_of b j)
  load-write_at b b' k j a e =
      subst
        (λ k.
          write D J b k a ≡ ok b'
          → load D J name_of b' j ≡ (if k == j then ok (some a) else load D J name_of b j))
        e (load-write b b' j a)

  pub load-delete :
      (b : D.Bucket) (k j : String)
      → load D J name_of (D.delete b k) j ≡ (if k == j then ok none else load D J name_of b j)
  unfolding load
  load-delete b k j = ground (arith, find-delete D J b k j)

  -- What a read returns is the JSON under the key.
  pub load-found :
      (b : D.Bucket) (k : String) (a : A)
      → load D J name_of b k ≡ ok (some a)
      → (d : D.Bytes) × (D.get b k ≡ some d) × (J.unmarshal d ≡ (a, true))
  unfolding load find
  load-found b k a h = elim (Option-cases (D.get b k)) [
    | inl e ↦ absurd (ground arith)
    | inr (d, e) ↦ (d, e, ground arith)
  ]

  -- What a read returns has a name.
  pub load-named :
      (b : D.Bucket) (k : String) (a : A) → load D J name_of b k ≡ ok (some a) → name_of a ≢ ""
  unfolding load
  load-named b k a h = ground (arith, eq_iff (name_of a) "")
