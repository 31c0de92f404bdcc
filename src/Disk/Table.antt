-- ===== src/Disk/Table.antt =====
-- A bucket whose values are the JSON of one type: the combination of Marshal and Put, of Get and
-- Unmarshal, and of ForEach and Unmarshal that internal/storage/bbolt.go repeats for each type.
use photo_core.Base.{
  String, Bool, true, List, [], ◌∷◌, Option, some, none, ◌≡◌, ◌≢◌, ◌==◌, if◌then◌else◌, Result, ok,
  json_error, bolt_error, or_error, or_error-ok, ◌>>=◌, >>=-eq-ok, arith,
}
use mathlib.Core.Option
use photo_core.Disk.{Disk, Json}

module _ (D : Disk) {A : Type 0} (J : Json D.Bytes A) where
  -- The value under a key, with the flag of its Unmarshal.
  unfoldable pub find : D.Bucket → String → Option (A × Bool)
  find b k = elim (D.get b k) [ none ↦ none | some d ↦ some (J.unmarshal d) ]

  -- Marshal, then Put.
  unfoldable pub write : D.Bucket → String → A → Result D.Bucket
  write b k a = do d ← or_error json_error (J.marshal a); or_error bolt_error (D.put b k d)

  -- `data, _ := json.Marshal(x)`, then Put: a failed Marshal leaves nil.
  unfoldable pub write_lenient : D.Bucket → String → A → Result D.Bucket
  write_lenient b k a = or_error bolt_error (D.put b k (Option.get_or (J.marshal a) D.nil))

  -- `if err := json.Unmarshal(v, &x); err != nil { return nil }; result = append(result, x)`
  unfoldable pub decode_all : List (String × D.Bytes) → List A
  decode_all [] = []
  decode_all ((k, d) ∷ l) =
      let (a, valid) = J.unmarshal d in let rest = decode_all l in if valid then a ∷ rest else rest

  unfoldable pub rows : D.Bucket → List A
  unfolding decode_all
  rows b = decode_all (D.entries b)

  -- A read after a write.
  pub find-write :
      (b b' : D.Bucket) (k j : String) (a : A)
      → write b k a ≡ ok b'
      → find b' j ≡ (if k == j then some (a, true) else find b j)
  unfolding find write
  find-write b b' k j a h =
      let (d, marshalled, h') = >>=-eq-ok (or_error json_error (J.marshal a)) _ h in
      let encoded = or_error-ok json_error (J.marshal a) marshalled in
      let stored = or_error-ok bolt_error (D.put b k d) h' in
      ground (arith, D.get-put b b' k j d stored, J.unmarshal-marshal a d encoded)

  -- The same for a Marshal that cannot fail on the value.
  pub find-write_lenient :
      (b b' : D.Bucket) (k j : String) (a : A) (d : D.Bytes)
      → J.marshal a ≡ some d
      → write_lenient b k a ≡ ok b'
      → find b' j ≡ (if k == j then some (a, true) else find b j)
  unfolding write_lenient write
  find-write_lenient b b' k j a d e h = find-write b b' k j a (rw e (rw e at h))

  -- A read after a Delete.
  pub find-delete :
      (b : D.Bucket) (k j : String) → find (D.delete b k) j ≡ (if k == j then none else find b j)
  unfolding find
  find-delete b k j = ground (arith, D.get-delete b k j)

  -- Writes under the empty key are refused.
  pub write_empty_key : (b b' : D.Bucket) (a : A) → write b "" a ≢ ok b'
  unfolding write
  write_empty_key b b' a h =
      let (d, _, h') = >>=-eq-ok (or_error json_error (J.marshal a)) _ h in
      let e = or_error-ok bolt_error (D.put b "" d) h' in ground (arith, D.put_empty_key b d)
