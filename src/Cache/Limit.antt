-- ===== src/Cache/Limit.antt =====
-- The limit of a cache: what Set evicts to keep to it.
use photo_core.Base.{
  ℕ, ◌+◌, ◌≤◌, ◌<◌, String, true, List, [], ◌∷◌, some, none, ◌≡◌, ◌≢◌, refl, ◌==◌, eq_iff, eq_refl,
  ltb, leb, if◌then◌else◌, arith, lookup, remove, length, HasKeysOnce, length-remove,
  length-remove-le, insert-HasKeysOnce, remove-HasKeysOnce, Bool-cases, ==-ne, inl, inr, leb→le,
  ◌∙◌, sym, ◌⊎◌,
}
use photo_core.Cache.{Cache, Item, is_expired, key_to_delete, evict_oldest, set_with_ttl}
use photo_core.Cache.Laws.{IsOrder, items-set_with_ttl, lookup-set_with_ttl, max_items-delete}

module _ {V : Type 0} where
  key_to_delete-named :
      (now : ℕ) (order : List (String × Item V)) (found : String)
      → lookup "" order ≡ none
      → found ≢ ""
      → key_to_delete now found order ≢ ""
  unfolding key_to_delete
  key_to_delete-named now [] found h p e = p e
  key_to_delete-named now ((k, it) ∷ order) found h p e =
      ground (arith, eq_iff k "", eq_iff found "", key_to_delete-named now order found)

  -- A map with no empty key has a key to delete, unless it is empty.
  key_to_delete_some :
      (now : ℕ) (order : List (String × Item V))
      → lookup "" order ≡ none
      → 0 < length order
      → key_to_delete now "" order ≢ ""
  unfolding key_to_delete
  key_to_delete_some now [] h p e = absurd (omega arith)
  key_to_delete_some now ((k, it) ∷ order) h p e =
      ground (arith, eq_iff k "", key_to_delete-named now order k)

  -- The key that the loop comes to is the one that it had, or is in the map.
  lookup-key_to_delete :
      (now : ℕ) (order : List (String × Item V)) (found : String)
      → (key_to_delete now found order ≡ found)
        ⊎ ((item : Item V) × (lookup (key_to_delete now found order) order ≡ some item))
  unfolding key_to_delete
  lookup-key_to_delete now [] found = inl refl
  lookup-key_to_delete now ((k, it) ∷ order) found = elim (Bool-cases (is_expired now it)) [
    | inl old ↦ inr (it, ground (arith, eq_refl k))
    | inr fresh ↦
        let found' = if found == "" then k else found in
        elim (Bool-cases (k == key_to_delete now found' order)) [
          | inl same ↦ inr (it, rw (fresh, same))
          | inr other ↦ elim (lookup-key_to_delete now order found') [
            | inl e ↦ inl (ground (arith, eq_iff k (key_to_delete now found' order)))
            | inr (item, e) ↦ inr (item, ground arith)
          ]
        ]
  ]

  -- A cache that holds at most its limit, each key once, and not the empty key, which evictOldest
  -- takes for "no key".
  pub record IsBounded (c : Cache V) : Type 0 where
    pub positive : 0 < c.max_items
    pub bounded : length c.items ≤ c.max_items
    pub once : HasKeysOnce c.items
    pub named : lookup "" c.items ≡ none

  evicted_fits :
      (now : ℕ) (order : List (String × Item V)) (c : Cache V)
      → IsBounded c
      → IsOrder order c.items
      → leb c.max_items (length c.items) ≡ true
      → (key_to_delete now "" order ≢ "")
        × (length (remove (key_to_delete now "" order) c.items) + 1 ≡ length c.items)
  evicted_fits now order c b o full =
      let key = key_to_delete now "" order in
      let named =
        key_to_delete_some now order (o.same "" ∙ b.named)
          (omega (arith, o.whole, b.positive, leb→le _ _ full)) in
      elim (lookup-key_to_delete now order "") [
        | inl e ↦ absurd (named e)
        | inr (item, e) ↦ (named, length-remove key item c.items b.once (sym (o.same key) ∙ e))
      ]

  -- What a Set finds when it writes: the items, less the evicted one if the cache is full.
  abbrev kept : ℕ → List (String × Item V) → Cache V → List (String × Item V)
  kept now order c =
      if leb c.max_items (length c.items)
      then (if key_to_delete now "" order == ""
          then c.items
          else remove (key_to_delete now "" order) c.items)
      else c.items

  module _ (now : ℕ) (order : List (String × Item V)) (c : Cache V) (b : IsBounded c)
      (o : IsOrder order c.items) where
    length-kept : length (kept now order c) < c.max_items
    length-kept = elim (Bool-cases (leb c.max_items (length c.items))) [
      | inl full ↦
          let (named, shorter) = evicted_fits now order c b o full in
          rw (full, ==-ne (key_to_delete now "" order) "" named) (omega (arith, shorter, b.bounded))
      | inr room ↦ rw room (ground arith)
    ]

    kept-HasKeysOnce : HasKeysOnce (kept now order c)
    kept-HasKeysOnce = elim (Bool-cases (leb c.max_items (length c.items))) [
      | inl full ↦
          let (named, shorter) = evicted_fits now order c b o full in
          rw (full, ==-ne (key_to_delete now "" order) "" named)
            (remove-HasKeysOnce (key_to_delete now "" order) c.items b.once)
      | inr room ↦ rw room b.once
    ]

  max_items-set_with_ttl :
      (now : ℕ) (order : List (String × Item V)) (key : String) (value : V) (ttl : ℕ) (c : Cache V)
      → (set_with_ttl now order key value ttl c).max_items ≡ c.max_items
  unfolding set_with_ttl evict_oldest
  max_items-set_with_ttl now order key value ttl c =
      ground (arith, max_items-delete (key_to_delete now "" order) c)

  -- A Set under a key that is not empty keeps the cache within its limit, with each key once; the
  -- limit must be positive, and the map must not have the empty key.
  pub set_with_ttl-IsBounded :
      (now : ℕ) (order : List (String × Item V)) (key : String) (value : V) (ttl : ℕ) (c : Cache V)
      → key ≢ ""
      → IsOrder order c.items
      → IsBounded c
      → IsBounded (set_with_ttl now order key value ttl c)
  set_with_ttl-IsBounded now order key value ttl c named o b =
      let items = items-set_with_ttl now order key value ttl c in
      let max = max_items-set_with_ttl now order key value ttl c in
      record {
        positive = omega (arith, max, b.positive);
        bounded = rw items (
            omega
              (arith, max, length-remove-le key (kept now order c), length-kept now order c b o));
        once = rw items (
            insert-HasKeysOnce key
              (record { value = value; expiration = if ltb 0 ttl then now + ttl else 0 })
              (kept now order c) (kept-HasKeysOnce now order c b o));
        named =
            lookup-set_with_ttl now order key value ttl c ""
            ∙ rw (==-ne key "" named) (ground (arith, b.named));
      }
