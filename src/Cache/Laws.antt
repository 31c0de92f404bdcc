-- ===== src/Cache/Laws.antt =====
-- What Set, Get and the evictions do to the items of a cache.
use photo_core.Base.{
  ℕ, ◌+◌, String, Bool, false, List, Option, some, none, ◌≡◌, refl, ◌==◌, ltb, leb, if◌then◌else◌,
  arith, lookup, insert, remove, length, HasKeysOnce, lookup-remove, lookup-insert, remove_absent,
  Bool-cases, Option-cases, inl, inr,
}
use photo_core.Cache.{
  Cache, Item, is_expired, notify, key_to_delete, delete, evict_oldest, set_with_ttl,
}

unfoldable pub is_victim : Option String → String → Bool
is_victim none j = false
is_victim (some k) j = k == j

module _ {V : Type 0} where
  -- An order in which Go may range over a map: the same entries, each once.
  pub record IsOrder (order m : List (String × Item V)) : Type 0 where
    pub whole : length order ≡ length m
    pub once : HasKeysOnce order
    pub same : (k : String) → lookup k order ≡ lookup k m

  pub items-delete : (key : String) (c : Cache V) → (delete key c).items ≡ remove key c.items
  unfolding delete notify
  items-delete key c = elim (Option-cases (lookup key c.items)) [
    | inl e ↦ ground (arith, remove_absent key c.items)
    | inr (item, e) ↦ ground arith
  ]

  pub max_items-delete : (key : String) (c : Cache V) → (delete key c).max_items ≡ c.max_items
  unfolding delete notify
  max_items-delete key c = ground arith

  -- The key that evictOldest takes out, if it takes one out.
  unfoldable pub victim : ℕ → List (String × Item V) → Cache V → Option String
  victim now order c =
      let key = key_to_delete now "" order in
      if leb c.max_items (length c.items) then (if key == "" then none else some key) else none

  items-evict_oldest :
      (now : ℕ) (order : List (String × Item V)) (c : Cache V)
      → (evict_oldest now order c).items ≡ (
          if key_to_delete now "" order == ""
          then c.items
          else remove (key_to_delete now "" order) c.items)
  unfolding evict_oldest
  items-evict_oldest now order c = ground (arith, items-delete (key_to_delete now "" order) c)

  pub items-set_with_ttl :
      (now : ℕ) (order : List (String × Item V)) (key : String) (value : V) (ttl : ℕ) (c : Cache V)
      → (set_with_ttl now order key value ttl c).items
        ≡ insert key
            (record { value = value; expiration = if ltb 0 ttl then now + ttl else 0 })
            (if leb c.max_items (length c.items)
              then (if key_to_delete now "" order == ""
                  then c.items
                  else remove (key_to_delete now "" order) c.items)
              else c.items)
  unfolding set_with_ttl
  items-set_with_ttl now order key value ttl c =
      elim (Bool-cases (leb c.max_items (length c.items))) [
        | inl full ↦ rw full (rw items-evict_oldest refl)
        | inr room ↦ rw room
      ]

  -- After a Set the key holds the value, with the expiry that the ttl gives; every other key but
  -- the one that was evicted to make room holds what it held.
  pub lookup-set_with_ttl :
      (now : ℕ) (order : List (String × Item V)) (key : String) (value : V) (ttl : ℕ) (c : Cache V)
      (j : String)
      → lookup j (set_with_ttl now order key value ttl c).items ≡ (
          if key == j
          then some (record { value = value; expiration = if ltb 0 ttl then now + ttl else 0 })
          else if is_victim (victim now order c) j
          then none
          else lookup j c.items)
  unfolding victim is_victim
  lookup-set_with_ttl now order key value ttl c j =
      rw (items-set_with_ttl now order key value ttl c)
        (rw lookup-insert (ground (arith, lookup-remove (key_to_delete now "" order) j c.items)))

  unfoldable pub is_dead : ℕ → Option (Item V) → Bool
  is_dead now none = false
  is_dead now (some item) = is_expired now item
