-- ===== src/Cache.antt =====
-- The cache with expiry of internal/cache/cache.go. A method takes the time that time.Now returns
-- while it runs; one that ranges over the map takes the order of iteration.
pub mod Media
pub mod Laws
pub mod Limit
use photo_core.Base.{
  ℕ, ◌+◌, ◌*◌, String, Bool, false, List, [], ◌∷◌, Option, some, none, ◌==◌, eqb, ltb, leb,
  if◌then◌else◌, Result, ok, err, lookup, insert, remove, length, map,
}

pub record Item (V : Type 0) : Type 0 where
  pub value : V
  pub expiration : ℕ

-- `evicted` lists the calls of the callback, the last one first, if there is one.
pub record Cache (V : Type 0) : Type 0 where
  pub items : List (String × Item V)
  pub default_expiration : ℕ
  pub cleanup_interval : ℕ
  pub max_items : ℕ
  pub on_evicted : Bool
  pub evicted : List (String × V)

pub record Config : Type 0 where
  pub default_expiration : ℕ
  pub cleanup_interval : ℕ
  pub max_items : ℕ
  pub on_evicted : Bool

abbrev pub minute : ℕ
minute = 60 * 1_000_000_000

pub record CacheStats : Type 0 where
  pub items : ℕ
  pub max_items : ℕ
  pub expired_items : ℕ

module _ {V : Type 0} where
  unfoldable pub is_expired : ℕ → Item V → Bool
  is_expired now item = if eqb item.expiration 0 then false else ltb item.expiration now

  -- New.
  unfoldable pub new : Config → Cache V
  new config = record {
    items = [];
    default_expiration =
        if eqb config.default_expiration 0 then 5 * minute else config.default_expiration;
    cleanup_interval =
        if eqb config.cleanup_interval 0 then 10 * minute else config.cleanup_interval;
    max_items = if eqb config.max_items 0 then 10000 else config.max_items;
    on_evicted = config.on_evicted;
    evicted = [];
  }

  -- `if c.onEvicted != nil { c.onEvicted(key, value) }`
  unfoldable pub notify : String → V → Cache V → Cache V
  notify key value c = if c.on_evicted then record c { evicted = (key, value) ∷ c.evicted } else c

  -- The loop of evictOldest: the first expired key, else the first key that is not empty; `found`
  -- is keyToDelete so far.
  unfoldable pub key_to_delete : ℕ → String → List (String × Item V) → String
  key_to_delete now found [] = found
  key_to_delete now found ((key, item) ∷ order) =
      let later = key_to_delete now (if found == "" then key else found) order in
      if is_expired now item then key else later

  -- delete, under the lock
  unfoldable pub delete : String → Cache V → Cache V
  unfolding notify
  delete key c = elim (lookup key c.items) [
    | none ↦ c
    | some item ↦ (let c' = notify key item.value c in record c' { items = remove key c.items })
  ]

  -- A key that the loop found is in the map, so its deletion is Delete's.
  unfoldable pub evict_oldest : ℕ → List (String × Item V) → Cache V → Cache V
  unfolding delete
  evict_oldest now order c =
      let key = key_to_delete now "" order in if key == "" then c else delete key c

  unfoldable pub set_with_ttl : ℕ → List (String × Item V) → String → V → ℕ → Cache V → Cache V
  set_with_ttl now order key value ttl c =
      let expiration = if ltb 0 ttl then now + ttl else 0 in
      let c' = if leb c.max_items (length c.items) then evict_oldest now order c else c in
      record c' { items = insert key (record { value = value; expiration = expiration }) c'.items }

  unfoldable pub set : ℕ → List (String × Item V) → String → V → Cache V → Cache V
  unfolding set_with_ttl
  set now order key value c = set_with_ttl now order key value c.default_expiration c

  unfoldable pub get : ℕ → String → Cache V → Option V × Cache V
  get now key c = elim (lookup key c.items) [
    | none ↦ (none, c)
    | some item ↦ if is_expired now item then (none, delete key c) else (some item.value, c)
  ]

  -- GetOrSet; `fn` is what the given function returns, if it is called.
  unfoldable pub get_or_set :
      ℕ → List (String × Item V) → String → Result V → Cache V → Result V × Cache V
  get_or_set now order key fn c =
      let (found, c') = get now key c in
      elim found [
        | some value ↦ (ok value, c')
        | none ↦ elim fn [ err e ↦ (err e, c') | ok value ↦ (ok value, set now order key value c') ]
      ]

  unfoldable pub notify_all : List (String × Item V) → Cache V → Cache V
  notify_all [] c = c
  notify_all ((key, item) ∷ order) c = notify_all order (notify key item.value c)

  unfoldable pub clear : List (String × Item V) → Cache V → Cache V
  clear order c = record (notify_all order c) { items = [] }

  unfoldable pub count_items : Cache V → ℕ
  count_items c = length c.items

  unfoldable pub keys : List (String × Item V) → List String
  keys order = map (λ e. e.0) order

  unfoldable pub count_expired : ℕ → List (String × Item V) → ℕ
  count_expired now [] = 0
  count_expired now ((key, item) ∷ l) = (if is_expired now item then 1 else 0) + count_expired now l

  unfoldable pub stats : ℕ → Cache V → CacheStats
  stats now c = record {
    items = length c.items;
    max_items = c.max_items;
    expired_items = count_expired now c.items;
  }

  -- The range of deleteExpired.
  unfoldable pub delete_expired : ℕ → List (String × Item V) → Cache V → Cache V
  delete_expired now [] c = c
  delete_expired now ((key, item) ∷ order) c =
      delete_expired now order (if is_expired now item then delete key c else c)
