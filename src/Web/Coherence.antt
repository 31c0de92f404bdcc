-- ===== src/Web/Coherence.antt =====
-- The media cache and the database: what the handlers keep between them.
use photo_core.Base.{
  ℕ, String, false, [], ◌∷◌, Option, some, none, ◌≡◌, refl, sym, ◌∙◌, ◌==◌, eq_iff, ==-concat,
  Result, ok, err, Error, arith, lookup, lookup-remove, Option-cases, Bool-cases, inl, inr,
}
use mathlib.Core.Path.{subst}
use photo_core.Storage.Models.{Media}
use photo_core.Storage.Db.{Env, Store}
use photo_core.Storage.Library.{get_media}
use photo_core.Cache.{Cache, Item}
use photo_core.Cache
use photo_core.Cache.Laws.{items-delete, lookup-set_with_ttl}
use photo_core.Cache.Media.{
  MediaCache, Moment, media_key, cached_media, cache_media, uncache_media, clear_all,
}
use photo_core.Web.{Web, Reply, error, media}
use photo_core.Web.Albums.{reply_with}
use photo_core.Web.Library.{read_media, view_found, view_media, uncache_all, uncached_reply}
use photo_core.Web.Trash.{cleared_reply}

-- A record that the cache holds under the key of an id, expired or not, is the one that the
-- database has for the id.
unfoldable pub IsCoherent : (E : Env) → Web E → Type 0
IsCoherent E w =
    (id : String) (item : Item Media)
    → lookup (media_key id) w.cache.media_cache.items ≡ some item
    → get_media E w.store id ≡ ok (some item.value)

-- Every record stands under its own id.
unfoldable pub IsKeyed : (E : Env) → Store E → Type 0
IsKeyed E s = (id : String) (m : Media) → get_media E s id ≡ ok (some m) → m.id ≡ id

module _ (E : Env) where
  -- A change of the database that leaves the media.
  pub store_change :
      (w : Web E) (s : Store E)
      → s.media ≡ w.store.media
      → IsCoherent E w
      → IsCoherent E (record w { store = s })
  unfolding IsCoherent get_media
  store_change w s e h id item there = rw e (h id item there)

  pub cleared : (w : Web E) → IsCoherent E (record w { cache = clear_all w.cache })
  unfolding IsCoherent clear_all Cache.clear
  cleared w id item there = ground arith

  pub cleared_reply_lem :
      (reply : Reply) (w : Web E) (r : Result (Unit {0}) × Store E)
      → ((e : Error) → r.0 ≡ err e → r.1.media ≡ w.store.media)
      → IsCoherent E w
      → IsCoherent E (cleared_reply E reply w r).1
  unfolding cleared_reply
  cleared_reply_lem reply w (ok u, s) h c = cleared (record w { store = s })
  cleared_reply_lem reply w (err e, s) h c = store_change w s (h e refl) c

  pub reply_with_lem :
      (reply : Reply) (w : Web E) (r : Result (Unit {0}) × Store E)
      → r.1.media ≡ w.store.media
      → IsCoherent E w
      → IsCoherent E (reply_with E reply w r).1
  unfolding reply_with
  reply_with_lem reply w (ok u, s) h c = store_change w s h c
  reply_with_lem reply w (err e, s) h c = store_change w s h c

  uncached :
      (id : String) (w : Web E) (s : Store E)
      → ((j : String) → (id == j) ≡ false → get_media E s j ≡ get_media E w.store j)
      → IsCoherent E w
      → IsCoherent E (record w { store = s; cache = uncache_media id w.cache })
  unfolding IsCoherent uncache_media media_key
  uncached id w s h c j item there = ground (
    arith,
    items-delete (media_key id) w.cache.media_cache,
    h j,
    c j item,
    ==-concat "media:" id j,
    lookup-remove (media_key id) (media_key j) w.cache.media_cache.items,
  )

  -- A change of one media, taken out of the cache where it succeeds.
  pub uncached_reply_lem :
      (reply : Reply) (id : String) (w : Web E) (r : Result (Unit {0}) × Store E)
      → ((e : Error) → r.0 ≡ err e → r.1.media ≡ w.store.media)
      → (r.0 ≡ ok tt → (j : String) → (id == j) ≡ false → get_media E r.1 j ≡ get_media E w.store j)
      → IsCoherent E w
      → IsCoherent E (uncached_reply E reply (id ∷ []) w r).1
  unfolding uncached_reply uncache_all
  uncached_reply_lem reply id w (ok u, s) h k c = uncached id w s (k refl) c
  uncached_reply_lem reply id w (err e, s) h k c = store_change w s (h e refl) c

  -- A read takes an expired item out.
  lookup-get :
      (now : ℕ) (key j : String) (c : Cache Media) (item : Item Media)
      → lookup j (Cache.get now key c).1.items ≡ some item
      → lookup j c.items ≡ some item
  unfolding Cache.get
  lookup-get now key j c item h =
      ground
        (arith, Option-cases (lookup key c.items), items-delete key c, lookup-remove key j c.items)

  get_expired :
      (now : ℕ) (id : String) (w : Web E)
      → IsCoherent E w
      → IsCoherent E (record w { cache = (cached_media now id w.cache).1 })
  unfolding IsCoherent cached_media
  get_expired now id w c j item there =
      c j item (lookup-get now (media_key id) (media_key j) w.cache.media_cache item there)

  set_read :
      (t : Moment Media) (m : Media) (w : Web E)
      → get_media E w.store m.id ≡ ok (some m)
      → IsCoherent E w
      → IsCoherent E (record w { cache = cache_media t m w.cache })
  unfolding IsCoherent cache_media media_key Cache.set
  set_read t m w found c j item there =
      let old = w.cache.media_cache in
      let key = media_key m.id in
      let here = lookup-set_with_ttl t.now t.order key m old.default_expiration old (media_key j) in
      elim (Bool-cases (m.id == j)) [
        | inl e ↦
            let same : m.id ≡ j = (eq_iff m.id j).0 e in
            rw (← same) (found ∙ ground (arith, here, ==-concat "media:" m.id j))
        | inr e ↦ ground (arith, here, ==-concat "media:" m.id j, c j item)
      ]

  read_media_lem :
      (t : Moment Media) (w : Web E) (r : Result (Option Media))
      → ((m : Media) → r ≡ ok (some m) → get_media E w.store m.id ≡ ok (some m))
      → IsCoherent E w
      → IsCoherent E (read_media E t w r).1
  unfolding read_media
  read_media_lem t w (err e) h c = c
  read_media_lem t w (ok none) h c = c
  read_media_lem t w (ok (some m)) h c = set_read t m w (h m refl) c

  own_id :
      (id : String) (s : Store E) (m : Media)
      → IsKeyed E s
      → get_media E s id ≡ ok (some m)
      → get_media E s m.id ≡ ok (some m)
  unfolding IsKeyed
  own_id id s m k found = subst (λ i. get_media E s i ≡ ok (some m)) (sym (k id m found)) found

  view_found_lem :
      (t : Moment Media) (id : String) (w : Web E) (found : Option Media × MediaCache)
      → IsKeyed E w.store
      → IsCoherent E (record w { cache = found.1 })
      → IsCoherent E (view_found E t id w found).1
  unfolding view_found
  view_found_lem t id w (some m, c) k h = h
  view_found_lem t id w (none, c) k h =
      read_media_lem t (record w { cache = c }) (get_media E w.store id)
        (λ m. own_id id w.store m k) h

  pub view_media-IsCoherent :
      (t : Moment Media) (id : String) (w : Web E)
      → IsKeyed E w.store
      → IsCoherent E w
      → IsCoherent E (view_media E t id w).1
  unfolding view_media
  view_media-IsCoherent t id w k c =
      view_found_lem t id w (cached_media t.now id w.cache) k (get_expired t.now id w c)

  -- The reply that the database alone would give.
  unfoldable pub direct_reply : Result (Option Media) → Reply
  direct_reply (ok (some m)) = media m
  direct_reply _ = error 404

  reply_read :
      (t : Moment Media) (w : Web E) (r : Result (Option Media))
      → (read_media E t w r).0 ≡ direct_reply r
  unfolding read_media direct_reply
  reply_read t w (err e) = refl
  reply_read t w (ok none) = refl
  reply_read t w (ok (some m)) = refl

  reply_found :
      (t : Moment Media) (id : String) (w : Web E) (found : Option Media × MediaCache)
      → ((m : Media) → found.0 ≡ some m → get_media E w.store id ≡ ok (some m))
      → (view_found E t id w found).0 ≡ direct_reply (get_media E w.store id)
  unfolding view_found direct_reply
  reply_found t id w (some m, c) h = rw (h m refl) refl
  reply_found t id w (none, c) h = reply_read t (record w { cache = c }) (get_media E w.store id)

  hit :
      (now : ℕ) (id : String) (w : Web E) (m : Media)
      → IsCoherent E w
      → (cached_media now id w.cache).0 ≡ some m
      → get_media E w.store id ≡ ok (some m)
  unfolding IsCoherent cached_media Cache.get
  hit now id w m c h = elim (Option-cases (lookup (media_key id) w.cache.media_cache.items)) [
    | inl e ↦ absurd (ground arith)
    | inr (item, e) ↦ ground (arith, c id item e)
  ]

  -- Where every record stands under its own id and the cache is coherent with the database, a
  -- media is shown as the database has it, whether it comes from the cache or not, and the cache
  -- is coherent afterwards.
  pub view_media-direct_reply :
      (t : Moment Media) (id : String) (w : Web E)
      → IsKeyed E w.store
      → IsCoherent E w
      → ((view_media E t id w).0 ≡ direct_reply (get_media E w.store id))
        × IsCoherent E (view_media E t id w).1
  unfolding view_media
  view_media-direct_reply t id w k c = (
    reply_found t id w (cached_media t.now id w.cache) (λ m. hit t.now id w m c),
    view_media-IsCoherent t id w k c,
  )
