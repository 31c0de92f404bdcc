-- ===== src/Tests/Cache.antt =====
-- The theorems on the cache, at a full cache of two entries with limits of two.
use photo_core.Base.{
  ℕ, ◌+◌, String, false, List, [], ◌∷◌, some, none, ◌≡◌, ◌≢◌, refl, ◌==◌, eq_iff, arith, ltb,
  if◌then◌else◌, lookup,
}
use photo_core.Cache.{Cache, Item, is_expired, key_to_delete, set_with_ttl}
use photo_core.Cache.Limit.{IsBounded, set_with_ttl-IsBounded}
use photo_core.Cache.Laws.{IsOrder, is_victim, victim, lookup-set_with_ttl}

-- "a" expired at 5, "b" lives until 50.
abbrev stored : List (String × Item ℕ)
stored =
    ("a", record { value = 1; expiration = 5 }) ∷ ("b", record { value = 2; expiration = 50 }) ∷ []

abbrev full : Cache ℕ
full = record {
  items = stored;
  default_expiration = 10;
  cleanup_interval = 10;
  max_items = 2;
  on_evicted = false;
  evicted = [];
}

stored-IsOrder : IsOrder stored full.items
stored-IsOrder = record { whole = refl; once = (refl, (refl, tt)); same = λ k. refl }

full-IsBounded : IsBounded full
full-IsBounded = record {
  positive = omega arith;
  bounded = omega arith;
  once = (refl, (refl, tt));
  named = refl;
}

lookup-set_with_ttl_example : lookup "b" (set_with_ttl 10 stored "c" 3 7 full).items ≡ (
    if "c" == "b"
    then some (record { value = 3; expiration = if ltb 0 7 then 10 + 7 else 0 })
    else if is_victim (victim 10 stored full) "b"
    then none
    else lookup "b" full.items)
lookup-set_with_ttl_example = lookup-set_with_ttl 10 stored "c" 3 7 full "b"

abbrev new_key : String
new_key = "c"

c_named : new_key ≢ ""
c_named e = ground (arith, eq_iff "c" "")

set_with_ttl-IsBounded_example : IsBounded (set_with_ttl 10 stored "c" 3 7 full)
set_with_ttl-IsBounded_example =
    set_with_ttl-IsBounded 10 stored "c" 3 7 full c_named stored-IsOrder full-IsBounded

other : ("b" == key_to_delete 10 "" stored) ≡ false
unfolding key_to_delete is_expired
other = refl
