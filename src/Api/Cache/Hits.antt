-- ===== src/Api/Cache/Hits.antt =====
-- api/server.go: how long the cache answers, and that failures are not kept.
use forensic_listener.Prelude.{
  ℕ, ◌+◌, ◌<◌, String, ◌≡◌, refl, true, Option, none, some, List, [], ◌∷◌, arith, str_eq, eq_iff,
  eq_refl, ltb, if◌then◌else◌,
}
use forensic_listener.Api.Cache.{CachedValue, find_entry, set_entry, live_value, cached}

module _ {A : Type 0} where
  find-set_entry :
      (key k : String) (e : CachedValue A) (entries : List (String × CachedValue A))
      → find_entry key (set_entry k e entries)
        ≡ (if str_eq k key then some e else find_entry key entries)
  unfolding find_entry set_entry
  find-set_entry key k e [] = refl
  find-set_entry key k e ((j, d) ∷ rest) =
      ground (arith, eq_iff j k, eq_iff j key, eq_iff k key, find-set_entry key k e rest)

  -- After a load, the value is answered until its time is over, and nothing is loaded again in that
  -- time: the second load does not matter, and the entries stay as they are.
  pub cached_until :
      (now stored_at later again : ℕ) (key : String) (ttl ttl' : ℕ) (value : A) (other : Option A)
      (entries : List (String × CachedValue A))
      → live_value now (find_entry key entries) ≡ none
      → later < stored_at + ttl
      → let kept = (cached now stored_at key ttl (some value) entries).0 in
        cached later again key ttl' other kept ≡ (kept, some value)
  unfolding cached live_value
  cached_until now stored_at later again key ttl ttl' value other entries missed early =
      let before : ltb later (stored_at + ttl) ≡ true = ground arith in
      rw
        (
          missed,
          find-set_entry key key (record { value = value; expires = stored_at + ttl }) entries,
          eq_refl key,
          before,
        )
        refl

  -- A load that fails is not kept: the entries stay as they are, so the next request loads again.
  pub cached_failure :
      (now stored_at : ℕ) (key : String) (ttl : ℕ) (entries : List (String × CachedValue A))
      → live_value now (find_entry key entries) ≡ none
      → cached now stored_at key ttl none entries ≡ (entries, none)
  unfolding cached
  cached_failure now stored_at key ttl entries missed = rw missed refl
