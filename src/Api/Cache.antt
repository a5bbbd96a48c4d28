-- ===== src/Api/Cache.antt =====
-- api/server.go: the cache of the server, `cached`.
pub mod Hits
mod Tests
use forensic_listener.Prelude.{
  ℕ, ◌+◌, String, Bool, true, false, Option, none, some, List, [], ◌∷◌, str_eq, ltb, if◌then◌else◌,
}

-- cachedValue
pub record CachedValue {ℓ} (A : Type ℓ) : Type ℓ where
  pub value : A
  pub expires : ℕ

module _ {ℓ} {A : Type ℓ} where
  unfoldable pub find_entry : String → List (String × CachedValue A) → Option (CachedValue A)
  find_entry key [] = none
  find_entry key ((k, e) ∷ rest) = if str_eq k key then some e else find_entry key rest

  unfoldable pub set_entry :
      String → CachedValue A → List (String × CachedValue A) → List (String × CachedValue A)
  set_entry key e [] = (key, e) ∷ []
  set_entry key e ((k, d) ∷ rest) =
      if str_eq k key then (key, e) ∷ rest else (k, d) ∷ set_entry key e rest

  -- time.Now().Before(entry.expires)
  unfoldable pub live_value : ℕ → Option (CachedValue A) → Option A
  live_value now none = none
  live_value now (some e) = if ltb now e.expires then some e.value else none

  abbrev pub store_loaded :
      ℕ
      → String
      → ℕ
      → Option A
      → List (String × CachedValue A)
      → List (String × CachedValue A) × Option A
  store_loaded stored_at key ttl none entries = (entries, none)
  store_loaded stored_at key ttl (some value) entries =
      (set_entry key (record { value = value; expires = stored_at + ttl }) entries, some value)

  abbrev pub answer_from :
      Option A
      → ℕ
      → String
      → ℕ
      → Option A
      → List (String × CachedValue A)
      → List (String × CachedValue A) × Option A
  answer_from (some value) stored_at key ttl loaded entries = (entries, some value)
  answer_from none stored_at key ttl loaded entries = store_loaded stored_at key ttl loaded entries

  -- cached: `now` is the time of the look and `stored_at` that of the write; `loaded` is what `load`
  -- returns, none for an error.
  unfoldable pub cached :
      ℕ
      → ℕ
      → String
      → ℕ
      → Option A
      → List (String × CachedValue A)
      → List (String × CachedValue A) × Option A
  cached now stored_at key ttl loaded entries =
      answer_from (live_value now (find_entry key entries)) stored_at key ttl loaded entries
