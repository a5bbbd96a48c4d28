-- ===== src/Api/Cache/Tests.antt =====
-- api/server.go: the law of the cache at one entry.
use forensic_listener.Prelude.{ℕ, ◌≡◌, refl, some, none, List, [], ◌∷◌, arith, String}
use forensic_listener.Api.Cache.{CachedValue, cached, find_entry, set_entry, live_value}
use forensic_listener.Api.Cache.Hits.{cached_until}

abbrev kept : List (String × CachedValue ℕ)
kept = ("hubs:8", record { value = 42; expires = 36 }) ∷ []

loads : cached 5 6 "hubs:8" 30 (some 42) [] ≡ (kept, some 42)
unfolding cached find_entry set_entry live_value
loads = refl

cached_until_applied :
    cached 35 35 "hubs:8" 30 none (cached {A = ℕ} 5 6 "hubs:8" 30 (some 42) []).0
    ≡ ((cached {A = ℕ} 5 6 "hubs:8" 30 (some 42) []).0, some 42)
cached_until_applied =
    cached_until 5 6 35 35 "hubs:8" 30 30 42 none [] (unfold find_entry live_value in refl)
      (omega arith)
