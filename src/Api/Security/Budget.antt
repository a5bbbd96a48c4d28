-- ===== src/Api/Security/Budget.antt =====
-- api/security.go: how many requests of a client the limiter lets through, and what does not count.
use forensic_listener.Prelude.{
  ℕ, suc, ◌+◌, ◌-◌, ◌≤◌, min, String, ◌≡◌, refl, ap, ◌∙◌, Bool, true, false, ◌&&◌, not, some, List,
  [], ◌∷◌, arith, str_eq, eq_iff, eq_refl, leb, ◌==◌, if◌then◌else◌, Bool-cases, inl, inr, ◌⊎◌, All,
}
use forensic_listener.Api.Security.{
  Request, ClientWindow, Reply, served, no_content, unauthorized, Clients, minute, is_public_path,
  find_window, set_window, current_window, count_request, admit, rate_limit, is_authorized, route,
  trim_prefix,
}

find-set_window :
    (ip k : String) (w : ClientWindow) (clients : Clients)
    → find_window ip (set_window k w clients)
      ≡ (if str_eq k ip then some w else find_window ip clients)
unfolding find_window set_window
find-set_window ip k w [] = refl
find-set_window ip k w ((j, v) ∷ rest) =
    ground (arith, eq_iff j k, eq_iff j ip, eq_iff k ip, find-set_window ip k w rest)

-- The request is one that the limiter counts for this client.
abbrev pub is_counted : String → String → Request → Bool
is_counted token ip r =
    not (str_eq r.method "OPTIONS")
    && is_authorized token r
    && not (is_public_path r.path)
    && str_eq r.client_ip ip

-- How many requests of the list count, and how many of those are served.
abbrev pub counted : String → String → List (ℕ × Request) → ℕ
counted token ip [] = 0
counted token ip ((t, r) ∷ more) =
    let n = counted token ip more in if is_counted token ip r then suc n else n

abbrev pub is_served : Reply → Bool
is_served served = true
is_served _ = false

abbrev pub served_of : String → ℕ → String → List (ℕ × Request) → Clients → ℕ
served_of token limit ip [] clients = 0
served_of token limit ip ((t, r) ∷ more) clients =
    let step = route token limit t r clients in
    let n = served_of token limit ip more step.0 in
    if is_counted token ip r && is_served step.1 then suc n else n

admit-state : (x : Clients × Bool) → (admit x).0 ≡ x.0
admit-state (clients, true) = refl
admit-state (clients, false) = refl

admit-served : (x : Clients × Bool) → is_served (admit x).1 ≡ x.1
admit-served (clients, true) = refl
admit-served (clients, false) = refl

both_true : (a b : Bool) → (a && b) ≡ true → (a ≡ true) × (b ≡ true)
both_true true b h = (refl, h)
both_true false b h = cc

not-true : (a : Bool) → not a ≡ true → a ≡ false
not-true true h = cc
not-true false h = refl

open_window : (t : ℕ) (w : ClientWindow) → t ≤ w.reset_at → current_window t (some w) ≡ w
unfolding current_window
open_window t w h = ground arith

module _ (token : String) (limit : ℕ) (ip : String) where
  -- A request that does not count for the client leaves its window alone.
  uncounted_keeps :
      (t : ℕ) (r : Request) (clients : Clients)
      → is_counted token ip r ≡ false
      → find_window ip (route token limit t r clients).0 ≡ find_window ip clients
  unfolding route rate_limit count_request
  uncounted_keeps t r clients h = elim (Bool-cases (str_eq r.method "OPTIONS")) [
    | inl a ↦ rw a refl
    | inr a ↦ elim (Bool-cases (is_authorized token r)) [
      | inr b ↦ rw (a, b) refl
      | inl b ↦ elim (Bool-cases (is_public_path r.path)) [
        | inl c ↦ elim (Bool-cases (limit == 0)) [
          | inl d ↦ rw (a, b, d) refl
          | inr d ↦ rw (a, b, d, c) refl
        ]
        | inr c ↦
            let other : str_eq r.client_ip ip ≡ false = rw (a, b, c) at h in
            elim (Bool-cases (limit == 0)) [
              | inl d ↦ rw (a, b, d) refl
              | inr d ↦
                  rw (a, b, d, c)
                    (ap (find_window ip) (admit-state (count_request limit t r.client_ip clients))
                      ∙ find-set_window ip r.client_ip _ clients
                      ∙ rw other refl)
            ]
      ]
    ]
  ]

  counted_step :
      (t : ℕ) (r : Request) (clients : Clients)
      → 1 ≤ limit
      → is_counted token ip r ≡ true
      → let w = current_window t (find_window ip clients) in
        (find_window ip (route token limit t r clients).0 ≡ some (record w { count = w.count + 1 }))
        × (is_served (route token limit t r clients).1 ≡ leb (w.count + 1) limit)
  unfolding route rate_limit count_request
  counted_step t r clients on h =
      let opts = str_eq r.method "OPTIONS" in
      let same = str_eq r.client_ip ip in
      let (h1, d) =
        both_true (not opts && is_authorized token r && not (is_public_path r.path)) same h in
      let (h2, c) =
        both_true (not opts && is_authorized token r) (not (is_public_path r.path)) h1 in
      let (a, b) = both_true (not opts) (is_authorized token r) h2 in
      let on' : (limit == 0) ≡ false = ground arith in
      rw (not-true opts a, b, on', not-true (is_public_path r.path) c)
        (
          ap (find_window ip) (admit-state (count_request limit t r.client_ip clients))
              ∙ find-set_window ip r.client_ip _ clients
              ∙ rw ((eq_iff r.client_ip ip).0 d, eq_refl ip) refl,
          admit-served (count_request limit t r.client_ip clients)
              ∙ rw ((eq_iff r.client_ip ip).0 d) refl,
        )

  -- While the window of a client is open, the limiter lets through exactly as many of its counted
  -- requests as the limit leaves, whatever other clients ask in between.
  pub window_budget :
      (requests : List (ℕ × Request)) (clients : Clients) (w : ClientWindow)
      → 1 ≤ limit
      → find_window ip clients ≡ some w
      → All (λ (x : ℕ × Request). x.0 ≤ w.reset_at) requests
      → served_of token limit ip requests clients
        ≡ min (limit - w.count) (counted token ip requests)
  window_budget [] clients w on e h = omega arith
  window_budget ((t, r) ∷ more) clients w on e (now, h) =
      elim (Bool-cases (is_counted token ip r)) [
        | inr out ↦
            let kept = uncounted_keeps t r clients out in
            rw out (window_budget more (route token limit t r clients).0 w on (kept ∙ e) h)
        | inl counts ↦
            let (found, reply) = counted_step t r clients on counts in
            let cur : current_window t (find_window ip clients) ≡ w = rw e (open_window t w now) in
            let found' : find_window ip (route token limit t r clients).0
                ≡ some (record w { count = w.count + 1 }) =
              rw cur at found in
            let reply' : is_served (route token limit t r clients).1 ≡ leb (w.count + 1) limit =
              rw cur at reply in
            let rest =
              window_budget more (route token limit t r clients).0
                (record w { count = w.count + 1 }) on found' h in
            rw (counts, reply', rest) (ground arith)
      ]

  -- So from its first counted request on, within a minute, a client is served at most the limit, and
  -- all of its requests if they are no more: a window that is over, or a client that is new, starts
  -- with the whole limit.
  pub fresh_budget :
      (t : ℕ) (r : Request) (more : List (ℕ × Request)) (clients : Clients)
      → 1 ≤ limit
      → is_counted token ip r ≡ true
      → current_window t (find_window ip clients) ≡ record { count = 0; reset_at = t + minute }
      → All (λ (x : ℕ × Request). x.0 ≤ t + minute) more
      → served_of token limit ip ((t, r) ∷ more) clients
        ≡ min limit (counted token ip ((t, r) ∷ more))
  fresh_budget t r more clients on counts fresh h =
      let (found, reply) = counted_step t r clients on counts in
      let w : ClientWindow = record { count = 1; reset_at = t + minute } in
      let found' : find_window ip (route token limit t r clients).0 ≡ some w = rw fresh at found in
      let reply' : is_served (route token limit t r clients).1 ≡ leb 1 limit = rw fresh at reply in
      let rest = window_budget more (route token limit t r clients).0 w on found' h in
      rw (counts, reply', rest) (ground arith)

-- What a request must show where the path is not public and a token is set.
abbrev pub LacksToken : String → Request → Type 0
LacksToken token r =
    (is_public_path r.path ≡ false)
    × (str_eq (trim_prefix r.authorization "Bearer ") token ≡ false)
    × (str_eq r.api_token token ≡ false)
    × ((str_eq r.path "/stream/events" ≡ false) ⊎ (str_eq r.access_token token ≡ false))

-- With a token set, requests that do not show it are never served, are answered alike at any time and
-- under any limit, and take nothing from the budget of any client.
pub unauthorized_free :
    (token : String) (limit now : ℕ) (r : Request) (clients : Clients)
    → str_eq token "" ≡ false
    → LacksToken token r
    → route token limit now r clients
      ≡ (clients, if str_eq r.method "OPTIONS" then no_content else unauthorized)
unfolding route is_authorized
unauthorized_free token limit now r clients set (p, a, b, inl c) =
    rw (set, p, a, b, c)
      (elim (Bool-cases (str_eq r.method "OPTIONS")) [ inl e ↦ rw e refl | inr e ↦ rw e refl ])
unauthorized_free token limit now r clients set (p, a, b, inr c) =
    elim (Bool-cases (str_eq r.path "/stream/events")) [
      | inl d ↦
          rw (set, p, a, b, d, c)
            (elim (Bool-cases (str_eq r.method "OPTIONS")) [
              | inl e ↦ rw e refl
              | inr e ↦ rw e refl
            ])
      | inr d ↦
          rw (set, p, a, b, d)
            (elim (Bool-cases (str_eq r.method "OPTIONS")) [
              | inl e ↦ rw e refl
              | inr e ↦ rw e refl
            ])
    ]
