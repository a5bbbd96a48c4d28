-- ===== src/Api/Security/Tests.antt =====
-- api/security.go: tests of the middlewares, and their laws at a few requests.
use forensic_listener.Prelude.{ℕ, ◌-◌, min, ◌≡◌, refl, String, List, [], ◌∷◌, arith, inl}
use forensic_listener.Api.Security.{
  Request, Clients, served, no_content, unauthorized, too_many_requests, trim_prefix, after_prefix,
  route, route_all, rate_limit, count_request, current_window, find_window, set_window,
  is_authorized,
}
use forensic_listener.Api.Security.Budget.{
  served_of, counted, window_budget, fresh_budget, unauthorized_free,
}

abbrev ask : String → String → Request
ask ip bearer = record {
  method = "GET";
  path = "/flags";
  client_ip = ip;
  authorization = bearer;
  api_token = "";
  access_token = "";
}

-- Two clients, one of them without the token.
abbrev requests : List (ℕ × Request)
requests = (5, ask "1" "Bearer s") ∷ (6, ask "2" "") ∷ (7, ask "1" "s") ∷ (8, ask "1" "s") ∷ []

abbrev used : Clients
used = ("1", record { count = 1; reset_at = 50 }) ∷ []

replies : (route_all "s" 2 requests []).1 ≡ served ∷ unauthorized ∷ served ∷ too_many_requests ∷ []
unfolding route_all route rate_limit count_request current_window find_window set_window
    is_authorized trim_prefix after_prefix
replies = refl

preflight : route "s" 2 5 (record (ask "1" "") { method = "OPTIONS" }) [] ≡ ([], no_content)
unfolding route
preflight = refl

window_budget_example : served_of "s" 2 "1" requests used ≡ min (2 - 1) (counted "s" "1" requests)
window_budget_example =
    window_budget "s" 2 "1" requests used (record { count = 1; reset_at = 50 }) (omega arith)
      (unfold find_window in refl) (omega arith, (omega arith, (omega arith, (omega arith, tt))))

fresh_budget_applied : served_of "s" 2 "1" requests [] ≡ min 2 (counted "s" "1" requests)
fresh_budget_applied =
    fresh_budget "s" 2 "1" 5 (ask "1" "Bearer s")
      ((6, ask "2" "") ∷ (7, ask "1" "s") ∷ (8, ask "1" "s") ∷ []) [] (omega arith)
      (unfold is_authorized trim_prefix after_prefix in refl)
      (unfold current_window find_window in refl) (omega arith, (omega arith, (omega arith, tt)))

unauthorized_free_applied : route "s" 2 6 (ask "2" "") used ≡ (used, unauthorized)
unauthorized_free_applied =
    unauthorized_free "s" 2 6 (ask "2" "") used refl
      (refl, unfold trim_prefix after_prefix in refl, refl, inl refl)
