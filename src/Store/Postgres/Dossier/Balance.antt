-- ===== src/Store/Postgres/Dossier/Balance.antt =====
-- store/postgres.go: the figures of a dossier and its list of counterparties agree.
use forensic_listener.Prelude.{
  length-map, ℕ, ◌+◌, ◌≤◌, String, ◌≡◌, refl, ◌∙◌, Bool, true, false, ◌&&◌, Option, none, some,
  List, [], ◌∷◌, map, arith, if◌then◌else◌, keep, length, Bool-cases, inl, inr,
}
use forensic_listener.Store.Address.{AddressLib, normalize_address}
use forensic_listener.Models.{Account}
use forensic_listener.Store.Postgres.Transactions.{TxRow}
use forensic_listener.Store.Postgres.Counts.{count}
use forensic_listener.Store.Postgres.Accounts.{find_account}
use forensic_listener.Store.Postgres.Network.{sent_by, received_by, count_distinct}
use forensic_listener.Store.Postgres.Pages.{newest}
use forensic_listener.Store.Postgres.Pages.Newest.{length-newest}
use forensic_listener.Store.Address.Canonical.{normalize_idem}
use forensic_listener.Store.Postgres.Dossier.{
  sent_activity, Tables, Activity, CounterpartyActivity, AccountProfile, sum_all, sent_activities,
  received_activities, related, partner, distinct_names, counterparty_row, most_frequent,
  account_counterparties, profile_of, get_account_profile,
}
use forensic_listener.Store.Postgres.Dossier.Groups.{
  sum-cong, group_sum, length-distinct, sum-append, sum_one, sum-groups, sum-newest, sum-map,
  take-all,
}

abbrev pub is_none : Option String → Bool
is_none none = true
is_none (some a) = false

-- A transaction from the address that creates a contract.
abbrev pub creates : String → TxRow → Bool
creates a r = sent_by a r && is_none r.to_address

abbrev sent_entry : TxRow → String → Activity
sent_entry r to = record {
  counterparty = to;
  sent = 1;
  received = 0;
  value = r.value;
  timestamp = r.timestamp;
}

abbrev received_entry : TxRow → Activity
received_entry r = record {
  counterparty = r.from_address;
  sent = 0;
  received = 1;
  value = r.value;
  timestamp = r.timestamp;
}

module _ (f : Activity → ℕ) (w : TxRow → ℕ)
    (same : (r : TxRow) (to : String) → f (sent_entry r to) ≡ w r) where
  sent_one :
      (r : TxRow) (to : Option String) (rest : List Activity)
      → sum_all f (sent_activity r to rest) + (if is_none to then w r else 0) ≡ w r + sum_all f rest
  unfolding sum_all
  sent_one r none rest = omega arith
  sent_one r (some to) rest = omega (arith, same r to)

  -- What an address has sent is what it has sent to someone, and its contract creations.
  sent-sums :
      (a : String) (rows : List TxRow)
      → sum_all f (sent_activities a rows) + sum_all w (keep (creates a) rows)
        ≡ sum_all w (keep (sent_by a) rows)
  unfolding sent_activities sum_all
  sent-sums a [] = refl
  sent-sums a (r ∷ rs) = elim (Bool-cases (sent_by a r)) [
    | inr other ↦ rw other (sent-sums a rs)
    | inl mine ↦
        let one = sent_one r r.to_address (sent_activities a rs) in
        let ih = sent-sums a rs in
        elim (Bool-cases (is_none r.to_address)) [
          | inl n ↦ rw (mine, n) (let e = rw n at one in omega (arith, e, ih))
          | inr n ↦ rw (mine, n) (let e = rw n at one in omega (arith, e, ih))
        ]
  ]

module _ (f : Activity → ℕ) (w : TxRow → ℕ) where
  -- What an address has received is in `related` row by row.
  received-sums :
      (a : String) (rows : List TxRow)
      → ((r : TxRow) → f (received_entry r) ≡ w r)
      → sum_all f (received_activities a rows) ≡ sum_all w (keep (received_by a) rows)
  unfolding received_activities sum_all
  received-sums a [] same = refl
  received-sums a (r ∷ rs) same = elim (Bool-cases (received_by a r)) [
    | inr other ↦ rw other (received-sums a rs same)
    | inl mine ↦ rw mine (omega (arith, same r, received-sums a rs same))
  ]

none_received :
    (r : TxRow) (to : Option String) (rest : List Activity)
    → sum_all (λ (x : Activity). x.received) (sent_activity r to rest)
      ≡ sum_all (λ (x : Activity). x.received) rest
unfolding sum_all
none_received r none rest = refl
none_received r (some to) rest = omega arith

sent-zero :
    (a : String) (rows : List TxRow)
    → sum_all (λ (x : Activity). x.received) (sent_activities a rows) ≡ 0
unfolding sent_activities sum_all
sent-zero a [] = refl
sent-zero a (r ∷ rs) = elim (Bool-cases (sent_by a r)) [
  | inr other ↦ rw other (sent-zero a rs)
  | inl mine ↦ rw mine (none_received r r.to_address (sent_activities a rs) ∙ sent-zero a rs)
]

received-zero :
    (a : String) (rows : List TxRow)
    → sum_all (λ (x : Activity). x.sent) (received_activities a rows) ≡ 0
unfolding received_activities sum_all
received-zero a [] = refl
received-zero a (r ∷ rs) = elim (Bool-cases (received_by a r)) [
  | inr other ↦ rw other (received-zero a rs)
  | inl mine ↦ rw mine (omega (arith, received-zero a rs))
]

module _ (db : Tables) (xs : List Activity) where
  abbrev rows_of : List CounterpartyActivity
  rows_of = map (counterparty_row db xs) (distinct_names (map partner xs))

  -- Each column of the counterparties adds up to what `related` has of it.
  column-sums :
      (f : Activity → ℕ) (column : CounterpartyActivity → ℕ)
      → ((c : String) → column (counterparty_row db xs c) ≡ group_sum partner f xs c)
      → sum_all column (most_frequent rows_of) ≡ sum_all f xs
  unfolding most_frequent
  column-sums f column e =
      sum-newest column _ (newest (λ (c : CounterpartyActivity). c.last_seen) rows_of)
      ∙ sum-newest column _ rows_of
      ∙ sum-map column (counterparty_row db xs) (distinct_names (map partner xs))
      ∙ sum-cong (λ (c : String). column (counterparty_row db xs c)) (group_sum partner f xs)
          (distinct_names (map partner xs)) e
      ∙ sum-groups partner f xs

  length-rows : length (most_frequent rows_of) ≡ count_distinct (map partner xs)
  unfolding most_frequent
  length-rows =
      length-newest _ (newest (λ (c : CounterpartyActivity). c.last_seen) rows_of)
      ∙ length-newest _ rows_of
      ∙ length-map (counterparty_row db xs) (distinct_names (map partner xs))
      ∙ length-distinct (map partner xs)

abbrev value_of : TxRow → ℕ
value_of r = r.value

-- The dossier's figures, and its list of counterparties where the list has all of them.
pub record Agrees (a : String) (rows : List TxRow) (p : AccountProfile) : Type 0 where
  pub all_listed : length p.counterparties ≡ p.counterparty_count
  pub all_sent :
      sum_all (λ (c : CounterpartyActivity). c.sent_count) p.counterparties + count (creates a) rows
      ≡ p.sent_count
  pub all_received :
      sum_all (λ (c : CounterpartyActivity). c.received_count) p.counterparties ≡ p.received_count
  pub all_value :
      sum_all (λ (c : CounterpartyActivity). c.total_value) p.counterparties
        + sum_all value_of (keep (creates a) rows)
      ≡ p.total_sent + p.total_received

module _ (lib : AddressLib) (db : Tables) where
  -- A canonical address' list of at most eight counterparties is uncut.
  listed_all :
      (a : String)
      → normalize_address lib a ≡ a
      → count_distinct (map partner (related a db.transactions)) ≤ 8
      → account_counterparties lib db a 8 ≡ most_frequent (rows_of db (related a db.transactions))
  unfolding account_counterparties
  listed_all a canonical few =
      rw canonical (take-all 8 _ (omega (arith, length-rows db (related a db.transactions))))

  profile-Agrees :
      (a : String) (account : Account)
      → normalize_address lib a ≡ a
      → (profile_of lib db a account).counterparty_count ≤ 8
      → Agrees a db.transactions (profile_of lib db a account)
  unfolding profile_of
  profile-Agrees a account canonical few =
      let xs = related a db.transactions in
      let rows = db.transactions in
      let listed = listed_all a canonical few in
      let sent = sent_activities a rows in
      let received = received_activities a rows in
      record {
        all_listed = rw listed (length-rows db xs);
        all_sent = rw listed (
            omega (
              arith,
              column-sums db xs (λ (x : Activity). x.sent)
                  (λ (c : CounterpartyActivity). c.sent_count)
                  (λ c. unfold counterparty_row in refl),
              sum-append (λ (x : Activity). x.sent) sent received,
              received-zero a rows,
              sent-sums (λ (x : Activity). x.sent) (λ (r : TxRow). 1) (λ r to. refl) a rows,
              sum_one (keep (creates a) rows),
              sum_one (keep (sent_by a) rows),
            ));
        all_received = rw listed (
            omega (
              arith,
              column-sums db xs (λ (x : Activity). x.received)
                  (λ (c : CounterpartyActivity). c.received_count)
                  (λ c. unfold counterparty_row in refl),
              sum-append (λ (x : Activity). x.received) sent received,
              sent-zero a rows,
              received-sums (λ (x : Activity). x.received) (λ (r : TxRow). 1) a rows (λ r. refl),
              sum_one (keep (received_by a) rows),
            ));
        all_value = rw listed (
            omega (
              arith,
              column-sums db xs (λ (x : Activity). x.value)
                  (λ (c : CounterpartyActivity). c.total_value)
                  (λ c. unfold counterparty_row in refl),
              sum-append (λ (x : Activity). x.value) sent received,
              sent-sums (λ (x : Activity). x.value) value_of (λ r to. refl) a rows,
              received-sums (λ (x : Activity). x.value) value_of a rows (λ r. refl),
            ));
      }

  of_account :
      (a : String) (found : Option Account) (p : AccountProfile)
      → normalize_address lib a ≡ a
      → elim found [ none ↦ none | some account ↦ some (profile_of lib db a account) ] ≡ some p
      → p.counterparty_count ≤ 8
      → Agrees a db.transactions p
  of_account a none p canonical h few = cc
  of_account a (some account) p canonical h few =
      let e : profile_of lib db a account ≡ p = cc in
      rw (← e) (profile-Agrees a account canonical (rw (← e) at few))

  -- Where an account has at most eight counterparties, its dossier lists as many as it counts; the
  -- transactions received from them are all that it received; those sent to them, and its contract
  -- creations, are all that it sent; and so for the value moved.
  pub dossier-Agrees :
      (address : String) (p : AccountProfile)
      → get_account_profile lib db address ≡ some p
      → p.counterparty_count ≤ 8
      → Agrees (normalize_address lib address) db.transactions p
  unfolding get_account_profile
  dossier-Agrees address p h few =
      let a = normalize_address lib address in
      of_account a (find_account a db.accounts) p (normalize_idem lib address) h few
