-- ===== src/Store/Postgres/Network.antt =====
-- store/postgres.go: the hourly rollup of network activity, and the series of an address.
-- An hour is the number of hours since the epoch, to which date_trunc('hour', t) goes back.
pub mod Rollup
mod Tests
use forensic_listener.Prelude.{
  ℕ, zero, suc, ◌+◌, ◌-◌, ◌*◌, ◌/◌, String, Bool, true, false, ◌&&◌, ◌||◌, Option, none, some, List,
  [], ◌∷◌, ◌++◌, map, str_eq, leb, ◌==◌, if◌then◌else◌, any, keep, length,
}
use forensic_listener.Store.Address.{AddressLib, normalize_address}
use forensic_listener.Store.Postgres.Transactions.{TxRow}
use forensic_listener.Store.Postgres.Pages.{equals}

abbrev pub one_hour : ℕ
one_hour = 60 * 60 * 1000000

abbrev pub hour_of : ℕ → ℕ
hour_of t = t / one_hour

-- A row of network_hourly.
pub record HourRow : Type 0 where
  pub bucket : ℕ
  pub transaction_count : ℕ
  pub unique_addresses : ℕ
  pub avg_gas_price : ℕ
  pub total_value : ℕ
  pub refreshed_at : ℕ

abbrev pub in_hour : ℕ → TxRow → Bool
in_hour b r = hour_of r.timestamp == b

unfoldable pub sum_of : (TxRow → ℕ) → List TxRow → ℕ
sum_of f [] = 0
sum_of f (r ∷ rs) = f r + sum_of f rs

-- The senders, and the recipients that are not NULL.
unfoldable pub participants : List TxRow → List String
participants [] = []
participants (r ∷ rs) =
    r.from_address ∷ elim r.to_address [ none ↦ participants rs | some a ↦ a ∷ participants rs ]

-- COUNT(DISTINCT address)
unfoldable pub count_distinct : List String → ℕ
count_distinct [] = 0
count_distinct (a ∷ more) =
    let rest = count_distinct more in if any (str_eq a) more then rest else rest + 1

-- ROUND(AVG(x)), of n values, half up
abbrev pub rounded_average : ℕ → ℕ → ℕ
rounded_average total n = if n == 0 then 0 else (2 * total + n) / (2 * n)

-- The aggregates of one hour.
unfoldable pub hour_row : ℕ → List TxRow → ℕ → HourRow
hour_row now rows b =
    let here = keep (in_hour b) rows in
    record {
      bucket = b;
      transaction_count = length here;
      unique_addresses = count_distinct (participants here);
      avg_gas_price = rounded_average (sum_of (λ (r : TxRow). r.gas_price) here) (length here);
      total_value = sum_of (λ (r : TxRow). r.value) here;
      refreshed_at = now;
    }

-- GROUP BY bucket: the hours that have rows.
unfoldable pub hours_in : List TxRow → List ℕ
hours_in [] = []
hours_in (r ∷ rs) =
    let rest = hours_in rs in
    if any (λ b. b == hour_of r.timestamp) rest then rest else hour_of r.timestamp ∷ rest

-- INSERT ... ON CONFLICT (bucket) DO UPDATE of every column
unfoldable pub put_hour : HourRow → List HourRow → List HourRow
put_hour h [] = h ∷ []
put_hour h (k ∷ ks) = if k.bucket == h.bucket then h ∷ ks else k ∷ put_hour h ks

unfoldable pub put_hours : List HourRow → List HourRow → List HourRow
put_hours [] ks = ks
put_hours (h ∷ hs) ks = put_hours hs (put_hour h ks)

-- RefreshNetworkHourly: the table, and the rows affected.
unfoldable pub refresh_network_hourly : ℕ → ℕ → List TxRow → List HourRow → List HourRow × ℕ
refresh_network_hourly since now rows table =
    let windowed = keep (λ (r : TxRow). leb (hour_of since) (hour_of r.timestamp)) rows in
    let fresh = map (hour_row now windowed) (hours_in windowed) in
    (put_hours fresh table, length fresh)

unfoldable pub find_hour : ℕ → List HourRow → Option HourRow
find_hour b [] = none
find_hour b (k ∷ ks) = if k.bucket == b then some k else find_hour b ks

pub record NetworkMetricPoint : Type 0 where
  pub bucket : ℕ
  pub transaction_count : ℕ
  pub unique_addresses : ℕ
  pub avg_gas_price : ℕ
  pub total_value : ℕ

-- The left join: an hour without a row is all zeros.
abbrev pub point_of : ℕ → Option HourRow → NetworkMetricPoint
point_of b none = record {
  bucket = b;
  transaction_count = 0;
  unique_addresses = 0;
  avg_gas_price = 0;
  total_value = 0;
}
point_of b (some h) = record {
  bucket = b;
  transaction_count = h.transaction_count;
  unique_addresses = h.unique_addresses;
  avg_gas_price = h.avg_gas_price;
  total_value = h.total_value;
}

-- generate_series by one hour, of n hours from b on
unfoldable pub hours_from : ℕ → ℕ → List ℕ
hours_from b zero = []
hours_from b (suc n) = b ∷ hours_from (b + 1) n

-- The hours of the series: `hours` of them, the last that of `now`.
abbrev pub series : ℕ → ℕ → List ℕ
series now hours = hours_from (hour_of now + 1 - hours) hours

-- NetworkMetrics
unfoldable pub network_metrics : ℕ → ℕ → List HourRow → List NetworkMetricPoint
network_metrics now hours table = map (λ b. point_of b (find_hour b table)) (series now hours)

pub record AccountVelocityPoint : Type 0 where
  pub bucket : ℕ
  pub sent_count : ℕ
  pub received_count : ℕ
  pub total_count : ℕ
  pub sent_value : ℕ
  pub received_value : ℕ
  pub total_value : ℕ

abbrev pub sent_by : String → TxRow → Bool
sent_by a r = str_eq r.from_address a

abbrev pub received_by : String → TxRow → Bool
received_by a r = equals a r.to_address

-- What `agg` has of an hour: a transaction from the address to itself is in both halves of `related`.
unfoldable pub velocity_point : String → List TxRow → ℕ → AccountVelocityPoint
velocity_point a rows b =
    let sent = keep (λ (r : TxRow). sent_by a r && in_hour b r) rows in
    let received = keep (λ (r : TxRow). received_by a r && in_hour b r) rows in
    record {
      bucket = b;
      sent_count = length sent;
      received_count = length received;
      total_count = length (sent ++ received);
      sent_value = sum_of (λ (r : TxRow). r.value) sent;
      received_value = sum_of (λ (r : TxRow). r.value) received;
      total_value = sum_of (λ (r : TxRow). r.value) (sent ++ received);
    }

-- AddressVelocity
unfoldable pub address_velocity :
    AddressLib → ℕ → String → ℕ → List TxRow → List AccountVelocityPoint
address_velocity lib now address hours rows =
    let a = normalize_address lib address in
    let start = hour_of now + 1 - hours in
    map (velocity_point a (keep (λ (r : TxRow). leb start (hour_of r.timestamp)) rows))
      (series now hours)
