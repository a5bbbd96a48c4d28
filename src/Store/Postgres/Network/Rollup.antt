-- ===== src/Store/Postgres/Network/Rollup.antt =====
-- store/postgres.go: the rollup has, hour by hour, what the transactions say.
use forensic_listener.Prelude.{
  suc, zero, length, Option, ◌+◌, ℕ, ◌≤◌, ◌≡◌, refl, ap, ◌∙◌, Bool, true, false, ◌&&◌, ◌||◌, some,
  List, [], ◌∷◌, map, arith, leb, ◌==◌, ==_iff, if◌then◌else◌, any, keep, Bool-cases, inl, inr,
}
use forensic_listener.Store.Postgres.Transactions.{TxRow}
use forensic_listener.Store.Postgres.Network.{
  series, point_of, hours_from, refresh_network_hourly, network_metrics, hour_row, HourRow, hour_of,
  in_hour, hours_in, put_hour, put_hours, find_hour,
}

abbrev windowed : ℕ → List TxRow → List TxRow
windowed from rows = keep (λ (r : TxRow). leb from (hour_of r.timestamp)) rows

-- Some transaction is of this hour.
abbrev pub has_hour : ℕ → List TxRow → Bool
has_hour b rows = any (in_hour b) rows

find-put_hour :
    (b : ℕ) (h : HourRow) (ks : List HourRow)
    → find_hour b (put_hour h ks) ≡ (if h.bucket == b then some h else find_hour b ks)
unfolding find_hour put_hour
find-put_hour b h [] = refl
find-put_hour b h (k ∷ ks) = ground (arith, find-put_hour b h ks)

hours_in-any : (b : ℕ) (rows : List TxRow) → any (λ c. c == b) (hours_in rows) ≡ has_hour b rows
unfolding hours_in
hours_in-any b [] = refl
hours_in-any b (r ∷ rs) = elim (Bool-cases (any (λ c. c == hour_of r.timestamp) (hours_in rs))) [
  | inr e ↦ rw e (ap (λ x. in_hour b r || x) (hours_in-any b rs))
  | inl e ↦ elim (Bool-cases (in_hour b r)) [
    | inr f ↦ rw (e, f) (hours_in-any b rs)
    | inl f ↦ let q : hour_of r.timestamp ≡ b = (==_iff _ b).0 f in rw (e, f) (rw q at e)
  ]
]

-- Of rows that one function makes of their hours, the last put for an hour is as good as any.
find-put_hours :
    (b : ℕ) (f : ℕ → HourRow) (bs : List ℕ) (ks : List HourRow)
    → ((c : ℕ) → (f c).bucket ≡ c)
    → find_hour b (put_hours (map f bs) ks)
      ≡ (if any (λ c. c == b) bs then some (f b) else find_hour b ks)
unfolding put_hours
find-put_hours b f [] ks h = refl
find-put_hours b f (c ∷ bs) ks h =
    find-put_hours b f bs (put_hour (f c) ks) h ∙ (elim (Bool-cases (c == b)) [
      | inl e ↦
          let q : c ≡ b = (==_iff c b).0 e in
          let k : ((f c).bucket == b) ≡ true = rw (h c) e in
          rw e (elim (Bool-cases (any (λ d. d == b) bs)) [
            | inl m ↦ rw m refl
            | inr m ↦ rw m (find-put_hour b (f c) ks ∙ rw k (ap (λ d. some (f d)) q))
          ])
      | inr e ↦
          let k : ((f c).bucket == b) ≡ false = rw (h c) e in
          rw e (
            ap (λ o. if any (λ d. d == b) bs then some (f b) else o)
              (find-put_hour b (f c) ks ∙ rw k refl))
    ])

keep-hour :
    (b from : ℕ) (rows : List TxRow)
    → from ≤ b
    → keep (in_hour b) (windowed from rows) ≡ keep (in_hour b) rows
keep-hour b from [] h = refl
keep-hour b from (r ∷ rs) h = elim (Bool-cases (leb from (hour_of r.timestamp))) [
  | inl e ↦ elim (Bool-cases (in_hour b r)) [
    | inl f ↦ rw (e, f) (ap (λ t. r ∷ t) (keep-hour b from rs h))
    | inr f ↦ rw (e, f) (keep-hour b from rs h)
  ]
  | inr e ↦ elim (Bool-cases (in_hour b r)) [
    | inl f ↦ absurd (let q : hour_of r.timestamp ≡ b = (==_iff _ b).0 f in ground arith)
    | inr f ↦ rw (e, f) (keep-hour b from rs h)
  ]
]

any-hour :
    (b from : ℕ) (rows : List TxRow)
    → has_hour b (windowed from rows) ≡ (leb from b && has_hour b rows)
any-hour b from [] = ground arith
any-hour b from (r ∷ rs) = ground (arith, any-hour b from rs)

hour_row-windowed :
    (now from b : ℕ) (rows : List TxRow)
    → from ≤ b
    → hour_row now (windowed from rows) b ≡ hour_row now rows b
unfolding hour_row
hour_row-windowed now from b rows h = rw (keep-hour b from rows h) refl

-- The row of an hour, made of its transactions, if it has any and is not before the refresh; otherwise
-- the row that was there.
abbrev pub refreshed_hour : ℕ → ℕ → List TxRow → List HourRow → ℕ → Option HourRow
refreshed_hour since now rows table b =
    if leb (hour_of since) b && has_hour b rows
    then some (hour_row now rows b)
    else find_hour b table

refresh-find :
    (since now : ℕ) (rows : List TxRow) (table : List HourRow) (b : ℕ)
    → find_hour b (refresh_network_hourly since now rows table).0
      ≡ refreshed_hour since now rows table b
unfolding refresh_network_hourly
refresh-find since now rows table b =
    let from = hour_of since in
    find-put_hours b (hour_row now (windowed from rows)) (hours_in (windowed from rows)) table
      (λ c. unfold hour_row in refl)
    ∙ rw (hours_in-any b (windowed from rows), any-hour b from rows)
        (elim (Bool-cases (leb from b && has_hour b rows)) [
          | inl e ↦ rw e (ap some (hour_row-windowed now from b rows (ground arith)))
          | inr e ↦ rw e refl
        ])

length-points : {A : Type 0} (f : ℕ → A) (bs : List ℕ) → length (map f bs) ≡ length bs
length-points f [] = refl
length-points f (b ∷ bs) = omega (arith, length-points f bs)

length-hours : (n b : ℕ) → length (hours_from b n) ≡ n
unfolding hours_from
length-hours zero b = refl
length-hours (suc n) b = omega (arith, length-hours n (b + 1))

-- After a refresh the chart of the last hours has one point for each of them, in order; an hour from
-- the refreshed one on shows what its transactions add up to, any other what it showed before, and an
-- hour with neither shows zeros.
pub metrics-refresh :
    (since now today hours : ℕ) (rows : List TxRow) (table : List HourRow)
    → (network_metrics today hours (refresh_network_hourly since now rows table).0
        ≡ map (λ b. point_of b (refreshed_hour since now rows table b)) (series today hours))
      × (length (network_metrics today hours (refresh_network_hourly since now rows table).0)
          ≡ hours)
unfolding network_metrics
metrics-refresh since now today hours rows table =
    (pointwise (series today hours), length-points _ (series today hours) ∙ length-hours hours _)
  where
    pointwise :
        (bs : List ℕ)
        → map (λ b. point_of b (find_hour b (refresh_network_hourly since now rows table).0)) bs
          ≡ map (λ b. point_of b (refreshed_hour since now rows table b)) bs
    pointwise [] = refl
    pointwise (b ∷ bs) =
        ap
          (λ o.
            point_of b o
            ∷ map (λ c. point_of c (find_hour c (refresh_network_hourly since now rows table).0))
                bs)
          (refresh-find since now rows table b)
        ∙ ap (λ t. point_of b (refreshed_hour since now rows table b) ∷ t) (pointwise bs)
