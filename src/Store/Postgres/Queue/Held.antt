-- ===== src/Store/Postgres/Queue/Held.antt =====
-- store/postgres.go: what keeps a job of the queue leased.
use forensic_listener.Prelude.{
  ℕ, zero, suc, ◌+◌, ◌<◌, String, ◌≡◌, refl, sym, ap, ◌∙◌, if◌then◌else◌, Bool, true, false, ◌&&◌,
  not, Option, none, some, List, [], ◌∷◌, arith, str_eq, eq_iff, All, Bool-cases, inl, inr,
}
use forensic_listener.Store.Postgres.Queue.{
  Job, candidate, lease, update_job, is_claimable, lease_row, claim, requeue, prune_batch, has_job,
}
use forensic_listener.Store.Postgres.Queue.Lease.{
  candidate_lem, IsLeasedAt, leased_not_open, All-Memᴰ,
}

-- There is a job of this hash, and it is leased at `now`.
abbrev pub IsHeld : ℕ → String → List Job → Type 0
IsHeld now h jobs = (has_job h jobs ≡ true) × All (IsLeasedAt now h) jobs

module _ (now : ℕ) (h : String) where
  update_other :
      (k : String) (p : Job → Bool) (f : Job → Job) (jobs : List Job)
      → str_eq k h ≡ false
      → ((j : Job) → (f j).tx_hash ≡ j.tx_hash)
      → All (IsLeasedAt now h) jobs
      → All (IsLeasedAt now h) (update_job k p f jobs)
  unfolding update_job
  update_other k p f [] other keeps l = tt
  update_other k p f (j ∷ jobs) other keeps l =
      (row (str_eq j.tx_hash k && p j) refl, update_other k p f jobs other keeps l.1)
    where
      row : (b : Bool) → (str_eq j.tx_hash k && p j) ≡ b → IsLeasedAt now h (if b then f j else j)
      row false e = l.0
      row true e = λ same.
          let same_k : j.tx_hash ≡ k = (eq_iff j.tx_hash k).0 (ground (arith, e)) in
          let is_h : str_eq k h ≡ true = ap (λ t. str_eq t h) (sym (keeps j ∙ same_k)) ∙ same in cc

  pub has-update :
      (k : String) (p : Job → Bool) (f : Job → Job) (jobs : List Job)
      → ((j : Job) → (f j).tx_hash ≡ j.tx_hash)
      → has_job h (update_job k p f jobs) ≡ has_job h jobs
  unfolding update_job has_job
  has-update k p f [] keeps = refl
  has-update k p f (j ∷ jobs) keeps = ground (arith, has-update k p f jobs keeps, keeps j)

  pub updates-IsHeld :
      (k : String) (p : Job → Bool) (f : Job → Job) (jobs : List Job)
      → str_eq k h ≡ false
      → ((j : Job) → (f j).tx_hash ≡ j.tx_hash)
      → IsHeld now h jobs
      → IsHeld now h (update_job k p f jobs)
  updates-IsHeld k p f jobs other keeps (there, l) =
      (has-update k p f jobs keeps ∙ there, update_other k p f jobs other keeps l)

  prune_leased :
      (batch : ℕ) (p : Job → Bool) (jobs : List Job)
      → All (IsLeasedAt now h) jobs
      → All (IsLeasedAt now h) (prune_batch batch p jobs)
  unfolding prune_batch
  prune_leased batch p [] l = tt
  prune_leased zero p (j ∷ jobs) l = l
  prune_leased (suc batch) p (j ∷ jobs) l = elim (Bool-cases (p j)) [
    | inl goes ↦ rw goes (prune_leased batch p jobs l.1)
    | inr stays ↦ rw stays (l.0, prune_leased (suc batch) p jobs l.1)
  ]

  pub prune_has :
      (batch : ℕ) (p : Job → Bool) (jobs : List Job)
      → ((j : Job) → IsLeasedAt now h j → str_eq j.tx_hash h ≡ true → p j ≡ false)
      → IsHeld now h jobs
      → IsHeld now h (prune_batch batch p jobs)
  unfolding prune_batch has_job
  prune_has batch p [] spares held = held
  prune_has zero p (j ∷ jobs) spares held = held
  prune_has (suc batch) p (j ∷ jobs) spares (there, l) = elim (Bool-cases (p j)) [
    | inl goes ↦ elim (Bool-cases (str_eq j.tx_hash h)) [
      | inl same ↦ cc (spares j l.0 same)
      | inr other ↦ rw goes (prune_has batch p jobs spares (rw other at there, l.1))
    ]
    | inr stays ↦ elim (Bool-cases (str_eq j.tx_hash h)) [
      | inl same ↦ rw stays (rw same refl, (l.0, (prune_leased (suc batch) p jobs l.1)))
      | inr other ↦
          let (here, rest) = prune_has (suc batch) p jobs spares (rw other at there, l.1) in
          rw stays (rw other here, (l.0, rest))
    ]
  ]

  requeue_leased :
      (at : ℕ) (k : String) (jobs : List Job)
      → str_eq k h ≡ false
      → All (IsLeasedAt now h) jobs
      → All (IsLeasedAt now h) (requeue at k jobs)
  unfolding requeue
  requeue_leased at k [] other l = ((λ e. cc), tt)
  requeue_leased at k (j ∷ jobs) other l = elim (Bool-cases (str_eq j.tx_hash k)) [
    | inl same ↦
        let q : str_eq j.tx_hash h ≡ false =
          ap (λ t. str_eq t h) ((eq_iff j.tx_hash k).0 same) ∙ other in
        rw same ((λ e. ground (arith, q, e)), l.1)
    | inr differs ↦ rw differs (l.0, requeue_leased at k jobs other l.1)
  ]

  pub requeue-IsHeld :
      (at : ℕ) (k : String) (jobs : List Job)
      → str_eq k h ≡ false
      → IsHeld now h jobs
      → IsHeld now h (requeue at k jobs)
  unfolding requeue has_job
  requeue-IsHeld at k [] other (there, l) = absurd cc
  requeue-IsHeld at k (j ∷ jobs) other (there, l) = elim (Bool-cases (str_eq j.tx_hash k)) [
    | inl same ↦
        let q : str_eq j.tx_hash h ≡ false =
          ap (λ t. str_eq t h) ((eq_iff j.tx_hash k).0 same) ∙ other in
        rw same (ground (arith, q, there), ((λ e. ground (arith, q, e)), l.1))
    | inr differs ↦ elim (Bool-cases (str_eq j.tx_hash h)) [
      | inl here ↦ rw differs (rw here refl, (l.0, requeue_leased at k jobs other l.1))
      | inr away ↦
          let (there', l') = requeue-IsHeld at k jobs other (rw away at there, l.1) in
          rw differs (rw away there', (l.0, l'))
    ]
  ]

  pub claim-IsHeld :
      (later stale_after : ℕ) (locked : String → Bool) (jobs : List Job)
      → later < now + stale_after
      → IsHeld now h jobs
      → IsHeld now h (claim later stale_after locked jobs).0
  unfolding claim
  claim-IsHeld later stale_after locked jobs fresh held =
      leased (candidate (is_claimable later stale_after locked) jobs) refl
    where
      leased :
          (o : Option Job)
          → candidate (is_claimable later stale_after locked) jobs ≡ o
          → IsHeld now h (lease_row later o jobs).0
      leased none e = held
      leased (some i) e =
          let (open_, member, _) = candidate_lem _ jobs i e in
          let at = All-Memᴰ (IsLeasedAt now h) i jobs held.1 member in
          updates-IsHeld i.tx_hash (λ _. true) (lease later) jobs
            (elim (Bool-cases (str_eq i.tx_hash h)) [
              | inr other ↦ other
              | inl same ↦
                  let shut = leased_not_open now later stale_after h i fresh at same in
                  let closed : (false && not (locked i.tx_hash)) ≡ true = rw shut at open_ in cc
            ])
            (λ j. refl) held
