-- ===== src/Store/Postgres/Queue/Lease.antt =====
-- store/postgres.go: which job a claim leases.
use forensic_listener.Prelude.{
  ℕ, ◌+◌, ◌<◌, String, ◌≡◌, refl, sym, ap, ◌∙◌, Bool, true, false, Option, none, some, List, [],
  ◌∷◌, arith, str_eq, All, Bool-cases, inl, inr,
}
use mathlib.Core.List.{Memᴰ}
use mathlib.Core.Path.{subst}
use forensic_listener.Store.Postgres.Queue.{
  processing, Job, is_open, is_before, earlier, candidate, lease, update_job, is_claimable,
  lease_row, claim,
}

-- No job of the list that passes is before `j` in the order of the claim.
abbrev pub IsFirst : (Job → Bool) → Job → List Job → Type 0
IsFirst p j jobs = All (λ (k : Job). p k ≡ true → is_before k j ≡ false) jobs

not_before_trans :
    (k c j : Job) → is_before k c ≡ false → is_before c j ≡ false → is_before k j ≡ false
unfolding is_before
not_before_trans k c j h g = ground arith

before_asym : (c j : Job) → is_before c j ≡ true → is_before j c ≡ false
unfolding is_before
before_asym c j h = ground arith

before_irrefl : (j : Job) → is_before j j ≡ false
unfolding is_before
before_irrefl j = ground arith

All-imp : (P Q : Job → Type 0) (jobs : List Job) → ((k : Job) → P k → Q k) → All P jobs → All Q jobs
All-imp P Q [] f h = tt
All-imp P Q (j ∷ jobs) f h = (f j h.0, All-imp P Q jobs f h.1)

earlier-none :
    (b : Bool) (j : Job) (o : Option Job) → earlier b j o ≡ none → (b ≡ false) × (o ≡ none)
unfolding earlier
earlier-none b j o h = ground arith

none_passes :
    (p : Job → Bool) (jobs : List Job)
    → candidate p jobs ≡ none
    → All (λ (k : Job). p k ≡ false) jobs
unfolding candidate
none_passes p [] h = tt
none_passes p (j ∷ jobs) h = decide (p j) (candidate p jobs) (none_passes p jobs) refl refl h
  where
    decide :
        (b : Bool) (o : Option Job)
        → (candidate p jobs ≡ none → All (λ (k : Job). p k ≡ false) jobs)
        → p j ≡ b
        → candidate p jobs ≡ o
        → earlier b j o ≡ none
        → (p j ≡ false) × All (λ (k : Job). p k ≡ false) jobs
    decide b o rest e f g = let both = earlier-none b j o g in (e ∙ both.0, rest (f ∙ both.1))

-- The job that the claim takes passes, is in the queue, and no job that passes is before it.
abbrev pub IsChosen : (Job → Bool) → List Job → Job → Type 0
IsChosen p jobs j = (p j ≡ true) × Memᴰ j jobs × IsFirst p j jobs

module _ (p : Job → Bool) (i : Job) (jobs : List Job) where
  choose :
      (b : Bool) (o : Option Job) (j : Job)
      → p i ≡ b
      → (o ≡ none → All (λ (k : Job). p k ≡ false) jobs)
      → ((c : Job) → o ≡ some c → IsChosen p jobs c)
      → earlier b i o ≡ some j
      → IsChosen p (i ∷ jobs) j
  unfolding earlier
  choose false o j e empty ih h = let (q, m, f) = ih j h in (q, Memᴰ.tail m, ((λ t. cc), f))
  choose true none j e empty ih h =
      let q : i ≡ j = cc in
      subst (IsChosen p (i ∷ jobs)) q
        (e, Memᴰ.head refl, ((λ t. before_irrefl i), All-imp _ _ jobs (λ k n t. cc) (empty refl)))
  choose true (some c) j e empty ih h = elim (Bool-cases (is_before c i)) [
    | inl before ↦
        let q : c ≡ j = let h' : some c ≡ some j = rw before at h in cc in
        let (qc, mc, fc) = ih c refl in
        subst (IsChosen p (i ∷ jobs)) q (qc, Memᴰ.tail mc, ((λ t. before_asym c i before), fc))
    | inr after ↦
        let q : i ≡ j = let h' : some i ≡ some j = rw after at h in cc in
        let (qc, mc, fc) = ih c refl in
        subst (IsChosen p (i ∷ jobs)) q (
          e,
          Memᴰ.head refl,
          (
            (λ t. before_irrefl i),
            All-imp _ _ jobs (λ k g t. not_before_trans k c i (g t) after) fc,
          ),
        )
  ]

pub candidate_lem :
    (p : Job → Bool) (jobs : List Job) (j : Job) → candidate p jobs ≡ some j → IsChosen p jobs j
unfolding candidate
candidate_lem p [] j h = cc
candidate_lem p (i ∷ jobs) j h =
    choose p i jobs (p i) (candidate p jobs) j refl (none_passes p jobs) (candidate_lem p jobs) h

-- A claim that leases a job leases one that is open and not locked, and that no other such job
-- precedes in (available_at, updated_at). Its row alone changes: it is in processing, locked now,
-- with one more attempt.
pub claim_first :
    (now stale_after : ℕ) (locked : String → Bool) (jobs jobs' : List Job) (j : Job)
    → claim now stale_after locked jobs ≡ (jobs', some j)
    → (i : Job) × (j ≡ lease now i)
      × IsChosen (is_claimable now stale_after locked) jobs i
      × (jobs' ≡ update_job i.tx_hash (λ _. true) (lease now) jobs)
unfolding claim
claim_first now stale_after locked jobs jobs' j h =
    leased (candidate (is_claimable now stale_after locked) jobs) refl h
  where
    leased :
        (o : Option Job)
        → candidate (is_claimable now stale_after locked) jobs ≡ o
        → lease_row now o jobs ≡ (jobs', some j)
        → (i : Job) × (j ≡ lease now i)
          × IsChosen (is_claimable now stale_after locked) jobs i
          × (jobs' ≡ update_job i.tx_hash (λ _. true) (lease now) jobs)
    leased none e g = absurd (let q = ap (λ (t : List Job × Option Job). t.1) g in cc)
    leased (some i) e g = (
      i,
      let q : some (lease now i) ≡ some j = ap (λ (t : List Job × Option Job). t.1) g in cc,
      candidate_lem _ jobs i e,
      sym (ap (λ (t : List Job × Option Job). t.0) g),
    )

-- A claim that leases nothing changes nothing, and then no job is open and unlocked.
pub claim-none :
    (now stale_after : ℕ) (locked : String → Bool) (jobs jobs' : List Job)
    → claim now stale_after locked jobs ≡ (jobs', none)
    → (jobs' ≡ jobs) × All (λ (k : Job). is_claimable now stale_after locked k ≡ false) jobs
unfolding claim
claim-none now stale_after locked jobs jobs' h =
    kept (candidate (is_claimable now stale_after locked) jobs) refl h
  where
    kept :
        (o : Option Job)
        → candidate (is_claimable now stale_after locked) jobs ≡ o
        → lease_row now o jobs ≡ (jobs', none)
        → (jobs' ≡ jobs) × All (λ (k : Job). is_claimable now stale_after locked k ≡ false) jobs
    kept none e g = (sym (ap (λ (t : List Job × Option Job). t.0) g), none_passes _ jobs e)
    kept (some i) e g = absurd (let q = ap (λ (t : List Job × Option Job). t.1) g in cc)

-- Every job of this hash is leased at `now`.
abbrev pub IsLeasedAt : ℕ → String → Job → Type 0
IsLeasedAt now h k = str_eq k.tx_hash h ≡ true → (k.status ≡ processing) × (k.locked_at ≡ some now)

pub leased_rows :
    (now : ℕ) (h : String) (jobs : List Job)
    → All (IsLeasedAt now h) (update_job h (λ _. true) (lease now) jobs)
unfolding update_job
leased_rows now h [] = tt
leased_rows now h (j ∷ jobs) = ((λ e. ground arith), leased_rows now h jobs)

pub leased_not_open :
    (now later stale_after : ℕ) (h : String) (k : Job)
    → later < now + stale_after
    → IsLeasedAt now h k
    → str_eq k.tx_hash h ≡ true
    → is_open later stale_after k ≡ false
unfolding is_open
leased_not_open now later stale_after h k fresh l e = ground (arith, l e)

pub All-Memᴰ : (P : Job → Type 0) (j : Job) (jobs : List Job) → All P jobs → Memᴰ j jobs → P j
All-Memᴰ P j [] h m = elim m [ ]
All-Memᴰ P j (i ∷ jobs) h (Memᴰ.head e) = subst P (sym e) h.0
All-Memᴰ P j (i ∷ jobs) h (Memᴰ.tail m) = All-Memᴰ P j jobs h.1 m
