-- ===== src/Forensics/Anomaly/Families.antt =====
-- forensics/anomaly.go: which contracts the detector flags, and which a label flags.
use forensic_listener.Prelude.{
  ℕ, ◌+◌, String, ◌≡◌, refl, sym, Bool, true, false, ◌&&◌, ◌||◌, not, Option, none, some, List, [],
  ◌∷◌, arith, str_eq, any, keep, length, Bool-cases, inl, inr, ◌⊎◌, All,
}
use mathlib.Core.Path.{subst}
use forensic_listener.Models.{ForensicFlag}
use forensic_listener.Store.Address.{AddressLib, normalize_address}
use forensic_listener.Store.Postgres.Flags.{
  save_flag, has_flag, flag_row, has_flag-grow, save_flag-has,
}
use forensic_listener.Forensics.Anomaly.{
  ContractSimilarity, VectorRow, Findings, WriteFaults, risky_neighbour, mark_flagged,
  bytecode_flag, flag_contract, first_risky, evaluate_contract, propagate_all, propagate_label,
}

-- The match is of the same family, and some transaction called or created it.
abbrev pub is_reached : (String → Option String) → ContractSimilarity → Bool
is_reached locate m = not m.is_below_threshold && has_text (locate m.address)
  where
    has_text : Option String → Bool
    has_text none = false
    has_text (some h) = not (str_eq h "")

no_risky : (ms : List ContractSimilarity) → any risky_neighbour ms ≡ false → first_risky ms ≡ none
unfolding first_risky
no_risky [] h = refl
no_risky (m ∷ ms) h = ground (arith, no_risky ms)

some_risky :
    (ms : List ContractSimilarity)
    → any risky_neighbour ms ≡ true
    → (m : ContractSimilarity) × (first_risky ms ≡ some m) × (risky_neighbour m ≡ true)
unfolding first_risky
some_risky [] h = cc
some_risky (m ∷ ms) h = elim (Bool-cases (risky_neighbour m)) [
  | inl e ↦ (m, rw e refl, e)
  | inr e ↦ let (n, f, r) = some_risky ms (rw e at h) in (n, rw e f, r)
]

module _ (lib : AddressLib) (now : ℕ) where
  -- A new contract is flagged exactly if one of its neighbours is risky: without one nothing changes;
  -- with one, and no failing write, the contract is marked and one flag is saved, of the severity of
  -- the first risky neighbour.
  pub evaluate_flags :
      (tx_hash address : String) (ms : List ContractSimilarity) (s : Findings)
      → let no_faults : WriteFaults = record { mark_fails = false; save_fails = false } in
        (any risky_neighbour ms ≡ false)
          × (evaluate_contract lib now no_faults tx_hash address (some ms) s ≡ (s, true))
        ⊎ (m : ContractSimilarity) × (risky_neighbour m ≡ true)
          × (first_risky ms ≡ some m)
          × (evaluate_contract lib now no_faults tx_hash address (some ms) s ≡ (
            record {
              vectors = mark_flagged (normalize_address lib address) s.vectors;
              flags = save_flag lib now (bytecode_flag now tx_hash address m.risk_level) s.flags;
            },
            true,
          ))
  unfolding evaluate_contract flag_contract
  evaluate_flags tx_hash address ms s = elim (Bool-cases (any risky_neighbour ms)) [
    | inr none_there ↦ inl (none_there, rw (no_risky ms none_there) refl)
    | inl there ↦ let (m, f, r) = some_risky ms there in inr (m, r, f, rw f refl)
  ]

-- Every row of this address is flagged.
abbrev pub is_marked : String → List VectorRow → Bool
is_marked a [] = true
is_marked a (r ∷ rs) = (not (str_eq r.address a) || r.flagged) && is_marked a rs

mark-is_marked : (a : String) (rows : List VectorRow) → is_marked a (mark_flagged a rows) ≡ true
unfolding mark_flagged
mark-is_marked a [] = refl
mark-is_marked a (r ∷ rs) = ground (arith, mark-is_marked a rs)

mark-keeps :
    (a b : String) (rows : List VectorRow)
    → is_marked a rows ≡ true
    → is_marked a (mark_flagged b rows) ≡ true
unfolding mark_flagged
mark-keeps a b [] h = refl
mark-keeps a b (r ∷ rs) h = ground (arith, mark-keeps a b rs)

abbrev pub no_faults : String → WriteFaults
no_faults a = record { mark_fails = false; save_fails = false }

flag-keeps :
    (lib : AddressLib) (now : ℕ) (f g : ForensicFlag) (rows : List ForensicFlag)
    → has_flag f rows ≡ true
    → has_flag f (save_flag lib now g rows) ≡ true
unfolding save_flag
flag-keeps lib now f g rows h = elim (Bool-cases (has_flag (flag_row lib now g) rows)) [
  | inl old ↦ rw old h
  | inr new ↦ rw new (has_flag-grow lib f (flag_row lib now g) rows h)
]

abbrev pub text_of : Option String → String
text_of none = ""
text_of (some h) = h

module _ (lib : AddressLib) (now : ℕ) (locate : String → Option String) (risk : String) where
  abbrev pub Located : List ContractSimilarity → Type 0
  Located = All (λ (m : ContractSimilarity). (h : String) × (locate m.address ≡ some h))

  abbrev pub flag_for : ContractSimilarity → ForensicFlag
  flag_for m = flag_row lib now (bytecode_flag now (text_of (locate m.address)) m.address risk)

  -- What becomes of a contract: its rows are marked, and a flag of this label is stored for it with the
  -- hash of its latest transaction.
  abbrev pub IsFlagged : ContractSimilarity → Findings → Type 0
  IsFlagged m s =
      (is_marked (normalize_address lib m.address) s.vectors ≡ true)
      × (has_flag (flag_for m) s.flags ≡ true)

  abbrev pub run : ℕ → List ContractSimilarity → Findings → Findings × ℕ × Bool
  run = propagate_all lib now locate no_faults risk

  abbrev after : ContractSimilarity → Findings → Findings
  after m s =
      (flag_contract lib now (no_faults m.address) (text_of (locate m.address)) m.address risk s).0

  -- What one round of the loop does.
  round :
      (count : ℕ) (m : ContractSimilarity) (ms : List ContractSimilarity) (s : Findings)
      → (h : String) × (locate m.address ≡ some h)
      → (is_reached locate m ≡ false) × (run count (m ∷ ms) s ≡ run count ms s)
        ⊎ (is_reached locate m ≡ true) × (run count (m ∷ ms) s ≡ run (count + 1) ms (after m s))
  unfolding propagate_all flag_contract
  round count m ms s (h, e) = elim (Bool-cases m.is_below_threshold) [
    | inl below ↦ inl (rw below refl, rw below refl)
    | inr near ↦ elim (Bool-cases (str_eq h "")) [
      | inl empty ↦ inl (rw (near, e, empty) refl, rw (near, e, empty) refl)
      | inr text ↦ inr (rw (near, e, text) refl, rw (near, e, text) refl)
    ]
  ]

  after-IsFlagged : (m : ContractSimilarity) (s : Findings) → IsFlagged m (after m s)
  unfolding flag_contract
  after-IsFlagged m s =
      (mark-is_marked (normalize_address lib m.address) s.vectors, save_flag-has lib now _ s.flags)

  after-keeps : (m n : ContractSimilarity) (s : Findings) → IsFlagged m s → IsFlagged m (after n s)
  unfolding flag_contract
  after-keeps m n s (v, f) = (
    mark-keeps _ (normalize_address lib n.address) s.vectors v,
    flag-keeps lib now (flag_for m) _ s.flags f,
  )

  run-keeps :
      (m : ContractSimilarity) (count : ℕ) (ms : List ContractSimilarity) (s : Findings)
      → Located ms
      → IsFlagged m s
      → IsFlagged m (run count ms s).0
  run-keeps m count [] s l h = unfold propagate_all in h
  run-keeps m count (n ∷ ms) s l h = elim (round count n ms s l.0) [
    | inl (_, e) ↦ rw e (run-keeps m count ms s l.1 h)
    | inr (_, e) ↦ rw e (run-keeps m (count + 1) ms (after n s) l.1 (after-keeps m n s h))
  ]

  -- The loop has no error, counts exactly the matches that are near enough and that some transaction
  -- called or created, and leaves each of them marked and with a stored flag.
  abbrev pub Spread : ℕ → List ContractSimilarity → Findings × ℕ × Bool → Type 0
  Spread count ms r =
      (r.1 ≡ count + length (keep (is_reached locate) ms))
      × (r.2 ≡ true)
      × All (λ (m : ContractSimilarity). is_reached locate m ≡ true → IsFlagged m r.0) ms

  run-Spread :
      (count : ℕ) (ms : List ContractSimilarity) (s : Findings)
      → Located ms
      → Spread count ms (run count ms s)
  run-Spread count [] s l = unfold propagate_all in (omega arith, refl, tt)
  run-Spread count (m ∷ ms) s l = elim (round count m ms s l.0) [
    | inl (out, e) ↦
        let (n, ok, all) = run-Spread count ms s l.1 in
        subst (Spread count (m ∷ ms)) (sym e) (rw out n, ok, ((λ i. absurd cc), all))
    | inr (in_, e) ↦
        let (n, ok, all) = run-Spread (count + 1) ms (after m s) l.1 in
        let here = run-keeps m (count + 1) ms (after m s) l.1 (after-IsFlagged m s) in
        subst (Spread count (m ∷ ms)) (sym e) (rw in_ (omega (arith, n)), ok, ((λ _. here), all))
  ]

  -- If no call fails, a label of medium or high risk flags every contract among the at most 25 matches
  -- of SimilarContracts that is near enough and that some transaction called or created, as `Spread`
  -- says: its row is marked, and a similar_bytecode flag of its latest transaction is stored. A label of
  -- any other level changes nothing.
  pub label_propagates :
      (similar : ℕ → Option (List ContractSimilarity)) (ms : List ContractSimilarity) (s : Findings)
      → similar 25 ≡ some ms
      → Located ms
      → let r = propagate_label lib now locate no_faults risk similar s in
        let is_risky = str_eq risk "medium" || str_eq risk "high" in
        (is_risky ≡ true) × Spread 0 ms r ⊎ (is_risky ≡ false) × (r ≡ (s, 0, true))
  unfolding propagate_label
  label_propagates similar ms s found l =
      elim (Bool-cases (str_eq risk "medium" || str_eq risk "high")) [
        | inl risky ↦ inl (risky, rw (risky, found) (run-Spread 0 ms s l))
        | inr safe ↦ inr (safe, rw safe refl)
      ]
