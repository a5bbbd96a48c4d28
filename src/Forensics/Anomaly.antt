-- ===== src/Forensics/Anomaly.antt =====
-- forensics/anomaly.go: the detector of contracts that resemble risky ones.
pub mod Families
mod Tests
use forensic_listener.Prelude.{
  ℕ, zero, suc, ◌+◌, String, Bool, true, false, ◌&&◌, ◌||◌, not, Option, none, some, List, [], ◌∷◌,
  map, str_eq, if◌then◌else◌,
}
use forensic_listener.Models.{Severity, medium, high, ForensicFlag}
use forensic_listener.Store.Address.{AddressLib, normalize_address}
use forensic_listener.Store.Postgres.Flags.{save_flag}

-- models.ContractSimilarity. A similarity is a float, of which the code asks only whether it is below
-- the threshold.
pub record ContractSimilarity : Type 0 where
  pub address : String
  pub risk_level : String
  pub is_below_threshold : Bool
  pub flagged : Bool

-- The columns of contract_vectors that the detector writes.
pub record VectorRow : Type 0 where
  pub address : String
  pub flagged : Bool

pub record Findings : Type 0 where
  pub vectors : List VectorRow
  pub flags : List ForensicFlag

-- Whether the two writes of `flag` fail.
pub record WriteFaults : Type 0 where
  pub mark_fails : Bool
  pub save_fails : Bool

unfoldable pub risky_neighbour : ContractSimilarity → Bool
risky_neighbour m =
    if m.is_below_threshold
    then false
    else m.flagged || str_eq m.risk_level "medium" || str_eq m.risk_level "high"

-- UPDATE contract_vectors SET flagged = $2 WHERE address = $1 (store/vector.go, MarkFlagged)
unfoldable pub mark_flagged : String → List VectorRow → List VectorRow
mark_flagged a = map (λ r. if str_eq r.address a then record r { flagged = true } else r)

abbrev pub flag_severity : String → Severity
flag_severity risk = if str_eq risk "high" then high else medium

abbrev pub bytecode_flag : ℕ → String → String → String → ForensicFlag
bytecode_flag now tx_hash address risk = record {
  tx_hash = tx_hash;
  address = address;
  flag_type = "similar_bytecode";
  severity = flag_severity risk;
  detected_at = now;
}

unfoldable pub first_risky : List ContractSimilarity → Option ContractSimilarity
first_risky [] = none
first_risky (m ∷ ms) = if risky_neighbour m then some m else first_risky ms

module _ (lib : AddressLib) (now : ℕ) where
  -- flag: the state after it, and whether it returned without an error.
  unfoldable pub flag_contract : WriteFaults → String → String → String → Findings → Findings × Bool
  flag_contract faults tx_hash address risk s =
      let marked = record s { vectors = mark_flagged (normalize_address lib address) s.vectors } in
      if faults.mark_fails then (s, false) else if faults.save_fails then (marked, false) else (
        record marked {
          flags = save_flag lib now (bytecode_flag now tx_hash address risk) s.flags;
        },
        true,
      )

  abbrev pub flag_first :
      WriteFaults → String → String → Option ContractSimilarity → Findings → Findings × Bool
  flag_first faults tx_hash address none s = (s, true)
  flag_first faults tx_hash address (some m) s = flag_contract faults tx_hash address m.risk_level s

  -- EvaluateContract, on the matches of FindSimilarBytecode, none for an error.
  unfoldable pub evaluate_contract :
      WriteFaults → String → String → Option (List ContractSimilarity) → Findings → Findings × Bool
  evaluate_contract faults tx_hash address none s = (s, false)
  evaluate_contract faults tx_hash address (some ms) s =
      flag_first faults tx_hash address (first_risky ms) s

  -- LatestTransactionHashFor: none for an error, and the empty text for no transaction.
  module _ (locate : String → Option String) (faults : String → WriteFaults) where
    -- The loop of PropagateLabel: the state, how many contracts were flagged, and whether there was no
    -- error.
    unfoldable pub propagate_all :
        String → ℕ → List ContractSimilarity → Findings → Findings × ℕ × Bool
    propagate_all risk count [] s = (s, count, true)
    propagate_all risk count (m ∷ ms) s =
        let done = flag_contract (faults m.address) (or_text (locate m.address)) m.address risk s in
        let skipped = propagate_all risk count ms s in
        let more = propagate_all risk (count + 1) ms done.0 in
        if m.is_below_threshold then skipped else at (locate m.address) done.0 done.1 skipped more
      where
        or_text : Option String → String
        or_text none = ""
        or_text (some h) = h

        at :
            Option String
            → Findings
            → Bool
            → Findings × ℕ × Bool
            → Findings × ℕ × Bool
            → Findings × ℕ × Bool
        at none after ok skipped more = (s, count, false)
        at (some h) after ok skipped more =
            if str_eq h "" then skipped else if ok then more else (after, count, false)

    -- PropagateLabel, where `similar n` are the at most n matches of SimilarContracts, none for an
    -- error.
    unfoldable pub propagate_label :
        String → (ℕ → Option (List ContractSimilarity)) → Findings → Findings × ℕ × Bool
    propagate_label risk similar s =
        if str_eq risk "medium" || str_eq risk "high" then run (similar 25) else (s, 0, true)
      where
        run : Option (List ContractSimilarity) → Findings × ℕ × Bool
        run none = (s, 0, false)
        run (some ms) = propagate_all risk 0 ms s
