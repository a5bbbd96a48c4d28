-- ===== src/Forensics/Anomaly/Tests.antt =====
-- forensics/anomaly.go: the laws of the detector at two matches.
use forensic_listener.Prelude.{
  ◌≡◌, ◌⊎◌, refl, String, true, false, Option, some, [], ◌∷◌, any, str_eq, if◌then◌else◌,
}
use forensic_listener.Store.Fixtures.{lib}
use forensic_listener.Store.Address.{normalize_address}
use forensic_listener.Store.Postgres.Flags.{save_flag}
use forensic_listener.Forensics.Anomaly.{
  List, ℕ, ContractSimilarity, Findings, WriteFaults, risky_neighbour, mark_flagged, bytecode_flag,
  first_risky, evaluate_contract, propagate_label,
}
use forensic_listener.Forensics.Anomaly.Families.{
  evaluate_flags, Spread, no_faults, label_propagates,
}

abbrev near : ContractSimilarity
near = record {
  address = "0xBBBBBBBBBBBBBBBBBBBBBBBBBBBBBBBBBBBBBBBB";
  risk_level = "high";
  is_below_threshold = false;
  flagged = false;
}

abbrev far : ContractSimilarity
far = record { address = "C"; risk_level = "high"; is_below_threshold = true; flagged = true }

abbrev start : Findings
start = record {
  vectors = record { address = "0xBBBBBBBBBBBBBBBBBBBBBBBBBBBBBBBBBBBBBBBB"; flagged = false } ∷ [];
  flags = [];
}

abbrev latest : String → Option String
latest a = if str_eq a "0xBBBBBBBBBBBBBBBBBBBBBBBBBBBBBBBBBBBBBBBB" then some "h" else some ""

evaluate_flags_applied :
    let no_faults : WriteFaults = record { mark_fails = false; save_fails = false } in
    (any risky_neighbour (far ∷ near ∷ []) ≡ false)
      × (evaluate_contract lib 5 no_faults "h" "0xaaaaaaaaaaaaaaaaaaaaaaaaaaaaaaaaaaaaaaaa"
            (some (far ∷ near ∷ []))
            start
          ≡ (start, true))
    ⊎ (m : ContractSimilarity) × (risky_neighbour m ≡ true)
      × (first_risky (far ∷ near ∷ []) ≡ some m)
      × (evaluate_contract lib 5 no_faults "h" "0xaaaaaaaaaaaaaaaaaaaaaaaaaaaaaaaaaaaaaaaa"
            (some (far ∷ near ∷ []))
            start
          ≡ (
            record {
              vectors =
                  mark_flagged
                    (normalize_address lib "0xaaaaaaaaaaaaaaaaaaaaaaaaaaaaaaaaaaaaaaaa")
                    start.vectors;
              flags =
                  save_flag lib 5
                    (bytecode_flag 5 "h" "0xaaaaaaaaaaaaaaaaaaaaaaaaaaaaaaaaaaaaaaaa" m.risk_level)
                    start.flags;
            },
            true,
          ))
evaluate_flags_applied =
    evaluate_flags lib 5 "h" "0xaaaaaaaaaaaaaaaaaaaaaaaaaaaaaaaaaaaaaaaa" (far ∷ near ∷ []) start

abbrev similar : ℕ → Option (List ContractSimilarity)
similar n = some (far ∷ near ∷ [])

label_propagates_example :
    let r = propagate_label lib 5 latest no_faults "high" similar start in
    (true ≡ true) × Spread lib 5 latest "high" 0 (far ∷ near ∷ []) r
    ⊎ (true ≡ false) × (r ≡ (start, 0, true))
label_propagates_example =
    label_propagates lib 5 latest "high" similar (far ∷ near ∷ []) start refl
      (("", refl), (("h", refl), tt))
