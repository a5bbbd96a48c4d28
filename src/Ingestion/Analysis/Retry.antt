-- ===== src/Ingestion/Analysis/Retry.antt =====
-- ingestion/enrichment.go, analyseContract: what is left of it when it is run again.
use forensic_listener.Prelude.{
  ℕ, String, ◌≡◌, refl, Bool, true, false, ◌&&◌, Option, none, some, List, [], ◌∷◌, str_eq, eq_refl,
  any, arith, Bool-cases, inl, inr,
}
use forensic_listener.Store.Address.{AddressLib, normalize_address}
use forensic_listener.Store.Vector.{
  ContractRow, is_nonempty, put_code, upsert_contract, has_embedding,
}
use forensic_listener.Forensics.Anomaly.{
  first_risky, flag_contract, WriteFaults, flag_first, ContractSimilarity, Findings, VectorRow,
  evaluate_contract,
}
use forensic_listener.Ingestion.Analysis.{
  mark_graph, contract_account, is_some, Stores, Calls, put_columns, detect_similar, store_code,
  analyse_contract,
}

abbrev embeds : String → ContractRow → Bool
embeds a r = str_eq r.address a && r.is_embedded

put-embeds :
    (keccak : List ℕ → String) (now : ℕ) (a : String) (code : List ℕ) (rows : List ContractRow)
    → any (embeds a) (put_code keccak now a code rows) ≡ true
unfolding put_code
put-embeds keccak now a code [] = let e = eq_refl a in ground arith
put-embeds keccak now a code (r ∷ rs) = elim (Bool-cases (str_eq r.address a)) [
  | inl e ↦ rw (e, e) (ground arith)
  | inr e ↦ rw e (let ih = put-embeds keccak now a code rs in ground arith)
]

-- The detector does not embed, and takes no embedding away.
put_columns-embeds :
    (a : String) (vs : List VectorRow) (rows : List ContractRow)
    → any (embeds a) rows ≡ true
    → any (embeds a) (put_columns vs rows) ≡ true
unfolding put_columns
put_columns-embeds a [] rows h = h
put_columns-embeds a (v ∷ vs) [] h = cc
put_columns-embeds a (v ∷ vs) (r ∷ rs) h = elim (Bool-cases (embeds a r)) [
  | inl e ↦ ground arith
  | inr e ↦
      let there : any (embeds a) rs ≡ true = ground arith in
      let ih = put_columns-embeds a vs rs there in ground arith
]

module _ (lib : AddressLib) (now : ℕ) (faults : WriteFaults) (tx_hash address : String)
    (s : Findings) where
  first_flagless :
      (m : Option ContractSimilarity)
      → (flag_first lib now faults tx_hash address m s).1 ≡ false
      → (flag_first lib now faults tx_hash address m s).0.flags ≡ s.flags
  unfolding flag_contract
  first_flagless none h = cc
  first_flagless (some m) h = elim (Bool-cases faults.mark_fails) [
    | inl e ↦ rw e refl
    | inr e ↦ elim (Bool-cases faults.save_fails) [
      | inl f ↦ rw (e, f) refl
      | inr f ↦ let wrong : true ≡ false = rw (e, f) at h in cc
    ]
  ]

  -- A detector that fails has saved no flag.
  failed_flagless :
      (matches : Option (List ContractSimilarity))
      → (evaluate_contract lib now faults tx_hash address matches s).1 ≡ false
      → (evaluate_contract lib now faults tx_hash address matches s).0.flags ≡ s.flags
  unfolding evaluate_contract
  failed_flagless none h = refl
  failed_flagless (some ms) h = first_flagless (first_risky ms) h

module _ (lib : AddressLib) (keccak : List ℕ → String) (now : ℕ) where
  upsert-embeds :
      (address : String) (code : List ℕ) (rows : List ContractRow)
      → str_eq (normalize_address lib address) "" ≡ false
      → is_nonempty code ≡ true
      → has_embedding lib address (upsert_contract lib keccak now address code rows) ≡ true
  unfolding has_embedding upsert_contract
  upsert-embeds address code rows named full =
      rw (named, full) (put-embeds keccak now (normalize_address lib address) code rows)

  -- The stores when the detector starts.
  abbrev pub stored : String → List ℕ → Stores → Stores
  stored address code s = record s {
    accounts = contract_account lib keccak now address s.accounts;
    graph = mark_graph lib keccak now address s.graph;
    contract_vectors = upsert_contract lib keccak now address code s.contract_vectors;
  }

  analyse-eq :
      (calls : Calls) (tx_hash address : String) (b : ℕ) (bytes : List ℕ) (s : Stores)
      → calls.lookup_fails ≡ false
      → has_embedding lib address s.contract_vectors ≡ false
      → calls.code ≡ some (b ∷ bytes)
      → calls.account_fails ≡ false
      → (is_some s.graph && calls.graph_fails) ≡ false
      → calls.store_fails ≡ false
      → analyse_contract lib keccak now true true calls tx_hash address s
        ≡ detect_similar lib keccak now calls tx_hash address (stored address (b ∷ bytes) s)
  unfolding analyse_contract store_code
  analyse-eq calls tx_hash address b bytes s e1 e2 e3 e4 e5 e6 = rw (e1, e2, e3, e4, e5, e6) refl

  detected-embeds :
      (calls : Calls) (tx_hash address : String) (s : Stores)
      → has_embedding lib address s.contract_vectors ≡ true
      → has_embedding lib address
          (detect_similar lib keccak now calls tx_hash address s).0.contract_vectors
        ≡ true
  unfolding detect_similar has_embedding
  detected-embeds calls tx_hash address s h =
      put_columns-embeds (normalize_address lib address) _ s.contract_vectors h

  -- A contract whose code is stored and whose detector then fails is not checked again: the failed run
  -- saves no flag, and every later run for this contract, by whichever transaction, changes nothing and
  -- reports success, unless the lookup of the embedding fails.
  pub failed_detector_skipped :
      (calls : Calls) (tx_hash address : String) (b : ℕ) (bytes : List ℕ) (s : Stores)
      → str_eq (normalize_address lib address) "" ≡ false
      → calls.lookup_fails ≡ false
      → has_embedding lib address s.contract_vectors ≡ false
      → calls.code ≡ some (b ∷ bytes)
      → calls.account_fails ≡ false
      → (is_some s.graph && calls.graph_fails) ≡ false
      → calls.store_fails ≡ false
      → (analyse_contract lib keccak now true true calls tx_hash address s).1 ≡ false
      → ((analyse_contract lib keccak now true true calls tx_hash address s).0.flags ≡ s.flags)
        × ((later : Calls) (tx : String)
            → later.lookup_fails ≡ false
            → analyse_contract lib keccak now true true later tx address
                (analyse_contract lib keccak now true true calls tx_hash address s).0
              ≡ ((analyse_contract lib keccak now true true calls tx_hash address s).0, true))
  failed_detector_skipped calls tx_hash address b bytes s named e1 e2 e3 e4 e5 e6 failed =
      let run = analyse-eq calls tx_hash address b bytes s e1 e2 e3 e4 e5 e6 in
      let after = stored address (b ∷ bytes) s in
      let broke = rw run at failed in
      rw run (
        unfold detect_similar in
            failed_flagless lib now calls.faults tx_hash address _ calls.matches broke,
        λ later tx ok.
            let there =
              detected-embeds calls tx_hash address after
                (upsert-embeds address (b ∷ bytes) s.contract_vectors named refl) in
            unfold analyse_contract in rw (ok, there) refl,
      )
