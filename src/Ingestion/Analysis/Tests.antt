-- ===== src/Ingestion/Analysis/Tests.antt =====
-- ingestion/enrichment.go, analyseContract: a contract whose detector fails, and its second run.
use forensic_listener.Prelude.{ℕ, ◌≡◌, refl, String, true, false, none, some, List, [], ◌∷◌}
use forensic_listener.Store.Fixtures.{lib}
use forensic_listener.Store.Address.{normalize_address, trim_space, trim_left, trim_right, is_space}
use forensic_listener.Store.Vector.{has_embedding}
use forensic_listener.Forensics.Anomaly.{evaluate_contract}
use forensic_listener.Ingestion.Analysis.{
  Stores, Calls, analyse_contract, store_code, detect_similar,
}
use forensic_listener.Ingestion.Analysis.Retry.{failed_detector_skipped}

abbrev hash : List ℕ → String
hash code = "0xh"

abbrev empty_stores : Stores
empty_stores = record { accounts = []; graph = none; contract_vectors = []; flags = [] }

-- The query for similar contracts fails.
abbrev no_matches : Calls
no_matches = record {
  lookup_fails = false;
  code = some (96 ∷ []);
  account_fails = false;
  graph_fails = false;
  store_fails = false;
  matches = none;
  faults = record { mark_fails = false; save_fails = false };
}

abbrev first_run : Stores
first_run = (analyse_contract lib hash 5 true true no_matches "t" "x" empty_stores).0

detector_failed : (analyse_contract lib hash 5 true true no_matches "t" "x" empty_stores).1 ≡ false
unfolding analyse_contract store_code detect_similar evaluate_contract has_embedding
detector_failed = refl

failed_detector_skipped_example :
    (first_run.flags ≡ [])
    × ((later : Calls) (tx : String)
        → later.lookup_fails ≡ false
        → analyse_contract lib hash 5 true true later tx "x" first_run ≡ (first_run, true))
unfolding has_embedding normalize_address trim_space trim_left trim_right is_space
failed_detector_skipped_example =
    failed_detector_skipped lib hash 5 no_matches "t" "x" 96 [] empty_stores refl refl refl refl
      refl refl refl detector_failed
