-- ===== src/Forensics/Circular.antt =====
-- forensics/circular.go: the detector of value that returns to where it started.
pub mod Loops
mod Tests
use forensic_listener.Prelude.{
  ℕ, ◌+◌, ◌-◌, ◌*◌, String, Bool, true, false, ◌||◌, Option, none, some, List, [], ◌∷◌, str_eq, leb,
  ◌==◌, if◌then◌else◌,
}
use forensic_listener.Models.{Severity, low, medium, high}
use forensic_listener.Store.Address.{AddressLib, normalize_address}
use forensic_listener.Store.Neo4j.{Edge, Kind, CircularFlow, find_return_path}

abbrev pub circular_max_hops : ℕ
circular_max_hops = 3

-- Seven days, in microseconds.
abbrev pub circular_window : ℕ
circular_window = 7 * 24 * 3600 * 1000000

pub record CircularEvidence : Type 0 where
  pub path : List String
  pub transaction_hashes : List String
  pub kinds : List Kind
  pub hops : ℕ

-- What SaveFlag is given, less the description.
pub record CircularFlag : Type 0 where
  pub tx_hash : String
  pub address : String
  pub severity : Severity
  pub evidence : CircularEvidence

unfoldable pub circular_severity : ℕ → Severity
circular_severity transfers =
    if leb transfers 2 then low else if transfers == 3 then high else medium

-- The loop as it happened: this transfer, and then the way back.
unfoldable pub loop_of : String → String → Kind → CircularFlow → CircularEvidence
loop_of tx_hash from kind flow = record {
  path = from ∷ flow.path;
  transaction_hashes = tx_hash ∷ flow.transaction_hashes;
  kinds = kind ∷ flow.kinds;
  hops = flow.hops + 1;
}

abbrev pub circular_flag : String → String → Kind → CircularFlow → CircularFlag
circular_flag tx_hash from kind flow =
    let loop = loop_of tx_hash from kind flow in
    record {
      tx_hash = tx_hash;
      address = from;
      severity = circular_severity loop.hops;
      evidence = loop;
    }

abbrev pub flag_of : String → String → Kind → Option CircularFlow → Option CircularFlag
flag_of tx_hash from kind none = none
flag_of tx_hash from kind (some flow) = some (circular_flag tx_hash from kind flow)

-- Evaluate, with the graph and the flags there: the flag that is saved, if any. `at` is at least
-- `circular_window`.
unfoldable pub evaluate :
    AddressLib → List Edge → String → String → String → ℕ → Kind → Option CircularFlag
evaluate lib es tx_hash from to at kind =
    let a = normalize_address lib from in
    let b = normalize_address lib to in
    if str_eq a "" || str_eq b "" || str_eq a b
    then none
    else flag_of tx_hash a kind
        (find_return_path lib a b (at - circular_window) at circular_max_hops es)
