-- ===== src/Forensics/Circular/Tests.antt =====
-- forensics/circular.go: tests of the detector, and its laws at a loop of three transfers.
use forensic_listener.Prelude.{
  inl, ℕ, ◌+◌, ◌-◌, ◌≤◌, ◌≡◌, ◌≢◌, refl, String, false, some, List, [], ◌∷◌, arith, str_eq, eq_iff,
}
use forensic_listener.Models.{high}
use forensic_listener.Store.Fixtures.{lib}
use forensic_listener.Store.Address.{normalize_address, trim_space, trim_left, trim_right, is_space}
use forensic_listener.Store.Neo4j.{
  Edge, eth, sent, find_return_path, picks, extend_all, collect, trails, in_window, is_time_ordered,
  is_return, first_that, shortest, flow_of,
}
use forensic_listener.Store.Neo4j.Trails.{IsReturn}
use forensic_listener.Forensics.Circular.{
  CircularFlag, circular_window, circular_severity, loop_of, evaluate,
}
use forensic_listener.Forensics.Circular.Loops.{IsLoopFlag, flags_loop, flags_every_loop}

abbrev sends : String → String → String → ℕ → Edge
sends h a b t = record {
  key = sent h;
  source = a;
  target = b;
  timestamp = t;
  amount = 5;
  token = "";
  nonce = 0;
}

-- From B over C back to A.
abbrev way : List Edge
way =
    sends "h1" "0xBBBBBBBBBBBBBBBBBBBBBBBBBBBBBBBBBBBBBBBB" "C" 10
    ∷ sends "h2" "C" "0xAAAAAAAAAAAAAAAAAAAAAAAAAAAAAAAAAAAAAAAA" 20
    ∷ []

abbrev flag : CircularFlag
flag = record {
  tx_hash = "h";
  address = "0xAAAAAAAAAAAAAAAAAAAAAAAAAAAAAAAAAAAAAAAA";
  severity = high;
  evidence = record {
    path =
        "0xAAAAAAAAAAAAAAAAAAAAAAAAAAAAAAAAAAAAAAAA" ∷ "0xBBBBBBBBBBBBBBBBBBBBBBBBBBBBBBBBBBBBBBBB"
        ∷ "C" ∷ "0xAAAAAAAAAAAAAAAAAAAAAAAAAAAAAAAAAAAAAAAA" ∷ [];
    transaction_hashes = "h" ∷ "h1" ∷ "h2" ∷ [];
    kinds = eth ∷ eth ∷ eth ∷ [];
    hops = 3;
  };
}

closes_loop :
    evaluate lib way "h" "0xaaaaaaaaaaaaaaaaaaaaaaaaaaaaaaaaaaaaaaaa"
      "0xBBBBBBBBBBBBBBBBBBBBBBBBBBBBBBBBBBBBBBBB" 30 eth
    ≡ some flag
unfolding evaluate loop_of circular_severity find_return_path shortest first_that trails collect
    extend_all picks is_return in_window is_time_ordered flow_of normalize_address trim_space
    trim_left trim_right is_space
closes_loop = refl

way-IsReturn :
    IsReturn way
      (normalize_address lib "0xaaaaaaaaaaaaaaaaaaaaaaaaaaaaaaaaaaaaaaaa")
      (normalize_address lib "0xBBBBBBBBBBBBBBBBBBBBBBBBBBBBBBBBBBBBBBBB")
      (30 - circular_window)
      30
      way
unfolding normalize_address trim_space trim_left trim_right is_space
way-IsReturn = (
  (
    sends "h2" "C" "0xAAAAAAAAAAAAAAAAAAAAAAAAAAAAAAAAAAAAAAAA" 20 ∷ [],
    inl (refl, refl),
    refl,
    ([], inl (refl, refl), refl, tt),
  ),
  refl,
  ((omega arith, omega arith), ((omega arith, omega arith), tt)),
  (omega arith, tt),
)

same_text : (s t : String) → str_eq s t ≡ false → s ≢ t
same_text s t d e = let q = (eq_iff s t).1 e in cc

there :
    (normalize_address lib "0xaaaaaaaaaaaaaaaaaaaaaaaaaaaaaaaaaaaaaaaa" ≢ "")
    × (normalize_address lib "0xBBBBBBBBBBBBBBBBBBBBBBBBBBBBBBBBBBBBBBBB" ≢ "")
    × (normalize_address lib "0xaaaaaaaaaaaaaaaaaaaaaaaaaaaaaaaaaaaaaaaa"
        ≢ normalize_address lib "0xBBBBBBBBBBBBBBBBBBBBBBBBBBBBBBBBBBBBBBBB")
unfolding normalize_address trim_space trim_left trim_right is_space
there = (
  same_text "0xAAAAAAAAAAAAAAAAAAAAAAAAAAAAAAAAAAAAAAAA" "" refl,
  same_text "0xBBBBBBBBBBBBBBBBBBBBBBBBBBBBBBBBBBBBBBBB" "" refl,
  same_text "0xAAAAAAAAAAAAAAAAAAAAAAAAAAAAAAAAAAAAAAAA"
      "0xBBBBBBBBBBBBBBBBBBBBBBBBBBBBBBBBBBBBBBBB" refl,
)

flags_loop_example :
    (p : List Edge) × IsLoopFlag way "h"
      (normalize_address lib "0xaaaaaaaaaaaaaaaaaaaaaaaaaaaaaaaaaaaaaaaa")
      (normalize_address lib "0xBBBBBBBBBBBBBBBBBBBBBBBBBBBBBBBBBBBBBBBB")
      30
      eth
      flag
      p
flags_loop_example =
    flags_loop lib way "h" "0xaaaaaaaaaaaaaaaaaaaaaaaaaaaaaaaaaaaaaaaa"
      "0xBBBBBBBBBBBBBBBBBBBBBBBBBBBBBBBBBBBBBBBB" 30 eth flag closes_loop

flags_every_loop_example :
    (f : CircularFlag) × (evaluate lib way "h" "0xaaaaaaaaaaaaaaaaaaaaaaaaaaaaaaaaaaaaaaaa"
        "0xBBBBBBBBBBBBBBBBBBBBBBBBBBBBBBBBBBBBBBBB" 30 eth
      ≡ some f)
    × (f.evidence.hops ≤ 2 + 1)
flags_every_loop_example =
    flags_every_loop lib way "h" "0xaaaaaaaaaaaaaaaaaaaaaaaaaaaaaaaaaaaaaaaa"
      "0xBBBBBBBBBBBBBBBBBBBBBBBBBBBBBBBBBBBBBBBB" 30 eth way there.0 there.1 there.2 way-IsReturn
      (omega arith) (omega arith)
