-- ===== src/Ingestion/Pending/Tests.antt =====
-- ingestion/engine.go: two transactions of the feed, of which a worker saves the first.
use forensic_listener.Prelude.{◌≡◌, refl, some, none, [], ◌∷◌, arith, false, true}
use forensic_listener.Store.Fixtures.{lib, empty_db}
use forensic_listener.Ingestion.Mined.{EthLib, RawTx}
use forensic_listener.Ingestion.Pending.{
  PendingFeed, start, Step, Reach, sent, takes, finishes, closes, here, next, ingest_one,
}
use forensic_listener.Ingestion.Pending.Flow.{IsAccounted, feed-IsAccounted, never_blocks}

abbrev eth : EthLib
eth = record {
  hex = λ a. "0xAAAAAAAAAAAAAAAAAAAAAAAAAAAAAAAAAAAAAAAA";
  recover = λ signer raw. some "0xBBBBBBBBBBBBBBBBBBBBBBBBBBBBBBBBBBBBBBBB";
  transfer_topic = 99;
}

abbrev raw : RawTx
raw = record {
  hash = "t";
  to = some 7;
  value = none;
  gas = 21000;
  gas_price = some 5;
  tip_cap = none;
  tx_type = 0;
  nonce = 3;
  calldata = [];
  is_protected = true;
  chain_id = some 1;
}

abbrev second : RawTx
second = record raw { hash = "u" }

-- The feed ends with the second transaction still in the channel.
abbrev ended : PendingFeed
ended = record {
  jobs = second ∷ [];
  in_hand = [];
  dropped = 0;
  closed = true;
  db = ingest_one eth lib 4 5 false raw empty_db;
  received = 2;
  handled = 1;
  reported = 0;
}

run : Reach eth lib (start empty_db) ended
run =
    next
      (next
        (next (next (next here (sent raw refl (omega arith))) (sent second refl (omega arith)))
          (takes raw (second ∷ []) refl (omega arith)))
        (closes refl))
      (finishes [] [] raw 4 5 false refl)

feed-IsAccounted_example : IsAccounted eth lib ended
feed-IsAccounted_example = feed-IsAccounted eth lib empty_db ended tt run

never_blocks_applied :
    (t : PendingFeed) × Step eth lib (start empty_db) t × (t.received ≡ 1) × (t.in_hand ≡ [])
never_blocks_applied = never_blocks eth lib (start empty_db) raw refl
