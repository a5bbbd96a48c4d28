-- ===== src/Store/Fixtures.antt =====
-- Test data of the stores: a library of addresses, three transactions, and blocks that hold them.
use forensic_listener.Prelude.{
  String, Bool, true, false, ◌&&◌, not, ◌||◌, ◌≡◌, refl, none, some, [], ◌∷◌, str_eq, if◌then◌else◌,
  Bool-cases, inl, inr, eq_iff,
}
use forensic_listener.Models.{Transaction, Block, Receipt, TokenTransfer, MinedBlock, pending}
use forensic_listener.Store.Address.{is_space, AddressLib, NoSpace}
use forensic_listener.Store.Postgres.{Db, DbResult, committed, aborted}

-- Two addresses, one of them with a second spelling.
abbrev pub is_hex : String → Bool
is_hex s =
    str_eq s "0xAAAAAAAAAAAAAAAAAAAAAAAAAAAAAAAAAAAAAAAA"
    || str_eq s "0xaaaaaaaaaaaaaaaaaaaaaaaaaaaaaaaaaaaaaaaa"
    || str_eq s "0xBBBBBBBBBBBBBBBBBBBBBBBBBBBBBBBBBBBBBBBB"

abbrev pub spelling : String → String
spelling s =
    if str_eq s "0xBBBBBBBBBBBBBBBBBBBBBBBBBBBBBBBBBBBBBBBB"
    then "0xBBBBBBBBBBBBBBBBBBBBBBBBBBBBBBBBBBBBBBBB"
    else "0xAAAAAAAAAAAAAAAAAAAAAAAAAAAAAAAAAAAAAAAA"

pub spelling-hex : (s : String) → is_hex (spelling s) ≡ true
spelling-hex s = elim (Bool-cases (str_eq s "0xBBBBBBBBBBBBBBBBBBBBBBBBBBBBBBBBBBBBBBBB")) [
  | inl e ↦ rw e refl
  | inr e ↦ rw e refl
]

pub spelling-fixed : (s : String) → spelling (spelling s) ≡ spelling s
spelling-fixed s = elim (Bool-cases (str_eq s "0xBBBBBBBBBBBBBBBBBBBBBBBBBBBBBBBBBBBBBBBB")) [
  | inl e ↦ rw e refl
  | inr e ↦ rw e refl
]

abbrev tight : String → Bool
tight String.[] = true
tight (String.◌∷◌ c s) = not (is_space c) && tight s

tight-NoSpace : (s : String) → tight s ≡ true → NoSpace s
tight-NoSpace String.[] h = tt
tight-NoSpace (String.◌∷◌ c s) h = elim (Bool-cases (is_space c)) [
  | inl e ↦ absurd (let q : (false && tight s) ≡ true = rw e at h in cc)
  | inr e ↦ (e, tight-NoSpace s (rw e at h))
]

known-NoSpace : (s t : String) → str_eq s t ≡ true → tight t ≡ true → NoSpace s
known-NoSpace s t e h = let q : s ≡ t = (eq_iff s t).0 e in rw q (tight-NoSpace t h)

pub hex-NoSpace : (s : String) → is_hex s ≡ true → NoSpace s
unfolding is_space
hex-NoSpace s h = elim (Bool-cases (str_eq s "0xAAAAAAAAAAAAAAAAAAAAAAAAAAAAAAAAAAAAAAAA")) [
  | inl e ↦ known-NoSpace s "0xAAAAAAAAAAAAAAAAAAAAAAAAAAAAAAAAAAAAAAAA" e refl
  | inr x ↦ elim (Bool-cases (str_eq s "0xaaaaaaaaaaaaaaaaaaaaaaaaaaaaaaaaaaaaaaaa")) [
    | inl e ↦ known-NoSpace s "0xaaaaaaaaaaaaaaaaaaaaaaaaaaaaaaaaaaaaaaaa" e refl
    | inr y ↦ known-NoSpace s "0xBBBBBBBBBBBBBBBBBBBBBBBBBBBBBBBBBBBBBBBB" (rw (x, y) at h) refl
  ]
]

abbrev pub lib : AddressLib
lib = record {
  is_hex_address = is_hex;
  checksum = spelling;
  empty_not_hex = refl;
  checksum_is_hex = spelling-hex;
  checksum_fixed = spelling-fixed;
  hex-NoSpace = hex-NoSpace;
}

abbrev pub payment : Transaction
payment = record {
  hash = "p";
  from = " 0xaaaaaaaaaaaaaaaaaaaaaaaaaaaaaaaaaaaaaaaa";
  to = "0xBBBBBBBBBBBBBBBBBBBBBBBBBBBBBBBBBBBBBBBB";
  value = 100;
  gas = 21000;
  gas_price = 7;
  max_priority_fee = none;
  tx_type = 0;
  nonce = 1;
  calldata = [];
  timestamp = 1000;
  status = pending;
  block_number = none;
  mined_at = none;
  gas_used = none;
  effective_gas_price = none;
  receipt_status = none;
  created_contract = "";
}

-- The same nonce with a higher price.
abbrev pub speed_up : Transaction
speed_up = record payment { hash = "q"; gas_price = 9 }

abbrev pub creation : Transaction
creation = record payment {
  hash = "c";
  to = "";
  nonce = 2;
  created_contract = "0xBBBBBBBBBBBBBBBBBBBBBBBBBBBBBBBBBBBBBBBB";
}

abbrev pub header : String → Block
header h = record {
  number = 40;
  hash = h;
  parent_hash = "39";
  mined_at = 2000;
  tx_count = 1;
  gas_used = 21000;
  base_fee = some 5;
}

abbrev pub receipt : Receipt
receipt = record { gas_used = 21000; effective_gas_price = some 7; status = 1 }

abbrev pub transfer : TokenTransfer
transfer = record {
  tx_hash = "q";
  log_index = 0;
  block_number = 40;
  token = "0xBBBBBBBBBBBBBBBBBBBBBBBBBBBBBBBBBBBBBBBB";
  from = "0xaaaaaaaaaaaaaaaaaaaaaaaaaaaaaaaaaaaaaaaa";
  to = "0xBBBBBBBBBBBBBBBBBBBBBBBBBBBBBBBBBBBBBBBB";
  amount = 3;
  mined_at = 2000;
}

-- Two blocks at one height: the first mines the replacement, the second the creation.
abbrev pub block_1 : MinedBlock
block_1 = record {
  block = header "40-1";
  transactions = speed_up ∷ [];
  receipts = ("q", receipt) ∷ [];
  token_transfers = transfer ∷ [];
}

abbrev pub block_2 : MinedBlock
block_2 = record {
  block = header "40-2";
  transactions = creation ∷ [];
  receipts = [];
  token_transfers = [];
}

abbrev pub empty_db : Db
empty_db = record { accounts = []; blocks = []; transactions = []; token_transfers = []; jobs = [] }

abbrev pub state_of : DbResult → Db
state_of (committed db) = db
state_of (aborted _) = empty_db
