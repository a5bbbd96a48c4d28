-- ===== src/Store/Postgres/Dossier/Tests.antt =====
-- store/postgres.go: the dossier of an account that pays, is paid by itself, and creates a contract.
use forensic_listener.Prelude.{◌≤◌, ◌≡◌, refl, false, List, [], ◌∷◌, map, arith}
use forensic_listener.Models.{Account}
use forensic_listener.Store.Fixtures.{lib, payment, speed_up, creation}
use forensic_listener.Store.Address.{normalize_address, trim_space, trim_left, trim_right, is_space}
use forensic_listener.Store.Postgres.{pending_row}
use forensic_listener.Store.Postgres.Transactions.{TxRow, nullable_string}
use forensic_listener.Store.Postgres.Pages.{newest, insert_newest}
use forensic_listener.Store.Postgres.Network.{count_distinct}
use forensic_listener.Store.Postgres.Accounts.{find_account}
use forensic_listener.Store.Postgres.Dossier.{
  CounterpartyActivity, sum_all, distinct_names, counterparty_row, received_activities,
  sent_activities, most_frequent, latest_of, account_counterparties, Tables, AccountProfile,
  profile_of, get_account_profile,
}
use forensic_listener.Store.Postgres.Dossier.Balance.{Agrees, dossier-Agrees}

abbrev history : List TxRow
history =
    pending_row lib payment
    ∷ pending_row lib speed_up
    ∷ pending_row lib creation
    ∷ pending_row lib (record payment { to = payment.from; hash = "0xself" })
    ∷ []

abbrev payer : Account
payer = record {
  address = normalize_address lib payment.from;
  is_contract = false;
  first_seen = 1;
  last_seen = 9;
}

abbrev tables : Tables
tables = record {
  accounts = payer ∷ [];
  transactions = history;
  token_transfers = [];
  blocks = [];
  flags = [];
  known_entities = [];
}

abbrev dossier : AccountProfile
dossier = profile_of lib tables payer.address payer

-- The two payments to 0xB, the payment to itself twice, and a contract creation.
counterparties_listed :
    map
      (λ (c : CounterpartyActivity). c.sent_count)
      (account_counterparties lib tables " 0xaaaaaaaaaaaaaaaaaaaaaaaaaaaaaaaaaaaaaaaa" 0)
    ≡ 2 ∷ 1 ∷ []
unfolding account_counterparties most_frequent newest insert_newest counterparty_row distinct_names
    sum_all latest_of sent_activities received_activities normalize_address trim_space trim_left
    trim_right is_space pending_row nullable_string
counterparties_listed = refl

few_partners : dossier.counterparty_count ≤ 8
unfolding profile_of count_distinct sent_activities received_activities normalize_address trim_space
    trim_left trim_right is_space pending_row nullable_string
few_partners = omega arith

dossier-Agrees_example : Agrees (normalize_address lib payment.from) history dossier
unfolding get_account_profile find_account normalize_address trim_space trim_left trim_right
    is_space
dossier-Agrees_example = dossier-Agrees lib tables payment.from dossier refl few_partners
