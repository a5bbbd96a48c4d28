-- ===== src/Store/Postgres/Entities/Tests.antt =====
-- store/postgres.go and store/known_entities_seed.go: labels of two addresses, one with two spellings.
use forensic_listener.Prelude.{
  arith, String, ◌≡◌, refl, true, false, ◌&&◌, not, none, some, List, [], ◌∷◌, str_eq, any,
  if◌then◌else◌, max,
}
use forensic_listener.Models.{ForensicFlag, medium}
use forensic_listener.Store.Fixtures.{lib}
use forensic_listener.Store.Postgres.Accounts.{
  has_account, violates_format, is_account_format, hex_digits, is_hex_digit, touch_account,
  touch_all, upsert_accounts, distinct_addresses,
}
use forensic_listener.Store.Address.{normalize_address, trim_space, is_space}
use forensic_listener.Store.Postgres.Entities.{
  EntityRow, KnownEntitySeed, LabelDb, find_entity, manual_row, upsert_known_entity, accepts, both,
  entity_fails, SeedOutcome, seeded, db_after, seed_known_entities, entity_seeded, seed_entity,
  seed_account, seed_row, put_entity, normalize_from, normalize_address_list,
  known_entities_by_addresses, find_level, address_risk_by_addresses, level_name, flag_rank,
  level_rank, label_rank, risk_rank,
}
use forensic_listener.Store.Postgres.Entities.Builtin.{builtin_known_entities}
use forensic_listener.Store.Postgres.Entities.Seeding.{manual_survives, seeding_again, IsDistinct}
use forensic_listener.Store.Postgres.Entities.Lookup.{
  IsNodup, names, normalize_list_exact, upsert-find, upsert-blank,
}
use forensic_listener.Store.Postgres.Entities.Risk.{label_hides_nothing}

abbrev mixer : KnownEntitySeed
mixer = record {
  address = " 0xaaaaaaaaaaaaaaaaaaaaaaaaaaaaaaaaaaaaaaaa";
  name = "Mixer";
  entity_type = "mixer";
  risk_level = "high";
  is_hub = false;
  is_contract = true;
}

abbrev exchange : KnownEntitySeed
exchange = record {
  address = "0xBBBBBBBBBBBBBBBBBBBBBBBBBBBBBBBBBBBBBBBB";
  name = "Exchange";
  entity_type = "exchange";
  risk_level = "low";
  is_hub = true;
  is_contract = false;
}

abbrev blank : KnownEntitySeed
blank = record exchange { address = " " }

abbrev seeds : List KnownEntitySeed
seeds = mixer ∷ blank ∷ exchange ∷ []

abbrev no_labels : LabelDb
no_labels = record { accounts = []; known_entities = [] }

abbrev all_pass : String → SeedOutcome
all_pass _ = both

abbrev first_start : LabelDb
first_start = db_after (seed_known_entities lib 5 all_pass 0 seeds no_labels)

-- Two of the three are written.
seeds_written : seed_known_entities lib 5 all_pass 0 seeds no_labels ≡ seeded 2 first_start
unfolding seed_known_entities entity_seeded seed_entity seed_account seed_row normalize_address
    trim_space is_space
seeds_written = refl

abbrev builtin_start : LabelDb
builtin_start = db_after (seed_known_entities lib 5 all_pass 0 builtin_known_entities no_labels)

builtin_written :
    seed_known_entities lib 5 all_pass 0 builtin_known_entities no_labels ≡ seeded 10 builtin_start
unfolding seed_known_entities entity_seeded seed_entity seed_account seed_row normalize_address
    trim_space is_space
builtin_written = refl

builtin-IsDistinct : IsDistinct lib builtin_known_entities
unfolding normalize_address trim_space is_space
builtin-IsDistinct = ground arith

seeding_again_example :
    seed_known_entities lib 9 (λ _. both) 0 builtin_known_entities builtin_start
    ≡ seeded 0 builtin_start
seeding_again_example =
    seeding_again lib 5 9 10 all_pass builtin_known_entities no_labels builtin_start
      builtin-IsDistinct builtin_written

abbrev verdict : EntityRow
verdict = record {
  address = "0xaaaaaaaaaaaaaaaaaaaaaaaaaaaaaaaaaaaaaaaa";
  name = "Cleared";
  entity_type = "wallet";
  risk_level = "none";
  is_hub = false;
  source = "";
  updated_at = 0;
}

abbrev labelled : LabelDb
labelled = record {
  accounts =
      upsert_accounts ("0xAAAAAAAAAAAAAAAAAAAAAAAAAAAAAAAAAAAAAAAA" ∷ []) 7 first_start.accounts;
  known_entities = put_entity (manual_row lib 8 verdict) first_start.known_entities;
}

verdict_saved :
    upsert_known_entity lib 7 8 verdict first_start ≡ some (manual_row lib 8 verdict, labelled)
unfolding upsert_known_entity accepts violates_format is_account_format hex_digits is_hex_digit
    manual_row upsert_accounts touch_all distinct_addresses touch_account has_account
    seed_known_entities entity_seeded seed_entity seed_account seed_row put_entity normalize_address
    trim_space is_space
verdict_saved = refl

verdict_found :
    find_entity "0xAAAAAAAAAAAAAAAAAAAAAAAAAAAAAAAAAAAAAAAA" labelled.known_entities
    ≡ some (manual_row lib 8 verdict)
unfolding find_entity put_entity manual_row seed_known_entities entity_seeded seed_entity seed_row
    normalize_address trim_space is_space
verdict_found = refl

-- A later start, which breaks off at the exchange, keeps the verdict.
abbrev breaks_off : String → SeedOutcome
breaks_off a = if str_eq a "0xBBBBBBBBBBBBBBBBBBBBBBBBBBBBBBBBBBBBBBBB" then entity_fails else both

manual_survives_example :
    find_entity "0xAAAAAAAAAAAAAAAAAAAAAAAAAAAAAAAAAAAAAAAA"
      (db_after (seed_known_entities lib 9 breaks_off 0 seeds labelled)).known_entities
    ≡ some (manual_row lib 8 verdict)
unfolding manual_row
manual_survives_example =
    manual_survives lib 9 breaks_off seeds labelled "0xAAAAAAAAAAAAAAAAAAAAAAAAAAAAAAAAAAAAAAAA"
      (manual_row lib 8 verdict) verdict_found refl

abbrev asked : List String
asked =
    "0xaaaaaaaaaaaaaaaaaaaaaaaaaaaaaaaaaaaaaaaa" ∷ " 0xBBBBBBBBBBBBBBBBBBBBBBBBBBBBBBBBBBBBBBBB"
    ∷ "0xAAAAAAAAAAAAAAAAAAAAAAAAAAAAAAAAAAAAAAAA" ∷ "" ∷ []

asked_twice :
    normalize_address_list lib asked
    ≡ "0xAAAAAAAAAAAAAAAAAAAAAAAAAAAAAAAAAAAAAAAA" ∷ "0xBBBBBBBBBBBBBBBBBBBBBBBBBBBBBBBBBBBBBBBB"
      ∷ []
unfolding normalize_address_list normalize_from normalize_address trim_space is_space
asked_twice = refl

normalize_list_exact_applied :
    IsNodup (normalize_address_list lib asked)
    × ((a : String)
        → any (str_eq a) (normalize_address_list lib asked)
          ≡ (not (str_eq a "") && names lib a asked))
normalize_list_exact_applied = normalize_list_exact lib asked

upsert-find_example :
    (db' : LabelDb) × (upsert_known_entity lib 7 8 verdict first_start
      ≡ some (manual_row lib 8 verdict, db'))
    × ((addresses : List String) (a : String)
        → names lib a addresses ≡ true
        → str_eq a "" ≡ false
        → find_entity a (known_entities_by_addresses lib addresses db'.known_entities) ≡ (
            if str_eq (normalize_address lib verdict.address) a
            then some (manual_row lib 8 verdict)
            else find_entity a first_start.known_entities))
unfolding normalize_address trim_space is_space is_account_format hex_digits is_hex_digit
upsert-find_example = upsert-find lib 7 8 verdict first_start refl refl

upsert-blank_applied :
    upsert_known_entity lib 7 8 (record verdict { address = " " }) no_labels ≡ none
unfolding normalize_address trim_space is_space has_account
upsert-blank_applied = upsert-blank lib 7 8 (record verdict { address = " " }) no_labels refl refl

abbrev loop_flag : ForensicFlag
loop_flag = record {
  tx_hash = "h";
  address = "0xAAAAAAAAAAAAAAAAAAAAAAAAAAAAAAAAAAAAAAAA";
  flag_type = "circular_flow";
  severity = medium;
  detected_at = 6;
}

-- The address that was cleared stays at medium risk, for its flag.
label_hides_nothing_example :
    find_level "0xAAAAAAAAAAAAAAAAAAAAAAAAAAAAAAAAAAAAAAAA" (
      address_risk_by_addresses lib asked labelled.accounts
        (loop_flag ∷ [])
        labelled.known_entities)
    ≡ some (
        level_name (
          if str_eq
            (normalize_address lib verdict.address)
            "0xAAAAAAAAAAAAAAAAAAAAAAAAAAAAAAAAAAAAAAAA"
          then max
              (flag_rank "0xAAAAAAAAAAAAAAAAAAAAAAAAAAAAAAAAAAAAAAAA" (loop_flag ∷ []))
              (level_rank verdict.risk_level)
          else risk_rank "0xAAAAAAAAAAAAAAAAAAAAAAAAAAAAAAAAAAAAAAAA"
              (loop_flag ∷ [])
              first_start.known_entities))
unfolding has_account seed_known_entities entity_seeded seed_entity seed_account seed_row
    normalize_address trim_space is_space
label_hides_nothing_example =
    label_hides_nothing lib 7 8 verdict (manual_row lib 8 verdict) (loop_flag ∷ []) first_start
      labelled asked "0xAAAAAAAAAAAAAAAAAAAAAAAAAAAAAAAAAAAAAAAA" verdict_saved refl refl refl

still_medium :
    find_level "0xAAAAAAAAAAAAAAAAAAAAAAAAAAAAAAAAAAAAAAAA" (
      address_risk_by_addresses lib asked labelled.accounts
        (loop_flag ∷ [])
        labelled.known_entities)
    ≡ some "medium"
unfolding find_level address_risk_by_addresses risk_rank label_rank flag_rank level_rank find_entity
    put_entity manual_row upsert_accounts touch_all distinct_addresses touch_account
    normalize_address_list normalize_from seed_known_entities entity_seeded seed_entity seed_account
    seed_row normalize_address trim_space is_space
still_medium = refl
