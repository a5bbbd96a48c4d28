-- ===== src/Store/Postgres/Accounts.antt =====
-- store/postgres.go: the accounts table.
pub mod Seen
use Prim.Native.Char.{Char, code}
use forensic_listener.Prelude.{
  ℕ, zero, suc, max, ◌&&◌, not, leb, ◌==◌, String, Bool, true, false, ◌||◌, Option, none, some,
  List, [], ◌∷◌, str_eq, if◌then◌else◌, any,
}
use forensic_listener.Models.{Account}

unfoldable pub is_hex_digit : Char → Bool
is_hex_digit ch =
    let c = code ch in (leb 48 c && leb c 57) || (leb 65 c && leb c 70) || (leb 97 c && leb c 102)

-- `[0-9a-fA-F]{n}$`
unfoldable pub hex_digits : ℕ → String → Bool
hex_digits zero String.[] = true
hex_digits zero (String.◌∷◌ c s) = false
hex_digits (suc n) String.[] = false
hex_digits (suc n) (String.◌∷◌ c s) = is_hex_digit c && hex_digits n s

abbrev pub x_digits : String → Bool
x_digits String.[] = false
x_digits (String.◌∷◌ c s) = code c == 120 && hex_digits 40 s

-- The CHECK accounts_address_format: address ~ '^0x[0-9a-fA-F]{40}$'
unfoldable pub is_account_format : String → Bool
is_account_format String.[] = false
is_account_format (String.◌∷◌ c s) = code c == 48 && x_digits s

-- Some row of upsertAccountsSQL violates the CHECK.
unfoldable pub violates_format : List String → Bool
violates_format = any (λ a. not (str_eq a "") && not (is_account_format a))

unfoldable pub has_account : String → List Account → Bool
has_account a = any (λ r. str_eq r.address a)

-- One row of the statement: INSERT, or on conflict the later last_seen.
unfoldable pub touch_account : ℕ → String → List Account → List Account
touch_account ts a [] =
    record { address = a; is_contract = false; first_seen = ts; last_seen = ts } ∷ []
touch_account ts a (r ∷ rs) =
    if str_eq r.address a
    then record r { last_seen = max r.last_seen ts } ∷ rs
    else r ∷ touch_account ts a rs

-- SELECT DISTINCT a ... WHERE a <> ''
unfoldable pub distinct_addresses : List String → List String
distinct_addresses [] = []
distinct_addresses (a ∷ more) =
    let rest = distinct_addresses more in
    if str_eq a "" || any (λ b. str_eq b a) rest then rest else a ∷ rest

unfoldable pub touch_all : ℕ → List String → List Account → List Account
touch_all ts [] rows = rows
touch_all ts (a ∷ more) rows = touch_all ts more (touch_account ts a rows)

-- upsertAccountsSQL
unfoldable pub upsert_accounts : List String → ℕ → List Account → List Account
upsert_accounts addresses ts rows = touch_all ts (distinct_addresses addresses) rows

-- The statement of UpsertAccount, after its test for the empty address.
unfoldable pub upsert_one : ℕ → String → Bool → List Account → List Account
upsert_one now a contract [] =
    record { address = a; is_contract = contract; first_seen = now; last_seen = now } ∷ []
upsert_one now a contract (r ∷ rs) =
    if str_eq r.address a
    then record r { last_seen = now; is_contract = r.is_contract || contract } ∷ rs
    else r ∷ upsert_one now a contract rs

-- The row query of GetAccount.
unfoldable pub find_account : String → List Account → Option Account
find_account a [] = none
find_account a (r ∷ rs) = if str_eq r.address a then some r else find_account a rs

-- UPDATE accounts SET is_contract = TRUE WHERE address = ANY(created) AND NOT is_contract
unfoldable pub mark_contracts : List String → List Account → List Account
mark_contracts created [] = []
mark_contracts created (r ∷ rs) =
    (if any (λ a. str_eq a r.address) created then record r { is_contract = true } else r)
    ∷ mark_contracts created rs
