-- ===== src/Store/Postgres/References.antt =====
-- store/postgres.go: SaveBlock stores the accounts and the block that its other rows refer to.
use forensic_listener.Prelude.{
  ℕ, String, ◌≡◌, refl, true, false, List, [], ◌∷◌, ◌++◌, map, arith, str_eq, any, All, Bool-cases,
  inl, inr,
}
use forensic_listener.Models.{Account, Block, Transaction, TokenTransfer, MinedBlock}
use forensic_listener.Store.Address.{AddressLib, normalize_address}
use forensic_listener.Store.Postgres.Accounts.{
  has_account, upsert_accounts, mark_contracts, distinct_addresses,
}
use forensic_listener.Store.Postgres.Accounts.Seen.{
  has-touch_all, has-mark_contracts, IsStored, upsert_accounts-IsStored,
}
use forensic_listener.Store.Postgres.Transactions.{TxRow, nullable_string}
use forensic_listener.Store.Postgres.{
  Db, has_block, upsert_block, dangling_tx, dangling_transfer, refers, mined_row, transfer_row,
  created_contracts, block_addresses, tx_addresses, transfer_addresses,
}
use forensic_listener.Store.Postgres.Writes.{accounts_written, before_transfers, mined_rows}

has_block-upsert :
    (b : Block) (blocks : List Block) → has_block b.number (upsert_block b blocks) ≡ true
unfolding has_block upsert_block
has_block-upsert b [] = ground arith
has_block-upsert b (c ∷ cs) = ground (arith, has_block-upsert b cs)

All-left : (P : String → Type 0) (xs ys : List String) → All P (xs ++ ys) → All P xs
All-left P [] ys h = tt
All-left P (x ∷ xs) ys h = (h.0, All-left P xs ys h.1)

All-right : (P : String → Type 0) (xs ys : List String) → All P (xs ++ ys) → All P ys
All-right P [] ys h = h
All-right P (x ∷ xs) ys h = All-right P xs ys h.1

IsStored-grow :
    (ts : ℕ) (cs : List String) (rows : List Account) (bs : List String)
    → All (IsStored rows) bs
    → All (IsStored (mark_contracts cs (upsert_accounts cs ts rows))) bs
unfolding upsert_accounts
IsStored-grow ts cs rows [] h = tt
IsStored-grow ts cs rows (a ∷ more) h = (
  elim (Bool-cases (str_eq a "")) [
    | inl blank ↦ rw blank refl
    | inr text ↦
        let k : has_account a rows ≡ true = rw text at h.0 in
        rw (text, has-mark_contracts a cs (upsert_accounts cs ts rows))
          (unfold upsert_accounts in has-touch_all ts a (distinct_addresses cs) rows k)
  ],
  IsStored-grow ts cs rows more h.1,
)

refers-nullable :
    (rows : List Account) (a : String) → IsStored rows a → refers rows (nullable_string a) ≡ true
unfolding nullable_string
refers-nullable rows a h = elim (Bool-cases (str_eq a "")) [
  | inl blank ↦ rw blank refl
  | inr text ↦ rw text (rw text at h)
]

module _ (lib : AddressLib) where
  -- No transaction has a blank sender.
  abbrev pub HasSenders : List Transaction → Type 0
  HasSenders = All (λ (tx : Transaction). str_eq (normalize_address lib tx.from) "" ≡ false)

  -- No address of a transfer is blank.
  abbrev pub HasParties : List TokenTransfer → Type 0
  HasParties = All (λ (t : TokenTransfer).
      (str_eq (normalize_address lib t.token) "" ≡ false)
      × (str_eq (normalize_address lib t.from) "" ≡ false)
      × (str_eq (normalize_address lib t.to) "" ≡ false))

  created-tail :
      (rows : List Account) (tx : Transaction) (txs : List Transaction)
      → All (IsStored rows) (created_contracts lib (tx ∷ txs))
      → IsStored rows (normalize_address lib tx.created_contract)
        × All (IsStored rows) (created_contracts lib txs)
  unfolding created_contracts
  created-tail rows tx txs h =
      elim (Bool-cases (str_eq (normalize_address lib tx.created_contract) "")) [
        | inl blank ↦ (rw blank refl, rw blank at h)
        | inr text ↦
            let k : All (IsStored rows)
                (normalize_address lib tx.created_contract ∷ created_contracts lib txs) =
              rw text at h in
            k
      ]

  rows_refer :
      (mb : MinedBlock) (old : List TxRow) (accounts : List Account) (blocks : List Block)
      (txs : List Transaction)
      → has_block mb.block.number blocks ≡ true
      → All (IsStored accounts) (tx_addresses lib txs)
      → All (IsStored accounts) (created_contracts lib txs)
      → HasSenders txs
      → any (dangling_tx mb.block.number old accounts blocks) (map (mined_row lib mb) txs) ≡ false
  unfolding mined_row dangling_tx tx_addresses
  rows_refer mb old accounts blocks [] b p c s = refl
  rows_refer mb old accounts blocks (tx ∷ txs) b p c s =
      let (created, more) = created-tail accounts tx txs c in
      let from : has_account (normalize_address lib tx.from) accounts ≡ true = rw s.0 at p.0 in
      rw
        (
          b,
          refers-nullable accounts (normalize_address lib tx.created_contract) created,
          from,
          refers-nullable accounts (normalize_address lib tx.to) p.1.0,
        )
        (ground (arith, rows_refer mb old accounts blocks txs b p.1.1 more s.1))

  transfers_refer :
      (n : ℕ) (db : Db) (ts : List TokenTransfer)
      → has_block n db.blocks ≡ true
      → All (IsStored db.accounts) (transfer_addresses lib ts)
      → HasParties ts
      → any (dangling_transfer db) (map (transfer_row lib n) ts) ≡ false
  unfolding transfer_row dangling_transfer transfer_addresses
  transfers_refer n db [] b p h = refl
  transfers_refer n db (t ∷ ts) b p ((token, from, to), h) =
      let k1 : has_account (normalize_address lib t.token) db.accounts ≡ true = rw token at p.0 in
      let k2 : has_account (normalize_address lib t.from) db.accounts ≡ true = rw from at p.1.0 in
      let k3 : has_account (normalize_address lib t.to) db.accounts ≡ true = rw to at p.1.1.0 in
      rw (b, k1, k2, k3) (ground (arith, transfers_refer n db ts b p.1.1.1 h))

  accounts-IsStored :
      (mb : MinedBlock) (db : Db)
      → All (IsStored (accounts_written lib mb db)) (block_addresses lib mb)
        × All (IsStored (accounts_written lib mb db)) (created_contracts lib mb.transactions)
  accounts-IsStored mb db =
      let created = created_contracts lib mb.transactions in
      let seen = upsert_accounts (block_addresses lib mb) mb.block.mined_at db.accounts in
      (
        IsStored-grow mb.block.mined_at created seen (block_addresses lib mb)
            (upsert_accounts-IsStored (block_addresses lib mb) mb.block.mined_at db.accounts),
        marked created created (upsert_accounts created mb.block.mined_at seen)
            (upsert_accounts-IsStored created mb.block.mined_at seen),
      )
    where
      marked :
          (cs bs : List String) (rows : List Account)
          → All (IsStored rows) bs
          → All (IsStored (mark_contracts cs rows)) bs
      marked cs [] rows h = tt
      marked cs (a ∷ bs) rows h = (rw (has-mark_contracts a cs rows) h.0, marked cs bs rows h.1)

  -- The statements of SaveBlock store what they refer to: where no sender and no address of a transfer
  -- is blank, no foreign key to the accounts or the blocks is violated.
  pub references_hold :
      (now : ℕ) (mb : MinedBlock) (db : Db)
      → HasSenders mb.transactions
      → HasParties mb.token_transfers
      → (any
            (dangling_tx mb.block.number db.transactions
              (accounts_written lib mb db)
              (upsert_block mb.block db.blocks))
            (mined_rows lib mb)
          ≡ false)
        × (any
              (dangling_transfer (before_transfers lib now mb db))
              (map (transfer_row lib mb.block.number) mb.token_transfers)
            ≡ false)
  unfolding block_addresses
  references_hold now mb db senders parties =
      let (listed, created) = accounts-IsStored mb db in
      let P = IsStored (accounts_written lib mb db) in
      let block = has_block-upsert mb.block db.blocks in
      (
        rows_refer mb db.transactions (accounts_written lib mb db) (upsert_block mb.block db.blocks)
            mb.transactions block
            (All-left P (tx_addresses lib mb.transactions)
              (transfer_addresses lib mb.token_transfers) listed)
            created senders,
        transfers_refer mb.block.number (before_transfers lib now mb db) mb.token_transfers block
            (All-right P (tx_addresses lib mb.transactions)
              (transfer_addresses lib mb.token_transfers) listed)
            parties,
      )
