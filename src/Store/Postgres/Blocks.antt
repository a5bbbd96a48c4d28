-- ===== src/Store/Postgres/Blocks.antt =====
-- store/postgres.go: what a committed SaveBlock leaves behind.
use forensic_listener.Prelude.{
  ℕ, String, ◌≡◌, ◌≢◌, refl, sym, ◌∙◌, true, false, Option, none, some, List, [], ◌∷◌, map, arith,
  str_eq, eq_refl, any, Bool-cases, Option-cases, inl, inr,
}
use forensic_listener.Models.{mined, Transaction, Block, MinedBlock}
use forensic_listener.Store.Address.{AddressLib}
use forensic_listener.Store.Postgres.Transactions.{TxRow, find_tx, has_duplicates}
use forensic_listener.Store.Postgres.Transactions.Rows.{
  map_row, merge_row, merge_rows, replace_row, revert_row, find-revert_block,
}
use forensic_listener.Store.Postgres.{
  undo_block, TxRow, mined_row, Db, committed, upsert_block, stored_hash, save_block,
}
use forensic_listener.Store.Postgres.Writes.{
  tx_hashes, mined_rows, written, base, find-written, save_block-Outcome,
}

stored_hash-upsert :
    (b : Block) (bs : List Block) → stored_hash b.number (upsert_block b bs) ≡ some b.hash
unfolding stored_hash upsert_block
stored_hash-upsert b [] = ground arith
stored_hash-upsert b (c ∷ cs) = ground (arith, stored_hash-upsert b cs)

-- The row of a hash that the statements behind the look at the stored hash start from.
abbrev pub base_row : ℕ → Option String → Option TxRow → Option TxRow
base_row n none o = o
base_row n (some _) o = map_row (revert_row n) o

find-base :
    (lib : AddressLib) (mb : MinedBlock) (h : String) (o : Option String) (db : Db)
    → find_tx h (base lib mb o db).transactions
      ≡ base_row mb.block.number o (find_tx h db.transactions)
unfolding undo_block
find-base lib mb h none db = refl
find-base lib mb h (some _) db = find-revert_block mb.block.number h db.transactions

-- The transactions of a block include one of this hash.
abbrev pub Includes : MinedBlock → String → Type 0
Includes mb h = any (λ k. str_eq k h) (tx_hashes mb.transactions) ≡ true

-- The row says that the transaction was mined in block n.
abbrev pub IsMinedIn : ℕ → TxRow → Type 0
IsMinedIn n r = (r.status ≡ mined) × (r.block_number ≡ some n)

pub find-included :
    (lib : AddressLib) (mb : MinedBlock) (h : String) (txs : List Transaction)
    → any (λ k. str_eq k h) (tx_hashes txs) ≡ true
    → (m : TxRow) × (find_tx h (map (mined_row lib mb) txs) ≡ some m) × IsMinedIn mb.block.number m
unfolding find_tx mined_row
find-included lib mb h [] e = cc
find-included lib mb h (tx ∷ txs) e = elim (Bool-cases (str_eq tx.hash h)) [
  | inl same ↦ (mined_row lib mb tx, rw same, (refl, refl))
  | inr other ↦
      let (m, found, facts) = find-included lib mb h txs (rw other at e) in
      (m, rw other found, facts)
]

pub included-find :
    (lib : AddressLib) (mb : MinedBlock) (h : String) (txs : List Transaction) (m : TxRow)
    → find_tx h (map (mined_row lib mb) txs) ≡ some m
    → any (λ k. str_eq k h) (tx_hashes txs) ≡ true
unfolding find_tx mined_row
included-find lib mb h [] m e = cc
included-find lib mb h (tx ∷ txs) m e = ground (arith, included-find lib mb h txs m)

settled :
    (ms : List TxRow) (n : ℕ) (m : TxRow) (o : Option TxRow)
    → IsMinedIn n m
    → IsMinedIn n (replace_row ms (merge_row m o))
unfolding replace_row merge_row
settled ms n m none h = ground arith
settled ms n m (some r) h = ground arith

-- A row that comes from the tables before, and not from the block, is in block n only if it was there
-- and nothing was undone.
not_left :
    (ms : List TxRow) (n : ℕ) (other : String) (o : Option TxRow) (r : TxRow)
    → map_row (replace_row ms) (base_row n (some other) o) ≡ some r
    → r.block_number ≢ some n
unfolding map_row replace_row revert_row
not_left ms n other none r e p = cc
not_left ms n other (some s) r e p = ground arith

module _ (lib : AddressLib) (now : ℕ) (mb : MinedBlock) (db : Db) {db' : Db}
    (done : save_block lib now mb db ≡ committed db') where
  stored_after : stored_hash mb.block.number db'.blocks ≡ some mb.block.hash
  unfolding written
  stored_after = elim (save_block-Outcome lib now mb db done) [
    | inl same ↦ rw same.1 same.0
    | inr wrote ↦ rw wrote.2 (stored_hash-upsert mb.block _)
  ]

  -- Delivering a block again, at any later time, commits and changes nothing.
  pub save_block_again : (later : ℕ) → save_block lib later mb db' ≡ committed db'
  unfolding save_block
  save_block_again later = rw (stored_after, eq_refl)

  module _ (fresh : stored_hash mb.block.number db.blocks ≢ some mb.block.hash) where
    pub wrote :
        (has_duplicates (tx_hashes mb.transactions) ≡ false)
        × (db' ≡ written lib now mb (base lib mb (stored_hash mb.block.number db.blocks) db))
    wrote = elim (save_block-Outcome lib now mb db done) [
      | inl same ↦ absurd (fresh same.0)
      | inr w ↦ (w.1, w.2)
    ]

    -- The row of a hash before, and what the write makes of it.
    pub find-after :
        (h : String)
        → find_tx h db'.transactions
          ≡ map_row (replace_row (mined_rows lib mb)) (
              merge_rows (find_tx h (mined_rows lib mb)) (
                base_row mb.block.number
                  (stored_hash mb.block.number db.blocks)
                  (find_tx h db.transactions)))
    unfolding written
    find-after h =
        rw (← find-base lib mb h (stored_hash mb.block.number db.blocks) db, wrote.1)
          (find-written lib mb h _ wrote.0)

    -- Every transaction of the block is stored as mined in it.
    pub included_mined :
        (h : String)
        → Includes mb h
        → (r : TxRow) × (find_tx h db'.transactions ≡ some r) × IsMinedIn mb.block.number r
    unfolding merge_rows map_row
    included_mined h i =
        let (m, found, facts) = find-included lib mb h mb.transactions i in
        let before =
          base_row mb.block.number (stored_hash mb.block.number db.blocks)
            (find_tx h db.transactions) in
        (
          replace_row (mined_rows lib mb) (merge_row m before),
          find-after h ∙ rw found refl,
          settled (mined_rows lib mb) mb.block.number m before facts,
        )

  -- After a reorg at this height only transactions of the new block are stored as mined in it.
  pub reorg_leaves_none :
      (other : String)
      → stored_hash mb.block.number db.blocks ≡ some other
      → other ≢ mb.block.hash
      → (h : String) (r : TxRow) → find_tx h db'.transactions ≡ some r
      → r.block_number ≡ some mb.block.number
      → Includes mb h
  unfolding merge_rows
  reorg_leaves_none other was differs h r found here =
      let fresh : stored_hash mb.block.number db.blocks ≢ some mb.block.hash =
        λ p. differs (let q : some other ≡ some mb.block.hash = cc in cc) in
      elim (Option-cases (find_tx h (mined_rows lib mb))) [
        | inr (m, e) ↦ included-find lib mb h mb.transactions m e
        | inl e ↦ absurd (
            not_left (mined_rows lib mb) mb.block.number other (find_tx h db.transactions) r
              (sym (rw (was, e) at (find-after fresh h)) ∙ found) here)
      ]
