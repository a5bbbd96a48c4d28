-- ===== src/Store/Postgres/Lifecycle.antt =====
-- store/postgres.go: how SaveBlock moves a stored transaction through pending, mined and replaced.
use mathlib.Core.Path.{subst}
use forensic_listener.Prelude.{
  ℕ, String, ◌≡◌, ◌≢◌, refl, sym, ap, ◌∙◌, Bool, true, false, ◌&&◌, Option, none, some, List, [],
  ◌∷◌, ◌++◌, map, arith, ◌==◌, str_eq, eq_iff, any, All, All-append, Bool-cases, Option-cases, inl,
  inr, ◌⊎◌, is_some,
}
use mathlib.Core.List.{Memᴰ}
use forensic_listener.Models.{TxStatus, pending, mined, replaced, Transaction, MinedBlock}
use forensic_listener.Store.Address.{AddressLib}
use forensic_listener.Store.Postgres.Transactions.{
  TxRow, TransferRow, find_tx, insert_transfer, insert_transfers, has_transfer, remove_transfers,
  is_superseded, in_block,
}
use forensic_listener.Store.Postgres.Transactions.Rows.{
  map_row, merge_row, merge_rows, replace_row, revert_row, find-hash,
}
use forensic_listener.Store.Postgres.{
  Db, committed, stored_hash, mined_row, transfer_row, undo_block, save_block,
}
use forensic_listener.Store.Postgres.Writes.{tx_hashes, mined_rows, written}
use forensic_listener.Store.Postgres.Blocks.{
  included_mined, Includes, base_row, find-included, included-find, find-after, wrote,
}

-- What no write ever changes of a stored transaction.
pub record SameCore (r s : TxRow) : Type 0 where
  pub hash : s.hash ≡ r.hash
  pub sender : s.from_address ≡ r.from_address
  pub recipient : s.to_address ≡ r.to_address
  pub value : s.value ≡ r.value
  pub gas : s.gas ≡ r.gas
  pub gas_price : s.gas_price ≡ r.gas_price
  pub fee : s.max_priority_fee ≡ r.max_priority_fee
  pub tx_type : s.tx_type ≡ r.tx_type
  pub nonce : s.nonce ≡ r.nonce
  pub calldata : s.calldata ≡ r.calldata
  pub timestamp : s.timestamp ≡ r.timestamp

-- The status that a block gives to a transaction, by whether the block includes it, whether it stood
-- in the block that this one displaces, and whether the block mines its sender and nonce otherwise.
abbrev pub next_status : Bool → Bool → Bool → TxStatus → TxStatus
next_status true undone superseded s = mined
next_status false true true s = replaced
next_status false true false s = pending
next_status false false true pending = replaced
next_status false false superseded s = s

abbrev pub includes : MinedBlock → String → Bool
includes mb h = any (λ k. str_eq k h) (tx_hashes mb.transactions)

-- The row stands in the block that was stored at this height and is not the block at hand.
abbrev pub is_undone : ℕ → Option String → TxRow → Bool
is_undone n stored r = is_some stored && in_block n r.block_number

row_step :
    (ms : List TxRow) (n : ℕ) (stored : Option String) (found : Option TxRow) (included : Bool)
    (r : TxRow)
    → (is_some found ≡ included)
    → ((m : TxRow) → found ≡ some m → m.status ≡ mined)
    → (s : TxRow) × (map_row (replace_row ms) (merge_rows found (base_row n stored (some r)))
        ≡ some s)
      × SameCore r s
      × (s.status ≡ next_status included (is_undone n stored r) (is_superseded ms r) r.status)
unfolding map_row replace_row merge_rows merge_row revert_row is_superseded
row_step ms n none (some m) included r e all =
    (_, refl, ground (arith, all m refl), ground (arith, all m refl))
row_step ms n (some _) (some m) included r e all =
    (_, refl, ground (arith, all m refl), ground (arith, all m refl))
row_step ms n none none included r e all = (_, refl, ground arith, ground arith)
row_step ms n (some _) none included r e all = (_, refl, ground arith, ground arith)

included_of_find :
    (lib : AddressLib) (mb : MinedBlock) (h : String)
    → is_some (find_tx h (mined_rows lib mb)) ≡ includes mb h
included_of_find lib mb h = elim (Bool-cases (includes mb h)) [
  | inl e ↦ let (m, found, _) = find-included lib mb h mb.transactions e in rw (found, e)
  | inr e ↦ elim (Option-cases (find_tx h (mined_rows lib mb))) [
    | inl none_found ↦ rw (none_found, e)
    | inr (m, found) ↦ cc (included-find lib mb h mb.transactions m found)
  ]
]

find-status :
    (lib : AddressLib) (mb : MinedBlock) (h : String) (txs : List Transaction) (m : TxRow)
    → find_tx h (map (mined_row lib mb) txs) ≡ some m
    → m.status ≡ mined
unfolding find_tx mined_row
find-status lib mb h [] m e = cc
find-status lib mb h (tx ∷ txs) m e = ground (arith, find-status lib mb h txs m)

not_superseded :
    (ms : List TxRow) (r m : TxRow)
    → is_superseded ms r ≡ false
    → Memᴰ m ms
    → r.from_address ≡ m.from_address
    → r.nonce ≡ m.nonce
    → r.hash ≡ m.hash
unfolding is_superseded
not_superseded [] r m e member p q = elim member [ ]
not_superseded (n ∷ ms) r m e (Memᴰ.head same) p q =
    let f : m.from_address ≡ n.from_address = ap (λ (x : TxRow). x.from_address) same in
    let k : m.nonce ≡ n.nonce = ap (λ (x : TxRow). x.nonce) same in
    let h : m.hash ≡ n.hash = ap (λ (x : TxRow). x.hash) same in
    let p' : r.from_address ≡ n.from_address = p ∙ f in
    let q' : r.nonce ≡ n.nonce = q ∙ k in
    ground (arith, eq_iff r.from_address n.from_address, eq_iff r.hash n.hash)
not_superseded (n ∷ ms) r m e (Memᴰ.tail member) p q =
    not_superseded ms r m (ground arith) member p q

replaced_row :
    (ms : List TxRow) (o : Option TxRow) (r : TxRow)
    → map_row (replace_row ms) o ≡ some r
    → r.status ≡ pending
    → is_superseded ms r ≡ false
unfolding map_row replace_row is_superseded
replaced_row ms none r e p = cc
replaced_row ms (some s) r e p = ground arith

listed_hash :
    (lib : AddressLib) (mb : MinedBlock) (txs : List Transaction) (m : TxRow)
    → Memᴰ m (map (mined_row lib mb) txs)
    → any (λ k. str_eq k m.hash) (tx_hashes txs) ≡ true
unfolding mined_row
listed_hash lib mb [] m member = elim member [ ]
listed_hash lib mb (tx ∷ txs) m (Memᴰ.head same) =
    let e : m.hash ≡ tx.hash = ap (λ (x : TxRow). x.hash) same in
    rw e (ground (arith, eq_iff tx.hash tx.hash))
listed_hash lib mb (tx ∷ txs) m (Memᴰ.tail member) = ground (arith, listed_hash lib mb txs m member)

apart :
    (r m : TxRow)
    → (r.from_address ≡ m.from_address → r.nonce ≡ m.nonce → ⊥)
    → (r.from_address ≢ m.from_address) ⊎ (r.nonce ≢ m.nonce)
apart r m h = elim (Bool-cases (r.nonce == m.nonce)) [
  | inl e ↦ inl (λ p. h p (ground (arith, e)))
  | inr e ↦ inr (λ q. ground (arith, e, q))
]

module _ (lib : AddressLib) (now : ℕ) (mb : MinedBlock) (db : Db) {db' : Db}
    (done : save_block lib now mb db ≡ committed db')
    (fresh : stored_hash mb.block.number db.blocks ≢ some mb.block.hash) where
  -- A SaveBlock that writes its block keeps every stored transaction, with all that is fixed about
  -- it, and gives it the status of `next_status`: mined if the block includes it; else, out of a
  -- displaced block, pending again, or replaced if the new block mines its sender and nonce; else
  -- what it was, but that a pending one that the block supersedes is replaced.
  pub save_block_row :
      (h : String) (r : TxRow)
      → find_tx h db.transactions ≡ some r
      → (s : TxRow) × (find_tx h db'.transactions ≡ some s)
        × SameCore r s
        × (s.status
            ≡ next_status
                (includes mb h)
                (is_undone mb.block.number (stored_hash mb.block.number db.blocks) r)
                (is_superseded (mined_rows lib mb) r)
                r.status)
  save_block_row h r found =
      let (s, at, core, status) =
        row_step (mined_rows lib mb) mb.block.number (stored_hash mb.block.number db.blocks)
          (find_tx h (mined_rows lib mb)) (includes mb h) r (included_of_find lib mb h)
          (find-status lib mb h mb.transactions) in
      (s, find-after lib now mb db done fresh h ∙ rw found at, core, status)

  -- After it no transaction of the block has both the sender and the nonce of one that is still
  -- pending.
  pub save_block_rivals :
      (h : String) (r m : TxRow)
      → find_tx h db'.transactions ≡ some r
      → r.status ≡ pending
      → Memᴰ m (mined_rows lib mb)
      → (r.from_address ≢ m.from_address) ⊎ (r.nonce ≢ m.nonce)
  save_block_rivals h r m found p member = apart r m λ f n.
      let out =
        replaced_row (mined_rows lib mb) _ r (sym (find-after lib now mb db done fresh h) ∙ found)
          p in
      let e : m.hash ≡ h =
        sym (not_superseded (mined_rows lib mb) r m out member f n)
        ∙ find-hash h db'.transactions found in
      let i : Includes mb h = subst (Includes mb) e (listed_hash lib mb mb.transactions m member) in
      let (s, at, here) = included_mined lib now mb db done fresh h i in
      let q : some r ≡ some s = sym found ∙ at in let same : r ≡ s = cc in cc (p, here.0, same)

-- The transfers of a block.
abbrev pub IsListed : AddressLib → MinedBlock → TransferRow → Type 0
IsListed lib mb t = Memᴰ t (map (transfer_row lib mb.block.number) mb.token_transfers)

All-insert_transfers :
    (P : TransferRow → Type 0) (ts rows : List TransferRow)
    → All P ts
    → All P rows
    → All P (insert_transfers ts rows)
unfolding insert_transfers insert_transfer
All-insert_transfers P [] rows h k = k
All-insert_transfers P (t ∷ ts) rows h k =
    elim (Bool-cases (has_transfer t.tx_hash t.log_index rows)) [
      | inl e ↦ rw e (All-insert_transfers P ts rows h.1 k)
      | inr e ↦
          rw e (
            All-insert_transfers P ts (rows ++ t ∷ []) h.1 (All-append P rows (t ∷ []) k (h.0, tt)))
    ]

All-remove_transfers :
    (n : ℕ) (rows : List TransferRow)
    → All (λ (t : TransferRow). t.block_number ≢ n) (remove_transfers n rows)
unfolding remove_transfers
All-remove_transfers n [] = tt
All-remove_transfers n (t ∷ rows) = elim (Bool-cases (t.block_number == n)) [
  | inl e ↦ rw e (All-remove_transfers n rows)
  | inr e ↦ rw e ((λ p. ground arith), All-remove_transfers n rows)
]

All-listed :
    (P : TransferRow → Type 0) (ts : List TransferRow)
    → ((t : TransferRow) → Memᴰ t ts → P t)
    → All P ts
All-listed P [] h = tt
All-listed P (t ∷ ts) h = (h t (Memᴰ.head refl), All-listed P ts (λ u m. h u (Memᴰ.tail m)))

All-mono :
    (P Q : TransferRow → Type 0) (ts : List TransferRow)
    → ((t : TransferRow) → P t → Q t)
    → All P ts
    → All Q ts
All-mono P Q [] f h = tt
All-mono P Q (t ∷ ts) f h = (f t h.0, All-mono P Q ts f h.1)

module _ (lib : AddressLib) (now : ℕ) (mb : MinedBlock) (db : Db) {db' : Db}
    (done : save_block lib now mb db ≡ committed db') (other : String)
    (was : stored_hash mb.block.number db.blocks ≡ some other)
    (differs : other ≢ mb.block.hash) where
  -- After a reorg at this height every token transfer that is stored for it is one of the new block.
  pub reorg_transfers :
      All
        (λ (t : TransferRow). (t.block_number ≢ mb.block.number) ⊎ IsListed lib mb t)
        db'.token_transfers
  unfolding written undo_block
  reorg_transfers =
      let fresh : stored_hash mb.block.number db.blocks ≢ some mb.block.hash =
        λ p. differs (let q : some other ≡ some mb.block.hash = cc in cc) in
      let ts = map (transfer_row lib mb.block.number) mb.token_transfers in
      rw ((wrote lib now mb db done fresh).1, was)
        (All-insert_transfers _ ts (remove_transfers mb.block.number db.token_transfers)
          (All-listed _ ts (λ t m. inr m))
          (All-mono _ _ (remove_transfers mb.block.number db.token_transfers) (λ t p. inl p)
            (All-remove_transfers mb.block.number db.token_transfers)))
