-- ===== src/Store/Vector/Reembed.antt =====
-- store/vector.go and ingestion/maintenance.go: re-embedding embeds what lacks an embedding, in order.
use forensic_listener.Prelude.{
  ℕ, zero, suc, ◌+◌, ◌*◌, ◌≤◌, String, ◌≡◌, refl, sym, ap, ◌∙◌, Bool, true, false, List, [], ◌∷◌,
  ◌++◌, map, arith, str_eq, eq_iff, eq_refl, ltb, any, keep, take, drop, length, length-take, All,
  Bool-cases, inl, inr,
}
use native.Mathlib.Nat.{suc-mul}
use forensic_listener.Store.Address.{AddressLib, normalize_address}
use forensic_listener.Store.Vector.{
  ContractRow, Reembedded, code_of, is_nonempty, is_missing, put_code, with_code, upsert_contract,
  reembed_each, reembed_missing, reembed_batches,
}

abbrev pub addresses : List ContractRow → List String
addresses = map (λ (r : ContractRow). r.address)

abbrev pub flags : List ContractRow → List Bool
flags = map (λ (r : ContractRow). r.flagged)

-- No address twice, as the primary key has it.
abbrev pub AreDistinct : List String → Type 0
AreDistinct [] = Unit
AreDistinct (a ∷ more) = (any (str_eq a) more ≡ false) × AreDistinct more

module _ (lib : AddressLib) where
  abbrev pub IsCanonical : String → Type 0
  IsCanonical a = (normalize_address lib a ≡ a) × (str_eq a "" ≡ false)

  abbrev pub IsTable : List String → Type 0
  IsTable names = AreDistinct names × All IsCanonical names

str_eq-flip : (a b : String) → str_eq a b ≡ false → str_eq b a ≡ false
str_eq-flip a b h = elim (Bool-cases (str_eq b a)) [
  | inr e ↦ e
  | inl e ↦ let back : str_eq a b ≡ true = (eq_iff a b).1 (sym ((eq_iff b a).0 e)) in cc
]

kept_holds :
    (rows rest : List ContractRow) (p : ContractRow)
    → keep is_missing rows ≡ p ∷ rest
    → is_missing p ≡ true
kept_holds [] rest p h = cc
kept_holds (r ∷ rs) rest p h = elim (Bool-cases (is_missing r)) [
  | inl e ↦
      let g : r ∷ keep is_missing rs ≡ p ∷ rest = rw e at h in
      let same : r ≡ p = cc in rw (← same) e
  | inr e ↦ kept_holds rs rest p (rw e at h)
]

kept_listed :
    (rows rest : List ContractRow) (p : ContractRow)
    → keep is_missing rows ≡ p ∷ rest
    → any (str_eq p.address) (addresses rows) ≡ true
kept_listed [] rest p h = cc
kept_listed (r ∷ rs) rest p h = elim (Bool-cases (is_missing r)) [
  | inl e ↦
      let g : r ∷ keep is_missing rs ≡ p ∷ rest = rw e at h in
      let same : r ≡ p = cc in let here = eq_refl p.address in rw same (ground arith)
  | inr e ↦ let there = kept_listed rs rest p (rw e at h) in ground arith
]

kept_All :
    (P : String → Type 0) (rows rest : List ContractRow) (p : ContractRow)
    → All P (addresses rows)
    → keep is_missing rows ≡ p ∷ rest
    → P p.address
kept_All P [] rest p a h = absurd cc
kept_All P (r ∷ rs) rest p a h = elim (Bool-cases (is_missing r)) [
  | inl e ↦
      let g : r ∷ keep is_missing rs ≡ p ∷ rest = rw e at h in
      let same : r ≡ p = cc in rw (← same) a.0
  | inr e ↦ kept_All P rs rest p a.1 (rw e at h)
]

module _ (keccak : List ℕ → String) (now : ℕ) (code : List ℕ) where
  -- An update changes no column that it does not set.
  put-column :
      {B : Type 0} (f : ContractRow → B) (a : String) (rows : List ContractRow)
      → ((r : ContractRow) → f (with_code keccak now code r) ≡ f r)
      → any (str_eq a) (addresses rows) ≡ true
      → map f (put_code keccak now a code rows) ≡ map f rows
  unfolding put_code
  put-column f a [] same h = cc
  put-column f a (r ∷ rs) same h = elim (Bool-cases (str_eq r.address a)) [
    | inl e ↦ rw e (ap (λ b. b ∷ map f rs) (same r))
    | inr e ↦
        let there : any (str_eq a) (addresses rs) ≡ true =
          let apart = str_eq-flip r.address a e in ground arith in
        rw e (ap (λ l. f r ∷ l) (put-column f a rs same there))
  ]

  -- The first that lacks its embedding gets it, and the others stay as they are.
  put-missing :
      (rows rest : List ContractRow) (p : ContractRow)
      → AreDistinct (addresses rows)
      → keep is_missing rows ≡ p ∷ rest
      → keep is_missing (put_code keccak now p.address code rows) ≡ rest
  unfolding put_code
  put-missing [] rest p d h = cc
  put-missing (r ∷ rs) rest p d h = elim (Bool-cases (is_missing r)) [
    | inl e ↦
        let g : r ∷ keep is_missing rs ≡ p ∷ rest = rw e at h in
        let same : r ≡ p = cc in
        let tail : keep is_missing rs ≡ rest = cc in rw (← same, eq_refl r.address) tail
    | inr e ↦
        let g : keep is_missing rs ≡ p ∷ rest = rw e at h in
        let other : str_eq r.address p.address ≡ false =
          let listed = kept_listed rs rest p g in
          elim (Bool-cases (str_eq r.address p.address)) [
            | inr apart ↦ apart
            | inl same ↦
                let clash : any (str_eq p.address) (addresses rs) ≡ false =
                  rw ((eq_iff r.address p.address).0 same) at d.0 in
                cc
          ] in
        rw (other, e) (put-missing rs rest p d.1 g)
  ]

-- The table after the upserts of a batch, none of which fails.
pub record Clears (before : List ContractRow) (n : ℕ) (missing : List ContractRow) (r : Reembedded)
    : Type 0 where
  pub succeeds : r.ok ≡ true
  pub counts : r.number ≡ n
  pub missing_left : keep is_missing r.rows ≡ missing
  pub same_contracts : addresses r.rows ≡ addresses before
  pub same_flags : flags r.rows ≡ flags before

module _ (lib : AddressLib) (keccak : List ℕ → String) (now : ℕ) where
  upsert-eq :
      (rows rest : List ContractRow) (p : ContractRow)
      → IsTable lib (addresses rows)
      → keep is_missing rows ≡ p ∷ rest
      → upsert_contract lib keccak now p.address (code_of p.bytecode) rows
        ≡ put_code keccak now p.address (code_of p.bytecode) rows
  unfolding upsert_contract
  upsert-eq rows rest p t h =
      let missing = kept_holds rows rest p h in
      let canonical = kept_All (IsCanonical lib) rows rest p t.1 h in
      let full : is_nonempty (code_of p.bytecode) ≡ true = ground arith in
      rw (canonical.0, canonical.1, full) refl

  each-Clears :
      (n : ℕ) (todo others rows : List ContractRow)
      → IsTable lib (addresses rows)
      → keep is_missing rows ≡ todo ++ others
      → Clears rows n others (reembed_each lib keccak now (λ _. false) n todo rows)
  unfolding reembed_each
  each-Clears n [] others rows t h = record {
    succeeds = refl;
    counts = refl;
    missing_left = h;
    same_contracts = refl;
    same_flags = refl;
  }
  each-Clears n (p ∷ more) others rows t h =
      let code = code_of p.bytecode in
      let listed = kept_listed rows (more ++ others) p h in
      let next = put_code keccak now p.address code rows in
      let names : addresses next ≡ addresses rows =
        put-column keccak now code (λ (r : ContractRow). r.address) p.address rows (λ r. refl)
          listed in
      let marks : flags next ≡ flags rows =
        put-column keccak now code (λ (r : ContractRow). r.flagged) p.address rows (λ r. refl)
          listed in
      let left = put-missing keccak now code rows (more ++ others) p t.0 h in
      let ih = each-Clears n more others next (rw names t) left in
      rw (upsert-eq rows (more ++ others) p t h) (record {
        succeeds = ih.succeeds;
        counts = ih.counts;
        missing_left = ih.missing_left;
        same_contracts = ih.same_contracts ∙ names;
        same_flags = ih.same_flags ∙ marks;
      })

take-drop : (n : ℕ) (xs : List ContractRow) → take n xs ++ drop n xs ≡ xs
take-drop zero xs = refl
take-drop (suc n) [] = refl
take-drop (suc n) (x ∷ xs) = ap (λ l. x ∷ l) (take-drop n xs)

drop-all : (n : ℕ) (xs : List ContractRow) → length xs ≤ n → drop n xs ≡ []
drop-all zero [] h = refl
drop-all zero (x ∷ xs) h = absurd (omega arith)
drop-all (suc n) [] h = refl
drop-all (suc n) (x ∷ xs) h = drop-all n xs (omega arith)

drop_none : (n : ℕ) → drop {A = ContractRow} n [] ≡ []
drop_none zero = refl
drop_none (suc n) = refl

drop-drop : (n m : ℕ) (xs : List ContractRow) → drop m (drop n xs) ≡ drop (n + m) xs
drop-drop zero m xs = let e : 0 + m ≡ m = omega arith in ap (λ k. drop k xs) (sym e)
drop-drop (suc n) m [] = drop_none m ∙ sym (drop_none (suc n + m))
drop-drop (suc n) m (x ∷ xs) =
    let e : suc n + m ≡ suc (n + m) = omega arith in
    drop-drop n m xs ∙ sym (ap (λ k. drop k (x ∷ xs)) e)

-- The rounds of the loop, where no upsert fails.
pub record Cleared (before : List ContractRow) (n : ℕ) (after : List ContractRow) : Type 0 where
  pub missing_after : keep is_missing after ≡ drop n (keep is_missing before)
  pub contracts_after : addresses after ≡ addresses before
  pub flags_after : flags after ≡ flags before

module _ (lib : AddressLib) (keccak : List ℕ → String) (now : ℕ) where
  missing-Clears :
      (batch : ℕ) (rows : List ContractRow)
      → IsTable lib (addresses rows)
      → Clears rows
          (length (take batch (keep is_missing rows)))
          (drop batch (keep is_missing rows))
          (reembed_missing lib keccak now (λ _. false) batch rows)
  unfolding reembed_missing
  missing-Clears batch rows t =
      let missing = keep is_missing rows in
      each-Clears lib keccak now (length (take batch missing)) (take batch missing)
        (drop batch missing) rows t (sym (take-drop batch missing))

  -- Where no upsert fails, n batches embed the first n batches of the contracts that have code and lack
  -- an embedding, in the order of the table, and no others; no contract is lost or added, and none
  -- changes its flag.
  pub batches-Cleared :
      (left batch : ℕ) (rows : List ContractRow)
      → IsTable lib (addresses rows)
      → Cleared rows (left * batch) (reembed_batches lib keccak now left (λ _. false) batch rows)
  unfolding reembed_batches
  batches-Cleared zero batch rows t =
      let e : zero * batch ≡ 0 = omega arith in
      record { missing_after = rw e refl; contracts_after = refl; flags_after = refl }
  batches-Cleared (suc left) batch rows t =
      let missing = keep is_missing rows in
      let r = reembed_missing lib keccak now (λ _. false) batch rows in
      let done = missing-Clears batch rows t in
      let e : suc left * batch ≡ batch + left * batch = suc-mul left batch ∙ omega arith in
      elim (Bool-cases (ltb r.number batch)) [
        | inl short ↦
            let few : length missing ≤ batch =
              let counted = done.counts in
              let shorter = length-take batch missing in ground arith in
            rw (done.succeeds, short)
              (record {
                missing_after =
                    done.missing_left
                    ∙ drop-all batch missing few
                    ∙ sym (drop-all (suc left * batch) missing (rw e (omega arith)));
                contracts_after = done.same_contracts;
                flags_after = done.same_flags;
              })
        | inr full ↦
            let ih = batches-Cleared left batch r.rows (rw done.same_contracts t) in
            rw (done.succeeds, full)
              (record {
                missing_after =
                    ih.missing_after
                    ∙ ap (λ l. drop (left * batch) l) done.missing_left
                    ∙ drop-drop batch (left * batch) missing
                    ∙ ap (λ k. drop k missing) (sym e);
                contracts_after = ih.contracts_after ∙ done.same_contracts;
                flags_after = ih.flags_after ∙ done.same_flags;
              })
      ]
