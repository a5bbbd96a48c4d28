-- ===== src/Store/Postgres/Flags.antt =====
-- store/postgres.go: the forensic_flags table, SaveFlag, and its unique key.
mod Tests
use forensic_listener.Prelude.{
  ℕ, String, ◌≡◌, refl, sym, ap, ◌∙◌, Bool, true, false, ◌&&◌, ◌||◌, not, List, [], ◌∷◌, ◌++◌, map,
  arith, str_eq, eq_iff, eq_refl, if◌then◌else◌, any, All, Bool-cases, inl, inr,
}
use forensic_listener.Models.{ForensicFlag}
use forensic_listener.Store.Address.{AddressLib, normalize_address}
use forensic_listener.Store.Address.Canonical.{normalize_idem}

-- The unique index on (tx_hash, address, flag_type).
abbrev pub same_key : ForensicFlag → ForensicFlag → Bool
same_key f g =
    str_eq f.tx_hash g.tx_hash && str_eq f.address g.address && str_eq f.flag_type g.flag_type

unfoldable pub has_flag : ForensicFlag → List ForensicFlag → Bool
has_flag f = any (same_key f)

-- No two rows have one key.
abbrev pub IsUnique : List ForensicFlag → Type 0
IsUnique [] = Unit
IsUnique (r ∷ rows) = (has_flag r rows ≡ false) × IsUnique rows

module _ (lib : AddressLib) where
  abbrev pub flag_row : ℕ → ForensicFlag → ForensicFlag
  flag_row now f = record f { address = normalize_address lib f.address; detected_at = now }

  -- SaveFlag: ON CONFLICT DO NOTHING
  unfoldable pub save_flag : ℕ → ForensicFlag → List ForensicFlag → List ForensicFlag
  save_flag now f rows =
      if has_flag (flag_row now f) rows then rows else rows ++ flag_row now f ∷ []

  has_flag-append :
      (f : ForensicFlag) (rows : List ForensicFlag) → has_flag f (rows ++ f ∷ []) ≡ true
  unfolding has_flag
  has_flag-append f [] = rw (eq_refl f.tx_hash, eq_refl f.address, eq_refl f.flag_type) refl
  has_flag-append f (r ∷ rows) = ground (arith, has_flag-append f rows)

  pub has_flag-grow :
      (f g : ForensicFlag) (rows : List ForensicFlag)
      → has_flag f rows ≡ true
      → has_flag f (rows ++ g ∷ []) ≡ true
  unfolding has_flag
  has_flag-grow f g [] h = absurd cc
  has_flag-grow f g (r ∷ rows) h = ground (arith, has_flag-grow f g rows)

  pub save_flag-has :
      (now : ℕ) (f : ForensicFlag) (rows : List ForensicFlag)
      → has_flag (flag_row now f) (save_flag now f rows) ≡ true
  unfolding save_flag
  save_flag-has now f rows = elim (Bool-cases (has_flag (flag_row now f) rows)) [
    | inl old ↦ rw old old
    | inr new ↦ rw new (has_flag-append (flag_row now f) rows)
  ]

  has_flag-time :
      (now later : ℕ) (f : ForensicFlag) (rows : List ForensicFlag)
      → has_flag (flag_row later f) rows ≡ has_flag (flag_row now f) rows
  unfolding has_flag
  has_flag-time now later f [] = refl
  has_flag-time now later f (r ∷ rows) =
      ap (λ b. same_key (flag_row now f) r || b) (has_flag-time now later f rows)

  -- A detector that runs again adds no flag: saving a flag again, at any later time, changes nothing,
  -- whether it was new or not.
  pub save_flag_again :
      (now later : ℕ) (f : ForensicFlag) (rows : List ForensicFlag)
      → save_flag later f (save_flag now f rows) ≡ save_flag now f rows
  unfolding save_flag
  save_flag_again now later f rows = elim (Bool-cases (has_flag (flag_row now f) rows)) [
    | inl old ↦ rw (old, has_flag-time now later f rows, old) refl
    | inr new ↦
        rw
          (
            new,
            has_flag-time now later f (rows ++ flag_row now f ∷ []),
            has_flag-append (flag_row now f) rows,
          )
          refl
  ]

  append_fresh :
      (r f : ForensicFlag) (rows : List ForensicFlag)
      → has_flag r rows ≡ false
      → same_key f r ≡ false
      → has_flag r (rows ++ f ∷ []) ≡ false
  unfolding has_flag
  append_fresh r f [] h d = ground (
    arith,
    eq_iff r.tx_hash f.tx_hash,
    eq_iff r.address f.address,
    eq_iff r.flag_type f.flag_type,
    eq_iff f.tx_hash r.tx_hash,
    eq_iff f.address r.address,
    eq_iff f.flag_type r.flag_type,
  )
  append_fresh r f (s ∷ rows) h d = ground (arith, append_fresh r f rows)

  append-IsUnique :
      (f : ForensicFlag) (rows : List ForensicFlag)
      → IsUnique rows
      → has_flag f rows ≡ false
      → IsUnique (rows ++ f ∷ [])
  unfolding has_flag
  append-IsUnique f [] u h = (refl, tt)
  append-IsUnique f (r ∷ rows) (fresh, u) h =
      (append_fresh r f rows fresh (ground arith), append-IsUnique f rows u (ground arith))

  -- The key stays unique.
  pub save_flag-IsUnique :
      (now : ℕ) (f : ForensicFlag) (rows : List ForensicFlag)
      → IsUnique rows
      → IsUnique (save_flag now f rows)
  unfolding save_flag
  save_flag-IsUnique now f rows u = elim (Bool-cases (has_flag (flag_row now f) rows)) [
    | inl old ↦ rw old u
    | inr new ↦ rw new (append-IsUnique (flag_row now f) rows u new)
  ]
