-- ===== src/Store/Address/Canonical.antt =====
-- store/address.go: normalising is idempotent, and keeps what it is given where nothing is to be done.
use Prim.Native.Char.{Char}
use forensic_listener.Prelude.{String, ◌≡◌, refl, inl, inr, false, str_eq, eq_iff, Bool-cases, ap}
use forensic_listener.Store.Address.{
  AddressLib, NoSpace, is_space, trim_left, trim_right, put_back, trim_space, normalize_address,
}

trim_left-NoSpace : (s : String) → NoSpace s → trim_left s ≡ s
unfolding trim_left
trim_left-NoSpace String.[] h = refl
trim_left-NoSpace (String.◌∷◌ c s) h = rw h.0

put_back-keeps : (c : Char) (s : String) → is_space c ≡ false → put_back c s ≡ String.◌∷◌ c s
put_back-keeps c String.[] h = rw h
put_back-keeps c (String.◌∷◌ d s) h = refl

trim_right-NoSpace : (s : String) → NoSpace s → trim_right s ≡ s
unfolding trim_right
trim_right-NoSpace String.[] h = refl
trim_right-NoSpace (String.◌∷◌ c s) h = rw (trim_right-NoSpace s h.1) (put_back-keeps c s h.0)

pub trim_space-NoSpace : (s : String) → NoSpace s → trim_space s ≡ s
unfolding trim_space
trim_space-NoSpace s h = rw (trim_left-NoSpace s h) (trim_right-NoSpace s h)

-- A text that has nothing to cut at its left end.
abbrev StartsTight : String → Type 0
StartsTight String.[] = Unit
StartsTight (String.◌∷◌ c s) = is_space c ≡ false

trim_left-StartsTight : (s : String) → StartsTight (trim_left s)
unfolding trim_left
trim_left-StartsTight String.[] = tt
trim_left-StartsTight (String.◌∷◌ c s) = elim (Bool-cases (is_space c)) [
  | inl e ↦ rw e (trim_left-StartsTight s)
  | inr e ↦ rw e e
]

StartsTight-trim_left : (s : String) → StartsTight s → trim_left s ≡ s
unfolding trim_left
StartsTight-trim_left String.[] h = refl
StartsTight-trim_left (String.◌∷◌ c s) h = rw h

trim_right-StartsTight : (s : String) → StartsTight s → StartsTight (trim_right s)
unfolding trim_right
trim_right-StartsTight String.[] h = tt
trim_right-StartsTight (String.◌∷◌ c s) h = rw (put_back-keeps c (trim_right s) h) h

put_back-put_back :
    (c : Char) (s : String) → trim_right s ≡ s → trim_right (put_back c s) ≡ put_back c s
unfolding trim_right
put_back-put_back c String.[] h = elim (Bool-cases (is_space c)) [
  | inl e ↦ rw e
  | inr e ↦ rw (e, e)
]
put_back-put_back c (String.◌∷◌ d s) h = ap (put_back c) h

trim_right_idem : (s : String) → trim_right (trim_right s) ≡ trim_right s
unfolding trim_right
trim_right_idem String.[] = refl
trim_right_idem (String.◌∷◌ c s) = put_back-put_back c (trim_right s) (trim_right_idem s)

pub trim_space_idem : (s : String) → trim_space (trim_space s) ≡ trim_space s
unfolding trim_space
trim_space_idem s =
    rw
      (StartsTight-trim_left (trim_right (trim_left s))
        (trim_right-StartsTight (trim_left s) (trim_left-StartsTight s)))
      (trim_right_idem (trim_left s))

module _ (lib : AddressLib) where
  open lib use {
    is_hex_address, checksum, checksum_is_hex, checksum_fixed, hex-NoSpace, empty_not_hex,
  }

  checksum-ne-empty : (s : String) → str_eq (checksum s) "" ≡ false
  checksum-ne-empty s = elim (Bool-cases (str_eq (checksum s) "")) [
    | inl e ↦ cc ((eq_iff (checksum s) "").0 e, checksum_is_hex s, empty_not_hex)
    | inr e ↦ e
  ]

  pub normalize-checksum : (s : String) → normalize_address lib (checksum s) ≡ checksum s
  unfolding normalize_address
  normalize-checksum s =
      rw (trim_space-NoSpace (checksum s) (hex-NoSpace _ (checksum_is_hex s)))
        (rw (checksum-ne-empty s, checksum_is_hex s) (checksum_fixed s))

  -- Normalising twice is normalising once, for addresses, for other texts and for the empty text, so
  -- a value read back from a store finds the row it was written under.
  pub normalize_idem :
      (s : String) → normalize_address lib (normalize_address lib s) ≡ normalize_address lib s
  unfolding normalize_address
  normalize_idem s = elim (Bool-cases (str_eq (trim_space s) "")) [
    | inl e ↦ rw e (unfold trim_space trim_left trim_right in refl)
    | inr e ↦ elim (Bool-cases (is_hex_address (trim_space s))) [
      | inl h ↦ rw (e, h) (normalize-checksum (trim_space s))
      | inr h ↦ rw (e, h) (rw (trim_space_idem s) (rw (e, h)))
    ]
  ]
