-- ===== src/Store/Address.antt =====
-- store/address.go: the canonical form under which every store keeps an address.
pub mod Canonical
mod Tests
use Prim.Native.Char.{Char, code}
use forensic_listener.Prelude.{
  String, ◌≡◌, Bool, true, false, ◌&&◌, ◌||◌, leb, ◌==◌, str_eq, if◌then◌else◌,
}

-- unicode.IsSpace, by which strings.TrimSpace cuts.
unfoldable pub is_space : Char → Bool
is_space ch =
    let c = code ch in
    (leb 9 c && leb c 13)
    || c == 32
    || c == 0x85
    || c == 0xa0
    || c == 0x1680
    || (leb 0x2000 c && leb c 0x200a)
    || c == 0x2028
    || c == 0x2029
    || c == 0x202f
    || c == 0x205f
    || c == 0x3000

unfoldable pub trim_left : String → String
trim_left String.[] = ""
trim_left (String.◌∷◌ c s) = let rest = trim_left s in if is_space c then rest else String.◌∷◌ c s

abbrev put_back : Char → String → String
put_back c String.[] = if is_space c then "" else String.◌∷◌ c ""
put_back c (String.◌∷◌ d s) = String.◌∷◌ c (String.◌∷◌ d s)

unfoldable pub trim_right : String → String
unfolding is_space
trim_right String.[] = ""
trim_right (String.◌∷◌ c s) = put_back c (trim_right s)

-- strings.TrimSpace
unfoldable pub trim_space : String → String
unfolding trim_left trim_right
trim_space s = trim_right (trim_left s)

abbrev pub NoSpace : String → Type 0
NoSpace String.[] = Unit
NoSpace (String.◌∷◌ c s) = (is_space c ≡ false) × NoSpace s

-- What the code relies on of go-ethereum's `common`: `checksum s` is `HexToAddress(s).Hex()`, the
-- EIP-55 spelling, which is itself a hex address, is its own spelling, and has no white space.
pub record AddressLib : Type 0 where
  pub is_hex_address : String → Bool
  pub checksum : String → String
  pub empty_not_hex : is_hex_address "" ≡ false
  pub checksum_is_hex : (s : String) → is_hex_address (checksum s) ≡ true
  pub checksum_fixed : (s : String) → checksum (checksum s) ≡ checksum s
  pub hex-NoSpace : (s : String) → is_hex_address s ≡ true → NoSpace s

module _ (lib : AddressLib) where
  open lib use {is_hex_address, checksum}

  -- NormalizeAddress
  unfoldable pub normalize_address : String → String
  normalize_address address =
      let cleaned = trim_space address in
      if str_eq cleaned "" then "" else if is_hex_address cleaned then checksum cleaned else cleaned
