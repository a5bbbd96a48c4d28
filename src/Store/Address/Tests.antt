-- ===== src/Store/Address/Tests.antt =====
-- store/address.go: tests of the canonical form, and its law at one address.
use forensic_listener.Prelude.{◌≡◌, refl}
use forensic_listener.Store.Address.{trim_right, trim_left, normalize_address, trim_space, is_space}
use forensic_listener.Store.Address.Canonical.{normalize_idem}
use forensic_listener.Store.Fixtures.{lib}

trim_space_1 :
    trim_space " 0xaaaaaaaaaaaaaaaaaaaaaaaaaaaaaaaaaaaaaaaa "
    ≡ "0xaaaaaaaaaaaaaaaaaaaaaaaaaaaaaaaaaaaaaaaa"
unfolding trim_space trim_left trim_right is_space
trim_space_1 = refl

normalize_spelling :
    normalize_address lib " 0xaaaaaaaaaaaaaaaaaaaaaaaaaaaaaaaaaaaaaaaa"
    ≡ "0xAAAAAAAAAAAAAAAAAAAAAAAAAAAAAAAAAAAAAAAA"
unfolding normalize_address trim_space trim_left trim_right is_space
normalize_spelling = refl

normalize_name : normalize_address lib "pool 1 " ≡ "pool 1"
unfolding normalize_address trim_space trim_left trim_right is_space
normalize_name = refl

normalize_idem_applied :
    normalize_address lib (normalize_address lib " 0xaaaaaaaaaaaaaaaaaaaaaaaaaaaaaaaaaaaaaaaa")
    ≡ normalize_address lib " 0xaaaaaaaaaaaaaaaaaaaaaaaaaaaaaaaaaaaaaaaa"
normalize_idem_applied = normalize_idem lib " 0xaaaaaaaaaaaaaaaaaaaaaaaaaaaaaaaaaaaaaaaa"
