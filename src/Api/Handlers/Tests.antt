-- ===== src/Api/Handlers/Tests.antt =====
-- api/server.go: tests of the guards, and their laws at a few requests.
use forensic_listener.Prelude.{
  ℕ, ◌≡◌, ◌⊎◌, refl, ◌≢◌, String, true, false, Option, some, none, str_eq, eq_iff, sym, ap, ◌∙◌,
  Bool-cases, inl, inr, if◌then◌else◌,
}
use forensic_listener.Store.Fixtures.{lib}
use forensic_listener.Store.Address.{normalize_address, trim_space, trim_left, trim_right, is_space}
use forensic_listener.Api.Handlers.{
  Loaded, loaded, error, not_found, Label, KnownEntity, is_valid_label, byte_length, is_tx_hash,
  hex_digits, is_hex_digit, handle_address, handle_trace, handle_label, require_address, json,
  store_answer,
}
use forensic_listener.Api.Handlers.Guards.{
  handle_address-canonical, handle_trace-canonical, handle_label-valid,
}

abbrev label : Label
label = record { name = " Mixer "; entity_type = "mixer"; risk_level = "high"; is_hub = false }

-- Two stores that differ on addresses that are not canonical.
abbrev accounts : String → Loaded ℕ
accounts a =
    if str_eq a "0xAAAAAAAAAAAAAAAAAAAAAAAAAAAAAAAAAAAAAAAA" then loaded 7 else error not_found

abbrev loose : String → Loaded ℕ
loose a = if str_eq a "0xaaaaaaaaaaaaaaaaaaaaaaaaaaaaaaaaaaaaaaaa" then loaded 9 else accounts a

abbrev paths : String → String → ℕ → Loaded (Option ℕ)
paths a b n = loaded (some n)

short_hash : is_tx_hash "0x12" ≡ false
unfolding is_tx_hash hex_digits is_hex_digit
short_hash = refl

answers_account : handle_address lib " 0xaaaaaaaaaaaaaaaaaaaaaaaaaaaaaaaaaaaaaaaa" accounts ≡ json 7
unfolding handle_address require_address store_answer normalize_address trim_space trim_left
    trim_right is_space
answers_account = refl

refuses_name :
    handle_label lib "0xaaaaaaaaaaaaaaaaaaaaaaaaaaaaaaaaaaaaaaaa"
      (some (record label { name = "  " }))
      true
    ≡ (none, 400)
unfolding handle_label require_address is_valid_label byte_length normalize_address trim_space
    trim_left trim_right is_space
refuses_name = refl

same_text : (s t : String) → str_eq s t ≡ false → s ≢ t
same_text s t d e = let q = (eq_iff s t).1 e in cc

spelled :
    normalize_address lib "0xaaaaaaaaaaaaaaaaaaaaaaaaaaaaaaaaaaaaaaaa"
    ≡ "0xAAAAAAAAAAAAAAAAAAAAAAAAAAAAAAAAAAAAAAAA"
unfolding normalize_address trim_space trim_left trim_right is_space
spelled = refl

agree : (a : String) → normalize_address lib a ≡ a → accounts a ≡ loose a
agree a h = elim (Bool-cases (str_eq a "0xaaaaaaaaaaaaaaaaaaaaaaaaaaaaaaaaaaaaaaaa")) [
  | inr other ↦ rw other refl
  | inl same ↦
      let q : a ≡ "0xaaaaaaaaaaaaaaaaaaaaaaaaaaaaaaaaaaaaaaaa" =
        (eq_iff a "0xaaaaaaaaaaaaaaaaaaaaaaaaaaaaaaaaaaaaaaaa").0 same in
      let n : lib.checksum "0xAAAAAAAAAAAAAAAAAAAAAAAAAAAAAAAAAAAAAAAA"
          ≡ "0xaaaaaaaaaaaaaaaaaaaaaaaaaaaaaaaaaaaaaaaa" =
        sym spelled ∙ ap (normalize_address lib) (sym q) ∙ h ∙ q in
      absurd (
        same_text "0xAAAAAAAAAAAAAAAAAAAAAAAAAAAAAAAAAAAAAAAA"
          "0xaaaaaaaaaaaaaaaaaaaaaaaaaaaaaaaaaaaaaaaa" refl n)
]

handle_address-canonical_applied :
    handle_address lib "0xaaaaaaaaaaaaaaaaaaaaaaaaaaaaaaaaaaaaaaaa" accounts
    ≡ handle_address lib "0xaaaaaaaaaaaaaaaaaaaaaaaaaaaaaaaaaaaaaaaa" loose
handle_address-canonical_applied =
    handle_address-canonical lib "0xaaaaaaaaaaaaaaaaaaaaaaaaaaaaaaaaaaaaaaaa" accounts loose agree

handle_trace-canonical_applied :
    handle_trace lib true "0xaaaaaaaaaaaaaaaaaaaaaaaaaaaaaaaaaaaaaaaa"
      "0xBBBBBBBBBBBBBBBBBBBBBBBBBBBBBBBBBBBBBBBB" "9" paths
    ≡ handle_trace lib true "0xaaaaaaaaaaaaaaaaaaaaaaaaaaaaaaaaaaaaaaaa"
        "0xBBBBBBBBBBBBBBBBBBBBBBBBBBBBBBBBBBBBBBBB" "9" paths
handle_trace-canonical_applied =
    handle_trace-canonical lib true "0xaaaaaaaaaaaaaaaaaaaaaaaaaaaaaaaaaaaaaaaa"
      "0xBBBBBBBBBBBBBBBBBBBBBBBBBBBBBBBBBBBBBBBB" "9" paths paths (λ a b n c p q d l h. refl)

handle_label-valid_applied :
    (handle_label lib "0xaaaaaaaaaaaaaaaaaaaaaaaaaaaaaaaaaaaaaaaa" (some label) true ≡ (none, 400))
    ⊎ (entity : KnownEntity) × (handle_label lib "0xaaaaaaaaaaaaaaaaaaaaaaaaaaaaaaaaaaaaaaaa"
          (some label)
          true
        ≡ (some entity, 200))
      × (is_valid_label entity.label ≡ true)
      × (entity.address ≡ normalize_address lib "0xaaaaaaaaaaaaaaaaaaaaaaaaaaaaaaaaaaaaaaaa")
      × (normalize_address lib entity.address ≡ entity.address)
handle_label-valid_applied =
    handle_label-valid lib "0xaaaaaaaaaaaaaaaaaaaaaaaaaaaaaaaaaaaaaaaa" (some label) true
