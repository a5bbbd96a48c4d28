-- ===== src/Api/Handlers/Guards.antt =====
-- api/server.go: only canonical addresses and valid labels reach the stores.
use forensic_listener.Prelude.{
  ℕ, ◌≤◌, String, ◌≡◌, refl, sym, Bool, true, false, Option, none, some, arith, str_eq,
  if◌then◌else◌, Bool-cases, Option-cases, inl, inr, ◌⊎◌,
}
use forensic_listener.Store.Address.{AddressLib, normalize_address, trim_space}
use forensic_listener.Store.Address.Canonical.{normalize_idem}
use forensic_listener.Api.Params.{parse_int_param}
use forensic_listener.Api.Params.Range.{param_range}
use forensic_listener.Api.Handlers.{
  Loaded, Label, KnownEntity, is_valid_label, require_address, handle_address, handle_trace,
  handle_label,
}

module _ (lib : AddressLib) where
  require_address-canonical :
      (value a : String)
      → require_address lib value ≡ some a
      → (normalize_address lib a ≡ a) × (a ≡ normalize_address lib value)
  unfolding require_address
  require_address-canonical value a e = elim (Bool-cases (lib.is_hex_address (trim_space value))) [
    | inr out ↦ cc (rw out at e)
    | inl ok ↦
        let q : normalize_address lib value ≡ a = let g = rw ok at e in cc in
        (rw (← q) (normalize_idem lib value), sym q)
  ]

  module _ {A : Type 0} where
    -- An account, its behaviour or a contract is looked up under its canonical address only: two stores
    -- that agree on those addresses answer every request alike.
    pub handle_address-canonical :
        (value : String) (load load' : String → Loaded A)
        → ((a : String) → normalize_address lib a ≡ a → load a ≡ load' a)
        → handle_address lib value load ≡ handle_address lib value load'
    unfolding handle_address
    handle_address-canonical value load load' same =
        elim (Option-cases (require_address lib value)) [
          | inl e ↦ rw e refl
          | inr (a, e) ↦ rw (e, same a (require_address-canonical value a e).0) refl
        ]

    -- A trace is asked for between two different canonical addresses, over 1 to 6 hops, and only while
    -- the graph is connected: two graphs that agree there answer every request alike.
    pub handle_trace-canonical :
        (connected : Bool) (value to_value depth : String)
        (load load' : String → String → ℕ → Loaded (Option A))
        → ((a b : String) (n : ℕ)
            → connected ≡ true
            → normalize_address lib a ≡ a
            → normalize_address lib b ≡ b
            → str_eq a b ≡ false
            → 1 ≤ n
            → n ≤ 6
            → load a b n ≡ load' a b n)
        → handle_trace lib connected value to_value depth load
          ≡ handle_trace lib connected value to_value depth load'
    unfolding handle_trace
    handle_trace-canonical connected value to_value depth load load' same =
        elim (Option-cases (require_address lib value)) [
          | inl e ↦ rw e refl
          | inr (a, e) ↦ elim (Bool-cases connected) [
            | inr off ↦ rw (e, off) refl
            | inl on ↦ elim (Option-cases (require_address lib to_value)) [
              | inl f ↦ rw (e, on, f) refl
              | inr (b, f) ↦ elim (Bool-cases (str_eq a b)) [
                | inl q ↦ rw (e, on, f, q) refl
                | inr q ↦
                    let r = param_range depth 4 1 6 (omega arith) (omega arith) in
                    let s =
                      same a b (parse_int_param depth 4 1 6) on
                        (require_address-canonical value a e).0
                        (require_address-canonical to_value b f).0 q r.0 r.1 in
                    rw (e, on, f, q, s) refl
              ]
            ]
          ]
        ]

  -- A label is written exactly if it is answered with 200 or 500, and then it is valid and stands under
  -- the canonical address of the request; every other request is answered with 400 and writes nothing.
  pub handle_label-valid :
      (value : String) (body : Option Label) (writes : Bool)
      → (handle_label lib value body writes ≡ (none, 400))
        ⊎ (entity : KnownEntity) × (handle_label lib value body writes
            ≡ (some entity, if writes then 200 else 500))
          × (is_valid_label entity.label ≡ true)
          × (entity.address ≡ normalize_address lib value)
          × (normalize_address lib entity.address ≡ entity.address)
  unfolding handle_label
  handle_label-valid value none writes = elim (Option-cases (require_address lib value)) [
    | inl e ↦ inl (rw e refl)
    | inr (a, e) ↦ inl (rw e refl)
  ]
  handle_label-valid value (some body) writes = elim (Option-cases (require_address lib value)) [
    | inl e ↦ inl (rw e refl)
    | inr (a, e) ↦
        let trimmed : Label = record body { name = trim_space body.name } in
        let (fixed, same) = require_address-canonical value a e in
        elim (Bool-cases (is_valid_label trimmed)) [
          | inr out ↦ inl (rw (e, out) refl)
          | inl ok ↦ inr (
            record { address = a; label = trimmed },
            elim (Bool-cases writes) [ inl w ↦ rw (e, ok, w) refl | inr w ↦ rw (e, ok, w) refl ],
            ok,
            same,
            fixed,
          )
        ]
  ]
