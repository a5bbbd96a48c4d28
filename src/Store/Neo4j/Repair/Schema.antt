-- ===== src/Store/Neo4j/Repair/Schema.antt =====
-- store/neo4j.go: ensureSchema, which repairs one address after the other until the constraint holds.
use Prim.Native.Char.{code}
use forensic_listener.Prelude.{
  eq_iff, All, ℕ, zero, suc, ◌+◌, ◌≤◌, ◌<◌, String, ◌≡◌, refl, sym, ◌∙◌, Bool, false, Option, none,
  some, List, [], ◌∷◌, arith, str_eq, ◌==◌, if◌then◌else◌, length, Bool-cases, Option-cases, inl,
  inr,
}
use forensic_listener.Store.Address.{AddressLib, normalize_address}
use forensic_listener.Store.Neo4j.Repair.{
  IdNode, IdGraph, ids_of, sort_ids, merge_sorted, repair_account_group, repair_address,
}
use forensic_listener.Store.Neo4j.Repair.Flows.{IsGroup}
use forensic_listener.Store.Neo4j.Repair.Groups.{
  IsNodupIds, in-sort, sort-IsNodupIds, length-sort, repaired-flow, repaired-lt,
}
use forensic_listener.Store.Neo4j.Repair.Queries.{
  IsCanonical, IsSound, ids_of-IsNodupIds, ids_of-IsGroup,
}
use forensic_listener.Store.Neo4j.Repair.Rounds.{repaired-IsSound}
use forensic_listener.Store.Neo4j.Repair.Termination.{SameFlows}

-- What follows the prefix, if the text starts with it.
unfoldable pub strip_prefix : String → String → Option String
strip_prefix String.[] s = some s
strip_prefix (String.◌∷◌ c p) String.[] = none
strip_prefix (String.◌∷◌ c p) (String.◌∷◌ d s) =
    let rest = strip_prefix p s in if code c == code d then rest else none

-- strings.Index(message, marker), and what follows the marker
unfoldable pub after_marker : String → String → Option String
after_marker marker String.[] = strip_prefix marker ""
after_marker marker (String.◌∷◌ c s) =
    let later = after_marker marker s in
    elim (strip_prefix marker (String.◌∷◌ c s)) [ some rest ↦ some rest | none ↦ later ]

-- What stands before the first quote.
unfoldable pub until_quote : String → Option String
until_quote String.[] = none
until_quote (String.◌∷◌ c s) =
    let rest = until_quote s in
    if code c == 39 then some "" else elim rest [ none ↦ none | some t ↦ some (String.◌∷◌ c t) ]

abbrev pub marker : String
marker = "property `address` = '"

abbrev pub found_address : AddressLib → Option String → Option String
found_address lib none = none
found_address lib (some s) = elim (until_quote s) [
  | none ↦ none
  | some a ↦ if str_eq (normalize_address lib a) "" then none else some (normalize_address lib a)
]

-- duplicateAccountAddress, of the error's text
unfoldable pub duplicate_account_address : AddressLib → String → Option String
duplicate_account_address lib message = found_address lib (after_marker marker message)

pub data SchemaResult : Type 0 where
  enforced : IdGraph → SchemaResult
  refused : IdGraph → SchemaResult
  unfinished : SchemaResult

-- `refusal` is the error of CREATE CONSTRAINT, which is created where there is none; `fails n` says
-- that the context has ended, or the repair fails, after n repairs.
module _ (lib : AddressLib) (refusal : List IdNode → Option String) (fails : ℕ → Bool) where
  abbrev after_repair : (IdGraph → SchemaResult) → IdGraph → IdGraph × ℕ → SchemaResult
  after_repair again g (h, deleted) = if deleted == 0 then refused g else again h

  abbrev after_refusal : (IdGraph → SchemaResult) → IdGraph → Option String → SchemaResult
  after_refusal again g none = refused g
  after_refusal again g (some address) = after_repair again g (repair_address lib address g)

  abbrev after_constraint : (IdGraph → SchemaResult) → IdGraph → Option String → SchemaResult
  after_constraint again g none = enforced g
  after_constraint again g (some message) =
      after_refusal again g (duplicate_account_address lib message)

  -- ensureSchema
  unfoldable pub ensure_schema : ℕ → ℕ → IdGraph → SchemaResult
  ensure_schema zero n g = unfinished
  ensure_schema (suc fuel) n g =
      if fails n
      then refused g
      else after_constraint (ensure_schema fuel (n + 1)) g (refusal g.nodes)

-- The constraint is refused exactly for an address that two nodes have, which the error names: so it is
-- of addresses without a quote, as all hexadecimal ones are.
pub record NamesDuplicates (lib : AddressLib) (refusal : List IdNode → Option String) : Type 0 where
  pub created :
      (nodes : List IdNode)
      → IsSound lib nodes
      → refusal nodes ≡ none
      → (a : String) → length (ids_of a nodes) ≤ 1
  pub named :
      (nodes : List IdNode) (message : String)
      → IsSound lib nodes
      → refusal nodes ≡ some message
      → (a : String) × (duplicate_account_address lib message ≡ some a)
        × (1 < length (ids_of a nodes))

pub record Enforced (g : IdGraph) (r : SchemaResult) : Type 0 where
  pub graph : IdGraph
  pub result : r ≡ enforced graph
  pub flows : SameFlows g graph
  pub one_each : (a : String) → length (ids_of a graph.nodes) ≤ 1

ids_of-IsCanonical :
    (lib : AddressLib) (a : String) (ns : List IdNode)
    → All (λ (n : IdNode). IsCanonical lib n.address) ns
    → 0 < length (ids_of a ns)
    → IsCanonical lib a
unfolding ids_of
ids_of-IsCanonical lib a [] s n = absurd (omega arith)
ids_of-IsCanonical lib a (x ∷ xs) s n = elim (Bool-cases (str_eq x.address a)) [
  | inl same ↦ let q : x.address ≡ a = (eq_iff x.address a).0 same in rw q at (s.0)
  | inr other ↦ ids_of-IsCanonical lib a xs s.1 (rw other at n)
]

merge_sorted-deletes :
    (a : String) (ids : List ℕ) (g : IdGraph)
    → 1 < length ids
    → ((merge_sorted a ids g).1 == 0) ≡ false
merge_sorted-deletes a [] g n = absurd (omega arith)
merge_sorted-deletes a (i ∷ []) g n = absurd (omega arith)
merge_sorted-deletes a (i ∷ d ∷ ds) g n = ground arith

-- What repairDuplicateAccountAddress does for an address of several nodes.
module _ (lib : AddressLib) (a : String) (g : IdGraph) (s : IsSound lib g.nodes)
    (several : 1 < length (ids_of a g.nodes)) where
  named : IsCanonical lib a
  named = ids_of-IsCanonical lib a g.nodes s.canonical (omega arith)

  ids : List ℕ
  ids = sort_ids (ids_of a g.nodes)

  same_call : repair_address lib a g ≡ repair_account_group lib a ids g
  unfolding repair_address ids
  same_call = rw (named.0) refl

  many : 1 < length ids
  unfolding ids
  many = omega (arith, length-sort (ids_of a g.nodes))

  members : IsGroup a ids g.nodes
  unfolding ids
  members i h = ids_of-IsGroup a g.nodes s.unique i (sym (in-sort i (ids_of a g.nodes)) ∙ h)

  once : IsNodupIds ids
  unfolding ids
  once = sort-IsNodupIds (ids_of a g.nodes) (ids_of-IsNodupIds a g.nodes s.unique)

  address-deletes : ((repair_address lib a g).1 == 0) ≡ false
  unfolding repair_account_group
  address-deletes =
      rw (same_call, named.0, named.1)
        (merge_sorted-deletes a (sort_ids ids) g (omega (arith, many, length-sort ids)))

  address-flows : SameFlows g (repair_address lib a g).0
  address-flows k x y = rw same_call (repaired-flow lib a ids g named.0 members k x y once)

  address-IsSound : IsSound lib (repair_address lib a g).0.nodes
  address-IsSound = rw same_call (repaired-IsSound lib a ids g named s)

  address-lt : length (repair_address lib a g).0.nodes < length g.nodes
  address-lt = rw same_call (repaired-lt lib a ids g named.0 members named.1 many)

module _ (lib : AddressLib) (refusal : List IdNode → Option String)
    (honest : NamesDuplicates lib refusal) where
  schema_lem :
      (fuel n : ℕ) (g : IdGraph)
      → IsSound lib g.nodes
      → length g.nodes < fuel
      → Enforced g (ensure_schema lib refusal (λ _. false) fuel n g)
  unfolding ensure_schema
  schema_lem zero n g s h = absurd (omega arith)
  schema_lem (suc fuel) n g s h = elim (Option-cases (refusal g.nodes)) [
    | inl e ↦ rw e (record {
      graph = g;
      result = refl;
      flows = λ k x y. refl;
      one_each = honest.created g.nodes s e;
    })
    | inr (message, e) ↦
        let (a, f, several) = honest.named g.nodes message s e in
        let next = (repair_address lib a g).0 in
        let ih =
          schema_lem fuel (n + 1) next (address-IsSound lib a g s several)
            (let less = address-lt lib a g s several in omega arith) in
        rw (e, f, address-deletes lib a g s several)
          (record {
            graph = ih.graph;
            result = ih.result;
            flows = λ k x y. ih.flows k x y ∙ address-flows lib a g s several k x y;
            one_each = ih.one_each;
          })
  ]

  -- If Neo4j refuses the constraint only for an address that two nodes have, and names it, then a start
  -- in which no call fails ends, within one round for each node and one more, with the constraint
  -- enforced: all flows between addresses are kept, and each address has one node at most.
  pub ensure_schema-enforces :
      (g : IdGraph)
      → IsSound lib g.nodes
      → Enforced g (ensure_schema lib refusal (λ _. false) (length g.nodes + 1) 0 g)
  ensure_schema-enforces g s = schema_lem (length g.nodes + 1) 0 g s (omega arith)
