-- ===== src/Store/Neo4j/Repair/Groups.antt =====
-- store/neo4j.go: what one call of repairAccountGroup does, of a group that duplicateAccountGroups lists.
use forensic_listener.Prelude.{
  ℕ, ◌+◌, ◌≤◌, ◌<◌, String, ◌≡◌, refl, sym, ap, ◌∙◌, Bool, true, false, ◌&&◌, ◌||◌, not, some, List,
  [], ◌∷◌, map, arith, str_eq, ◌==◌, leb, if◌then◌else◌, any, keep, length, Bool-cases, inl, inr,
}
use forensic_listener.Store.Address.{AddressLib, normalize_address}
use forensic_listener.Store.Neo4j.{EdgeKey}
use forensic_listener.Store.Neo4j.Repair.{
  IdNode, IdGraph, is_in, absorb, detach_delete, merge_group, merge_sorted, insert_id, sort_ids,
  repair_account_group,
}
use forensic_listener.Store.Neo4j.Repair.Flows.{
  address_of, has_flow, IsGroup, merge_group-flow, merge_group-IsGroup,
}

-- No id twice.
abbrev pub IsNodupIds : List ℕ → Type 0
IsNodupIds [] = Unit
IsNodupIds (i ∷ is) = (is_in is i ≡ false) × IsNodupIds is

in-insert : (i x : ℕ) (js : List ℕ) → is_in (insert_id i js) x ≡ is_in (i ∷ js) x
unfolding insert_id
in-insert i x [] = refl
in-insert i x (j ∷ js) = elim (Bool-cases (leb i j)) [
  | inl e ↦ rw e refl
  | inr e ↦ rw (e, in-insert i x js) (ground arith)
]

pub in-sort : (x : ℕ) (is : List ℕ) → is_in (sort_ids is) x ≡ is_in is x
unfolding sort_ids
in-sort x [] = refl
in-sort x (i ∷ is) = in-insert i x (sort_ids is) ∙ ap (λ b. i == x || b) (in-sort x is)

insert-IsNodupIds :
    (i : ℕ) (js : List ℕ) → is_in js i ≡ false → IsNodupIds js → IsNodupIds (insert_id i js)
unfolding insert_id
insert-IsNodupIds i [] h u = (refl, tt)
insert-IsNodupIds i (j ∷ js) h u = elim (Bool-cases (leb i j)) [
  | inl e ↦ rw e (h, u)
  | inr e ↦ rw e (
    in-insert i j js ∙ (let fresh : is_in js j ≡ false = u.0 in ground arith),
    insert-IsNodupIds i js (ground arith) u.1,
  )
]

pub sort-IsNodupIds : (is : List ℕ) → IsNodupIds is → IsNodupIds (sort_ids is)
unfolding sort_ids
sort-IsNodupIds [] u = tt
sort-IsNodupIds (i ∷ is) u =
    insert-IsNodupIds i (sort_ids is) (in-sort i is ∙ u.0) (sort-IsNodupIds is u.1)

length-insert : (i : ℕ) (js : List ℕ) → length (insert_id i js) ≡ length js + 1
unfolding insert_id
length-insert i [] = omega arith
length-insert i (j ∷ js) = elim (Bool-cases (leb i j)) [
  | inl e ↦ rw e (omega arith)
  | inr e ↦ rw e (omega (arith, length-insert i js))
]

pub length-sort : (is : List ℕ) → length (sort_ids is) ≡ length is
unfolding sort_ids
length-sort [] = refl
length-sort (i ∷ is) = omega (arith, length-insert i (sort_ids is), length-sort is)

length-absorb :
    (survivor : ℕ) (dups : List ℕ) (a : String) (nodes : List IdNode)
    → length (absorb survivor dups a nodes) ≡ length nodes
unfolding absorb
length-absorb survivor dups a nodes =
    mapped nodes (any (λ (m : IdNode). is_in dups m.id && m.is_contract) nodes)
  where
    mapped :
        (ns : List IdNode) (c : Bool)
        → length (
            map
              (λ (n : IdNode).
                if n.id == survivor
                then record n { address = a; is_contract = n.is_contract || c }
                else n)
              ns)
          ≡ length ns
    mapped [] c = refl
    mapped (n ∷ ns) c = omega (arith, mapped ns c)

-- Each node, with its new address and flag, keeps its id.
abbrev pub with_id : ℕ → List IdNode → Bool
with_id i = any (λ (n : IdNode). n.id == i)

length-keep :
    (dups : List ℕ) (nodes : List IdNode)
    → length (keep (λ (n : IdNode). not (is_in dups n.id)) nodes) ≤ length nodes
length-keep dups [] = omega arith
length-keep dups (n ∷ ns) = ground (arith, length-keep dups ns)

keep-shorter :
    (dups : List ℕ) (d : ℕ) (nodes : List IdNode)
    → is_in dups d ≡ true
    → with_id d nodes ≡ true
    → length (keep (λ (n : IdNode). not (is_in dups n.id)) nodes) < length nodes
keep-shorter dups d [] m h = cc
keep-shorter dups d (n ∷ ns) m h = elim (Bool-cases (n.id == d)) [
  | inl same ↦
      let q : n.id ≡ d = ground arith in
      let gone : is_in dups n.id ≡ true = rw q m in rw gone (omega (arith, length-keep dups ns))
  | inr other ↦ ground (arith, keep-shorter dups d ns m)
]

with_id-absorb :
    (survivor : ℕ) (dups : List ℕ) (a : String) (d : ℕ) (nodes : List IdNode)
    → with_id d nodes ≡ true
    → with_id d (absorb survivor dups a nodes) ≡ true
unfolding absorb
with_id-absorb survivor dups a d nodes =
    mapped nodes (any (λ (m : IdNode). is_in dups m.id && m.is_contract) nodes)
  where
    mapped :
        (ns : List IdNode) (c : Bool)
        → with_id d ns ≡ true
        → with_id d (
            map
              (λ (n : IdNode).
                if n.id == survivor
                then record n { address = a; is_contract = n.is_contract || c }
                else n)
              ns)
          ≡ true
    mapped [] c h = cc
    mapped (n ∷ ns) c h = ground (arith, mapped ns c)

address-with_id :
    (i : ℕ) (a : String) (nodes : List IdNode)
    → address_of i nodes ≡ some a
    → with_id i nodes ≡ true
unfolding address_of
address-with_id i a [] h = cc
address-with_id i a (n ∷ ns) h = ground (arith, address-with_id i a ns)

module _ (survivor : ℕ) (dups : List ℕ) (a : String) (g : IdGraph) where
  merge_group-le : length (merge_group survivor dups a g).nodes ≤ length g.nodes
  unfolding merge_group detach_delete
  merge_group-le = elim (Bool-cases (with_id survivor g.nodes)) [
    | inr gone ↦ rw gone (omega arith)
    | inl here ↦ rw here (
        omega (
          arith,
          length-keep dups (absorb survivor dups a g.nodes),
          length-absorb survivor dups a g.nodes,
        ))
  ]

  merge_group-lt :
      (d : ℕ)
      → is_in dups d ≡ true
      → IsGroup a (survivor ∷ dups) g.nodes
      → length (merge_group survivor dups a g).nodes < length g.nodes
  unfolding merge_group detach_delete
  merge_group-lt d m h =
      let here = address-with_id survivor a g.nodes (h survivor (ground arith)) in
      let there = address-with_id d a g.nodes (h d (ground arith)) in
      rw here (
        omega (
          arith,
          keep-shorter dups d (absorb survivor dups a g.nodes) m
              (with_id-absorb survivor dups a d g.nodes there),
          length-absorb survivor dups a g.nodes,
        ))

module _ (a : String) (g : IdGraph) where
  sorted-flow :
      (ids : List ℕ) (k : EdgeKey) (x y : String)
      → IsNodupIds ids
      → IsGroup a ids g.nodes
      → has_flow k x y (merge_sorted a ids g).0 ≡ has_flow k x y g
  sorted-flow [] k x y u m = refl
  sorted-flow (i ∷ []) k x y u m = refl
  sorted-flow (i ∷ d ∷ ds) k x y u m = merge_group-flow i (d ∷ ds) a g u.0 m k x y

  sorted-IsGroup :
      (ids : List ℕ) (b : String) (js : List ℕ)
      → IsNodupIds ids
      → IsGroup a ids g.nodes
      → str_eq b a ≡ false
      → IsGroup b js g.nodes
      → IsGroup b js (merge_sorted a ids g).0.nodes
  sorted-IsGroup [] b js u m d h = h
  sorted-IsGroup (i ∷ []) b js u m d h = h
  sorted-IsGroup (i ∷ j ∷ ds) b js u m d h = merge_group-IsGroup i (j ∷ ds) a g u.0 m b js d h

  sorted-le : (ids : List ℕ) → length (merge_sorted a ids g).0.nodes ≤ length g.nodes
  sorted-le [] = omega arith
  sorted-le (i ∷ []) = omega arith
  sorted-le (i ∷ d ∷ ds) = merge_group-le i (d ∷ ds) a g

  sorted-lt :
      (ids : List ℕ)
      → 1 < length ids
      → IsGroup a ids g.nodes
      → length (merge_sorted a ids g).0.nodes < length g.nodes
  sorted-lt [] n m = absurd (omega arith)
  sorted-lt (i ∷ []) n m = absurd (omega arith)
  sorted-lt (i ∷ d ∷ ds) n m = merge_group-lt i (d ∷ ds) a g d (ground arith) m

module _ (lib : AddressLib) (a : String) (ids : List ℕ) (g : IdGraph)
    (canonical : normalize_address lib a ≡ a) (members : IsGroup a ids g.nodes) where
  sorted_members : IsGroup a (sort_ids ids) g.nodes
  sorted_members i h = members i (sym (in-sort i ids) ∙ h)

  pub repaired-flow :
      (k : EdgeKey) (x y : String)
      → IsNodupIds ids
      → has_flow k x y (repair_account_group lib a ids g).0 ≡ has_flow k x y g
  unfolding repair_account_group
  repaired-flow k x y u = elim (Bool-cases (str_eq a "")) [
    | inl blank ↦ rw (canonical, blank) refl
    | inr named ↦
        rw (canonical, named)
          (sorted-flow a g (sort_ids ids) k x y (sort-IsNodupIds ids u) sorted_members)
  ]

  pub repaired-IsGroup :
      (b : String) (js : List ℕ)
      → IsNodupIds ids
      → str_eq b a ≡ false
      → IsGroup b js g.nodes
      → IsGroup b js (repair_account_group lib a ids g).0.nodes
  unfolding repair_account_group
  repaired-IsGroup b js u d h = elim (Bool-cases (str_eq a "")) [
    | inl blank ↦ rw (canonical, blank) h
    | inr named ↦
        rw (canonical, named)
          (sorted-IsGroup a g (sort_ids ids) b js (sort-IsNodupIds ids u) sorted_members d h)
  ]

  pub repaired-lt :
      str_eq a "" ≡ false
      → 1 < length ids
      → length (repair_account_group lib a ids g).0.nodes < length g.nodes
  unfolding repair_account_group
  repaired-lt named n =
      rw (canonical, named)
        (sorted-lt a g (sort_ids ids) (omega (arith, length-sort ids)) sorted_members)

pub repaired-le :
    (lib : AddressLib) (a : String) (ids : List ℕ) (g : IdGraph)
    → length (repair_account_group lib a ids g).0.nodes ≤ length g.nodes
unfolding repair_account_group
repaired-le lib a ids g = elim (Bool-cases (str_eq (normalize_address lib a) "")) [
  | inl blank ↦ rw blank (omega arith)
  | inr named ↦ rw named (sorted-le (normalize_address lib a) g (sort_ids ids))
]
