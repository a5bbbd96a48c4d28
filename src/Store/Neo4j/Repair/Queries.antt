-- ===== src/Store/Neo4j/Repair/Queries.antt =====
-- store/neo4j.go: the groups that duplicateAccountGroups lists, of a graph whose ids are unique and whose
-- addresses are canonical.
use forensic_listener.Prelude.{
  some, ◌≢◌, ℕ, zero, suc, ◌≤◌, ◌<◌, String, ◌≡◌, refl, sym, ap, ◌∙◌, Bool, true, false, ◌||◌, List,
  [], ◌∷◌, arith, str_eq, eq_iff, ◌==◌, ltb, any, length, take, All, Bool-cases, inl, inr,
}
use forensic_listener.Store.Address.{AddressLib, normalize_address}
use forensic_listener.Store.Neo4j.Repair.{
  IdNode, is_in, ids_of, distinct_of, DuplicateGroup, group_before, insert_group, sort_groups,
  groups_of, usable_groups, duplicate_account_groups,
}
use forensic_listener.Store.Neo4j.Repair.Flows.{address_of, IsGroup}
use forensic_listener.Store.Neo4j.Repair.Groups.{IsNodupIds, with_id}

abbrev pub UniqueIds : List IdNode → Type 0
UniqueIds [] = Unit
UniqueIds (n ∷ ns) = (with_id n.id ns ≡ false) × UniqueIds ns

ids_of-in :
    (a : String) (i : ℕ) (ns : List IdNode) → is_in (ids_of a ns) i ≡ true → with_id i ns ≡ true
unfolding ids_of
ids_of-in a i [] h = cc
ids_of-in a i (n ∷ ns) h = ground (arith, ids_of-in a i ns)

ids_of-out :
    (a : String) (i : ℕ) (ns : List IdNode) → with_id i ns ≡ false → is_in (ids_of a ns) i ≡ false
ids_of-out a i ns h = elim (Bool-cases (is_in (ids_of a ns) i)) [
  | inr e ↦ e
  | inl e ↦ cc (ids_of-in a i ns e)
]

pub ids_of-IsNodupIds : (a : String) (ns : List IdNode) → UniqueIds ns → IsNodupIds (ids_of a ns)
unfolding ids_of
ids_of-IsNodupIds a [] u = tt
ids_of-IsNodupIds a (n ∷ ns) u = elim (Bool-cases (str_eq n.address a)) [
  | inl e ↦ rw e (ids_of-out a n.id ns u.0, ids_of-IsNodupIds a ns u.1)
  | inr e ↦ rw e (ids_of-IsNodupIds a ns u.1)
]

pub ids_of-IsGroup : (a : String) (ns : List IdNode) → UniqueIds ns → IsGroup a (ids_of a ns) ns
unfolding ids_of address_of
ids_of-IsGroup a [] u i h = cc
ids_of-IsGroup a (n ∷ ns) u i h = elim (Bool-cases (n.id == i)) [
  | inl same ↦
      let q : n.id ≡ i = ground arith in
      elim (Bool-cases (str_eq n.address a)) [
        | inl e ↦ rw same (ap some ((eq_iff n.address a).0 e))
        | inr e ↦
            let there = ids_of-in a i ns (rw e at h) in
            let fresh : with_id i ns ≡ false = rw q at (u.0) in cc
      ]
  | inr other ↦ elim (Bool-cases (str_eq n.address a)) [
    | inl e ↦ rw other (ids_of-IsGroup a ns u.1 i (rw (e, other) at h))
    | inr e ↦ rw other (ids_of-IsGroup a ns u.1 i (rw e at h))
  ]
]

-- Some group is of this address.
abbrev pub names : String → List DuplicateGroup → Bool
names a = any (λ (g : DuplicateGroup). str_eq g.address a)

abbrev pub AreDistinct : List DuplicateGroup → Type 0
AreDistinct [] = Unit
AreDistinct (g ∷ gs) = (names g.address gs ≡ false) × AreDistinct gs

names-insert :
    (a : String) (g : DuplicateGroup) (hs : List DuplicateGroup)
    → names a (insert_group g hs) ≡ names a (g ∷ hs)
unfolding insert_group
names-insert a g [] = refl
names-insert a g (h ∷ hs) = elim (Bool-cases (group_before g h)) [
  | inl e ↦ rw e refl
  | inr e ↦ rw (e, names-insert a g hs) (ground arith)
]

names-sort : (a : String) (gs : List DuplicateGroup) → names a (sort_groups gs) ≡ names a gs
unfolding sort_groups
names-sort a [] = refl
names-sort a (g ∷ gs) =
    names-insert a g (sort_groups gs) ∙ ap (λ b. str_eq g.address a || b) (names-sort a gs)

insert-AreDistinct :
    (g : DuplicateGroup) (hs : List DuplicateGroup)
    → names g.address hs ≡ false
    → AreDistinct hs
    → AreDistinct (insert_group g hs)
unfolding insert_group
insert-AreDistinct g [] h d = (refl, tt)
insert-AreDistinct g (k ∷ ks) h d = elim (Bool-cases (group_before g k)) [
  | inl e ↦ rw e (h, d)
  | inr e ↦
      let fresh : names k.address ks ≡ false = d.0 in
      rw e (
        names-insert k.address g ks
            ∙ ground (arith, eq_iff g.address k.address, eq_iff k.address g.address),
        insert-AreDistinct g ks (ground arith) d.1,
      )
]

sort-AreDistinct : (gs : List DuplicateGroup) → AreDistinct gs → AreDistinct (sort_groups gs)
unfolding sort_groups
sort-AreDistinct [] d = tt
sort-AreDistinct (g ∷ gs) d =
    insert-AreDistinct g (sort_groups gs) (names-sort g.address gs ∙ d.0) (sort-AreDistinct gs d.1)

names-take :
    (n : ℕ) (a : String) (gs : List DuplicateGroup)
    → names a gs ≡ false
    → names a (take n gs) ≡ false
names-take zero a gs h = refl
names-take (suc n) a [] h = refl
names-take (suc n) a (g ∷ gs) h = ground (arith, names-take n a gs)

take-AreDistinct : (n : ℕ) (gs : List DuplicateGroup) → AreDistinct gs → AreDistinct (take n gs)
take-AreDistinct zero gs d = tt
take-AreDistinct (suc n) [] d = tt
take-AreDistinct (suc n) (g ∷ gs) d = (names-take n g.address gs d.0, take-AreDistinct n gs d.1)

module _ (P : DuplicateGroup → Type 0) where
  insert-All :
      (g : DuplicateGroup) (hs : List DuplicateGroup) → P g → All P hs → All P (insert_group g hs)
  unfolding insert_group
  insert-All g [] p h = (p, tt)
  insert-All g (k ∷ ks) p h = elim (Bool-cases (group_before g k)) [
    | inl e ↦ rw e (p, h)
    | inr e ↦ rw e (h.0, insert-All g ks p h.1)
  ]

  sort-All : (gs : List DuplicateGroup) → All P gs → All P (sort_groups gs)
  unfolding sort_groups
  sort-All [] h = tt
  sort-All (g ∷ gs) h = insert-All g (sort_groups gs) h.0 (sort-All gs h.1)

  take-All : (n : ℕ) (gs : List DuplicateGroup) → All P gs → All P (take n gs)
  take-All zero gs h = tt
  take-All (suc n) [] h = tt
  take-All (suc n) (g ∷ gs) h = (h.0, take-All n gs h.1)

module _ (lib : AddressLib) where
  abbrev pub IsCanonical : String → Type 0
  IsCanonical a = (normalize_address lib a ≡ a) × (str_eq a "" ≡ false)

  -- Ids are unique, and every node has an address in its canonical form.
  pub record IsSound (nodes : List IdNode) : Type 0 where
    pub unique : UniqueIds nodes
    pub canonical : All (λ (n : IdNode). IsCanonical n.address) nodes

  -- Several nodes of one address.
  pub record IsDuplicate (nodes : List IdNode) (g : DuplicateGroup) : Type 0 where
    pub members : IsGroup g.address g.node_ids nodes
    pub once : IsNodupIds g.node_ids
    pub named : IsCanonical g.address
    pub several : 1 < length g.node_ids

  distinct_of-All :
      (nodes : List IdNode)
      → All (λ (n : IdNode). IsCanonical n.address) nodes
      → All IsCanonical (distinct_of nodes)
  unfolding distinct_of
  distinct_of-All [] h = tt
  distinct_of-All (n ∷ ns) h = elim (Bool-cases (any (λ a. str_eq a n.address) (distinct_of ns))) [
    | inl e ↦ rw e (distinct_of-All ns h.1)
    | inr e ↦ rw e (h.0, distinct_of-All ns h.1)
  ]

  groups_of-All :
      (nodes : List IdNode) (texts : List String)
      → UniqueIds nodes
      → All IsCanonical texts
      → All (IsDuplicate nodes) (groups_of nodes texts)
  unfolding groups_of
  groups_of-All nodes [] u h = tt
  groups_of-All nodes (a ∷ texts) u h = elim (Bool-cases (ltb 1 (length (ids_of a nodes)))) [
    | inr e ↦ rw e (groups_of-All nodes texts u h.1)
    | inl e ↦ rw e (
      record {
        members = ids_of-IsGroup a nodes u;
        once = ids_of-IsNodupIds a nodes u;
        named = h.0;
        several = ground arith;
      },
      groups_of-All nodes texts u h.1,
    )
  ]

  usable-all :
      (nodes : List IdNode) (gs : List DuplicateGroup)
      → All (IsDuplicate nodes) gs
      → usable_groups lib gs ≡ gs
  unfolding usable_groups
  usable-all nodes [] h = refl
  usable-all nodes (g ∷ gs) h =
      let (fixed, named) = h.0.named in
      let many : ltb 1 (length g.node_ids) ≡ true = let n = h.0.several in ground arith in
      rw (fixed, named, many) (ap (λ t. g ∷ t) (usable-all nodes gs h.1))

names-groups_of :
    (nodes : List IdNode) (a : String) (texts : List String)
    → any (λ b. str_eq b a) texts ≡ false
    → names a (groups_of nodes texts) ≡ false
unfolding groups_of
names-groups_of nodes a [] h = refl
names-groups_of nodes a (b ∷ texts) h = elim (Bool-cases (ltb 1 (length (ids_of b nodes)))) [
  | inr e ↦ rw e (names-groups_of nodes a texts (ground arith))
  | inl e ↦ let ih = names-groups_of nodes a texts (ground arith) in rw e (ground arith)
]

groups_of-AreDistinct : (nodes ns : List IdNode) → AreDistinct (groups_of nodes (distinct_of ns))
unfolding groups_of distinct_of
groups_of-AreDistinct nodes [] = tt
groups_of-AreDistinct nodes (n ∷ ns) =
    elim (Bool-cases (any (λ a. str_eq a n.address) (distinct_of ns))) [
      | inl e ↦ rw e (groups_of-AreDistinct nodes ns)
      | inr e ↦ elim (Bool-cases (ltb 1 (length (ids_of n.address nodes)))) [
        | inr f ↦ rw (e, groups_of, f) (groups_of-AreDistinct nodes ns)
        | inl f ↦
            rw (e, groups_of, f)
              (names-groups_of nodes n.address (distinct_of ns) e, groups_of-AreDistinct nodes ns)
      ]
    ]

distinct_of-any :
    (a : String) (ns : List IdNode)
    → 0 < length (ids_of a ns)
    → any (λ b. str_eq b a) (distinct_of ns) ≡ true
unfolding ids_of distinct_of
distinct_of-any a [] h = absurd (omega arith)
distinct_of-any a (n ∷ ns) h = elim (Bool-cases (str_eq n.address a)) [
  | inr other ↦ let ih = distinct_of-any a ns (rw other at h) in ground arith
  | inl same ↦
      let q : n.address ≡ a = (eq_iff n.address a).0 same in
      elim (Bool-cases (any (λ b. str_eq b n.address) (distinct_of ns))) [
        | inl old ↦ rw old (rw q at old)
        | inr new ↦ rw (new, same) refl
      ]
]

names-groups :
    (a : String) (nodes : List IdNode) (texts : List String)
    → any (λ b. str_eq b a) texts ≡ true
    → ltb 1 (length (ids_of a nodes)) ≡ true
    → names a (groups_of nodes texts) ≡ true
unfolding groups_of
names-groups a nodes [] h many = cc
names-groups a nodes (b ∷ texts) h many = elim (Bool-cases (str_eq b a)) [
  | inl same ↦
      let q : b ≡ a = (eq_iff b a).0 same in
      let m : ltb 1 (length (ids_of b nodes)) ≡ true = rw q many in rw (m, same) refl
  | inr other ↦
      let ih = names-groups a nodes texts (rw other at h) many in
      elim (Bool-cases (ltb 1 (length (ids_of b nodes)))) [
        | inl m ↦ rw (m, other) ih
        | inr m ↦ rw m ih
      ]
]

take-some :
    (n : ℕ) (a : String) (gs : List DuplicateGroup) → 1 ≤ n → names a gs ≡ true → take n gs ≢ []
take-some zero a gs h k = absurd (omega arith)
take-some (suc n) a [] h k = cc
take-some (suc n) a (g ∷ gs) h k = λ e. cc

module _ (lib : AddressLib) (limit : ℕ) (nodes : List IdNode) (sound : IsSound lib nodes) where
  abbrev all_groups : List DuplicateGroup
  all_groups = groups_of nodes (distinct_of nodes)

  listed : All (IsDuplicate lib nodes) (take limit (sort_groups all_groups))
  listed = take-All (IsDuplicate lib nodes) limit (sort_groups all_groups) (
      sort-All (IsDuplicate lib nodes) all_groups (
        groups_of-All lib nodes (distinct_of nodes) sound.unique
          (distinct_of-All lib nodes sound.canonical)))

  query : duplicate_account_groups lib limit nodes ≡ take limit (sort_groups all_groups)
  unfolding duplicate_account_groups
  query = usable-all lib nodes _ listed

  -- Each listed group is of several nodes of one address, and no two are of the same.
  pub query-IsDuplicate :
      All (IsDuplicate lib nodes) (duplicate_account_groups lib limit nodes)
      × AreDistinct (duplicate_account_groups lib limit nodes)
  query-IsDuplicate = rw query (
    listed,
    take-AreDistinct limit (sort_groups all_groups)
        (sort-AreDistinct all_groups (groups_of-AreDistinct nodes nodes)),
  )

  -- If none is listed, no address has two nodes.
  pub query-none :
      1 ≤ limit
      → duplicate_account_groups lib limit nodes ≡ []
      → (a : String) → length (ids_of a nodes) ≤ 1
  query-none n e a = elim (Bool-cases (ltb 1 (length (ids_of a nodes)))) [
    | inr few ↦ ground arith
    | inl many ↦
        let there =
          names-sort a all_groups
          ∙ names-groups a nodes (distinct_of nodes) (distinct_of-any a nodes (ground arith))
              many in
        absurd (take-some limit a (sort_groups all_groups) n there (sym query ∙ e))
  ]
