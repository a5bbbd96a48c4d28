-- ===== src/Store/Embedding/Skeleton.antt =====
-- store/embedding.go: what the skeleton of a contract keeps of its code, and what it forgets.
use forensic_listener.Prelude.{
  ℕ, zero, suc, ◌+◌, ◌-◌, ◌/◌, ◌%◌, ◌≤◌, ◌<◌, ◌≡◌, refl, sym, ap, ◌∙◌, List, [], ◌∷◌, ◌++◌, map,
  true, false, arith, ltb, ◌==◌, length, take, get_or, All, length-append, length-take,
}
use forensic_listener.Store.Embedding.{
  metadata_length, operand_count, opcodes_after, is_map_marker, strip_metadata, opcode_skeleton,
}

-- An instruction of the machine: an opcode and the operand bytes that it carries.
pub record Instruction : Type 0 where
  pub opcode : ℕ
  pub operands : List ℕ

abbrev pub IsComplete : Instruction → Type 0
IsComplete i = length i.operands ≡ operand_count i.opcode

abbrev pub assemble : List Instruction → List ℕ
assemble [] = []
assemble (i ∷ is) = i.opcode ∷ (i.operands ++ assemble is)

abbrev pub opcodes : List Instruction → List ℕ
opcodes = map (λ i. i.opcode)

opcodes_after-append :
    (xs code : List ℕ) → opcodes_after (length xs) (xs ++ code) ≡ opcodes_after 0 code
unfolding opcodes_after
opcodes_after-append [] code = refl
opcodes_after-append (x ∷ xs) code = opcodes_after-append xs code

opcodes_after-assemble :
    (is : List Instruction) → All IsComplete is → opcodes_after 0 (assemble is) ≡ opcodes is
unfolding opcodes_after
opcodes_after-assemble [] h = refl
opcodes_after-assemble (i ∷ is) h = rw (← h.0) (
    ap (λ t. i.opcode ∷ t)
      (opcodes_after-append i.operands (assemble is) ∙ opcodes_after-assemble is h.1))

-- The trailer that a compiler appends: a CBOR map and its length in two bytes, big-endian.
abbrev pub trailer : List ℕ → List ℕ
trailer body = body ++ length body / 256 ∷ length body % 256 ∷ []

abbrev pub IsMetadata : List ℕ → Type 0
IsMetadata body =
    (is_map_marker (get_or body 0 0) ≡ true) × (0 < length body) × (length body < 65536)

get_or-append : (xs ys : List ℕ) (i d : ℕ) → get_or (xs ++ ys) (length xs + i) d ≡ get_or ys i d
get_or-append [] ys i d = ap (λ n. get_or ys n d) (omega arith)
get_or-append (x ∷ xs) ys i d =
    let e : length (x ∷ xs) + i ≡ suc (length xs + i) = omega arith in
    rw e (get_or-append xs ys i d)

first-append : (xs ys : List ℕ) → 0 < length xs → get_or (xs ++ ys) 0 0 ≡ get_or xs 0 0
first-append [] ys h = elim h [ ]
first-append (x ∷ xs) ys h = refl

length-assemble : (is : List Instruction) → 1 ≤ length is → 1 ≤ length (assemble is)
length-assemble [] h = h
length-assemble (i ∷ is) h = omega arith

take-append : (xs ys : List ℕ) → take (length xs) (xs ++ ys) ≡ xs
take-append [] ys = refl
take-append (x ∷ xs) ys = ap (λ t. x ∷ t) (take-append xs ys)

ltb-false : (a b : ℕ) → b ≤ a → ltb a b ≡ false
ltb-false a b h = ground arith

pos→ne_zero : (n : ℕ) → 0 < n → (n == 0) ≡ false
pos→ne_zero n h = ground arith

strip-eq-take :
    (code : List ℕ) (start n : ℕ)
    → length code ≡ start + n + 2
    → 4 ≤ length code
    → 0 < n
    → metadata_length code ≡ n
    → is_map_marker (get_or code start 0) ≡ true
    → strip_metadata code ≡ take start code
unfolding strip_metadata
strip-eq-take code start n total long pos e mark =
    let at : length code - 2 - n ≡ start = omega arith in
    rw (ltb-false (length code) 4 long, e, ltb-false (length code - 2) n (omega arith))
      (rw (pos→ne_zero n pos, at, mark))

module _ (code body : List ℕ) where
  length-trailer : length (code ++ trailer body) ≡ length code + length body + 2
  length-trailer = omega (
    arith,
    length-append code (trailer body),
    length-append body (length body / 256 ∷ length body % 256 ∷ []),
  )

  get_or-trailer :
      (k i : ℕ)
      → k ≡ length code + (length body + i)
      → get_or (code ++ trailer body) k 0 ≡ get_or (length body / 256 ∷ length body % 256 ∷ []) i 0
  get_or-trailer k i e = rw e (
      get_or-append code (trailer body) (length body + i) 0
      ∙ get_or-append body (length body / 256 ∷ length body % 256 ∷ []) i 0)

  metadata_length-trailer :
      length body < 65536 → metadata_length (code ++ trailer body) ≡ length body
  unfolding metadata_length
  metadata_length-trailer fits = omega (
    arith,
    get_or-trailer (length (code ++ trailer body) - 2) 0 (omega (arith, length-trailer)),
    get_or-trailer (length (code ++ trailer body) - 1) 1 (omega (arith, length-trailer)),
  )

  first-trailer : 0 < length body → get_or (code ++ trailer body) (length code) 0 ≡ get_or body 0 0
  first-trailer pos =
      let e : length code ≡ length code + 0 = omega arith in
      (rw e (get_or-append code (trailer body) 0 0))
      ∙ first-append body (length body / 256 ∷ length body % 256 ∷ []) pos

strip-trailer :
    (code body : List ℕ)
    → IsMetadata body
    → 1 ≤ length code
    → strip_metadata (code ++ trailer body) ≡ code
strip-trailer code body h c =
    strip-eq-take (code ++ trailer body) (length code) (length body) (length-trailer code body)
      (omega (arith, length-trailer code body, h.1)) h.1 (metadata_length-trailer code body h.2)
      (rw (first-trailer code body h.1) h.0)
    ∙ take-append code (trailer body)

-- The skeleton of well-formed code followed by compiler metadata is the list of its opcodes.
pub skeleton-assemble :
    (is : List Instruction) (body : List ℕ)
    → All IsComplete is
    → 1 ≤ length is
    → IsMetadata body
    → opcode_skeleton (assemble is ++ trailer body) ≡ opcodes is
unfolding opcode_skeleton
skeleton-assemble is body complete nonempty metadata =
    rw (strip-trailer (assemble is) body metadata (length-assemble is nonempty))
      (opcodes_after-assemble is complete)

-- Two deployments share the skeleton if their opcodes agree: the operands of their pushes and the
-- compiler's metadata, of whatever length, do not count.
pub skeleton_forgets :
    (is js : List Instruction) (body body' : List ℕ)
    → All IsComplete is
    → All IsComplete js
    → 1 ≤ length is
    → 1 ≤ length js
    → IsMetadata body
    → IsMetadata body'
    → opcodes is ≡ opcodes js
    → opcode_skeleton (assemble is ++ trailer body) ≡ opcode_skeleton (assemble js ++ trailer body')
skeleton_forgets is js body body' ci cj ni nj mi mj same =
    skeleton-assemble is body ci ni mi ∙ same ∙ sym (skeleton-assemble js body' cj nj mj)

opcodes_after-le : (skip : ℕ) (code : List ℕ) → length (opcodes_after skip code) ≤ length code
unfolding opcodes_after
opcodes_after-le skip [] = omega arith
opcodes_after-le zero (op ∷ code) = omega (arith, opcodes_after-le (operand_count op) code)
opcodes_after-le (suc skip) (_ ∷ code) = omega (arith, opcodes_after-le skip code)

take-le : (n : ℕ) (xs : List ℕ) → length (take n xs) ≤ length xs
take-le n xs = omega (arith, length-take n xs)

strip-le : (code : List ℕ) → length (strip_metadata code) ≤ length code
unfolding strip_metadata
strip-le code = ground (arith, take-le (length code - 2 - metadata_length code) code)

-- The skeleton is never longer than the code, whatever the bytes are.
pub skeleton-le : (code : List ℕ) → length (opcode_skeleton code) ≤ length code
unfolding opcode_skeleton
skeleton-le code = omega (arith, opcodes_after-le 0 (strip_metadata code), strip-le code)
