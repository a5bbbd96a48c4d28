-- ===== src/Store/Embedding/Tests.antt =====
-- store/embedding.go: tests of the skeleton, and its laws at two deployments of one contract.
use forensic_listener.Prelude.{ℕ, List, [], ◌∷◌, ◌≡◌, ◌≤◌, ◌++◌, refl, length, All, arith}
use forensic_listener.Store.Embedding.{
  metadata_length, operand_count, is_map_marker, opcodes_after, opcode_skeleton, strip_metadata,
}
use forensic_listener.Store.Embedding.Skeleton.{
  Instruction, IsComplete, IsMetadata, assemble, opcodes, trailer, skeleton-assemble,
  skeleton_forgets, skeleton-le,
}

-- PUSH2 1 2, ADD and PUSH2 3 4, ADD
abbrev program : ℕ → ℕ → List Instruction
program a b =
    record { opcode = 0x61; operands = a ∷ b ∷ [] } ∷ record { opcode = 0x01; operands = [] } ∷ []

abbrev metadata : List ℕ
metadata = 0xa1 ∷ 0x64 ∷ 7 ∷ []

skeleton_of_push : opcode_skeleton (0x61 ∷ 1 ∷ 2 ∷ 0x01 ∷ []) ≡ 0x61 ∷ 0x01 ∷ []
unfolding opcode_skeleton opcodes_after strip_metadata metadata_length is_map_marker operand_count
skeleton_of_push = refl

strip_keeps_short : strip_metadata (0xa1 ∷ 0 ∷ 1 ∷ []) ≡ 0xa1 ∷ 0 ∷ 1 ∷ []
unfolding strip_metadata
strip_keeps_short = refl

complete : (a b : ℕ) → All IsComplete (program a b)
unfolding operand_count
complete a b = (refl, (refl, tt))

metadata-IsMetadata : IsMetadata metadata
unfolding is_map_marker
metadata-IsMetadata = (refl, omega arith, omega arith)

skeleton-assemble_example :
    opcode_skeleton (assemble (program 1 2) ++ trailer metadata) ≡ opcodes (program 1 2)
skeleton-assemble_example =
    skeleton-assemble (program 1 2) metadata (complete 1 2) (omega arith) metadata-IsMetadata

skeleton_forgets_applied :
    opcode_skeleton (assemble (program 1 2) ++ trailer metadata)
    ≡ opcode_skeleton (assemble (program 3 4) ++ trailer metadata)
skeleton_forgets_applied =
    skeleton_forgets (program 1 2) (program 3 4) metadata metadata (complete 1 2) (complete 3 4)
      (omega arith) (omega arith) metadata-IsMetadata metadata-IsMetadata refl

skeleton-le_applied : length (opcode_skeleton (0x61 ∷ 1 ∷ [])) ≤ 2
skeleton-le_applied = skeleton-le (0x61 ∷ 1 ∷ [])
