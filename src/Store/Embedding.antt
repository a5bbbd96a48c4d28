-- ===== src/Store/Embedding.antt =====
-- store/embedding.go: the opcode skeleton of a contract and the features hashed from it.
pub mod Skeleton
mod Tests
use forensic_listener.Prelude.{
  ℕ, zero, suc, ◌+◌, ◌-◌, ◌*◌, ◌≤◌, List, [], ◌∷◌, Bool, ◌||◌, ◌&&◌, leb, ltb, ◌==◌, if◌then◌else◌,
  length, take, get_or,
}

-- PUSH1..PUSH32 carry 1..32 operand bytes.
unfoldable pub operand_count : ℕ → ℕ
operand_count op = if leb 0x60 op && leb op 0x7f then op - 0x5f else 0

-- The loop of `opcodeSkeleton`: `skip` is how far `i` is still ahead of the position.
unfoldable pub opcodes_after : ℕ → List ℕ → List ℕ
unfolding operand_count
opcodes_after skip [] = []
opcodes_after zero (op ∷ code) = op ∷ opcodes_after (operand_count op) code
opcodes_after (suc skip) (_ ∷ code) = opcodes_after skip code

-- A CBOR map with 1-4 entries.
unfoldable pub is_map_marker : ℕ → Bool
is_map_marker b = b == 0xa1 || b == 0xa2 || b == 0xa3 || b == 0xa4

-- The length that the final two bytes hold, big-endian: `int(a)<<8 | int(b)` of bytes a and b.
unfoldable pub metadata_length : List ℕ → ℕ
metadata_length code = get_or code (length code - 2) 0 * 256 + get_or code (length code - 1) 0

-- stripMetadata. `start < 0` is `len(code) - 2 < length`.
unfoldable pub strip_metadata : List ℕ → List ℕ
unfolding is_map_marker metadata_length
strip_metadata code =
    if ltb (length code) 4
    then code
    else let n = metadata_length code in
      let start = length code - 2 - n in
      if n == 0 || ltb (length code - 2) n
      then code
      else if is_map_marker (get_or code start 0)
      then take start code
      else code

-- opcodeSkeleton
unfoldable pub opcode_skeleton : List ℕ → List ℕ
opcode_skeleton code = opcodes_after 0 (strip_metadata code)
