-- ===== src/Store/Vector/Tests.antt =====
-- store/vector.go: two contracts that lack their embeddings, and one that has none to lack.
use forensic_listener.Prelude.{ℕ, ◌*◌, ◌≡◌, refl, String, true, false, none, some, List, [], ◌∷◌}
use forensic_listener.Store.Fixtures.{lib}
use forensic_listener.Store.Address.{normalize_address, trim_space, trim_left, trim_right, is_space}
use forensic_listener.Store.Vector.{
  ContractRow, reembed_batches, reembed_missing, reembed_each, upsert_contract, put_code,
  has_embedding,
}
use forensic_listener.Store.Vector.Reembed.{Cleared, batches-Cleared, IsTable, addresses}

abbrev hash : List ℕ → String
hash code = "0xh"

abbrev unembedded : String → List ℕ → ContractRow
unembedded a code = record {
  address = a;
  bytecode = some code;
  is_embedded = false;
  skeleton_hash = none;
  flagged = true;
  embedded_at = none;
}

abbrev stored : List ContractRow
stored = unembedded "x" (96 ∷ []) ∷ unembedded "y" [] ∷ unembedded "z" (1 ∷ []) ∷ []

-- One batch of one embeds the first contract only.
first_embedded : has_embedding lib "x" (reembed_batches lib hash 9 1 (λ _. false) 1 stored) ≡ true
unfolding has_embedding reembed_batches reembed_missing reembed_each upsert_contract put_code
    normalize_address trim_space trim_left trim_right is_space
first_embedded = refl

stored-IsTable : IsTable lib (addresses stored)
unfolding normalize_address trim_space trim_left trim_right is_space
stored-IsTable = ((refl, (refl, (refl, tt))), ((refl, refl), ((refl, refl), ((refl, refl), tt))))

batches-Cleared_example :
    Cleared stored (1 * 1) (reembed_batches lib hash 9 1 (λ _. false) 1 stored)
batches-Cleared_example = batches-Cleared lib hash 9 1 1 stored stored-IsTable
