-- ===== src/Indexer/Parser/Rpc/Bounds.antt =====
-- The indices of a message, in `PollerParser::parse_instruction_groups` of indexer/src/parser.rs.
use itihas.Indexer.Parser.{
  checked_account, pubkey_of, token_extensions_program_text, token_program_text,
}
use itihas.Indexer.Parser.Inversion.{All-traverse, push_each-All}
use itihas.Indexer.Parser.Lookup.{checked_account-eq-ok, get_elem?-lt}
use itihas.Indexer.Parser.Rpc.{
  all_accounts, parse_instruction, parse_instruction_groups, parse_instructions,
}
use itihas.Indexer.Sdk.{CompiledInstruction, Sdk, UiTransactionStatusMeta, VersionedTransaction}
use itihas.Indexer.Types.{InstructionGroup, Pubkey}
use itihas.Prelude.{>>=-eq-ok, All, List, Option, String, length, ok, traverse, ℕ, ◌<◌, ◌≡◌}

-- Every index of an instruction points into the accounts.
abbrev pub InRange : List Pubkey → CompiledInstruction → Type 0
InRange accounts ix =
    (ix.program_id_index < length accounts) × All (λ i. i < length accounts) ix.accounts

module _ {E : Type 0} (sdk : Sdk E) (token extensions : Pubkey) (accounts : List Pubkey)
    (meta : UiTransactionStatusMeta) where
  checked_account-lt :
      (text : String) (i : ℕ) (a : Pubkey)
      → checked_account accounts text i ≡ ok a
      → i < length accounts
  checked_account-lt text i a h = get_elem?-lt accounts i (checked_account-eq-ok accounts text i h)

  parse_instruction-InRange :
      (ix : CompiledInstruction) (r : Option InstructionGroup)
      → parse_instruction sdk token extensions accounts meta ix ≡ ok r
      → InRange accounts ix
  unfolding parse_instruction
  parse_instruction-InRange ix r h =
      let (program, hp, h1) = >>=-eq-ok (checked_account accounts _ ix.program_id_index) _ h in
      let (keys, hk, h2) = >>=-eq-ok (traverse (checked_account accounts _) ix.accounts) _ h1 in
      (
        checked_account-lt _ ix.program_id_index program hp,
        All-traverse (checked_account accounts _) (λ i. i < length accounts) (checked_account-lt _)
            ix.accounts hk,
      )

-- If the parser returns groups, then every index of every instruction of the message lies within the
-- accounts, of the instructions of other programs too: one index out of range is an error of the
-- whole transaction.
pub parse_instruction_groups-InRange :
    {E : Type 0} (sdk : Sdk E) (tx : VersionedTransaction) (meta : UiTransactionStatusMeta)
    (accounts : List Pubkey) {groups : List InstructionGroup}
    → all_accounts sdk tx meta ≡ ok accounts
    → parse_instruction_groups sdk tx meta ≡ ok groups
    → All (InRange accounts) tx.instructions
unfolding parse_instruction_groups parse_instructions
parse_instruction_groups-InRange sdk tx meta accounts ha h =
    let (token, ht, h1) = >>=-eq-ok (pubkey_of sdk token_program_text) _ (rw ha at h) in
    let (extensions, he, h2) = >>=-eq-ok (pubkey_of sdk token_extensions_program_text) _ h1 in
    push_each-All (parse_instruction sdk token extensions accounts meta) (InRange accounts)
      (parse_instruction-InRange sdk token extensions accounts meta) tx.instructions h2
