-- ===== src/Indexer/Parser/Agreement.antt =====
-- The two parsers of indexer/src/parser.rs on one message.
use itihas.Indexer.Parser.{pubkey_of, token_extensions_program_text, token_program_text}
use itihas.Indexer.Parser.Grpc.{inner_account, parse_instructions}
use itihas.Indexer.Parser.Grpc.Transfers.{parse_instructions-transfers}
use itihas.Indexer.Parser.Rpc.{all_accounts, parse_instruction_groups}
use itihas.Indexer.Parser.Rpc.Transfers.{parse_instruction_groups-transfers}
use itihas.Indexer.Parser.Spec.{summary}
use itihas.Indexer.Proto.{TransactionStatusMeta}
use itihas.Indexer.Sdk.{Sdk, UiTransactionStatusMeta, VersionedTransaction}
use itihas.Indexer.Types.{InstructionGroup, Pubkey}
use itihas.Prelude.{
  >>=-eq-ok, All, List, [], fun_ext, get_elem?, map, ok, refl, some, suc, sym, zero, ℕ, ◌∙◌, ◌∷◌,
  ◌≡◌,
}

module _ {E : Type 0} (sdk : Sdk E) where
  -- Where every account key reads back from its bytes, the two lookups of an index are the same.
  inner_account-eq-get_elem? :
      (accounts : List Pubkey)
      → All (λ key. sdk.pubkey_try_from key ≡ some key) accounts
      → (i : ℕ) → inner_account sdk accounts i ≡ get_elem? accounts i
  inner_account-eq-get_elem? [] h i = refl
  inner_account-eq-get_elem? (key ∷ keys) h zero = h.0
  inner_account-eq-get_elem? (key ∷ keys) h (suc i) = inner_account-eq-get_elem? keys h.1 i

  -- Given one message by RPC and by gRPC, with the same accounts, whose keys read back from their
  -- bytes, and the same instructions: if both parsers return groups, the groups name the same
  -- transfers in the same order, whatever the metadata of the two replies.
  pub parsers_agree :
      (tx : VersionedTransaction) (meta : UiTransactionStatusMeta)
      (grpc_meta : TransactionStatusMeta) (accounts : List Pubkey)
      {groups grpc_groups : List InstructionGroup}
      → all_accounts sdk tx meta ≡ ok accounts
      → All (λ key. sdk.pubkey_try_from key ≡ some key) accounts
      → parse_instruction_groups sdk tx meta ≡ ok groups
      → parse_instructions sdk accounts grpc_meta tx.instructions ≡ ok grpc_groups
      → map summary groups ≡ map summary grpc_groups
  unfolding parse_instruction_groups
  parsers_agree tx meta grpc_meta accounts ha hk h hg =
      let (token, ht, h1) = >>=-eq-ok (pubkey_of sdk token_program_text) _ (rw ha at h) in
      let (extensions, he, h2) = >>=-eq-ok (pubkey_of sdk token_extensions_program_text) _ h1 in
      parse_instruction_groups-transfers sdk tx meta accounts token extensions ha ht he h
      ∙ rw (← fun_ext (inner_account-eq-get_elem? accounts hk)) (
          sym (
            parse_instructions-transfers sdk accounts grpc_meta token extensions tx.instructions ht
              he hg))
