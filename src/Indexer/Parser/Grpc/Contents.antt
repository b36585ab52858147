-- ===== src/Indexer/Parser/Grpc/Contents.antt =====
-- What a parsed gRPC block holds, and when its parser panics.
use itihas.Indexer.Parser.{
  find_associated_token_address, is_token_program, pubkey_of, push_each,
  token_extensions_program_text, token_program_text, transfer_amount, when,
}
use itihas.Indexer.Parser.Grpc.{
  first_mint, key_at, outer_token_instruction, outer_transfer, parse_block, parse_instruction,
  parse_instructions, parse_transaction,
}
use itihas.Indexer.Parser.Grpc.Transfers.{key_at-ne-panic}
use itihas.Indexer.Parser.Inversion.{push_each-ne-panic}
use itihas.Indexer.Proto.{
  SubscribeUpdateBlock, SubscribeUpdateTransactionInfo, TransactionStatusMeta,
}
use itihas.Indexer.Sdk.{CompiledInstruction, Sdk}
use itihas.Indexer.Types.{Pubkey}
use itihas.Prelude.{
  >>=-ne-panic, All-intro, Bytes, List, Option-cases, [], arith, inl, inr, leb, length,
  map_err-ne-panic, none, ok_or, ok_or-ne-panic, panic, some, traverse, traverse-ne-panic, ℕ, ℤ,
  ◌&&◌, ◌++◌, ◌↔◌, ◌∷◌, ◌≡◌, ◌≢◌, ◌⊎◌,
}

module _ {E : Type 0} (sdk : Sdk E) where
  module _ (accounts : List Bytes) (meta : TransactionStatusMeta) where
    outer_transfer-ne-panic :
        (program : Pubkey) (payload : Bytes) (keys : List Pubkey) (a b : Pubkey) (amount : ℕ)
        → outer_transfer sdk accounts meta program payload keys a b amount ≢ panic
    unfolding first_mint find_associated_token_address
    outer_transfer-ne-panic program payload keys a b amount = ground arith

    round-ne-panic :
        (token extensions program : Pubkey) (payload : Bytes) (keys : List Pubkey)
        → when
            (is_token_program token extensions program && leb 2 (length keys))
            (outer_token_instruction sdk accounts meta program payload keys)
          ≢ panic
    round-ne-panic token extensions program payload [] = ground arith
    round-ne-panic token extensions program payload (a ∷ []) = ground arith
    round-ne-panic token extensions program payload (a ∷ b ∷ ks) =
        elim (Option-cases (transfer_amount sdk payload)) [
          | inl e ↦ ground arith
          | inr (amount, e) ↦
              ground (arith, outer_transfer-ne-panic program payload (a ∷ b ∷ ks) a b amount)
        ]

    parse_instruction-ne-panic :
        (ix : CompiledInstruction) → parse_instruction sdk accounts meta ix ≢ panic
    unfolding parse_instruction
    parse_instruction-ne-panic ix =
        >>=-ne-panic (key_at sdk accounts _ _ ix.program_id_index) _
          (key_at-ne-panic sdk accounts _ _ ix.program_id_index)
          λ program _.
            >>=-ne-panic (traverse (key_at sdk accounts _ _) ix.accounts) _
              (traverse-ne-panic (key_at sdk accounts _ _) (key_at-ne-panic sdk accounts _ _)
                ix.accounts)
              λ keys _.
                >>=-ne-panic (pubkey_of sdk token_program_text) _
                  (map_err-ne-panic (sdk.pubkey_from_str token_program_text) _)
                  λ token _.
                    >>=-ne-panic (pubkey_of sdk token_extensions_program_text) _
                      (map_err-ne-panic (sdk.pubkey_from_str token_extensions_program_text) _)
                      λ extensions _. round-ne-panic token extensions program ix.payload keys

  parse_transaction-ne-panic :
      (slot : ℕ) (block_time : ℤ) (info : SubscribeUpdateTransactionInfo)
      → parse_transaction sdk slot block_time info ≢ panic
  unfolding parse_transaction parse_instructions
  parse_transaction-ne-panic slot block_time info =
      >>=-ne-panic (ok_or info.meta _) _ (ok_or-ne-panic info.meta _) λ meta _.
        >>=-ne-panic (ok_or (sdk.signature_try_from info.signature) _) _
          (ok_or-ne-panic (sdk.signature_try_from info.signature) _)
          λ signature _.
            >>=-ne-panic (ok_or info.transaction _) _ (ok_or-ne-panic info.transaction _)
              λ signed _.
                >>=-ne-panic (ok_or signed.message _) _ (ok_or-ne-panic signed.message _)
                  λ message _.
                    let accounts =
                      message.account_keys
                      ++ (meta.loaded_writable_addresses ++ meta.loaded_readonly_addresses) in
                    >>=-ne-panic
                      (push_each (parse_instruction sdk accounts meta) message.instructions) _
                      (push_each-ne-panic (parse_instruction sdk accounts meta) message.instructions
                        (All-intro (parse_instruction-ne-panic accounts meta) message.instructions))
                      (λ groups _ p. cc)

  -- The parser of gRPC blocks panics exactly when the block's time or its height is missing:
  -- nothing in the block's transactions makes it panic.
  pub parse_block-panic_iff :
      (block : SubscribeUpdateBlock)
      → (parse_block sdk block ≡ panic) ↔ ((block.block_time ≡ none) ⊎ (block.block_height ≡ none))
  unfolding parse_block
  parse_block-panic_iff block = (missing, panics)
    where
      present_case :
          (block_time : ℤ) (block_height : ℕ)
          → block.block_time ≡ some block_time
          → block.block_height ≡ some block_height
          → parse_block sdk block ≢ panic
      present_case block_time block_height e1 e2 =
          rw (e1, e2, parse_block)
            (>>=-ne-panic
              (traverse (parse_transaction sdk block.slot block_time) block.transactions) _
              (traverse-ne-panic (parse_transaction sdk block.slot block_time)
                (parse_transaction-ne-panic block.slot block_time) block.transactions)
              (λ transactions _ p. cc))

      missing :
          parse_block sdk block ≡ panic → (block.block_time ≡ none) ⊎ (block.block_height ≡ none)
      missing h = elim (Option-cases block.block_time) [
        | inl e ↦ inl e
        | inr (t, e1) ↦ elim (Option-cases block.block_height) [
          | inl e ↦ inr e
          | inr (n, e2) ↦ absurd (present_case t n e1 e2 h)
        ]
      ]

      panics :
          (block.block_time ≡ none) ⊎ (block.block_height ≡ none) → parse_block sdk block ≡ panic
      panics (inl e) = rw (e, parse_block)
      panics (inr e) = elim (Option-cases block.block_time) [
        | inl e1 ↦ rw (e1, parse_block)
        | inr (t, e1) ↦ rw (e1, e, parse_block)
      ]
