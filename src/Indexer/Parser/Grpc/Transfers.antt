-- ===== src/Indexer/Parser/Grpc/Transfers.antt =====
-- The groups that the parser of gRPC blocks returns, against the transfers of the message.
use mathlib.Core.Option
use itihas.Indexer.Parser.{
  is_token_program, pubkey_of, token_extensions_program_text, token_program_text, transfer_amount,
  when,
}
use itihas.Indexer.Parser.Grpc.{
  inner_account, key_at, outer_token_instruction, outer_transfer, parse_instruction,
  parse_instructions,
}
use itihas.Indexer.Parser.Inversion.{get_elem?-traverse, map-push_each}
use itihas.Indexer.Parser.Lookup.{index-eq-ok, index-ne-panic}
use itihas.Indexer.Parser.Spec.{summary, token_transfer, transfer_in}
use itihas.Indexer.Proto.{TransactionStatusMeta}
use itihas.Indexer.Sdk.{CompiledInstruction, Sdk}
use itihas.Indexer.Types.{IndexerError, InstructionGroup, Pubkey, parser_error}
use itihas.Prelude.{
  >>=-eq-ok, >>=-ne-panic, Bool-cases, Bytes, List, Option, String, [], arith, filter_map,
  get_elem?, index, inl, inr, leb, length, map, ok, ok_or, panic, some, traverse, ℕ, ◌&&◌, ◌∷◌, ◌≡◌,
  ◌≢◌,
}

module _ {E : Type 0} (sdk : Sdk E) (accounts : List Bytes) where
  key_at-eq-ok :
      (out_of_bounds malformed : String) (i : ℕ) {a : Pubkey}
      → key_at sdk accounts out_of_bounds malformed i ≡ ok a
      → inner_account sdk accounts i ≡ some a
  unfolding key_at
  key_at-eq-ok out_of_bounds malformed i h = elim (Bool-cases (leb (length accounts) i)) [
    | inl out ↦ cc (rw out at h)
    | inr within ↦
        let (bytes, hb, h1) = >>=-eq-ok (index accounts i) _ (rw within at h) in
        rw (index-eq-ok {E = IndexerError} accounts i hb, inner_account) (read bytes h1)
  ]
    where
      read :
          (bytes : Bytes) {a : Pubkey}
          → ok_or (sdk.pubkey_try_from bytes) (parser_error malformed) ≡ ok a
          → sdk.pubkey_try_from bytes ≡ some a
      read bytes h = ground arith

  pub key_at-ne-panic :
      (out_of_bounds malformed : String) (i : ℕ)
      → key_at sdk accounts out_of_bounds malformed i ≢ panic
  unfolding key_at
  key_at-ne-panic out_of_bounds malformed i = elim (Bool-cases (leb (length accounts) i)) [
    | inl out ↦ rw out (λ p. cc)
    | inr within ↦ rw within (
        >>=-ne-panic (index accounts i) _ (index-ne-panic IndexerError accounts i (ground arith))
          (λ bytes _. read bytes))
  ]
    where
      read :
          (bytes : Bytes)
          → ok_or {E = IndexerError} (sdk.pubkey_try_from bytes) (parser_error malformed) ≢ panic
      read bytes = ground arith

module _ {E : Type 0} (sdk : Sdk E) (accounts : List Bytes) (meta : TransactionStatusMeta) where
  outer_transfer-summary :
      (program : Pubkey) (payload : Bytes) (keys : List Pubkey) (a b : Pubkey) (amount : ℕ)
      {r : Option InstructionGroup}
      → outer_transfer sdk accounts meta program payload keys a b amount ≡ ok r
      → Option.map summary r
        ≡ some (record { program = program; source = a; destination = b; amount = amount })
  outer_transfer-summary program payload keys a b amount h = ground arith

  round-summary :
      (token extensions program : Pubkey) (payload : Bytes) (keys : List Pubkey)
      {r : Option InstructionGroup}
      → when
          (is_token_program token extensions program && leb 2 (length keys))
          (outer_token_instruction sdk accounts meta program payload keys)
        ≡ ok r
      → Option.map summary r
        ≡ transfer_in
            (is_token_program token extensions)
            (transfer_amount sdk)
            program
            payload
            (get_elem? keys 0)
            (get_elem? keys 1)
  round-summary token extensions program payload [] h = ground arith
  round-summary token extensions program payload (a ∷ []) h = ground arith
  round-summary token extensions program payload (a ∷ b ∷ ks) h = ground arith

  -- One round of the loop yields the transfer that the instruction is, if it is one.
  pub parse_instruction-summary :
      (token extensions : Pubkey)
      → pubkey_of sdk token_program_text ≡ ok token
      → pubkey_of sdk token_extensions_program_text ≡ ok extensions
      → (ix : CompiledInstruction) (r : Option InstructionGroup)
      → parse_instruction sdk accounts meta ix ≡ ok r
      → Option.map summary r
        ≡ token_transfer
            (is_token_program token extensions)
            (transfer_amount sdk)
            (inner_account sdk accounts)
            ix
  unfolding parse_instruction
  parse_instruction-summary token extensions ht he ix r h =
      let (program, hp, h1) = >>=-eq-ok (key_at sdk accounts _ _ ix.program_id_index) _ h in
      let (keys, hk, h2) = >>=-eq-ok (traverse (key_at sdk accounts _ _) ix.accounts) _ h1 in
      let at =
        get_elem?-traverse (key_at sdk accounts _ _) (inner_account sdk accounts)
          (λ i a. key_at-eq-ok sdk accounts _ _ i) ix.accounts hk in
      rw (key_at-eq-ok sdk accounts _ _ ix.program_id_index hp, ← at 0, ← at 1)
        (round-summary token extensions program ix.payload keys (rw (ht, he) at h2))

-- If the loop over a message's instructions returns groups, they are the token transfers of the
-- message, in the message's order, each with its program, source, destination and amount.
pub parse_instructions-transfers :
    {E : Type 0} (sdk : Sdk E) (accounts : List Bytes) (meta : TransactionStatusMeta)
    (token extensions : Pubkey) (ixs : List CompiledInstruction) {groups : List InstructionGroup}
    → pubkey_of sdk token_program_text ≡ ok token
    → pubkey_of sdk token_extensions_program_text ≡ ok extensions
    → parse_instructions sdk accounts meta ixs ≡ ok groups
    → map summary groups
      ≡ filter_map
          (token_transfer
            (is_token_program token extensions)
            (transfer_amount sdk)
            (inner_account sdk accounts))
          ixs
unfolding parse_instructions
parse_instructions-transfers sdk accounts meta token extensions ixs ht he h =
    map-push_each (parse_instruction sdk accounts meta) summary
      (token_transfer (is_token_program token extensions) (transfer_amount sdk)
        (inner_account sdk accounts))
      (parse_instruction-summary sdk accounts meta token extensions ht he) ixs h
