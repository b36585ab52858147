-- ===== src/Indexer/Parser/Rpc/Contents.antt =====
-- What a parsed RPC block holds, and when its parser panics.
use itihas.Indexer.Parser.{or_empty}
use itihas.Indexer.Parser.Inversion.{All-flatten, unless_empty-some}
use itihas.Indexer.Parser.Lookup.{index-ne-panic}
use itihas.Indexer.Parser.Rpc.{parse_instruction_groups}
use itihas.Indexer.Parser.Rpc.Block.{parse_encoded_transaction, parse_ui_confirmed_block}
use itihas.Indexer.Parser.Rpc.Panics.{AllNameTwo, parse_instruction_groups-ne-panic}
use itihas.Indexer.Sdk.{
  EncodedTransactionWithStatusMeta, Sdk, UiConfirmedBlock, UiTransactionStatusMeta,
  VersionedTransaction,
}
use itihas.Indexer.Types.{BlockInfo, BlockMetadata, IndexerError, Transaction}
use itihas.Prelude.{
  >>=-eq-ok, >>=-ne-panic, All, All-map, [], index, length, ok, ok-injective, ok_or, ok_or-eq-ok,
  ok_or-ne-panic, panic, refl, some, traverse, traverse-ne-panic-All, ℕ, ℤ, ◌<◌, ◌≡◌, ◌≢◌,
}

-- A transaction of a block: it carries the block's slot and time, and holds a transfer.
abbrev pub BelongsTo : BlockMetadata → Transaction → Type 0
BelongsTo metadata tx =
    (tx.slot ≡ metadata.slot) × (tx.block_time ≡ metadata.block_time) × (tx.instruction_groups ≢ [])

-- A reply that the parser can read without a panic: every transaction that decodes is signed, and
-- the inner instructions name at least two accounts each.
pub record IsSafe {E : Type 0} (sdk : Sdk E) (encoded : EncodedTransactionWithStatusMeta E)
    : Type 0 where
  pub is_signed :
      (tx : VersionedTransaction)
      → sdk.decode encoded.transaction ≡ some tx
      → 0 < length tx.signatures
  pub names_two :
      (meta : UiTransactionStatusMeta)
      → encoded.meta ≡ some meta
      → AllNameTwo meta.inner_instructions

module _ {E : Type 0} (sdk : Sdk E) where
  parse_encoded_transaction-BelongsTo :
      (slot : ℕ) (block_time : ℤ) (encoded : EncodedTransactionWithStatusMeta E) (t : Transaction)
      → parse_encoded_transaction sdk slot block_time encoded ≡ ok (some t)
      → (t.slot ≡ slot) × (t.block_time ≡ block_time) × (t.instruction_groups ≢ [])
  unfolding parse_encoded_transaction
  parse_encoded_transaction-BelongsTo slot block_time encoded t h =
      let (tx, e1, h1) = >>=-eq-ok (ok_or (sdk.decode encoded.transaction) _) _ h in
      let (meta, e2, h2) = >>=-eq-ok (ok_or encoded.meta _) _ h1 in
      let (signature, e3, h3) = >>=-eq-ok (index tx.signatures 0) _ h2 in
      let (groups, e4, h4) = >>=-eq-ok (parse_instruction_groups sdk tx meta) _ h3 in
      let (filled, same) = unless_empty-some groups _ t (ok-injective h4) in
      rw (← same) (refl, refl, filled)

  -- A parsed block carries the reply's slot, parent, time, height and hashes, which are there, and
  -- each of its transactions carries the block's slot and time and holds at least one transfer.
  pub parse_ui_confirmed_block-contents :
      (block : UiConfirmedBlock E) (slot : ℕ) {b : BlockInfo}
      → parse_ui_confirmed_block sdk block slot ≡ ok b
      → (b.metadata.slot ≡ slot)
        × (b.metadata.parent_slot ≡ block.parent_slot)
        × (block.block_time ≡ some b.metadata.block_time)
        × (block.block_height ≡ some b.metadata.block_height)
        × (b.metadata.blockhash ≡ block.blockhash)
        × (b.metadata.parent_blockhash ≡ block.previous_blockhash)
        × All (BelongsTo b.metadata) b.transactions
  unfolding parse_ui_confirmed_block
  parse_ui_confirmed_block-contents block slot h =
      let (block_time, e1, h1) = >>=-eq-ok (ok_or block.block_time _) _ h in
      let (transactions, e2, h2) =
        >>=-eq-ok
          (traverse (parse_encoded_transaction sdk slot block_time) (or_empty block.transactions)) _
          h1 in
      let (block_height, e3, h3) = >>=-eq-ok (ok_or block.block_height _) _ h2 in
      rw (← ok-injective h3) (
        refl,
        refl,
        ok_or-eq-ok block.block_time _ e1,
        ok_or-eq-ok block.block_height _ e3,
        refl,
        refl,
        All-flatten (parse_encoded_transaction sdk slot block_time)
            (λ t. (t.slot ≡ slot) × (t.block_time ≡ block_time) × (t.instruction_groups ≢ []))
            (parse_encoded_transaction-BelongsTo slot block_time) (or_empty block.transactions) e2,
      )

  parse_encoded_transaction-ne-panic :
      (slot : ℕ) (block_time : ℤ) (encoded : EncodedTransactionWithStatusMeta E)
      → IsSafe sdk encoded
      → parse_encoded_transaction sdk slot block_time encoded ≢ panic
  unfolding parse_encoded_transaction
  parse_encoded_transaction-ne-panic slot block_time encoded safe =
      >>=-ne-panic (ok_or (sdk.decode encoded.transaction) _) _
        (ok_or-ne-panic (sdk.decode encoded.transaction) _)
        λ tx e1. >>=-ne-panic (ok_or encoded.meta _) _ (ok_or-ne-panic encoded.meta _) λ meta e2.
          >>=-ne-panic (index tx.signatures 0) _
            (index-ne-panic IndexerError tx.signatures 0
              (safe.is_signed tx (ok_or-eq-ok (sdk.decode encoded.transaction) _ e1)))
            λ signature _.
              >>=-ne-panic (parse_instruction_groups sdk tx meta) _
                (parse_instruction_groups-ne-panic sdk tx meta
                  (safe.names_two meta (ok_or-eq-ok encoded.meta _ e2)))
                (λ groups _ p. cc)

  -- The parser of RPC blocks does not panic, whatever is missing from the reply, if every
  -- transaction that decodes is signed and every inner instruction names at least two accounts.
  pub parse_ui_confirmed_block-ne-panic :
      (block : UiConfirmedBlock E) (slot : ℕ)
      → All (IsSafe sdk) (or_empty block.transactions)
      → parse_ui_confirmed_block sdk block slot ≢ panic
  unfolding parse_ui_confirmed_block
  parse_ui_confirmed_block-ne-panic block slot safe =
      >>=-ne-panic (ok_or block.block_time _) _ (ok_or-ne-panic block.block_time _) λ block_time _.
        >>=-ne-panic
          (traverse (parse_encoded_transaction sdk slot block_time) (or_empty block.transactions)) _
          (traverse-ne-panic-All (parse_encoded_transaction sdk slot block_time)
            (or_empty block.transactions)
            (All-map (parse_encoded_transaction-ne-panic slot block_time)
              (or_empty block.transactions) safe))
          λ transactions _.
            >>=-ne-panic (ok_or block.block_height _) _ (ok_or-ne-panic block.block_height _)
              (λ block_height _ p. cc)
