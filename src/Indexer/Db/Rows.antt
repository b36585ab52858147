-- ===== src/Indexer/Db/Rows.antt =====
-- The rows of statements, and the statements of the loops over chunks.
use mathlib.Core.List.{append-nil, append_assoc}
use itihas.Dao.{Block, TokenTransfer}
use itihas.Indexer.Db.{
  Driver, Statement, block_model, execute, fails, index_chunks, index_transactions_without_commit,
  insert_blocks, insert_chunks, insert_rows, insert_transfers, transaction_rows, transfer_model,
  transfer_row,
}
use itihas.Indexer.Types.{BlockMetadata, InstructionGroup, Transaction}
use itihas.Prelude.{
  concat, arith, traverse-cons-eq-ok, >>=-eq-ok, List, [], ap, map, ok, ok-injective, refl, sym,
  traverse, ℤ, ◌++◌, ◌≡◌, ◌∙◌, ◌∷◌,
}

-- The rows that statements insert into each of the tables.
unfoldable pub block_rows : List Statement → List Block
block_rows [] = []
block_rows (insert_blocks rows ∷ statements) = rows ++ block_rows statements
block_rows (insert_transfers rows ∷ statements) = block_rows statements

unfoldable pub transfer_rows : List Statement → List TokenTransfer
transfer_rows [] = []
transfer_rows (insert_blocks rows ∷ statements) = transfer_rows statements
transfer_rows (insert_transfers rows ∷ statements) = rows ++ transfer_rows statements

-- The rows that transactions stand for: one for each of their groups.
unfoldable pub rows_of : ℤ → List Transaction → List TokenTransfer
rows_of now [] = []
rows_of now (t ∷ ts) = map (transfer_model now t) t.instruction_groups ++ rows_of now ts

pub block_rows-append : (s t : List Statement) → block_rows (s ++ t) ≡ block_rows s ++ block_rows t
unfolding block_rows
block_rows-append [] t = refl
block_rows-append (insert_blocks rows ∷ s) t =
    ap (λ rest. rows ++ rest) (block_rows-append s t)
    ∙ sym (append_assoc rows (block_rows s) (block_rows t))
block_rows-append (insert_transfers rows ∷ s) t = block_rows-append s t

pub transfer_rows-append :
    (s t : List Statement) → transfer_rows (s ++ t) ≡ transfer_rows s ++ transfer_rows t
unfolding transfer_rows
transfer_rows-append [] t = refl
transfer_rows-append (insert_blocks rows ∷ s) t = transfer_rows-append s t
transfer_rows-append (insert_transfers rows ∷ s) t =
    ap (λ rest. rows ++ rest) (transfer_rows-append s t)
    ∙ sym (append_assoc rows (transfer_rows s) (transfer_rows t))

map-append : {A B : Type 0} (f : A → B) (xs ys : List A) → map f (xs ++ ys) ≡ map f xs ++ map f ys
map-append f [] ys = refl
map-append f (x ∷ xs) ys = ap (λ rest. f x ∷ rest) (map-append f xs ys)

rows_of-append :
    (now : ℤ) (s t : List Transaction) → rows_of now (s ++ t) ≡ rows_of now s ++ rows_of now t
unfolding rows_of
rows_of-append now [] t = refl
rows_of-append now (x ∷ s) t =
    ap (λ rest. map (transfer_model now x) x.instruction_groups ++ rest) (rows_of-append now s t)
    ∙ sym (
        append_assoc (map (transfer_model now x) x.instruction_groups) (rows_of now s)
          (rows_of now t))

module _ (driver : Driver) where
  pub execute-eq-ok :
      (txn : List Statement) (statement : Statement) {next : List Statement}
      → execute driver txn statement ≡ ok next
      → next ≡ txn ++ statement ∷ []
  execute-eq-ok txn statement h =
      let (_, _, h1) = >>=-eq-ok (fails (driver.execute txn statement)) _ h in sym (ok-injective h1)

  pub insert_chunks-writes :
      (txn : List Statement) (parts : List (List BlockMetadata)) {next : List Statement}
      → insert_chunks driver txn parts ≡ ok next
      → (block_rows next ≡ block_rows txn ++ map block_model (concat parts))
        × (transfer_rows next ≡ transfer_rows txn)
  unfolding block_rows transfer_rows
  insert_chunks-writes txn [] h = rw (← ok-injective h) (sym (append-nil (block_rows txn)), refl)
  insert_chunks-writes txn (part ∷ parts) h =
      let (step, e, h1) =
        >>=-eq-ok (execute driver txn (insert_blocks (map block_model part))) _ h in
      let (bs, ts) = insert_chunks-writes step parts h1 in
      let e1 = execute-eq-ok txn (insert_blocks (map block_model part)) e in
      let one = insert_blocks (map block_model part) ∷ [] in
      (
        rw (
          bs,
          e1,
          block_rows-append txn one,
          append-nil (map block_model part),
          append_assoc (block_rows txn) (map block_model part) (map block_model (concat parts)),
          map-append block_model part (concat parts),
        ),
        rw (ts, e1, transfer_rows-append txn one) (append-nil (transfer_rows txn)),
      )

  transfer_row-eq-ok :
      (t : Transaction) (g : InstructionGroup) {row : TokenTransfer}
      → transfer_row driver t g ≡ ok row
      → row ≡ transfer_model driver.now t g
  transfer_row-eq-ok t g h = ground arith

  transaction_rows-eq-ok :
      (t : Transaction) (groups : List InstructionGroup) {rows : List TokenTransfer}
      → traverse (transfer_row driver t) groups ≡ ok rows
      → rows ≡ map (transfer_model driver.now t) groups
  transaction_rows-eq-ok t [] h = sym (ok-injective h)
  transaction_rows-eq-ok t (g ∷ gs) h =
      let (row, rows, e1, e2, e3) = traverse-cons-eq-ok (transfer_row driver t) g gs h in
      let ih = transaction_rows-eq-ok t gs e2 in rw (e3, transfer_row-eq-ok t g e1, ih)

  pub all_rows-eq-ok :
      (ts : List Transaction) {rows : List (List TokenTransfer)}
      → traverse (transaction_rows driver) ts ≡ ok rows
      → concat rows ≡ rows_of driver.now ts
  unfolding rows_of
  all_rows-eq-ok [] h = rw (← ok-injective h)
  all_rows-eq-ok (t ∷ ts) h =
      let (row, rows, e1, e2, e3) = traverse-cons-eq-ok (transaction_rows driver) t ts h in
      rw (e3, transaction_rows-eq-ok t t.instruction_groups e1, all_rows-eq-ok ts e2)

  insert_rows-writes :
      (txn : List Statement) (rows : List TokenTransfer) {next : List Statement}
      → insert_rows driver txn rows ≡ ok next
      → (block_rows next ≡ block_rows txn) × (transfer_rows next ≡ transfer_rows txn ++ rows)
  unfolding block_rows transfer_rows
  insert_rows-writes txn [] h = rw (← ok-injective h) (refl, sym (append-nil (transfer_rows txn)))
  insert_rows-writes txn (row ∷ rows) h =
      let e = execute-eq-ok txn (insert_transfers (row ∷ rows)) h in
      let one = insert_transfers (row ∷ rows) ∷ [] in
      (
        rw (e, block_rows-append txn one) (append-nil (block_rows txn)),
        rw (e, transfer_rows-append txn one, append-nil (row ∷ rows)),
      )

  pub index_transactions-writes :
      (txn : List Statement) (ts : List Transaction) {next : List Statement}
      → index_transactions_without_commit driver txn ts ≡ ok next
      → (block_rows next ≡ block_rows txn)
        × (transfer_rows next ≡ transfer_rows txn ++ rows_of driver.now ts)
  unfolding index_transactions_without_commit
  index_transactions-writes txn ts h =
      let (rows, e1, e2) = >>=-eq-ok (traverse (transaction_rows driver) ts) _ h in
      let (b, t) = insert_rows-writes txn (concat rows) e2 in (b, rw (t, all_rows-eq-ok ts e1))

  pub index_chunks-writes :
      (txn : List Statement) (parts : List (List Transaction)) {next : List Statement}
      → index_chunks driver txn parts ≡ ok next
      → (block_rows next ≡ block_rows txn)
        × (transfer_rows next ≡ transfer_rows txn ++ rows_of driver.now (concat parts))
  unfolding index_chunks rows_of
  index_chunks-writes txn [] h = rw (← ok-injective h) (refl, sym (append-nil (transfer_rows txn)))
  index_chunks-writes txn (part ∷ parts) h =
      let (step, e, h1) = >>=-eq-ok (index_transactions_without_commit driver txn part) _ h in
      let (b1, t1) = index_transactions-writes txn part e in
      let (b2, t2) = index_chunks-writes step parts h1 in
      (
        b2 ∙ b1,
        rw (
          t2,
          t1,
          append_assoc (transfer_rows txn) (rows_of driver.now part)
              (rows_of driver.now (concat parts)),
          rows_of-append driver.now part (concat parts),
        ),
      )
