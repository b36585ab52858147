-- ===== src/Indexer/Messenger/Workers/Accounts.antt =====
-- What a worker's step does to the chunks that wait, are being indexed, are stored and are lost.
use itihas.Indexer.Db.{Driver, Statement}
use itihas.Indexer.Messenger.Workers.{
  Work, Worker, fails, finds_closed, idle, indexes, indexing, panics, receives, shuts_down,
  spawn_workers, stopped,
}
use itihas.Indexer.Types.{IndexerError}
use itihas.Prelude.{
  List, Option, Result, String, [], arith, length, ok, refl, suc, total, total-append, zero, ℕ, ◌*◌,
  ◌+◌, ◌++◌, ◌<◌, ◌≡◌, ◌∷◌,
}

module _ {A : Type 0} where
  -- The chunks that workers index.
  abbrev pub held : List (Worker A) → List A
  held [] = []
  held (idle ∷ workers) = held workers
  held (indexing chunk ∷ workers) = chunk ∷ held workers
  held (stopped ∷ workers) = held workers

  held-append : (s t : List (Worker A)) → held (s ++ t) ≡ held s ++ held t
  held-append [] t = refl
  held-append (idle ∷ s) t = held-append s t
  held-append (indexing chunk ∷ s) t = rw (held-append s t)
  held-append (stopped ∷ s) t = held-append s t

  pub held-spawn_workers : (workers : ℕ) → held (spawn_workers workers) ≡ []
  held-spawn_workers zero = refl
  held-spawn_workers (suc workers) = held-spawn_workers workers

  -- The steps that a worker can take before it awaits the channel for good.
  abbrev pub steps_left : Worker A → ℕ
  steps_left idle = 1
  steps_left (indexing chunk) = 2
  steps_left stopped = 0

total-held :
    {A : Type 0} (weight : A → ℕ) (before : List (Worker A)) (w : Worker A)
    (after : List (Worker A))
    → total weight (held (before ++ w ∷ after))
      ≡ total weight (held before) + total weight (held (w ∷ [])) + total weight (held after)
total-held weight before w after =
    let split = total-append weight (held before) (held (w ∷ []) ++ held after) in
    let one = total-append weight (held (w ∷ [])) (held after) in
    rw (held-append before (w ∷ after), held-append (w ∷ []) after) (omega (arith, split, one))

module _ {A : Type 0}
    (index : Driver → List (List Statement) → A → Result IndexerError (List (List Statement)))
    (closed : Option String) where
  Work-weighs :
      (weight : A → ℕ) (stored : List (List Statement) → ℕ) {w v : Worker A}
      {queue rest lost left : List A} {history next : List (List Statement)}
      → ((driver : Driver) (h : List (List Statement)) (chunk : A) (k : List (List Statement))
          → index driver h chunk ≡ ok k
          → stored k ≡ stored h + weight chunk)
      → Work index closed w queue history lost v rest next left
      → stored next + total weight left + total weight (held (v ∷ [])) + total weight rest
        ≡ stored history + total weight lost + total weight (held (w ∷ [])) + total weight queue
  Work-weighs weight stored stores receives = omega arith
  Work-weighs weight stored stores (finds_closed e) = refl
  Work-weighs weight stored stores shuts_down = refl
  Work-weighs weight stored stores (indexes {chunk} {history} {after} driver e) =
      omega (arith, stores driver history chunk after e)
  Work-weighs weight stored stores (fails {chunk} {lost} driver e) =
      omega (arith, total-append weight lost (chunk ∷ []))
  Work-weighs weight stored stores (panics {chunk} {lost} driver e) =
      omega (arith, total-append weight lost (chunk ∷ []))

  Work-less :
      {w v : Worker A} {queue rest lost left : List A} {history next : List (List Statement)}
      → Work index closed w queue history lost v rest next left
      → steps_left v + 3 * length rest < steps_left w + 3 * length queue
  Work-less receives = omega arith
  Work-less (finds_closed e) = omega arith
  Work-less shuts_down = omega arith
  Work-less (indexes driver e) = omega arith
  Work-less (fails driver e) = omega arith
  Work-less (panics driver e) = omega arith

  -- What is stored, lost, held and waiting changes together, if what is stored grows by the weight of
  -- a chunk that is indexed.
  pub Work-accounts :
      (weight : A → ℕ) (stored : List (List Statement) → ℕ) (before after : List (Worker A))
      {w v : Worker A} {queue rest lost left : List A} {history next : List (List Statement)}
      → ((driver : Driver) (h : List (List Statement)) (chunk : A) (k : List (List Statement))
          → index driver h chunk ≡ ok k
          → stored k ≡ stored h + weight chunk)
      → Work index closed w queue history lost v rest next left
      → stored next
          + total weight left
          + total weight (held (before ++ v ∷ after))
          + total weight rest
        ≡ stored history
          + total weight lost
          + total weight (held (before ++ w ∷ after))
          + total weight queue
  Work-accounts weight stored before after {w} {v} stores work = omega (
    arith,
    total-held weight before w after,
    total-held weight before v after,
    Work-weighs weight stored stores work,
  )

  -- What no call of `index` changes, no step of a worker changes.
  pub Work-keeps :
      (stored : List (List Statement) → ℕ) {w v : Worker A} {queue rest lost left : List A}
      {history next : List (List Statement)}
      → ((driver : Driver) (h : List (List Statement)) (chunk : A) (k : List (List Statement))
          → index driver h chunk ≡ ok k
          → stored k ≡ stored h)
      → Work index closed w queue history lost v rest next left
      → stored next ≡ stored history
  Work-keeps stored keeps receives = refl
  Work-keeps stored keeps (finds_closed e) = refl
  Work-keeps stored keeps shuts_down = refl
  Work-keeps stored keeps (indexes {chunk} {history} {after} driver e) =
      keeps driver history chunk after e
  Work-keeps stored keeps (fails driver e) = refl
  Work-keeps stored keeps (panics driver e) = refl

  -- Every step of a worker takes it nearer to waiting for good, counting three steps to a chunk that
  -- waits.
  pub Work-decreases :
      (before after : List (Worker A)) {w v : Worker A} {queue rest lost left : List A}
      {history next : List (List Statement)}
      → Work index closed w queue history lost v rest next left
      → total steps_left (before ++ v ∷ after) + 3 * length rest
        < total steps_left (before ++ w ∷ after) + 3 * length queue
  Work-decreases before after {w} {v} work =
      let less = Work-less work in
      omega (
        arith,
        total-append steps_left before (w ∷ after),
        total-append steps_left before (v ∷ after),
        less,
      )
