-- ===== src/Indexer/Fallback/Sessions.antt =====
-- Which messages of a gRPC subscription reach the stream.
use itihas.Indexer.Fallback.{Message, block, failure, ping, pong, session_blocks, unknown}
use itihas.Indexer.Parser.Grpc.{parse_block}
use itihas.Indexer.Sdk.{Sdk}
use itihas.Indexer.Types.{BlockInfo, IndexerError}
use itihas.Prelude.{
  All, List, Option, Result, [], err, false, filter_map, none, ok, panic, refl, some, true, ◌++◌,
  ◌>>=◌, ◌≡◌, ◌≢◌, ◌∷◌,
}

-- A message after which the subscription goes on, and one that ends it.
abbrev pub Continues : Message → Type 0
Continues (block b) = Unit
Continues (ping sent) = sent ≡ true
Continues pong = Unit
Continues unknown = Unit
Continues failure = ⊥

abbrev pub Ends : Message → Type 0
Ends (block b) = ⊥
Ends (ping sent) = sent ≡ false
Ends pong = ⊥
Ends unknown = ⊥
Ends failure = Unit

module _ {E : Type 0} (sdk : Sdk E) where
  -- The block that a message brings, if it parses.
  abbrev pub brought : Message → Option BlockInfo
  brought (block b) = elim (parse_block sdk b) [
    | ok parsed ↦ some parsed
    | err e ↦ none
    | panic ↦ none
  ]
  brought (ping sent) = none
  brought pong = none
  brought unknown = none
  brought failure = none

  -- The block of the message can be parsed, or the parser returns an error for it.
  abbrev pub NoPanic : Message → Type 0
  NoPanic (block b) = parse_block sdk b ≢ panic
  NoPanic (ping sent) = Unit
  NoPanic pong = Unit
  NoPanic unknown = Unit
  NoPanic failure = Unit

  block_brought :
      (r : Result IndexerError BlockInfo) (later : Result IndexerError (List BlockInfo))
      (bs : List BlockInfo)
      → r ≢ panic
      → later ≡ ok bs
      → (elim r [
        | ok parsed ↦ later >>= λ more. ok (parsed ∷ more)
        | err e ↦ later
        | panic ↦ panic
      ])
        ≡ ok
            (elim (elim r as (λ _. Option BlockInfo) [
              | ok parsed ↦ some parsed
              | err e ↦ none
              | panic ↦ none
            ]) [ none ↦ bs | some b ↦ b ∷ bs ])
  block_brought (ok parsed) later bs safe h = rw h
  block_brought (err e) later bs safe h = h
  block_brought panic later bs safe h = absurd (safe refl)

  -- A subscription yields the blocks of its messages that parse, in their order, up to the first error
  -- or ping that cannot be answered; the blocks that do not parse are left out and end nothing, and
  -- no message after the end is looked at.
  session_blocks-brought :
      (messages : List Message) (end : Message) (rest : List Message)
      → All Continues messages
      → All NoPanic messages
      → Ends end
      → session_blocks sdk (messages ++ end ∷ rest) ≡ ok (filter_map brought messages)
  unfolding session_blocks
  session_blocks-brought [] (block b) rest c s e = absurd e
  session_blocks-brought [] (ping sent) rest c s e = rw e
  session_blocks-brought [] pong rest c s e = absurd e
  session_blocks-brought [] unknown rest c s e = absurd e
  session_blocks-brought [] failure rest c s e = refl
  session_blocks-brought (block b ∷ messages) end rest c s e =
      let ih = session_blocks-brought messages end rest c.1 s.1 e in
      block_brought (parse_block sdk b) (session_blocks sdk (messages ++ end ∷ rest))
        (filter_map brought messages) s.0 ih
  session_blocks-brought (ping sent ∷ messages) end rest c s e =
      rw c.0 (session_blocks-brought messages end rest c.1 s.1 e)
  session_blocks-brought (pong ∷ messages) end rest c s e =
      session_blocks-brought messages end rest c.1 s.1 e
  session_blocks-brought (unknown ∷ messages) end rest c s e =
      session_blocks-brought messages end rest c.1 s.1 e
  session_blocks-brought (failure ∷ messages) end rest c s e = absurd c.0
