-- ===== src/Indexer/Poller/Tests.antt =====
-- Slots 5 to 7, of which 6 was skipped, whose requests are answered in reverse order.
use mathlib.Core.List.{Permᴰ}
use mathlib.Core.List.Permᴰ
use itihas.Indexer.Parser.Rpc.Block.{parse_ui_confirmed_block}
use itihas.Indexer.Poller.{
  first_slot, Reply, block, ended, fetched, unwound, get_block, get_poller_block_stream,
  other_error, response_error,
}
use itihas.Indexer.Poller.Replies.{SaysSkipped, get_block-retries}
use itihas.Indexer.Poller.Unwinding.{get_poller_block_stream-unwinds}
use itihas.Indexer.Poller.Stream.{get_poller_block_stream-finite}
use itihas.Indexer.Sdk.{Sdk, UiConfirmedBlock}
use itihas.Indexer.Types.{BlockInfo, IndexerError, parser_error}
use itihas.Prelude.{
  consecutive, ◌≤◌, ℤ, String, ◌-◌, panic, ◌≢◌, List, Result, [], arith, err, if◌then◌else◌, inl,
  negsuc, none, ok, pos, refl, some, ℕ, ◌++◌, ◌==◌, ◌≡◌, ◌∷◌,
}

abbrev block_at : ℕ → BlockInfo
block_at slot = record {
  metadata = record {
    slot = slot;
    parent_slot = slot - 1;
    block_time = pos 100;
    blockhash = "b";
    parent_blockhash = "a";
    block_height = 5;
  };
  transactions = [];
}

abbrev fetch : ℕ → Result IndexerError BlockInfo
fetch slot = if slot == 6 then err (parser_error "skipped") else ok (block_at slot)

fetch_slot : (slot : ℕ) (b : BlockInfo) → fetch slot ≡ ok b → b.metadata.slot ≡ slot
fetch_slot slot b h = ground arith

fetch_calm : (slot : ℕ) → fetch slot ≢ panic
fetch_calm slot = ground arith

abbrev reverse_two : List ℕ → List ℕ
reverse_two [] = []
reverse_two (s ∷ []) = s ∷ []
reverse_two (s ∷ t ∷ slots) = t ∷ s ∷ slots

reverse_two-Permᴰ : (slots : List ℕ) → Permᴰ (reverse_two slots) slots
reverse_two-Permᴰ [] = Permᴰ.nil
reverse_two-Permᴰ (s ∷ []) = Permᴰ.refl (s ∷ [])
reverse_two-Permᴰ (s ∷ t ∷ slots) = Permᴰ.swap refl refl

get_poller_block_stream-finite_example :
    get_poller_block_stream fetch reverse_two 2 9 4 (some 7) 20 []
    ≡ (block_at 5 ∷ block_at 7 ∷ [], ended)
unfolding consecutive first_slot
get_poller_block_stream-finite_example =
    get_poller_block_stream-finite fetch fetch_slot reverse_two reverse_two-Permᴰ 2 9 4 7 20 []
      (omega arith) (omega arith) (λ slot low high. fetch_calm slot)

-- A node whose block of slot 7 makes the parser panic.
abbrev failing : ℕ → Result IndexerError BlockInfo
failing slot = if slot == 7 then panic else ok (block_at slot)

failing-slot : (slot : ℕ) (b : BlockInfo) → failing slot ≡ ok b → b.metadata.slot ≡ slot
failing-slot slot b h = ground arith

get_poller_block_stream-unwinds_example :
    (n : ℕ) × (n ≤ 2)
    × (get_poller_block_stream failing reverse_two 2 9 4 (some 9) 20 []
        ≡ (fetched failing (consecutive n 5), unwound))
unfolding first_slot
get_poller_block_stream-unwinds_example =
    get_poller_block_stream-unwinds failing failing-slot reverse_two reverse_two-Permᴰ 2 9 4 9 7 20
      [] (omega arith) (omega arith) (omega arith) (omega arith) refl

-- No transaction of the reply is looked at, so no function of the crates is called.
abbrev no_sdk : Sdk ⊥
no_sdk = record {
  decode = λ e. none;
  pubkey_from_str = λ text. inl "none";
  pubkey_try_from = λ bytes. none;
  signature_try_from = λ bytes. none;
  find_program_address = λ seeds program. (program, 0);
  unpack = λ bytes. none;
  bs58_decode = λ text. inl "none";
  from_utf8 = λ bytes. none;
}

abbrev reply : UiConfirmedBlock ⊥
reply = record {
  previous_blockhash = "a";
  blockhash = "b";
  parent_slot = 4;
  transactions = none;
  block_time = some (pos 100);
  block_height = some 5;
}

abbrev failures : List (Reply ⊥)
failures = other_error "timeout" ∷ response_error (negsuc 32004) "not yet" ∷ []

get_block-retries_example :
    (get_block no_sdk 5 failures ≡ none)
    × ((b : UiConfirmedBlock ⊥)
        → get_block no_sdk 5 (failures ++ block b ∷ block reply ∷ [])
          ≡ some (parse_ui_confirmed_block no_sdk b 5))
    × ((code : ℤ) (text : String)
        → SaysSkipped code
        → get_block no_sdk 5 (failures ++ response_error code text ∷ block reply ∷ [])
          ≡ some (err (parser_error text)))
get_block-retries_example =
    get_block-retries no_sdk 5 failures (block reply ∷ []) (tt, ((λ s. ground arith), tt))
