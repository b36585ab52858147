-- ===== src/Indexer/Parser.antt =====
-- indexer/src/parser.rs: what the parser of RPC blocks and the parser of gRPC blocks share.
pub mod Rpc
pub mod Grpc
pub mod Spec
pub mod Lookup
pub mod Inversion
pub mod Agreement
mod Tests
use itihas.Indexer.Sdk.{Sdk, TokenInstruction}
use itihas.Indexer.Types.{
  IndexerError, InstructionGroup, Pubkey, Transaction, parser_error, serializaton_error,
}
use itihas.Prelude.{
  Bool, Bytes, List, Option, Result, String, [], err, false, if◌then◌else◌, index, leb, length,
  map_err, none, ok, ok_or, some, text_append, true, ℕ, ◌&&◌, ◌==◌, ◌>>=◌, ◌>>◌, ◌||◌, ◌∷◌,
}

-- `==` of two public keys: their bytes are the same.
abbrev pub pubkey_eq : Pubkey → Pubkey → Bool
pubkey_eq [] [] = true
pubkey_eq (a ∷ p) (b ∷ q) = a == b && pubkey_eq p q
pubkey_eq _ _ = false

abbrev pub token_program_text : String
token_program_text = "TokenkegQfeZyiNwAJbNbGKPFXCWuBvf9Ss623VQ5DA"

abbrev pub token_extensions_program_text : String
token_extensions_program_text = "TokenzQdBNbLqP5VEhdkAS6EPFLC1PHnBqCXEpPxuEb"

abbrev pub spl_associated_token_account_program_id : String
spl_associated_token_account_program_id = "ATokenGPvbdGVxr1b2hvZbsiqW5xWH25efTNsLJA8knL"

-- `From<ParsePubkeyError> for IndexerError` (indexer/src/error.rs), on the text of the error.
abbrev pub from_parse_pubkey_error : String → IndexerError
from_parse_pubkey_error text = serializaton_error (text_append "ParsePubkeyError: " text)

-- The test `program_id == token_program_id || program_id == token_extensions_program_id`.
abbrev pub is_token_program : Pubkey → Pubkey → Pubkey → Bool
is_token_program token extensions program = pubkey_eq program token || pubkey_eq program extensions

-- `if cond { body }` around a body that yields at most one element.
abbrev pub when {ℓ} : {E : Type 0} {A : Type ℓ} → Bool → Result E (Option A) → Result E (Option A)
when true r = r
when false r = ok none

-- `vec.push(x)` in a loop, as the element in front of what the later rounds push.
abbrev pub push {ℓ} : {A : Type ℓ} → Option A → List A → List A
push none xs = xs
push (some x) xs = x ∷ xs

-- `unwrap_or(Vec::new())`
abbrev pub or_empty {ℓ} : {A : Type ℓ} → Option (List A) → List A
or_empty none = []
or_empty (some xs) = xs

-- `into_iter().flatten()` on a vector of options.
abbrev pub flatten {ℓ} : {A : Type ℓ} → List (Option A) → List A
flatten [] = []
flatten (none ∷ xs) = flatten xs
flatten (some x ∷ xs) = x ∷ flatten xs

-- The early return on an empty list of groups.
abbrev pub unless_empty : List InstructionGroup → Transaction → Option Transaction
unless_empty [] tx = none
unless_empty (g ∷ gs) tx = some tx

-- `for x in xs { … vec.push(y) … }`, where a round pushes what its body yields.
module _ {ℓ κ} {E : Type 0} {A : Type ℓ} {B : Type κ} (body : A → Result E (Option B)) where
  abbrev pub push_each : List A → Result E (List B)
  push_each [] = ok []
  push_each (x ∷ xs) = body x >>= λ pushed. push_each xs >>= λ rest. ok (push pushed rest)

module _ {E : Type 0} (sdk : Sdk E) where
  -- `Pubkey::from_str(text)?`
  abbrev pub pubkey_of : String → Result IndexerError Pubkey
  pubkey_of text = map_err (sdk.pubkey_from_str text) from_parse_pubkey_error

  -- `if let Ok(Transfer { amount }) = TokenInstruction::unpack(&data)`
  abbrev pub transfer_amount : Bytes → Option ℕ
  transfer_amount payload = elim (sdk.unpack payload) [
    | none ↦ none
    | some instruction ↦ elim instruction [
      | TokenInstruction.transfer amount ↦ some amount
      | TokenInstruction.other ↦ none
    ]
  ]

  unfoldable pub find_associated_token_address :
      Pubkey → Pubkey → Option Pubkey → Result IndexerError Bytes
  find_associated_token_address owner mint program_id = do
    associated ←
        map_err (sdk.pubkey_from_str spl_associated_token_account_program_id)
          (λ _. parser_error spl_associated_token_account_program_id)
    token_program_id ← ok_or program_id (parser_error "invalid program id")
    ok (sdk.find_program_address (owner ∷ token_program_id ∷ mint ∷ []) associated).0

-- The closure that looks up an account index, under the text of its error.
unfoldable pub checked_account : List Pubkey → String → ℕ → Result IndexerError Pubkey
checked_account accounts text i =
    if leb (length accounts) i then err (parser_error text) else index accounts i
