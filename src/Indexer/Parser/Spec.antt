-- ===== src/Indexer/Parser/Spec.antt =====
-- What the parsers are to find: the token transfers of a message, read off its instructions.
use itihas.Indexer.Sdk.{CompiledInstruction}
use itihas.Indexer.Types.{InstructionGroup, Pubkey}
use itihas.Prelude.{Bool, Bytes, Option, get_elem?, if◌then◌else◌, none, some, ℕ}

pub record Transfer : Type 0 where
  pub program : Pubkey
  pub source : Pubkey
  pub destination : Pubkey
  pub amount : ℕ

infixl 5 ◌>>=◌
abbrev pub ◌>>=◌ {ℓ κ} : {A : Type ℓ} {B : Type κ} → Option A → (A → Option B) → Option B
none >>= f = none
some a >>= f = f a

module _ (is_token : Pubkey → Bool) (amount_of : Bytes → Option ℕ) where
  -- The transfer of a program, its data and its accounts, if they are one: the program is a token
  -- program, the data a `Transfer`, and the first two accounts the source and the destination.
  abbrev pub transfer_in : Pubkey → Bytes → Option Pubkey → Option Pubkey → Option Transfer
  transfer_in program payload first second = do
    source ← first
    destination ← second
    amount ← amount_of payload
    if is_token program
        then some (record {
          program = program;
          source = source;
          destination = destination;
          amount = amount;
        })
        else none

  -- The same of an instruction, whose program and accounts are indices.
  abbrev pub token_transfer : (ℕ → Option Pubkey) → CompiledInstruction → Option Transfer
  token_transfer key_of ix = do
    program ← key_of ix.program_id_index
    transfer_in program ix.payload (get_elem? ix.accounts 0 >>= key_of)
        (get_elem? ix.accounts 1 >>= key_of)

-- What a group of instructions says of its transfer.
abbrev pub summary : InstructionGroup → Transfer
summary g = record {
  program = g.outer_instruction.program_id;
  source = g.outer_instruction.source_address;
  destination = g.outer_instruction.destination_address;
  amount = g.outer_instruction.amount;
}
