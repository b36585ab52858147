-- ===== src/Indexer/Display.antt =====
-- indexer/src/parser.rs: the texts that `Display` writes for instructions, groups and transactions.
-- The text of an address is that of another crate.
use itihas.Indexer.Types.{Instruction, InstructionGroup, Transaction}
use itihas.Prelude.{Bytes, List, String, [], map, text_append, ◌∷◌}

-- `join(", ")`
abbrev join : List String → String
join [] = ""
join (text ∷ []) = text
join (text ∷ next ∷ rest) = text_append text (text_append ", " (join (next ∷ rest)))

module _ (pubkey_to_string : Bytes → String) where
  abbrev pub instruction_to_string : Instruction → String
  instruction_to_string instruction =
      text_append "Instruction { program_id: "
        (text_append (pubkey_to_string instruction.program_id) "}")

  abbrev pub group_to_string : InstructionGroup → String
  group_to_string group = text_append "InstructionGroup { outer_instruction: " (
      text_append (instruction_to_string group.outer_instruction) (
        text_append ", inner_instructions: ["
          (text_append (join (map instruction_to_string group.inner_instructions)) "] }")))

  abbrev pub transaction_to_string : Transaction → String
  transaction_to_string transaction =
      text_append "Transaction { instruction_groups: ["
        (text_append (join (map group_to_string transaction.instruction_groups)) "] }")
