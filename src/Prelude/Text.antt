-- ===== src/Prelude/Text.antt =====
-- Rust strings as native texts: equality is decided by the library's test.
use Prim.Native.String.{String, ◌++◌}
use Prim.Native.Nat.{ℕ}
use mathlib.Core.List.{List}
use mathlib.Core.Logic.{inl, inr}
use text.Mathlib.Text.{◌==◌ as str_eq}
use text.Mathlib.TextEquality.{eq_iff}
use Prim.Native.Char.{Char, code}
use mathlib.Core.Option.{Option, none, some}
use text.Mathlib.TextBridge.{of_list, to_list}
use itihas.Prelude.Lists.{filter_map}
use itihas.Prelude.Tests.{Bool-cases, if◌then◌else◌, ◌==◌}

-- `Vec<u8>`
abbrev pub Bytes : Type 0
Bytes = List ℕ

unfoldable pub String-discrete : Discrete String
unfolding Bool-cases
String-discrete a b = elim (Bool-cases (str_eq a b)) [
  | inl same ↦ yes ((eq_iff a b).0 same)
  | inr other ↦ no (λ p. cc ((eq_iff a b).1 p))
]

-- `format!("{}{}", a, b)`
unfoldable pub text_append : String → String → String
text_append a b = a ++ b

abbrev keep_char : Char → Option Char
keep_char c = if code c == 0 then none else some c

-- `replace('\0', "")`
unfoldable pub remove_nul : String → String
remove_nul s = of_list (filter_map keep_char (to_list s))
