-- ===== src/Served/Found.antt =====
-- Which transfers of the blocks that were written a request finds on its pages.
use mathlib.Core.Option
use itihas.Api.Query.Meaning as Meaning
use itihas.Api.Query.Meaning.{bytes_at}
use itihas.Dao.{TokenTransfer}
use itihas.Prelude.{Bytes, List, Option, some, ◌≡◌}

-- A row names the addresses that are asked for.
abbrev pub Names : Option Bytes → Option Bytes → TokenTransfer → Type 0
Names source destination row =
    ((a : Bytes) → source ≡ some a → row.source_address ≡ a)
    × ((a : Bytes) → destination ≡ some a → row.destination_address ≡ a)
