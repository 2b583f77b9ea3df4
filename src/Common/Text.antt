-- ===== src/Common/Text.antt =====
-- Text operations of Go's strings and strconv, and of util/util.go, on bytes.
use Prim.Native.Nat.{ℕ, ◌+◌, ◌-◌, ◌*◌, ◌^◌}
use mathlib.Core.Bool.{◌&&◌}
use mathlib.Core.Option.{Option, none, some}
use mathlib.Core.List.{List, [], ◌∷◌}
use xelis_pool.Common.Tests.{ltb, leb, ◌==◌, if◌then◌else◌}
use xelis_pool.Common.Bytes.{Bytes}

-- `strings.SplitN(s, sep, 2)` with a separator of one byte: what stands before the first separator
-- and behind it; `none` where there is none.
unfoldable pub split_first : ℕ → Bytes → Option (Bytes × Bytes)
split_first sep [] = none
split_first sep (c ∷ cs) = elim (split_first sep cs) [
  | none ↦ if c == sep then some ([], cs) else none
  | some (x, y) ↦ if c == sep then some ([], cs) else some (c ∷ x, y)
]

-- `strings.Split` with a separator of one byte.
unfoldable pub split : ℕ → Bytes → List Bytes
split sep [] = [] ∷ []
split sep (c ∷ cs) = elim (split sep cs) [
  | [] ↦ []
  | x ∷ xs ↦ if c == sep then [] ∷ x ∷ xs else (c ∷ x) ∷ xs
]

-- `strings.ReplaceAll` of one byte by another.
unfoldable pub replace_all : ℕ → ℕ → Bytes → Bytes
replace_all old new [] = []
replace_all old new (c ∷ cs) = (if c == old then new else c) ∷ replace_all old new cs

unfoldable pub digits : ℕ → Bytes → Option ℕ
digits acc [] = some acc
digits acc (c ∷ cs) =
    let rest = digits (acc * 10 + (c - 48)) cs in if leb 48 c && leb c 57 then rest else none

-- `strconv.ParseUint(s, 10, 64)`; `none` is an error.
unfoldable pub parse_uint : Bytes → Option ℕ
unfolding digits
parse_uint [] = none
parse_uint (c ∷ cs) = elim (digits 0 (c ∷ cs)) [
  | none ↦ none
  | some v ↦ if ltb v (2 ^ 64) then some v else none
]

-- `util.RemovePort` of util/util.go: what stands before the first colon.
unfoldable pub remove_port : Bytes → Bytes
unfolding split
remove_port s = elim (split 58 s) [ [] ↦ [] | x ∷ xs ↦ x ]
