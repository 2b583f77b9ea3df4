-- ===== src/Pow/Target.antt =====
-- pow/target.go: the target of a difficulty, and the test of a hash against it.
pub mod Bounds
use xelis_pool.Common.{
  ℕ, zero, suc, ◌-◌, ◌/◌, ◌%◌, ◌^◌, Bool, true, false, [], ◌∷◌, length, replicate, ltb, ◌==◌,
  if◌then◌else◌,
}
use xelis_pool.Common.Bytes.{Bytes, be_bytes, be_value}
use xelis_pool.Common.Big.{big_bytes}
use xelis_pool.Pow.BlockMiner.{set_from}

-- "ff…ff", 64 digits.
abbrev pub max_big_int : ℕ
max_big_int = 2 ^ 256 - 1

unfoldable pub get_target : ℕ → ℕ
get_target diff = if diff == 0 then 0 else max_big_int / be_value (be_bytes 8 diff)

-- The target in 32 bytes, copied to the end of a zeroed array.
unfoldable pub get_target_bytes : ℕ → Bytes
get_target_bytes diff =
    let byt = big_bytes (get_target diff) in set_from (32 - length byt) byt (replicate 32 0)

-- `bytes.Compare(a, b) <= 0`
unfoldable pub lex_le : Bytes → Bytes → Bool
lex_le [] ys = true
lex_le (x ∷ xs) [] = false
lex_le (x ∷ xs) (y ∷ ys) =
    let rest = lex_le xs ys in if ltb x y then true else if ltb y x then false else rest

unfoldable pub check_diff : Bytes → ℕ → Bool
check_diff hash diff = lex_le hash (get_target_bytes diff)
