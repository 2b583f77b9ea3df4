-- ===== src/Pow/Algorithm.antt =====
-- pow/hash.go: the names of the proof-of-work algorithms. `strings.ToLower` is modelled on ASCII
-- letters; no other letter has an `x`, an `e`, an `l` or a `v` for its lower case.
pub mod Names
use xelis_pool.Common.{
  ℕ, ◌+◌, ◌≡◌, ◌≢◌, ◌⊎◌, inl, inr, refl, Bool, true, false, ◌&&◌, ◌||◌, [], Option, none, some, map,
  arith, leb, if◌then◌else◌, Bool-cases,
}
use xelis_pool.Common.Bytes.{Bytes, codes, ◌=?◌, =?_iff}

lower_char : ℕ → ℕ
lower_char c = if leb 65 c && leb c 90 then c + 32 else c

unfoldable pub to_lower : Bytes → Bytes
unfolding lower_char
to_lower s = map lower_char s

-- `none` is `ErrUnsupportedPOWAlgorithm`.
unfoldable pub stratum_of : Bytes → Option Bytes
stratum_of a =
    if a =? codes "xel/v1"
    then some (codes "xel/0")
    else if a =? codes "xel/v2"
    then some (codes "xel/1")
    else if a =? codes "xel/v3"
    then some (codes "xel/2")
    else if a =? codes "xel/0" || a =? codes "xel/1" || a =? codes "xel/2"
    then some a
    else none

unfoldable pub convert_algorithm_to_stratum : Bytes → Option Bytes
unfolding stratum_of to_lower
convert_algorithm_to_stratum algorithm = stratum_of (to_lower algorithm)

unfoldable pub getwork_of : Bytes → Option Bytes
getwork_of a =
    if a =? codes "xel/0"
    then some (codes "xel/v1")
    else if a =? codes "xel/1"
    then some (codes "xel/v2")
    else if a =? codes "xel/2"
    then some (codes "xel/v3")
    else if a =? codes "xel/v1" || a =? codes "xel/v2" || a =? codes "xel/v3"
    then some a
    else none

unfoldable pub convert_algorithm_to_getwork : Bytes → Option Bytes
unfolding getwork_of to_lower
convert_algorithm_to_getwork algorithm = getwork_of (to_lower algorithm)

-- github.com/xelis-project/xelis-hash: a hash, or an error.
module _ (hash_v1 hash_v2 hash_v3 : Bytes → Option Bytes) where
  unfoldable pub hash_by_name : Bytes → Bytes → Option Bytes
  hash_by_name d name =
      if name =? codes "xel/v1"
      then hash_v1 d
      else if name =? codes "xel/v2"
      then hash_v2 d
      else if name =? codes "xel/v3"
      then hash_v3 d
      else none

  -- The error of the conversion is ignored; with it the name is empty.
  unfoldable pub pow_hash : Bytes → Bytes → Option Bytes
  pow_hash d algorithm = elim (convert_algorithm_to_getwork algorithm) [
    | none ↦ hash_by_name d []
    | some name ↦ hash_by_name d name
  ]
