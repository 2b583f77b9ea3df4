-- ===== src/Pow/Algorithm/Names.antt =====
-- The two conversions agree on which algorithm a name means.
use xelis_pool.Common.{◌≡◌, ◌⊎◌, inl, inr, refl, Option-cases, none, some, arith}
use xelis_pool.Common.Bytes.{Bytes, codes, ◌=?◌, =?_iff}
use xelis_pool.Pow.Algorithm.{
  to_lower, stratum_of, getwork_of, convert_algorithm_to_stratum, convert_algorithm_to_getwork,
}

-- What the switch of the getwork names gives at each name.
getwork_values :
    (getwork_of (to_lower (codes "xel/0")) ≡ some (codes "xel/v1"))
    × (getwork_of (to_lower (codes "xel/1")) ≡ some (codes "xel/v2"))
    × (getwork_of (to_lower (codes "xel/2")) ≡ some (codes "xel/v3"))
    × (getwork_of (codes "xel/0") ≡ some (codes "xel/v1"))
    × (getwork_of (codes "xel/1") ≡ some (codes "xel/v2"))
    × (getwork_of (codes "xel/2") ≡ some (codes "xel/v3"))
    × (getwork_of (codes "xel/v1") ≡ some (codes "xel/v1"))
    × (getwork_of (codes "xel/v2") ≡ some (codes "xel/v2"))
    × (getwork_of (codes "xel/v3") ≡ some (codes "xel/v3"))
unfolding getwork_of to_lower ◌=?◌
getwork_values = (refl, refl, refl, refl, refl, refl, refl, refl, refl)

module _ (l s : Bytes) where
  same_getwork : stratum_of l ≡ some s → getwork_of (to_lower s) ≡ getwork_of l
  unfolding stratum_of
  same_getwork h = ground (
    arith,
    getwork_values,
    =?_iff l (codes "xel/v1"),
    =?_iff l (codes "xel/v2"),
    =?_iff l (codes "xel/v3"),
    =?_iff l (codes "xel/0"),
    =?_iff l (codes "xel/1"),
    =?_iff l (codes "xel/2"),
  )

supported : (l : Bytes) → stratum_of l ≡ none → getwork_of l ≡ none
unfolding stratum_of getwork_of
supported l h = ground arith

-- A daemon's algorithm name and the stratum name made from it stand for one getwork name; a name
-- that one conversion refuses the other refuses.
pub stratum_name_keeps_algorithm :
    (a : Bytes)
    → ((convert_algorithm_to_stratum a ≡ none) × (convert_algorithm_to_getwork a ≡ none))
      ⊎ ((s : Bytes) × (convert_algorithm_to_stratum a ≡ some s)
          × (convert_algorithm_to_getwork s ≡ convert_algorithm_to_getwork a))
unfolding convert_algorithm_to_stratum convert_algorithm_to_getwork
stratum_name_keeps_algorithm a = elim (Option-cases (stratum_of (to_lower a))) [
  | inl e ↦ inl (e, supported (to_lower a) e)
  | inr (s, e) ↦ inr (s, e, same_getwork (to_lower a) s e)
]

stratum_names :
    (l s : Bytes)
    → stratum_of l ≡ some s
    → (s ≡ codes "xel/0") ⊎ ((s ≡ codes "xel/1") ⊎ (s ≡ codes "xel/2"))
unfolding stratum_of
stratum_names l s h =
    ground (arith, =?_iff l (codes "xel/0"), =?_iff l (codes "xel/1"), =?_iff l (codes "xel/2"))

-- A stratum name that was made has a getwork name.
pub getwork_name :
    (a s : Bytes)
    → convert_algorithm_to_stratum a ≡ some s
    → (name : Bytes) × (convert_algorithm_to_getwork s ≡ some name)
unfolding convert_algorithm_to_stratum convert_algorithm_to_getwork
getwork_name a s e = elim (stratum_names (to_lower a) s e) [
  | inl p ↦ (codes "xel/v1", rw p getwork_values.0)
  | inr (inl p) ↦ (codes "xel/v2", rw p getwork_values.1)
  | inr (inr p) ↦ (codes "xel/v3", rw p getwork_values.2)
]
