-- ===== src/Common/Assoc.antt =====
-- Go maps with text keys, as association lists. The list's order is the order in which a `range`
-- over the map goes; Go leaves it open, and the theorems hold for every list.
use mathlib.Core.Path.{◌≡◌, refl}
use mathlib.Core.Bool.{Bool, true, false}
use mathlib.Core.Option.{Option, none, some}
use mathlib.Core.List.{List, [], ◌∷◌, ◌++◌}
use native.Mathlib.Omega.{arith}
use xelis_pool.Common.Tests.{if◌then◌else◌}
use xelis_pool.Common.Bytes.{Bytes, ◌=?◌, =?_iff}

abbrev pub Assoc {ℓ} : Type ℓ → Type ℓ
Assoc V = List (Bytes × V)

module _ {ℓ} {V : Type ℓ} where
  unfoldable pub lookup : Bytes → Assoc V → Option V
  lookup k [] = none
  lookup k ((j, v) ∷ m) = if j =? k then some v else lookup k m

  -- A new key goes to the end.
  unfoldable pub insert : Bytes → V → Assoc V → Assoc V
  insert k v [] = (k, v) ∷ []
  insert k v ((j, w) ∷ m) = if j =? k then (j, v) ∷ m else (j, w) ∷ insert k v m

  -- m[k], where Go gives the zero value for a missing key.
  unfoldable pub lookup_or : V → Bytes → Assoc V → V
  lookup_or d k [] = d
  lookup_or d k ((j, v) ∷ m) = if j =? k then v else lookup_or d k m

  pub lookup-insert :
      (k j : Bytes) (v : V) (m : Assoc V)
      → lookup j (insert k v m) ≡ (if k =? j then some v else lookup j m)
  unfolding lookup insert
  lookup-insert k j v [] = refl
  lookup-insert k j v ((i, w) ∷ m) =
      ground (arith, =?_iff k j, =?_iff i k, =?_iff i j, lookup-insert k j v m)

  pub lookup_or-insert :
      (d : V) (k j : Bytes) (v : V) (m : Assoc V)
      → lookup_or d j (insert k v m) ≡ (if k =? j then v else lookup_or d j m)
  unfolding lookup_or insert
  lookup_or-insert d k j v [] = refl
  lookup_or-insert d k j v ((i, w) ∷ m) =
      ground (arith, =?_iff k j, =?_iff i k, =?_iff i j, lookup_or-insert d k j v m)

  -- The key is not among those of the map.
  unfoldable pub absent : Bytes → Assoc V → Bool
  absent k [] = true
  absent k ((j, v) ∷ m) = if j =? k then false else absent k m

  pub insert-absent :
      (k : Bytes) (v : V) (m : Assoc V) → absent k m ≡ true → insert k v m ≡ m ++ ((k, v) ∷ [])
  unfolding absent insert
  insert-absent k v [] h = refl
  insert-absent k v ((j, w) ∷ m) h = ground (arith, insert-absent k v m)

  -- The keys of `m` differ from one another and from those of `seen`.
  abbrev pub Fresh : Assoc V → Assoc V → Type 0
  Fresh seen [] = Unit
  Fresh seen ((k, v) ∷ m) = (absent k seen ≡ true) × Fresh (seen ++ ((k, v) ∷ [])) m

  -- A Go map has each key once.
  abbrev pub Distinct : Assoc V → Type 0
  Distinct m = Fresh [] m

  -- The same by recursion from the front: no key stands twice.
  abbrev pub Separate : Assoc V → Type 0
  Separate [] = Unit
  Separate ((k, v) ∷ m) = (absent k m ≡ true) × Separate m

  -- None of the keys of a map stands in another.
  abbrev pub Apart {κ} : {W : Type κ} → Assoc W → Assoc V → Type 0
  Apart [] seen = Unit
  Apart ((k, v) ∷ m) seen = (absent k seen ≡ true) × Apart m seen

  pub absent-insert :
      (j k : Bytes) (v : V) (m : Assoc V)
      → absent j (insert k v m) ≡ (if k =? j then false else absent j m)
  unfolding absent insert
  absent-insert j k v [] = refl
  absent-insert j k v ((i, w) ∷ m) =
      ground (arith, =?_iff k j, =?_iff i k, =?_iff i j, absent-insert j k v m)

  pub insert-Separate : (k : Bytes) (v : V) (m : Assoc V) → Separate m → Separate (insert k v m)
  unfolding insert absent
  insert-Separate k v [] h = (refl, tt)
  insert-Separate k v ((i, w) ∷ m) h =
      ground (arith, h, =?_iff i k, =?_iff k i, absent-insert i k v m, insert-Separate k v m h.1)

  pub lookup_or-absent : (d : V) (k : Bytes) (m : Assoc V) → absent k m ≡ true → lookup_or d k m ≡ d
  unfolding lookup_or absent
  lookup_or-absent d k [] h = refl
  lookup_or-absent d k ((i, w) ∷ m) h = ground (arith, lookup_or-absent d k m)
