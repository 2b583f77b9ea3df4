-- ===== src/Master/Stats/Charts.antt =====
-- The lengths of the lists in the statistics.
use xelis_pool.Common.{
  if-true, if-false, ℕ, zero, suc, ◌-◌, ◌%◌, ◌≤◌, ◌<◌, ◌≡◌, ◌∙◌, refl, ap, sym, Bool, true,
  Bool-cases, inl, inr, List, [], ◌∷◌, ◌++◌, append-nil, append_assoc, length, take, drop, arith,
  length-drop, length-take, drop-drop, take_all, ltb, if◌then◌else◌, All,
}
use xelis_pool.Common.Newest.{newest, drop_zero, newest-push}
use xelis_pool.Common.Bytes.{Bytes}
use xelis_pool.Common.Assoc.{Assoc, insert, lookup_or}
use xelis_pool.Master.Float.{Float}
use xelis_pool.Master.Stats.{
  trim_from, trim, cut_from, push_chart, num_chart_data, Hr, Known, Statistics, cleanup, delete,
  any_hashrate, tick_addresses, update_stats,
}
use xelis_pool.Master.Shares.{get_hashrate}

cut_from-newest {ℓ} :
    {A : Type ℓ} (k n : ℕ) (xs : List A) → length xs ≤ k → cut_from k n xs ≡ newest n xs
unfolding cut_from
cut_from-newest zero n xs h = sym (drop_zero (length xs - n) xs (omega arith))
cut_from-newest (suc k) n xs h = elim (Bool-cases (ltb n (length xs))) [
  | inl long ↦
      let more : n < length xs = ground (arith, long) in
      let size = length-drop 1 xs in
      rw long (
        cut_from-newest k n (drop 1 xs) (omega (arith, size))
        ∙ sym (drop-drop (length (drop 1 xs) - n) 1 xs)
        ∙ ap (λ i. drop i xs) (omega (arith, size, more)))
  | inr short ↦ rw short (sym (drop_zero (length xs - n) xs (ground (arith, short))))
]

take-take-le {ℓ} : {A : Type ℓ} (m n : ℕ) (xs : List A) → m ≤ n → take m (take n xs) ≡ take m xs
take-take-le zero n xs h = refl
take-take-le (suc m) zero xs h = absurd (omega arith)
take-take-le (suc m) (suc n) [] h = refl
take-take-le (suc m) (suc n) (x ∷ xs) h = ap (λ l. x ∷ l) (take-take-le m n xs (omega arith))

-- How many entries stay.
abbrev pub kept : ℕ → ℕ → ℕ
kept n size = if ltb n size then n - (size - n) % 2 else size

trim_from-take {ℓ} :
    {A : Type ℓ} (k n : ℕ) (xs : List A)
    → length xs ≤ k
    → trim_from k n xs ≡ take (kept n (length xs)) xs
unfolding trim_from
trim_from-take zero n xs h = sym (take_all xs (kept n (length xs)) (ground arith))
trim_from-take (suc k) n xs h = elim (Bool-cases (ltb n (length xs))) [
  | inl long ↦
      let more : n < length xs = ground (arith, long) in
      let size : length (take (length xs - 2) xs) ≡ length xs - 2 =
        omega (arith, length-take (length xs - 2) xs) in
      let same : kept n (length (take (length xs - 2) xs)) ≡ kept n (length xs) =
        ground (arith, size, more) in
      if-true _ _ long
      ∙ (trim_from-take k n (take (length xs - 2) xs) (omega (arith, size, more))
          ∙ ap (λ i. take i (take (length xs - 2) xs)) same
          ∙ take-take-le (kept n (length xs)) (length xs - 2) xs (ground (arith, more)))
  | inr short ↦
      if-false _ _ short ∙ (sym (take_all xs (kept n (length xs)) (ground (arith, short))))
]

push_chart-newest {ℓ} :
    {A : Type ℓ} (x : A) (xs : List A) → push_chart x xs ≡ newest num_chart_data (xs ++ (x ∷ []))
push_chart-newest x xs =
    cut_from-newest (length (xs ++ (x ∷ []))) num_chart_data (xs ++ (x ∷ [])) (omega arith)

-- The values of a chart, one after the other.
unfoldable pub push_all {ℓ} : {A : Type ℓ} → List A → List A → List A
unfolding cut_from
push_all [] xs = xs
push_all (v ∷ vs) xs = push_all vs (push_chart v xs)

push_all_from {ℓ} :
    {A : Type ℓ} (vs seen : List A)
    → push_all vs (newest num_chart_data seen) ≡ newest num_chart_data (seen ++ vs)
unfolding push_all
push_all_from [] seen = ap (newest num_chart_data) (sym (append-nil seen))
push_all_from (v ∷ vs) seen =
    ap (push_all vs)
      (push_chart-newest v (newest num_chart_data seen) ∙ newest-push num_chart_data seen v)
    ∙ push_all_from vs (seen ++ (v ∷ []))
    ∙ ap (newest num_chart_data) (append_assoc seen (v ∷ []) vs)

-- A chart refines the history of its values: pushed one after the other onto an empty chart, the
-- newest NUM_CHART_DATA of them are what stays, in order.
pub push_all-newest {ℓ} : {A : Type ℓ} (vs : List A) → push_all vs [] ≡ newest num_chart_data vs
push_all-newest vs = push_all_from vs []

push_chart-length {ℓ} :
    {A : Type ℓ} (x : A) (xs : List A) → length (push_chart x xs) ≤ num_chart_data
push_chart-length x xs =
    let all = xs ++ (x ∷ []) in
    rw (push_chart-newest x xs) (omega (arith, length-drop (length all - num_chart_data) all))

trim-length {ℓ} : {A : Type ℓ} (n : ℕ) (xs : List A) → length (trim n xs) ≤ n
trim-length n xs =
    rw (trim_from-take (length xs) n xs (omega arith))
      (ground (arith, length-take (kept n (length xs)) xs))

module _ (float : Float) (round : float.F → float.F) (is_zero : float.F → Bool) where
  open float use {F, of_ℕ}

  abbrev pub IsShort : Bytes × List (Hr float round is_zero) → Type 0
  IsShort c = length c.1 ≤ num_chart_data

  insert-IsShort :
      (a : Bytes) (chart : List (Hr float round is_zero))
      (m : Assoc (List (Hr float round is_zero)))
      → length chart ≤ num_chart_data
      → All IsShort m
      → All IsShort (insert a chart m)
  unfolding insert
  insert-IsShort a chart [] h hm = (h, tt)
  insert-IsShort a chart ((j, w) ∷ m) h (hw, hm) =
      ground (arith, h, hw, hm, insert-IsShort a chart m h hm)

  delete-IsShort :
      (a : Bytes) (m : Assoc (List (Hr float round is_zero)))
      → All IsShort m
      → All IsShort (delete float round is_zero a m)
  unfolding delete
  delete-IsShort a [] hm = tt
  delete-IsShort a ((j, w) ∷ m) (hw, hm) = ground (arith, hw, hm, delete-IsShort a m hm)

  tick_addresses-IsShort :
      (offline_after now : F) (time : ℕ) (ks known : Known float round is_zero)
      (charts : Assoc (List (Hr float round is_zero))) (total : F)
      → All IsShort charts
      → All IsShort
          (tick_addresses float round is_zero offline_after now time ks known charts total).0.1
  unfolding tick_addresses
  tick_addresses-IsShort offline_after now time [] known charts total h = h
  tick_addresses-IsShort offline_after now time ((a, k) ∷ ks) known charts total h =
      let hr = (get_hashrate float round is_zero offline_after now k).1 in
      let point : Hr float round is_zero = record { time = time; hashrate = round hr } in
      let chart : List (Hr float round is_zero) = push_chart point (lookup_or [] a charts) in
      let all = insert-IsShort a chart charts (push_chart-length point (lookup_or [] a charts)) h in
      elim (Bool-cases (any_hashrate float round is_zero chart)) [
        | inl found ↦ rw found (
            tick_addresses-IsShort offline_after now time ks known (insert a chart charts)
              (float.add total hr) all)
        | inr gone ↦ rw gone (
            tick_addresses-IsShort offline_after now time ks (delete float round is_zero a known)
              (delete float round is_zero a (insert a chart charts)) (float.add total hr)
              (delete-IsShort a (insert a chart charts) all))
      ]

  -- An update of the statistics, where JSON takes them, leaves at most 100 blocks and 50 withdrawals and at most
  -- NUM_CHART_DATA values in each of the charts of the pool; and where the charts of the addresses had at most
  -- that many values, they still do.
  pub update_stats_bounds :
      (offline_after precise : F) (s : Statistics float round is_zero)
      → let s' = update_stats float round is_zero offline_after precise true s in
        (length s'.blocks_found ≤ 100)
        × (length s'.withdrawals ≤ 50)
        × (length s'.pool_chart ≤ num_chart_data)
        × (length s'.workers_chart ≤ num_chart_data)
        × (length s'.addresses_chart ≤ num_chart_data)
        × (All IsShort s.charts → All IsShort s'.charts)
  unfolding update_stats cleanup
  update_stats_bounds offline_after precise s =
      let c = cleanup float round is_zero offline_after precise true s in
      (
        trim-length 100 s.blocks_found,
        trim-length 50 s.withdrawals,
        push_chart-length _ s.pool_chart,
        push_chart-length _ s.workers_chart,
        push_chart-length _ s.addresses_chart,
        λ h. tick_addresses-IsShort offline_after precise _ c.known c.known s.charts (of_ℕ 0) h,
      )
