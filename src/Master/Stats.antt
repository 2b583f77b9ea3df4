-- ===== src/Master/Stats.antt =====
-- The statistics of the master: `Cleanup` and the tick of `StatsServer` in cmd/master/stats.go, and
-- `OnBlockFound` in cmd/master/block_found.go.
pub mod Charts
use xelis_pool.Common.{
  ℕ, zero, suc, ◌+◌, ◌*◌, ◌-◌, ◌%◌, ◌^◌, Bool, true, false, ◌&&◌, ◌||◌, not, Option, none, some,
  List, [], ◌∷◌, ◌++◌, length, take, drop, ltb, ◌==◌, if◌then◌else◌,
}
use xelis_pool.Common.Int.{ℤ, increment}
use xelis_pool.Common.Bytes.{Bytes, ◌=?◌}
use xelis_pool.Common.Assoc.{Assoc, lookup_or, insert}
use xelis_pool.Master.Float.{Float}
use xelis_pool.Master.Shares.{KnownAddress, get_hashrate}

-- `NUM_CHART_DATA`
abbrev pub num_chart_data : ℕ
num_chart_data = 96

-- `STATS_INTERVAL`, in seconds.
abbrev pub stats_interval : ℕ
stats_interval = 15 * 60

-- The loop that drops the last two entries while there are more than `n`. Each turn drops two,
-- so that as many turns as there are entries are enough.
unfoldable pub trim_from {ℓ} : {A : Type ℓ} → ℕ → ℕ → List A → List A
trim_from zero n xs = xs
trim_from (suc k) n xs =
    let rest = trim_from k n (take (length xs - 2) xs) in if ltb n (length xs) then rest else xs

abbrev pub trim {ℓ} : {A : Type ℓ} → ℕ → List A → List A
trim n xs = trim_from (length xs) n xs

-- The loop that drops the first entry while there are more than the chart holds.
unfoldable pub cut_from {ℓ} : {A : Type ℓ} → ℕ → ℕ → List A → List A
cut_from zero n xs = xs
cut_from (suc k) n xs =
    let rest = cut_from k n (drop 1 xs) in if ltb n (length xs) then rest else xs

-- A value at the end of a chart.
abbrev pub push_chart {ℓ} : {A : Type ℓ} → A → List A → List A
push_chart x xs = cut_from (length (xs ++ (x ∷ []))) num_chart_data (xs ++ (x ∷ []))

pub record LastBlock : Type 0 where
  pub height : ℕ
  pub timestamp : ℕ
  pub reward : ℕ
  pub hash : Bytes

-- What the daemon answers for a block; `none` is a missing reward. An error is the zero block.
pub record FoundBlock : Type 0 where
  pub height : ℕ
  pub miner_reward : Option ℕ

-- The destinations of a withdrawal with their amounts.
pub record Withdrawal : Type 0 where
  pub txid : Bytes
  pub timestamp : ℕ
  pub destinations : List (Bytes × ℕ)

module _ (float : Float) (round : float.F → float.F) (is_zero : float.F → Bool) where
  open float use {F, of_ℕ, add, mul, div, lt}

  pub record Hr : Type 0 where
    pub time : ℕ
    pub hashrate : F

  -- The effort is rounded to a float32.
  pub record FoundInfo : Type 0 where
    pub height : ℕ
    pub hash : Bytes
    pub effort : F
    pub time : ℕ

  -- `Known`: the known addresses.
  abbrev pub Known : Type 0
  Known = Assoc (KnownAddress float round is_zero)

  pub record Statistics : Type 0 where
    pub last_update : ℕ
    pub pool_hashrate : F
    pub pool_chart : List Hr
    pub charts : Assoc (List Hr)
    pub hashes : F
    pub last_block : LastBlock
    pub blocks_found : List FoundInfo
    pub num_found : ℤ
    pub net_hashrate : F
    pub difficulty : F
    pub known : Known
    pub withdrawals : List Withdrawal
    pub workers : ℕ
    pub workers_chart : List ℕ
    pub addresses_chart : List ℕ

  -- The addresses with a share in the last day; `now` is the clock.
  unfoldable pub recent : F → Known → Known
  recent now [] = []
  recent now ((a, k) ∷ ks) =
      let rest = recent now ks in
      if lt now (add k.last_share (of_ℕ (3600 * 24))) then (a, k) ∷ rest else rest

  -- The sum of their hashrates.
  unfoldable pub total_hashrate : F → F → Known → F → F
  unfolding get_hashrate
  total_hashrate offline_after now [] acc = acc
  total_hashrate offline_after now ((a, k) ∷ ks) acc =
      total_hashrate offline_after now ks
        (add acc (get_hashrate float round is_zero offline_after now k).1)

  -- `encoded` says whether JSON takes the statistics; where it does not, the lists stay long.
  unfoldable pub cleanup : F → F → Bool → Statistics → Statistics
  unfolding recent total_hashrate trim_from
  cleanup offline_after now encoded s =
      let known = recent now s.known in
      let s' : Statistics = record s {
        known = known;
        pool_hashrate = round (total_hashrate offline_after now known (of_ℕ 0));
      } in
      if encoded
      then record s' { blocks_found = trim 100 s.blocks_found; withdrawals = trim 50 s.withdrawals }
      else s'

  unfoldable pub any_hashrate : List Hr → Bool
  any_hashrate [] = false
  any_hashrate (h ∷ hs) = not (is_zero h.hashrate) || any_hashrate hs

  -- `delete(m, key)`
  unfoldable pub delete {ℓ} : {V : Type ℓ} → Bytes → Assoc V → Assoc V
  delete k [] = []
  delete k ((j, v) ∷ m) = let rest = delete k m in if j =? k then rest else (j, v) ∷ rest

  -- The charts of the addresses, each with the hashrate of now at its end; an address whose chart
  -- has no hashrate left goes out of both maps. The result has the sum of the hashrates.
  unfoldable pub tick_addresses :
      F → F → ℕ → Known → Known → Assoc (List Hr) → F → (Known × Assoc (List Hr)) × F
  unfolding get_hashrate any_hashrate delete cut_from
  tick_addresses offline_after now time [] known charts total = ((known, charts), total)
  tick_addresses offline_after now time ((a, k) ∷ ks) known charts total =
      let hr = (get_hashrate float round is_zero offline_after now k).1 in
      let chart : List Hr =
        push_chart (record { time = time; hashrate = round hr }) (lookup_or [] a charts) in
      let stays =
        tick_addresses offline_after now time ks known (insert a chart charts) (add total hr) in
      let goes =
        tick_addresses offline_after now time ks (delete a known) (delete a (insert a chart charts))
          (add total hr) in
      if any_hashrate chart then stays else goes

  unfoldable pub update_stats : F → F → Bool → Statistics → Statistics
  unfolding cleanup tick_addresses cut_from
  update_stats offline_after precise encoded s =
      let c = cleanup offline_after precise encoded s in
      let time = c.last_update + stats_interval in
      let ((known, charts), total) =
        tick_addresses offline_after precise time c.known c.known c.charts (of_ℕ 0) in
      record c {
        last_update = time;
        known = known;
        charts = charts;
        workers_chart = push_chart c.workers c.workers_chart;
        addresses_chart = push_chart (length known % 2 ^ 32) c.addresses_chart;
        pool_chart = push_chart (record { time = time; hashrate = round total }) c.pool_chart;
      }

  -- One turn of `StatsServer`; `now` is the clock in seconds.
  unfoldable pub tick : F → ℕ → F → Bool → Statistics → Statistics
  unfolding update_stats
  tick offline_after now precise encoded s =
      let updated = update_stats offline_after precise encoded s in
      if ltb (now - s.last_update) stats_interval
      then s
      else if ltb (stats_interval * 10) (now - s.last_update)
      then record s { last_update = now - stats_interval }
      else updated

  -- `float32` is the rounding to a float32, `now` the clock.
  unfoldable pub on_block_found :
      (F → F) → F → ℕ → F → Bool → Bytes → FoundBlock → Statistics → Statistics
  unfolding cleanup
  on_block_found float32 offline_after now precise encoded hash bl s =
      let height = if bl.height == 0 then (s.last_block.height + 1) % 2 ^ 64 else bl.height in
      let reward : ℕ = elim bl.miner_reward [ none ↦ 0 | some r ↦ r ] in
      let effort = mul (div s.hashes s.difficulty) (of_ℕ 32) in
      let found : FoundInfo = record {
        height = height;
        hash = hash;
        effort = float32 effort;
        time = now;
      } in
      cleanup offline_after precise encoded (record s {
        last_block = record { height = height; timestamp = now; reward = reward; hash = hash };
        blocks_found = found ∷ s.blocks_found;
        num_found = increment s.num_found;
        hashes = of_ℕ 0;
      })
