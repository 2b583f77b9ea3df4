-- ===== src/Slave/Jobs/Window.antt =====
-- A miner's jobs are the newest of those that were added.
use xelis_pool.Common.{
  ℕ, ◌⊎◌, ◌+◌, ◌-◌, ◌≤◌, ◌<◌, ◌≡◌, ◌∙◌, refl, ap, sym, List, [], ◌∷◌, ◌++◌, length, drop, arith,
  length-append, length-drop, append_assoc, drop-drop, ltb, Bool-cases, inl, inr, append-nil,
}
use xelis_pool.Common.Newest.{newest, drop-append_le}
use xelis_pool.Common.Bytes.{Bytes}
use xelis_pool.Slave.Submit.{Job}
use xelis_pool.Slave.Jobs.{max_past_jobs, no_job, add_job, authorized_jobs, last_job, new_job}
use mathlib.Core.Path.{subst}

-- A job is sent to a miner, or a Stratum miner authorizes with a difficulty.
pub data Change : Type 0 where
  sent : Job → Change
  authorizes : ℕ → Change

-- The jobs after some changes, in order.
unfoldable pub jobs_after : List Change → List Job → List Job
jobs_after [] js = js
jobs_after (sent j ∷ cs) js = jobs_after cs (add_job j js)
jobs_after (authorizes diff ∷ cs) js = jobs_after cs (authorized_jobs diff js)

-- What was ever added, and the number of authorizations.
abbrev pub history : List Change → List Job
history [] = []
history (sent j ∷ cs) = j ∷ history cs
history (authorizes diff ∷ cs) = record no_job { diff = diff } ∷ history cs

abbrev pub authorizations : List Change → ℕ
authorizations [] = 0
authorizations (sent j ∷ cs) = authorizations cs
authorizations (authorizes diff ∷ cs) = 1 + authorizations cs

-- All but the first `n` jobs seen are kept, none is dropped from six or fewer, and `k` more than
-- six are kept at most.
abbrev IsWindow : ℕ → List Job → ℕ → List Job → Type 0
IsWindow n seen k js =
    (js ≡ drop n seen)
    × (n ≤ length seen)
    × (length js ≤ max_past_jobs + k)
    × ((n ≡ 0) ⊎ (max_past_jobs ≤ length js))

appended :
    (n : ℕ) (seen js : List Job) (j : Job)
    → js ≡ drop n seen
    → n ≤ length seen
    → js ++ (j ∷ []) ≡ drop n (seen ++ (j ∷ []))
appended n seen js j e h = ap (λ l. l ++ (j ∷ [])) e ∙ sym (drop-append_le n seen (j ∷ []) h)

add_job-IsWindow :
    (j : Job) (n : ℕ) (seen : List Job) (k : ℕ) (js : List Job)
    → IsWindow n seen k js
    → (m : ℕ) × IsWindow m (seen ++ (j ∷ [])) k (add_job j js)
unfolding add_job
add_job-IsWindow j n seen k js (e, inside, most, least) =
    let all = js ++ (j ∷ []) in
    let size : length all ≡ length js + 1 = length-append js (j ∷ []) in
    let whole : length (seen ++ (j ∷ [])) ≡ length seen + 1 = length-append seen (j ∷ []) in
    elim (Bool-cases (ltb 6 (length all))) [
      | inl full ↦
          let long : 6 < length all = ground (arith, full) in
          let cut : length (drop 1 all) ≡ length all - 1 = length-drop 1 all in
          (
            n + 1,
            rw full (
              ap (drop 1) (appended n seen js j e inside)
                  ∙ sym (drop-drop 1 n (seen ++ (j ∷ [])))
                  ∙ ap (λ i. drop i (seen ++ (j ∷ []))) (omega arith),
              omega (arith, whole, inside),
              omega (arith, cut, size, most),
              inr (omega (arith, cut, size, long)),
            ),
          )
      | inr room ↦
          let short : length all ≤ 6 = ground (arith, room) in
          (
            n,
            rw room (
              appended n seen js j e inside,
              omega (arith, whole, inside),
              omega (arith, size, short),
              elim least [ inl z ↦ inl z | inr many ↦ absurd (omega (arith, many, size, short)) ],
            ),
          )
    ]

authorized_jobs-IsWindow :
    (diff n : ℕ) (seen : List Job) (k : ℕ) (js : List Job)
    → IsWindow n seen k js
    → IsWindow n (seen ++ (record no_job { diff = diff } ∷ [])) (k + 1) (authorized_jobs diff js)
unfolding authorized_jobs
authorized_jobs-IsWindow diff n seen k js (e, inside, most, least) =
    let one : List Job = record no_job { diff = diff } ∷ [] in
    let size : length (js ++ one) ≡ length js + 1 = length-append js one in
    let whole : length (seen ++ one) ≡ length seen + 1 = length-append seen one in
    (
      appended n seen js (record no_job { diff = diff }) e inside,
      omega (arith, whole, inside),
      omega (arith, size, most),
      elim least [ inl z ↦ inl z | inr many ↦ inr (omega (arith, many, size)) ],
    )

jobs_after-IsWindow :
    (cs : List Change) (n : ℕ) (seen : List Job) (k : ℕ) (js : List Job)
    → IsWindow n seen k js
    → (m : ℕ) × IsWindow m (seen ++ history cs) (k + authorizations cs) (jobs_after cs js)
unfolding jobs_after
jobs_after-IsWindow [] n seen k js h =
    (n, rw (append-nil seen) (subst (λ i. IsWindow n seen i js) (omega arith) h))
jobs_after-IsWindow (sent j ∷ cs) n seen k js h =
    let (m, h') = add_job-IsWindow j n seen k js h in
    let (o, h'') = jobs_after-IsWindow cs m (seen ++ (j ∷ [])) k (add_job j js) h' in
    (
      o,
      subst (λ l. IsWindow o l (k + authorizations cs) (jobs_after cs (add_job j js)))
          (append_assoc seen (j ∷ []) (history cs)) h'',
    )
jobs_after-IsWindow (authorizes diff ∷ cs) n seen k js h =
    let one : List Job = record no_job { diff = diff } ∷ [] in
    let (o, h'') =
      jobs_after-IsWindow cs n (seen ++ one) (k + 1) (authorized_jobs diff js)
        (authorized_jobs-IsWindow diff n seen k js h) in
    (
      o,
      subst
          (λ i.
            IsWindow o (seen ++ (record no_job { diff = diff } ∷ history cs)) i
              (jobs_after cs (authorized_jobs diff js)))
          (omega arith)
          (subst
            (λ l.
              IsWindow o l (k + 1 + authorizations cs) (jobs_after cs (authorized_jobs diff js)))
            (append_assoc seen one (history cs)) h''),
    )

-- The jobs of a miner, from none on, over the jobs that are sent to it and its authorizations, each
-- of which adds one that is not sent: they are the newest of all that was added, in order; all of
-- it, or MAX_PAST_JOBS at least; and MAX_PAST_JOBS and one more for each authorization at most.
pub jobs_after-newest :
    (cs : List Change)
    → let js = jobs_after cs [] in
      (js ≡ newest (length js) (history cs))
      × ((js ≡ history cs) ⊎ (max_past_jobs ≤ length js))
      × (length js ≤ max_past_jobs + authorizations cs)
jobs_after-newest cs =
    let js = jobs_after cs [] in
    let (n, held) = jobs_after-IsWindow cs 0 [] 0 [] (refl, omega arith, omega arith, inl refl) in
    let (e, inside, most, least) = held in
    let size : length js ≡ length (history cs) - n = ap length e ∙ length-drop n (history cs) in
    (
      e ∙ ap (λ i. drop i (history cs)) (omega (arith, size, inside)),
      elim least [ inl z ↦ inl (e ∙ ap (λ i. drop i (history cs)) z) | inr many ↦ inr many ],
      omega (arith, most),
    )

last_job-append : (js : List Job) (j : Job) → last_job (js ++ (j ∷ [])) ≡ j
unfolding last_job
last_job-append [] j = refl
last_job-append (x ∷ []) j = refl
last_job-append (x ∷ y ∷ js) j = last_job-append (y ∷ js) j

last_job-drop : (js : List Job) (x j : Job) → last_job (drop 1 (x ∷ (js ++ (j ∷ [])))) ≡ j
last_job-drop js x j = last_job-append js j

-- A job that was added is the last one, and the jobs stay at most MAX_PAST_JOBS.
pub add_job_last :
    (j : Job) (js : List Job)
    → length js ≤ max_past_jobs
    → (last_job (add_job j js) ≡ j) × (length (add_job j js) ≤ max_past_jobs)
unfolding add_job
add_job_last j [] h = (unfold last_job in refl, omega arith)
add_job_last j (x ∷ js) h =
    ground (arith, last_job-append (x ∷ js) j, last_job-append js j, length-append js (j ∷ []))

-- The difficulty of a job that is sent is not above the chain's, and is the miner's next difficulty
-- where that is not above the chain's.
pub new_job_capped :
    (next_diff block_diff : ℕ) (blob : Bytes)
    → ((new_job next_diff block_diff blob).diff ≤ (new_job next_diff block_diff blob).chain_diff)
      × (next_diff ≤ block_diff → (new_job next_diff block_diff blob).diff ≡ next_diff)
unfolding new_job
new_job_capped next_diff block_diff blob = ground arith
