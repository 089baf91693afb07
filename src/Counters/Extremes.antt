-- ===== src/Counters/Extremes.antt =====
-- src/performance.rs: the compare-and-swap loops against the other threads.
use ntp_time_json_api.Common.{
  ℕ, ◌+◌, ◌≤◌, ◌≡◌, refl, min, max, true, false, List, [], ◌∷◌, ◌++◌, All, length, arith,
}
use ntp_time_json_api.Counters.{
  Turn, LockFreeMetrics, update_min, update_max, lowered, raised, loop_min, loop_max,
}

-- The values that the other threads exchange for in these turns.
abbrev pub all_others : List Turn → List ℕ
all_others [] = []
all_others (t ∷ ts) = t.others ++ all_others ts

abbrev pub IsQuiet : List Turn → Type 0
IsQuiet ts = All (λ t. t.fails ≡ false) ts

lowered-le : (cell : ℕ) (vs : List ℕ) → lowered cell vs ≤ cell
lowered-le cell [] = omega arith
lowered-le cell (v ∷ vs) = omega (arith, lowered-le (min cell v) vs)

raised-ge : (cell : ℕ) (vs : List ℕ) → cell ≤ raised cell vs
raised-ge cell [] = omega arith
raised-ge cell (v ∷ vs) = omega (arith, raised-ge (max cell v) vs)

lowered-append :
    (cell : ℕ) (us vs : List ℕ) → lowered cell (us ++ vs) ≡ lowered (lowered cell us) vs
lowered-append cell [] vs = refl
lowered-append cell (u ∷ us) vs = lowered-append (min cell u) us vs

raised-append : (cell : ℕ) (us vs : List ℕ) → raised cell (us ++ vs) ≡ raised (raised cell us) vs
raised-append cell [] vs = refl
raised-append cell (u ∷ us) vs = raised-append (max cell u) us vs

loop_min_ends :
    (value current cell : ℕ) (ts : List Turn)
    → cell ≤ current
    → IsQuiet ts
    → current ≤ value + length ts
    → (loop_min value current cell ts).1 ≡ true
unfolding loop_min
loop_min_ends value current cell [] c q h = ground arith
loop_min_ends value current cell (t ∷ ts) c q h =
    let found = lowered cell t.others in
    ground (arith, lowered-le cell t.others, q.0, loop_min_ends value found found ts)

loop_min_result :
    (value current cell : ℕ) (ts : List Turn)
    → cell ≤ current
    → ((loop_min value current cell ts).0 ≤ cell)
      × ((loop_min value current cell ts).1 ≡ true → (loop_min value current cell ts).0 ≤ value)
      × (min value (lowered cell (all_others ts)) ≤ (loop_min value current cell ts).0)
unfolding loop_min
loop_min_result value current cell [] c = ground arith
loop_min_result value current cell (t ∷ ts) c =
    let found = lowered cell t.others in
    ground (
      arith,
      lowered-le cell t.others,
      lowered-le cell (all_others (t ∷ ts)),
      lowered-append cell t.others (all_others ts),
      loop_min_result value found found ts (omega arith),
    )

loop_max_ends :
    (value current cell : ℕ) (ts : List Turn)
    → current ≤ cell
    → IsQuiet ts
    → value ≤ current + length ts
    → (loop_max value current cell ts).1 ≡ true
unfolding loop_max
loop_max_ends value current cell [] c q h = ground arith
loop_max_ends value current cell (t ∷ ts) c q h =
    let found = raised cell t.others in
    ground (arith, raised-ge cell t.others, q.0, loop_max_ends value found found ts)

loop_max_result :
    (value current cell : ℕ) (ts : List Turn)
    → current ≤ cell
    → (cell ≤ (loop_max value current cell ts).0)
      × ((loop_max value current cell ts).1 ≡ true → value ≤ (loop_max value current cell ts).0)
      × ((loop_max value current cell ts).0 ≤ max value (raised cell (all_others ts)))
unfolding loop_max
loop_max_result value current cell [] c = ground arith
loop_max_result value current cell (t ∷ ts) c =
    let found = raised cell t.others in
    ground (
      arith,
      raised-ge cell t.others,
      raised-ge cell (all_others (t ∷ ts)),
      raised-append cell t.others (all_others ts),
      loop_max_result value found found ts (omega arith),
    )

-- Whatever the other threads exchange in between, the loop for the minimum ends within as many
-- turns as the minimum lies above the value, if no exchange fails without a reason. Then the
-- minimum is at most the old one and at most the value, and no lower than the least of the value,
-- the old minimum and what the others put in.
pub update_min_result :
    (value : ℕ) (turns : List Turn) (s : LockFreeMetrics)
    → IsQuiet turns
    → s.min_latency_us ≤ value + length turns
    → let (s', ended) = update_min value turns s in
      (ended ≡ true)
      × (s'.min_latency_us ≤ min value s.min_latency_us)
      × (min value (lowered s.min_latency_us (all_others turns)) ≤ s'.min_latency_us)
unfolding update_min
update_min_result value turns s q h =
    let m = s.min_latency_us in
    let ends = loop_min_ends value m m turns (omega arith) q h in
    ground (arith, ends, loop_min_result value m m turns (omega arith))

-- The same of the loop for the maximum.
update_max_result :
    (value : ℕ) (turns : List Turn) (s : LockFreeMetrics)
    → IsQuiet turns
    → value ≤ s.max_latency_us + length turns
    → let (s', ended) = update_max value turns s in
      (ended ≡ true)
      × (max value s.max_latency_us ≤ s'.max_latency_us)
      × (s'.max_latency_us ≤ max value (raised s.max_latency_us (all_others turns)))
unfolding update_max
update_max_result value turns s q h =
    let m = s.max_latency_us in
    let ends = loop_max_ends value m m turns (omega arith) q h in
    ground (arith, ends, loop_max_result value m m turns (omega arith))
