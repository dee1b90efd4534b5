-- ===== src/Tests/Infrastructure.antt =====
-- The queue, the rate limit and the budget on concrete states.
use cogeto.Base.{
  ℕ, suc, ◌-◌, ◌+◌, max, List, ◌≤◌, ◌≡◌, refl, arith, min, true, false, none, some, [], ◌∷◌, ltb,
}
use cogeto.Base.StringMap.{lookup, put}
use cogeto.Infrastructure.Queue.{
  JobKey, QueueState, Handled, done, failed, Delivery, completions, left, completions_le,
}
use cogeto.Infrastructure.RateLimit.{admissions, admissions_lem}
use cogeto.Infrastructure.Counters.{
  Counters, ModelBudget, get_count, calls, roll, add_count, record_usage, has_budget,
}
use cogeto.Infrastructure.Gateway.{Gateway, Completion, GatewayEvent, begins, answers, run_gateway}
use cogeto.Infrastructure.Gateway.Overlap.{overlapping, peak, completed_calls, completions_today_le}

abbrev job : JobKey
job = record { source_type = "approval"; source_id = "5"; job_type = "approval.execute" }

-- A handler that fails until the count is 2.
abbrev count_up : JobKey → ℕ → Handled ℕ
count_up key n = elim (ltb n 2) [ true ↦ failed n | false ↦ done (suc n) none ]

abbrev delivery : ℕ → Delivery
delivery n = record { key = job; attempts = n; max_attempts = 5; failing_writes = 0 }

abbrev queue : QueueState ℕ
queue = record { inner = 2; executions = []; dead_letters = [] }

completions_le_example :
    completions count_up (λ before after. before) job (delivery 1 ∷ delivery 2 ∷ []) queue
    ≤ left job []
completions_le_example =
    completions_le count_up (λ before after. before) job (delivery 1 ∷ delivery 2 ∷ []) queue

admissions_lem_example :
    admissions (λ bucket. 2) 60 "chat" "ana" (100 ∷ 200 ∷ 300 ∷ []) [] ≡ min 3 2
unfolding lookup
admissions_lem_example =
    admissions_lem (λ bucket. 2) 60 "chat" "ana" 100 (200 ∷ 300 ∷ []) [] refl refl refl
      (omega arith, (omega arith, tt))

abbrev budget : ModelBudget
budget = record { daily_calls = 1; daily_tokens = 1000 }

abbrev no_counts : Counters
no_counts = record { day = none; counts = [] }

abbrev idle : Gateway
idle = record { counters = no_counts; in_flight = [] }

abbrev reply : Completion
reply = record { text = "ok"; usage = none }

-- Two calls begin, and both are answered; a third is refused.
abbrev overlap : List GatewayEvent
overlap =
    begins (some "ana") "a"
    ∷ begins (some "ana") "b"
    ∷ answers 0 (some reply)
    ∷ answers 0 (some reply)
    ∷ begins (some "ana") "c"
    ∷ []

completions_today_le_example :
    (get_count 7 "ana" calls (run_gateway budget 7 overlap idle).counters
      ≡ get_count 7 "ana" calls idle.counters + completed_calls budget 7 "ana" overlap idle)
    × (get_count 7 "ana" calls (run_gateway budget 7 overlap idle).counters
        ≤ max
            (get_count 7 "ana" calls idle.counters + overlapping budget 7 "ana" idle.in_flight)
            (1 + peak budget 7 "ana" overlap idle - 1))
completions_today_le_example = completions_today_le budget 7 "ana" overlap idle

-- The overlapping calls are both completed, one past the cap of 1.
overlap_run : get_count 7 "ana" calls (run_gateway budget 7 overlap idle).counters ≡ 2
unfolding run_gateway get_count add_count record_usage has_budget roll lookup put
overlap_run = refl
