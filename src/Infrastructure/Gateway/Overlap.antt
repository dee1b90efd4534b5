-- ===== src/Infrastructure/Gateway/Overlap.antt =====
-- How far overlapping calls of one user may pass the daily cap.
use cogeto.Base.{
  ℕ, zero, suc, ◌+◌, ◌-◌, ◌≤◌, ◌≡◌, ◌≢◌, refl, arith, max, String, Bool, true, Option, none, some,
  List, [], ◌∷◌, ◌⊎◌, inl, inr, sym, subst, ◌∙◌, if◌then◌else◌, opt_str_eq, str_eq, eq_iff, keep,
  length, Bool-cases, and-parts, ltb,
}
use cogeto.Infrastructure.Counters.{
  Counters, ModelBudget, get_count, calls, tokens, has_budget, usage_calls, usage_others,
}
use cogeto.Infrastructure.Gateway.{
  PendingCall, Gateway, CompletionOutcome, awaiting, budget_exceeded, completed, inner_failed,
  no_call, Completion, GatewayEvent, begins, answers, attributed, past_gate, charge, charge_for,
  call_at, without_call, answer_call, gateway_step, run_gateway,
}

module _ (limits : ModelBudget) (today : ℕ) (user : String) where
  abbrev pub is_mine : Option String → Bool
  is_mine who = opt_str_eq who (some user)

  -- The user's calls that await an answer.
  abbrev pub overlapping : List PendingCall → ℕ
  overlapping pending = length (keep (λ call. is_mine call.user) pending)

  -- The most that await one at once during a run.
  unfoldable pub peak : List GatewayEvent → Gateway → ℕ
  peak [] g = overlapping g.in_flight
  peak (e ∷ es) g = max (overlapping g.in_flight) (peak es (gateway_step limits today e g).0)

  abbrev pub completes : CompletionOutcome → ℕ
  completes (completed who r) = if is_mine who then 1 else 0
  completes awaiting = 0
  completes budget_exceeded = 0
  completes inner_failed = 0
  completes no_call = 0

  -- How many of the user's calls are completed during a run.
  unfoldable pub completed_calls : List GatewayEvent → Gateway → ℕ
  completed_calls [] g = 0
  completed_calls (e ∷ es) g =
      let s = gateway_step limits today e g in completes s.1 + completed_calls es s.0

  abbrev pub spent : Counters → ℕ
  spent c = get_count today user calls c

  overlapping-without :
      (n : ℕ) (pending : List PendingCall) (call : PendingCall)
      → call_at n pending ≡ some call
      → overlapping (without_call n pending) + (if is_mine call.user then 1 else 0)
        ≡ overlapping pending
  overlapping-without n [] call e = absurd (cc e)
  overlapping-without zero (x ∷ pending) call e =
      let same : x ≡ call = ground (arith, e) in
      elim (Bool-cases (is_mine call.user)) [
        | inl m ↦ rw (same, m) (omega arith)
        | inr m ↦ rw (same, m) (omega arith)
      ]
  overlapping-without (suc n) (x ∷ pending) call e =
      let rest = overlapping-without n pending call e in
      elim (Bool-cases (is_mine x.user)) [ inl m ↦ rw m (omega (arith, rest)) | inr m ↦ rw m rest ]

  -- A completion counts once, for its user.
  charge-spent :
      (who : Option String) (n : ℕ) (c : Counters)
      → spent (charge today who n c) ≡ spent c + (if is_mine who then 1 else 0)
  charge-spent none n c = omega arith
  charge-spent (some name) n c = elim (Bool-cases (str_eq name user)) [
    | inl m ↦
        let same : name ≡ user = (eq_iff name user).0 m in
        rw m (
          subst (λ x. spent (charge today (some x) n c) ≡ spent c + 1) (sym same)
            (usage_calls today user n c))
    | inr m ↦
        let ne : name ≢ user =
          λ same. let yes = (eq_iff name user).1 same in absurd (cc (yes, m)) in
        rw m (usage_others today user name n c ne ∙ omega arith)
  ]

  -- A step counts what it completes, and it leaves the count and the waiting calls together as they
  -- were, or lets a call in below the cap.
  abbrev Steady : Gateway → Gateway × CompletionOutcome → Type 0
  Steady g s =
      (spent s.0.counters ≡ spent g.counters + completes s.1)
      × ((spent s.0.counters + overlapping s.0.in_flight
            ≤ spent g.counters + overlapping g.in_flight)
          ⊎ (suc (spent s.0.counters) ≤ limits.daily_calls))

  begin-Steady :
      (who : Option String) (input : String) (g : Gateway)
      → past_gate limits today who g.counters ≡ true
      → Steady g
          (record g { in_flight = record { user = who; input = input } ∷ g.in_flight }, awaiting)
  unfolding has_budget
  begin-Steady none input g pass = (omega arith, inl (omega arith))
  begin-Steady (some name) input g pass = elim (Bool-cases (str_eq name user)) [
    | inr m ↦ (omega arith, inl (rw m (omega arith)))
    | inl m ↦
        let same : name ≡ user = (eq_iff name user).0 m in
        let mine = subst (λ x. has_budget limits today x g.counters ≡ true) same pass in
        let room =
          (and-parts (ltb (get_count today user calls g.counters) limits.daily_calls)
            (ltb (get_count today user tokens g.counters) limits.daily_tokens) mine).0 in
        (omega arith, inr (ground (arith, room)))
  ]

  step-Steady : (e : GatewayEvent) (g : Gateway) → Steady g (gateway_step limits today e g)
  step-Steady (begins who input) g =
      elim (Bool-cases (past_gate limits today (attributed who) g.counters)) [
        | inl pass ↦ rw pass (begin-Steady (attributed who) input g pass)
        | inr stop ↦ rw stop (omega arith, inl (omega arith))
      ]
  step-Steady (answers position answer) g = by_call (call_at position g.in_flight) answer refl
    where
      by_call :
          (o : Option PendingCall) (a : Option Completion)
          → call_at position g.in_flight ≡ o
          → Steady g (answer_call today position a o g)
      by_call none a e = (omega arith, inl (omega arith))
      by_call (some call) none e =
          let fewer = overlapping-without position g.in_flight call e in
          (omega arith, inl (omega (arith, fewer)))
      by_call (some call) (some r) e =
          let fewer = overlapping-without position g.in_flight call e in
          let more = charge-spent call.user (charge_for call.input r.text r.usage) g.counters in
          (more, inl (omega (arith, fewer, more)))

  run-bound :
      (bound : ℕ) (es : List GatewayEvent) (g : Gateway)
      → spent g.counters + overlapping g.in_flight ≤ bound
      → limits.daily_calls + peak es g ≤ suc bound
      → (spent (run_gateway limits today es g).counters ≡ spent g.counters + completed_calls es g)
        × (spent (run_gateway limits today es g).counters ≤ bound)
  unfolding run_gateway completed_calls peak
  run-bound bound [] g within room = (omega arith, omega (arith, within))
  run-bound bound (e ∷ es) g within room =
      let s = gateway_step limits today e g in
      let steady = step-Steady e g in
      let low = peak-le es s.0 in
      let later : spent s.0.counters + overlapping s.0.in_flight ≤ bound = elim steady.1 [
        | inl h ↦ omega (arith, h, within)
        | inr h ↦ omega (arith, h, room, low)
      ] in
      let rest = run-bound bound es s.0 later (omega (arith, room)) in
      (omega (arith, rest.0, steady.0), rest.1)
    where
      peak-le : (later : List GatewayEvent) (h : Gateway) → overlapping h.in_flight ≤ peak later h
      peak-le [] h = omega arith
      peak-le (x ∷ later) h = omega arith

  -- Whichever calls begin, and in whatever order the wrapped gateway answers or fails them, a user's
  -- calls of one day count exactly those of them that are completed, and never exceed the greater of
  -- what the count and the waiting calls were at the start and the daily cap with, beyond it, the
  -- user's calls that wait at once but one: a user whose calls do not overlap stays within the cap.
  pub completions_today_le :
      (es : List GatewayEvent) (g : Gateway)
      → (get_count today user calls (run_gateway limits today es g).counters
          ≡ get_count today user calls g.counters + completed_calls es g)
        × (get_count today user calls (run_gateway limits today es g).counters
            ≤ max
                (get_count today user calls g.counters + overlapping g.in_flight)
                (limits.daily_calls + peak es g - 1))
  completions_today_le es g = run-bound _ es g (omega arith) (omega arith)
