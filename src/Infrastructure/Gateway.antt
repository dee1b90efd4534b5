-- ===== src/Infrastructure/Gateway.antt =====
-- The decorator that enforces the budget, project/src/model-gateway/budgeted.gateway.ts: `gate`,
-- `charge` and `complete`. Between its gate and its charge `complete` awaits the wrapped gateway, so
-- it is two steps, with other calls between them.
pub mod Overlap
use cogeto.Base.{
  ℕ, zero, suc, ◌+◌, ◌/◌, String, Bool, true, false, Option, none, some, List, [], ◌∷◌,
  if◌then◌else◌, str_eq, text_length,
}
use cogeto.Infrastructure.Counters.{Counters, ModelBudget, has_budget, record_usage}

-- A completion: its text, and the usage that the provider reported, if it did.
pub record Completion : Type 0 where
  pub text : String
  pub usage : Option (ℕ × ℕ)

-- About four characters to a token, rounded up.
abbrev pub estimate : String → String → ℕ
estimate input output = (text_length input + text_length output + 3) / 4

-- The tokens to charge: what the provider reported, or the estimate.
abbrev pub charge_for : String → String → Option (ℕ × ℕ) → ℕ
charge_for input text none = estimate input text
charge_for input text (some usage) = usage.0 + usage.1

-- No user, or a blank one, is not metered.
abbrev pub attributed : Option String → Option String
attributed none = none
attributed (some user) = if str_eq user "" then none else some user

abbrev pub past_gate : ModelBudget → ℕ → Option String → Counters → Bool
past_gate limits today none c = true
past_gate limits today (some user) c = has_budget limits today user c

-- A call that awaits the wrapped gateway: whom it will charge, and its input.
pub record PendingCall : Type 0 where
  pub user : Option String
  pub input : String

pub record Gateway : Type 0 where
  pub counters : Counters
  pub in_flight : List PendingCall

pub data CompletionOutcome : Type 0 where
  awaiting : CompletionOutcome
  budget_exceeded : CompletionOutcome
  completed : (user : Option String) → Completion → CompletionOutcome
  inner_failed : CompletionOutcome
  no_call : CompletionOutcome

-- `complete` up to its await.
abbrev pub begin_complete :
    ModelBudget → ℕ → Option String → String → Gateway → Gateway × CompletionOutcome
begin_complete limits today user input g =
    if past_gate limits today (attributed user) g.counters
    then (
      record g { in_flight = record { user = attributed user; input = input } ∷ g.in_flight },
      awaiting,
    )
    else (g, budget_exceeded)

-- The charge of a call, to its user.
abbrev pub charge : ℕ → Option String → ℕ → Counters → Counters
charge today none tokens c = c
charge today (some user) tokens c = record_usage today user tokens c

-- The rest of `complete`, once the wrapped gateway answers, or throws, which is `none`.
abbrev pub end_complete :
    ℕ → PendingCall → Option Completion → Counters → Counters × CompletionOutcome
end_complete today call none c = (c, inner_failed)
end_complete today call (some r) c =
    (charge today call.user (charge_for call.input r.text r.usage) c, completed call.user r)

-- The calls go on in any order: one begins, or the one at a position is answered.
pub data GatewayEvent : Type 0 where
  begins : (user : Option String) → (input : String) → GatewayEvent
  answers : (position : ℕ) → Option Completion → GatewayEvent

abbrev pub call_at : ℕ → List PendingCall → Option PendingCall
call_at n [] = none
call_at zero (call ∷ calls) = some call
call_at (suc n) (call ∷ calls) = call_at n calls

abbrev pub without_call : ℕ → List PendingCall → List PendingCall
without_call n [] = []
without_call zero (call ∷ calls) = calls
without_call (suc n) (call ∷ calls) = call ∷ without_call n calls

abbrev pub answer_call :
    ℕ → ℕ → Option Completion → Option PendingCall → Gateway → Gateway × CompletionOutcome
answer_call today position answer none g = (g, no_call)
answer_call today position answer (some call) g =
    let ended = end_complete today call answer g.counters in
    (record { counters = ended.0; in_flight = without_call position g.in_flight }, ended.1)

abbrev pub gateway_step : ModelBudget → ℕ → GatewayEvent → Gateway → Gateway × CompletionOutcome
gateway_step limits today (begins user input) g = begin_complete limits today user input g
gateway_step limits today (answers position answer) g =
    answer_call today position answer (call_at position g.in_flight) g

unfoldable pub run_gateway : ModelBudget → ℕ → List GatewayEvent → Gateway → Gateway
run_gateway limits today [] g = g
run_gateway limits today (e ∷ es) g = run_gateway limits today es (gateway_step limits today e g).0
