-- ===== src/Tasks/Derivation.antt =====
-- project/src/tasks/derivation-rule.ts: which memories are first-person, and the check of the traps
-- against it. A failure keeps the numbers that its message shows.
use cogeto.Base.{
  ℕ, String, Bool, true, false, Option, none, some, List, [], ◌∷◌, ◌≡◌, ◌≢◌, ◌↔◌, suc, ap, subst,
  sym, ◌∙◌, refl, arith, ◌==◌, length, keep, All, if◌then◌else◌, Bool-cases, inl, inr,
}
use cogeto.Shared.{
  SourceType, user_note, chat, email, calendar_event, file, task_conclusion, web, FactKind,
  commitment, open_loop, decision, preference, fact, same_kind,
}

-- `authoredByUser` may be unknown.
abbrev pub authored : Option Bool → Bool
authored none = false
authored (some b) = b

unfoldable pub first_person_source : SourceType → (authored_by_user : Option Bool) → Bool
first_person_source user_note by = true
first_person_source chat by = true
first_person_source email by = authored by
first_person_source calendar_event by = false
first_person_source file by = false
first_person_source task_conclusion by = false
first_person_source web by = false

abbrev pub is_deriving : Option FactKind → Bool
is_deriving none = false
is_deriving (some k) = if same_kind k commitment then true else same_kind k open_loop

pub record DerivationTrapInput : Type 0 where
  pub case_id : String
  pub source_type : SourceType
  pub authored_by_user : Option Bool
  pub expected_tasks : ℕ
  pub fact_kinds : List (Option FactKind)

pub record Failure : Type 0 where
  pub case_id : String
  pub derived : ℕ
  pub expected : ℕ
  pub source_type : SourceType
  pub deriving_facts : ℕ

pub record DerivationTrapResult : Type 0 where
  pub cases : ℕ
  pub failures : List Failure

abbrev pub deriving_facts : DerivationTrapInput → ℕ
deriving_facts input = length (keep is_deriving input.fact_kinds)

abbrev pub derived_tasks : DerivationTrapInput → ℕ
derived_tasks input =
    if first_person_source input.source_type input.authored_by_user then deriving_facts input else 0

abbrev pub failure_of : DerivationTrapInput → Failure
failure_of input = record {
  case_id = input.case_id;
  derived = derived_tasks input;
  expected = input.expected_tasks;
  source_type = input.source_type;
  deriving_facts = deriving_facts input;
}

abbrev pub failures_of : List DerivationTrapInput → List Failure
failures_of [] = []
failures_of (input ∷ inputs) =
    if derived_tasks input == input.expected_tasks
    then failures_of inputs
    else failure_of input ∷ failures_of inputs

unfoldable pub run_derivation_trap_eval : List DerivationTrapInput → DerivationTrapResult
run_derivation_trap_eval inputs = record { cases = length inputs; failures = failures_of inputs }

-- The number of commitments and open loops among the kinds of the facts.
pub data Deriving : List (Option FactKind) → ℕ → Type 0 where
  no_facts : Deriving [] 0
  a_commitment :
      {kinds : List (Option FactKind)} {n : ℕ}
      → Deriving kinds n
      → Deriving (some commitment ∷ kinds) (suc n)
  a_loop :
      {kinds : List (Option FactKind)} {n : ℕ}
      → Deriving kinds n
      → Deriving (some open_loop ∷ kinds) (suc n)
  another :
      {kinds : List (Option FactKind)} {n : ℕ} (kind : Option FactKind)
      → kind ≢ some commitment
      → kind ≢ some open_loop
      → Deriving kinds n
      → Deriving (kind ∷ kinds) n

-- A case whose facts derive as many tasks as it expects: as many as its deriving facts where the
-- user wrote or adopted the content, and none otherwise.
pub data Met (input : DerivationTrapInput) : Type 0 where
  noted : input.source_type ≡ user_note → Deriving input.fact_kinds input.expected_tasks → Met input
  said : input.source_type ≡ chat → Deriving input.fact_kinds input.expected_tasks → Met input
  sent :
      input.source_type ≡ email
      → input.authored_by_user ≡ some true
      → Deriving input.fact_kinds input.expected_tasks
      → Met input
  observed :
      input.source_type ≢ user_note
      → input.source_type ≢ chat
      → (input.source_type ≡ email → input.authored_by_user ≢ some true)
      → input.expected_tasks ≡ 0
      → Met input

another-counted :
    (kind : Option FactKind)
    → kind ≢ some commitment
    → kind ≢ some open_loop
    → is_deriving kind ≡ false
another-counted none c o = refl
another-counted (some commitment) c o = absurd (c refl)
another-counted (some open_loop) c o = absurd (o refl)
another-counted (some decision) c o = refl
another-counted (some preference) c o = refl
another-counted (some fact) c o = refl

Deriving-counted :
    {kinds : List (Option FactKind)} {n : ℕ}
    → Deriving kinds n
    → n ≡ length (keep is_deriving kinds)
Deriving-counted no_facts = refl
Deriving-counted (a_commitment rest) = ap suc (Deriving-counted rest)
Deriving-counted (a_loop rest) = ap suc (Deriving-counted rest)
Deriving-counted (another kind c o rest) = rw (another-counted kind c o) (Deriving-counted rest)

counted-Deriving :
    (kinds : List (Option FactKind)) → Deriving kinds (length (keep is_deriving kinds))
counted-Deriving [] = no_facts
counted-Deriving (none ∷ kinds) = another none (λ q. cc q) (λ q. cc q) (counted-Deriving kinds)
counted-Deriving (some commitment ∷ kinds) = a_commitment (counted-Deriving kinds)
counted-Deriving (some open_loop ∷ kinds) = a_loop (counted-Deriving kinds)
counted-Deriving (some decision ∷ kinds) =
    another (some decision) (λ q. cc q) (λ q. cc q) (counted-Deriving kinds)
counted-Deriving (some preference ∷ kinds) =
    another (some preference) (λ q. cc q) (λ q. cc q) (counted-Deriving kinds)
counted-Deriving (some fact ∷ kinds) =
    another (some fact) (λ q. cc q) (λ q. cc q) (counted-Deriving kinds)

deriving_facts-Deriving :
    (input : DerivationTrapInput)
    → deriving_facts input ≡ input.expected_tasks
    → Deriving input.fact_kinds input.expected_tasks
deriving_facts-Deriving input e =
    subst (Deriving input.fact_kinds) e (counted-Deriving input.fact_kinds)

Met-derived : (input : DerivationTrapInput) → Met input → derived_tasks input ≡ input.expected_tasks
unfolding first_person_source
Met-derived input (noted s e) = rw s (sym (Deriving-counted e))
Met-derived input (said s e) = rw s (sym (Deriving-counted e))
Met-derived input (sent s by e) = rw (s, by) (sym (Deriving-counted e))
Met-derived input (observed n c m e) = unseen input.source_type input.authored_by_user n c m ∙ sym e
  where
    unseen :
        (s : SourceType) (by : Option Bool)
        → s ≢ user_note
        → s ≢ chat
        → (s ≡ email → by ≢ some true)
        → (if first_person_source s by then deriving_facts input else 0) ≡ 0
    unseen user_note by n c m = absurd (n refl)
    unseen chat by n c m = absurd (c refl)
    unseen email none n c m = refl
    unseen email (some true) n c m = absurd (m refl refl)
    unseen email (some false) n c m = refl
    unseen calendar_event by n c m = refl
    unseen file by n c m = refl
    unseen task_conclusion by n c m = refl
    unseen web by n c m = refl

derived-Met : (input : DerivationTrapInput) → derived_tasks input ≡ input.expected_tasks → Met input
unfolding first_person_source
derived-Met input e = by_source input.source_type input.authored_by_user refl refl e
  where
    by_source :
        (s : SourceType) (by : Option Bool)
        → input.source_type ≡ s
        → input.authored_by_user ≡ by
        → (if first_person_source s by then deriving_facts input else 0) ≡ input.expected_tasks
        → Met input
    by_source user_note by is known e = noted is (deriving_facts-Deriving input e)
    by_source chat by is known e = said is (deriving_facts-Deriving input e)
    by_source email none is known e =
        observed (λ q. cc (is, q)) (λ q. cc (is, q)) (λ _ q. cc (known, q)) (sym e)
    by_source email (some true) is known e = sent is known (deriving_facts-Deriving input e)
    by_source email (some false) is known e =
        observed (λ q. cc (is, q)) (λ q. cc (is, q)) (λ _ q. cc (known, q)) (sym e)
    by_source calendar_event by is known e =
        observed (λ q. cc (is, q)) (λ q. cc (is, q)) (λ q. cc (is, q)) (sym e)
    by_source file by is known e =
        observed (λ q. cc (is, q)) (λ q. cc (is, q)) (λ q. cc (is, q)) (sym e)
    by_source task_conclusion by is known e =
        observed (λ q. cc (is, q)) (λ q. cc (is, q)) (λ q. cc (is, q)) (sym e)
    by_source web by is known e =
        observed (λ q. cc (is, q)) (λ q. cc (is, q)) (λ q. cc (is, q)) (sym e)

-- The check of the traps reports no failure exactly when every case is met: it expects as many
-- tasks as it has commitments and open loops where the content is a note, a chat or a mail that the
-- user wrote, and no task otherwise.
pub run_derivation_trap_eval-Met :
    (inputs : List DerivationTrapInput)
    → ((run_derivation_trap_eval inputs).failures ≡ []) ↔ All Met inputs
unfolding run_derivation_trap_eval
run_derivation_trap_eval-Met [] = ((λ _. tt), λ _. refl)
run_derivation_trap_eval-Met (input ∷ inputs) =
    let rest = run_derivation_trap_eval-Met inputs in
    elim (Bool-cases (derived_tasks input == input.expected_tasks)) [
      | inl e ↦
          let met : Met input = derived-Met input (ground (arith, e)) in
          ((λ q. (met, rest.0 (ground (arith, e, q)))), λ h. ground (arith, e, rest.1 h.1))
      | inr e ↦ (
        (λ q. absurd (ground (arith, e, q))),
        λ h. let same = Met-derived input h.0 in absurd (ground (arith, e, same)),
      )
    ]
