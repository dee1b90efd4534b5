-- ===== src/Infrastructure/Queue.antt =====
-- project/src/infrastructure/queue.ts: the wrapper that gives a job handler its at-most-once effect,
-- its retries and its dead letters. The advisory locks are left out: one delivery runs at a time.
use cogeto.Base.{
  ℕ, ◌+◌, ◌≤◌, ◌≡◌, inl, inr, refl, arith, String, Bool, true, false, Option, none, some, List, [],
  ◌∷◌, subst, sym, if◌then◌else◌, ◌&&◌, not, leb, str_eq, eq_iff, Bool-cases, any,
}

pub record JobKey : Type 0 where
  pub source_type : String
  pub source_id : String
  pub job_type : String

abbrev pub same_key : JobKey → JobKey → Bool
same_key a b =
    str_eq a.source_type b.source_type
    && str_eq a.source_id b.source_id
    && str_eq a.job_type b.job_type

-- The unique index of `job_execution`.
abbrev pub has_key : JobKey → List JobKey → Bool
has_key key keys = any (λ k. same_key k key) keys

pub record DeadLetter : Type 0 where
  pub key : JobKey
  pub attempts : ℕ

pub record QueueState {ℓ} (S : Type ℓ) : Type ℓ where
  pub inner : S
  pub executions : List JobKey
  pub dead_letters : List DeadLetter

-- A handler returns, perhaps with work for after the commit, or throws in a state that the database
-- will roll back.
pub data Handled {ℓ} (S : Type ℓ) : Type ℓ where
  done : (state : S) → (after_commit : Option (S → S)) → Handled S
  failed : (state : S) → Handled S

-- The first delivery that returns completes the job; a later one is skipped.
pub data TaskResult : Type 0 where
  completed skipped dead_lettered rethrown : TaskResult

-- `consumeIdempotencyKey`: whether the key was free.
unfoldable pub consume_idempotency_key : JobKey → List JobKey → List JobKey × Bool
consume_idempotency_key key keys = if has_key key keys then (keys, false) else (key ∷ keys, true)

abbrev pub dead_letter_write_attempts : ℕ
dead_letter_write_attempts = 3

-- One delivery: the attempt's number, and how many writes of the dead letter fail.
pub record Delivery : Type 0 where
  pub key : JobKey
  pub attempts : ℕ
  pub max_attempts : ℕ
  pub failing_writes : ℕ

-- `idempotentPayloadSchema`: both parts of the key are non-empty.
abbrev is_valid : JobKey → Bool
is_valid key = not (str_eq key.source_type "") && not (str_eq key.source_id "")

-- `handle` is the job's handler, and `undo before after` what a rollback leaves.
module _ {ℓ} {S : Type ℓ} (handle : JobKey → S → Handled S) (undo : S → S → S) where
  abbrev run_after : Option (S → S) → S → S
  run_after none s = s
  run_after (some f) s = f s

  abbrev on_failure : Delivery → QueueState S → QueueState S × TaskResult
  on_failure d q =
      if leb d.max_attempts d.attempts
      then (if leb dead_letter_write_attempts d.failing_writes then (q, rethrown) else (
        record q { dead_letters = record { key = d.key; attempts = d.attempts } ∷ q.dead_letters },
        dead_lettered,
      ))
      else (q, rethrown)

  -- The transaction's commit, then the work for after it; or the rollback, then the failure path.
  abbrev settle_run : Delivery → QueueState S → Handled S → QueueState S × TaskResult
  settle_run d q (done s after) =
      (record q { inner = run_after after s; executions = d.key ∷ q.executions }, completed)
  settle_run d q (failed s) = on_failure d (record q { inner = undo q.inner s })

  abbrev claimed_run : Delivery → QueueState S → Bool → QueueState S × TaskResult
  claimed_run d q false = (q, skipped)
  claimed_run d q true = settle_run d q (handle d.key q.inner)

  unfoldable pub idempotent_task : Delivery → QueueState S → QueueState S × TaskResult
  idempotent_task d q =
      if is_valid d.key
      then claimed_run d q (consume_idempotency_key d.key q.executions).1
      else (q, rethrown)

  -- Any sequence of deliveries, of this job and of others of its type.
  unfoldable pub deliver_all : List Delivery → QueueState S → QueueState S
  deliver_all [] q = q
  deliver_all (d ∷ ds) q = deliver_all ds (idempotent_task d q).0

  abbrev completion : JobKey → Delivery → TaskResult → ℕ
  completion key d completed = if same_key d.key key then 1 else 0
  completion key d skipped = 0
  completion key d dead_lettered = 0
  completion key d rethrown = 0

  -- How many deliveries of a key ran its handler to a commit.
  unfoldable pub completions : JobKey → List Delivery → QueueState S → ℕ
  completions key [] q = 0
  completions key (d ∷ ds) q =
      let outcome = idempotent_task d q in completion key d outcome.1 + completions key ds outcome.0

  pub on_failure-executions :
      (d : Delivery) (q : QueueState S) → (on_failure d q).0.executions ≡ q.executions
  on_failure-executions d q = ground arith

  on_failure-rest :
      (key : JobKey) (d : Delivery) (q : QueueState S) → completion key d (on_failure d q).1 ≡ 0
  on_failure-rest key d q = ground arith

pub same_key→≡ : (a b : JobKey) → same_key a b ≡ true → a ≡ b
same_key→≡ a b h = ground (
  arith,
  h,
  eq_iff a.source_type b.source_type,
  eq_iff a.source_id b.source_id,
  eq_iff a.job_type b.job_type,
)

-- How many completions a key has left.
abbrev pub left : JobKey → List JobKey → ℕ
left key keys = if has_key key keys then 0 else 1

module _ {ℓ} {S : Type ℓ} (handle : JobKey → S → Handled S) (undo : S → S → S) where
  settle_run-left :
      (key : JobKey) (d : Delivery) (q : QueueState S) (h : Handled S)
      → has_key d.key q.executions ≡ false
      → completion handle undo key d (settle_run handle undo d q h).1
          + left key (settle_run handle undo d q h).0.executions
        ≤ left key q.executions
  settle_run-left key d q (failed s) free = ground arith
  settle_run-left key d q (done s after) free = elim (Bool-cases (same_key d.key key)) [
    | inl e ↦
        let same : d.key ≡ key = same_key→≡ d.key key e in
        let open_ : has_key key q.executions ≡ false =
          subst (λ k. has_key k q.executions ≡ false) same free in
        ground (arith, e, open_)
    | inr e ↦ ground (arith, e)
  ]

  abbrev Within : JobKey → Delivery → QueueState S → QueueState S × TaskResult → Type 0
  Within key d q outcome =
      completion handle undo key d outcome.1 + left key outcome.0.executions ≤ left key q.executions

  task-left :
      (key : JobKey) (d : Delivery) (q : QueueState S)
      → completion handle undo key d (idempotent_task handle undo d q).1
          + left key (idempotent_task handle undo d q).0.executions
        ≤ left key q.executions
  unfolding idempotent_task consume_idempotency_key
  task-left key d q = elim (Bool-cases (is_valid d.key)) [
    | inr e ↦
        let stop : idempotent_task handle undo d q ≡ (q, rethrown) = rw e refl in
        subst (Within key d q) (sym stop) (omega arith)
    | inl e ↦ elim (Bool-cases (has_key d.key q.executions)) [
      | inl taken ↦
          let skip : idempotent_task handle undo d q ≡ (q, skipped) = rw e (rw taken refl) in
          subst (Within key d q) (sym skip) (omega arith)
      | inr free ↦
          let go : idempotent_task handle undo d q
              ≡ settle_run handle undo d q (handle d.key q.inner) =
            rw e (rw free refl) in
          subst (Within key d q) (sym go) (settle_run-left key d q (handle d.key q.inner) free)
    ]
  ]

  -- However a job is delivered, and whichever attempts fail, at most one delivery of its key runs
  -- the handler to a commit, and none does where the key was consumed before.
  pub completions_le :
      (key : JobKey) (ds : List Delivery) (q : QueueState S)
      → completions handle undo key ds q ≤ left key q.executions
  unfolding completions
  completions_le key [] q = omega arith
  completions_le key (d ∷ ds) q =
      let one = task-left key d q in
      let rest = completions_le key ds (idempotent_task handle undo d q).0 in
      omega (arith, one, rest)
