-- ===== src/Memory/Deletion/Erasure/Redactions.antt =====
-- The redactions of a deletion: no answer cites an erased memory, and no draft of a reply is left
-- of an erased email.
use cogeto.Base.{
  ℕ, zero, suc, ◌≤◌, String, false, List, [], ◌∷◌, ◌≡◌, refl, arith, ◌∙◌, ◌&&◌, not, map, has_id,
  All, Bool-cases, inl, inr, any, take, drop, length,
}
use cogeto.Shared.{SourceType, email, same_source_type}
use cogeto.Db.{
  World, ChatMessage, MessageContent, citing, answer_redacted, ApprovalRow, Payload, bulk_outdate,
  reply_draft, malformed,
}
use cogeto.Db.Outcome.{Ensures, returns, Ensures-if, Ensures-bind, Ensures-mono}
use cogeto.Memory.Deletion.Cascades.{
  cites, quotes, redact_answer, redact_batch, redact_batches, chat_answer_cascade, drafts_from,
  redact_draft, redact_payload, is_draft_payload, reply_draft_cascade, ids_per_statement,
}
use cogeto.Memory.Deletion.Erasure.Stages.{Steady, Steady-refl, Steady-trans}

abbrev pub Silent : List ℕ → ChatMessage → Type 0
Silent ids message = quotes ids message ≡ false

has_id-parts :
    (n k : ℕ) (ids : List ℕ)
    → has_id k (take n ids) ≡ false
    → has_id k (drop n ids) ≡ false
    → has_id k ids ≡ false
has_id-parts zero k ids a b = b
has_id-parts (suc n) k [] a b = refl
has_id-parts (suc n) k (j ∷ ids) a b = ground (arith, a, has_id-parts n k ids (ground (arith, a)) b)

any-parts :
    (n : ℕ) (ids cited : List ℕ)
    → any (λ k. has_id k (take n ids)) cited ≡ false
    → any (λ k. has_id k (drop n ids)) cited ≡ false
    → any (λ k. has_id k ids) cited ≡ false
any-parts n ids [] a b = refl
any-parts n ids (k ∷ cited) a b =
    let here = has_id-parts n k ids (ground (arith, a)) (ground (arith, b)) in
    let rest = any-parts n ids cited (ground (arith, a)) (ground (arith, b)) in rw (here, rest) refl

cites-parts :
    (n : ℕ) (ids : List ℕ) (content : MessageContent)
    → cites (take n ids) content ≡ false
    → cites (drop n ids) content ≡ false
    → cites ids content ≡ false
cites-parts n ids (citing cited) a b = any-parts n ids cited a b
cites-parts n ids answer_redacted a b = refl

Silent-parts :
    (n : ℕ) (ids : List ℕ) (message : ChatMessage)
    → Silent (take n ids) message
    → Silent (drop n ids) message
    → Silent ids message
Silent-parts n ids message a b = ground (arith, a, b, cites-parts n ids message.content)

All-Silent-parts :
    (n : ℕ) (ids : List ℕ) (messages : List ChatMessage)
    → All (Silent (take n ids)) messages
    → All (Silent (drop n ids)) messages
    → All (Silent ids) messages
All-Silent-parts n ids [] a b = tt
All-Silent-parts n ids (m ∷ ms) a b =
    (Silent-parts n ids m a.0 b.0, All-Silent-parts n ids ms a.1 b.1)

redact_answer-Silent :
    (ids batch : List ℕ) (message : ChatMessage)
    → Silent ids message
    → Silent ids (redact_answer batch message)
redact_answer-Silent ids batch message h = elim (Bool-cases (quotes batch message)) [
  | inl e ↦ rw e (ground arith)
  | inr e ↦ rw e h
]

redacted-Silent :
    (batch : List ℕ) (message : ChatMessage) → Silent batch (redact_answer batch message)
redacted-Silent batch message = elim (Bool-cases (quotes batch message)) [
  | inl e ↦ rw e (ground arith)
  | inr e ↦ rw e e
]

module _ {A : Type 0} (P Q : A → Type 0) where
  All-map : (f : A → A) (xs : List A) → ((x : A) → P x → Q (f x)) → All P xs → All Q (map f xs)
  All-map f [] step h = tt
  All-map f (x ∷ xs) step h = (step x h.0, All-map f xs step h.1)

anything : {A : Type 0} → (xs : List A) → All (λ _. Unit {0}) xs
anything [] = tt
anything (x ∷ xs) = (tt, anything xs)

-- What a run of the redactions leaves.
record Redacted (ids : List ℕ) (w w' : World) : Type 0 where
  steady : Steady w w'
  tasks : w'.vault.tasks ≡ w.vault.tasks
  silent : All (Silent ids) w'.vault.messages
  still :
      (others : List ℕ)
      → All (Silent others) w.vault.messages
      → All (Silent others) w'.vault.messages

nothing_cited : (cited : List ℕ) → any (λ k. has_id k []) cited ≡ false
nothing_cited [] = refl
nothing_cited (k ∷ cited) = nothing_cited cited

none-Silent : (message : ChatMessage) → Silent [] message
none-Silent message = by_content message.content
  where
    by_content : (c : MessageContent) → (message.is_assistant && cites [] c) ≡ false
    by_content (citing cited) = rw (nothing_cited cited) (ground arith)
    by_content answer_redacted = ground arith

all_none-Silent : (messages : List ChatMessage) → All (Silent []) messages
all_none-Silent [] = tt
all_none-Silent (m ∷ ms) = (none-Silent m, all_none-Silent ms)

redact_batch-Redacted :
    (batch : List ℕ) (w : World) → Ensures (λ _ w'. Redacted batch w w') (redact_batch batch w)
unfolding redact_batch
redact_batch-Redacted batch w = returns (record {
  steady = record {
    facts_same = refl;
    files = refl;
    sources = refl;
    receipts = refl;
    jobs = refl;
    next_id = refl;
  };
  tasks = refl;
  silent =
      All-map (λ _. Unit {0}) (Silent batch) (redact_answer batch) w.vault.messages
        (λ m _. redacted-Silent batch m) (anything w.vault.messages);
  still = λ others h.
      All-map (Silent others) (Silent others) (redact_answer batch) w.vault.messages
        (redact_answer-Silent others batch) h;
})

length-drop-le : (n : ℕ) (ids : List ℕ) → length (drop n ids) ≤ length ids
length-drop-le zero ids = omega arith
length-drop-le (suc n) [] = omega arith
length-drop-le (suc n) (id ∷ ids) = omega (arith, length-drop-le n ids)

redact_batches-Redacted :
    (rounds : ℕ) (ids : List ℕ) (w : World)
    → length ids ≤ rounds
    → Ensures (λ _ w'. Redacted ids w w') (redact_batches rounds ids w)
unfolding redact_batches
redact_batches-Redacted zero [] w enough = returns (record {
  steady = Steady-refl w;
  tasks = refl;
  silent = all_none-Silent w.vault.messages;
  still = λ others h. h;
})
redact_batches-Redacted zero (id ∷ ids) w enough = absurd (omega (arith, enough))
redact_batches-Redacted (suc rounds) [] w enough = returns (record {
  steady = Steady-refl w;
  tasks = refl;
  silent = all_none-Silent w.vault.messages;
  still = λ others h. h;
})
redact_batches-Redacted (suc rounds) (id ∷ ids) w enough =
    Ensures-bind _ (redact_batch-Redacted (take ids_per_statement (id ∷ ids)) w) λ _ v here.
      Ensures-bind _
        (redact_batches-Redacted rounds (drop ids_per_statement (id ∷ ids)) v
          (omega (arith, enough, length-drop-le 99 ids)))
        λ _ w' rest. returns (record {
          steady = Steady-trans here.steady rest.steady;
          tasks = rest.tasks ∙ here.tasks;
          silent =
              All-Silent-parts ids_per_statement (id ∷ ids) w'.vault.messages
                (rest.still (take ids_per_statement (id ∷ ids)) here.silent) rest.silent;
          still = λ others h. rest.still others (here.still others h);
        })

-- No answer cites the erased memories.
pub chat_answer_cascade-All :
    (ids : List ℕ) (w : World)
    → Ensures
        (λ _ w'.
          Steady w w' × (w'.vault.tasks ≡ w.vault.tasks) × All (Silent ids) w'.vault.messages)
        (chat_answer_cascade ids w)
unfolding chat_answer_cascade
chat_answer_cascade-All ids w =
    Ensures-mono (redact_batches-Redacted (length ids) ids w (omega arith))
      λ _ w' r. (r.steady, r.tasks, r.silent)

-- No draft of a reply to the source has its text.
abbrev pub Withdrawn : SourceType → String → ApprovalRow → Type 0
Withdrawn type id row = (same_source_type type email && drafts_from id row) ≡ false

redact_payload-drafts :
    (id : String) (payload : Payload) → is_draft_payload id (redact_payload payload) ≡ false
redact_payload-drafts id (bulk_outdate ids reason) = refl
redact_payload-drafts id malformed = refl
redact_payload-drafts id (reply_draft d) = ground arith

redact_draft-drafts :
    (id : String) (row : ApprovalRow) → drafts_from id (redact_draft id row) ≡ false
redact_draft-drafts id row = elim (Bool-cases (drafts_from id row)) [
  | inl e ↦ rw e (ground (arith, redact_payload-drafts id row.payload_json))
  | inr e ↦ rw e e
]

all-Withdrawn :
    (type : SourceType) (id : String) (rows : List ApprovalRow)
    → same_source_type type email ≡ false
    → All (Withdrawn type id) rows
all-Withdrawn type id [] e = tt
all-Withdrawn type id (row ∷ rows) e = (rw e refl, all-Withdrawn type id rows e)

pub reply_draft_cascade-All :
    (type : SourceType) (id : String) (w : World)
    → Ensures
        (λ _ w'. Steady w w' × (w'.vault ≡ w.vault) × All (Withdrawn type id) w'.approvals)
        (reply_draft_cascade type id w)
unfolding reply_draft_cascade
reply_draft_cascade-All type id w =
    Ensures-if (not (same_source_type type email)) _ _ w
      (λ e. returns (Steady-refl w, refl, all-Withdrawn type id w.approvals (ground (arith, e))))
      (λ _. returns (
        record {
          facts_same = refl;
          files = refl;
          sources = refl;
          receipts = refl;
          jobs = refl;
          next_id = refl;
        },
        refl,
        All-map (λ _. Unit {0}) (Withdrawn type id) (redact_draft id) w.approvals
            (λ row _. ground (arith, redact_draft-drafts id row)) (anything w.approvals),
      ))
