-- ===== src/Agents/Runs.antt =====
-- Requests, expiry passes and whole sequences of approval operations.
use cogeto.Base.{
  ℕ, ◌<◌, true, false, Option, none, some, List, [], ◌∷◌, ◌≡◌, ◌≢◌, refl, arith, subst, sym, ap,
  ◌∙◌, ◌==◌, All, has_id, map, keep, Bool-cases, inl, inr,
}
use cogeto.Base.Table.{find, find-key, UniqueKeys}
use cogeto.Shared.{pending_approval, expired, Principal}
use cogeto.Db.{
  World, ApprovalRow, Payload, bulk_outdate, reply_draft, malformed, ActionType,
  memory_bulk_outdate, email_reply_draft, unknown_action, approval_key, write_audit,
}
use cogeto.Db.Outcome.{
  Ensures, returns, throws, Ensures-bind, Ensures-if, Ensures-mono, Ensures-transaction,
}
use cogeto.Agents.Machine.{MayFollow, lapse, stay, then_}
use cogeto.Agents.Registry.{
  definition_of, or_bad_request, get_definition, fits_schema, parse_payload, missing_targets,
  none_missing, authorize_create,
}
use cogeto.Agents.Approvals.{
  create_approval, is_stale, expire_row, audit_expiries, expire_rows, expire_stale,
}
use cogeto.Agents.Lifecycle.{Advances, Advances-refl, Edits, Edits-Later, insert_new-Advances}

or_bad_request-Same {ℓ} :
    {A : Type ℓ} (o : Option A) (w : World) → Ensures (λ _ w'. w' ≡ w) (or_bad_request o w)
or_bad_request-Same none w = throws
or_bad_request-Same (some a) w = returns refl

parse_payload-Same :
    (action : ActionType) (raw : Payload) (w : World)
    → Ensures (λ _ w'. w' ≡ w) (parse_payload action raw w)
unfolding parse_payload get_definition
parse_payload-Same action raw w =
    Ensures-bind _ (or_bad_request-Same (definition_of action) w)
      λ _ v same. Ensures-if (fits_schema action raw) _ _ v (λ _. returns same) (λ _. throws)

none_missing-Same : (ids : List ℕ) (w : World) → Ensures (λ _ w'. w' ≡ w) (none_missing ids w)
none_missing-Same [] w = returns refl
none_missing-Same (id ∷ ids) w = throws

authorize_create-Same :
    (p : Principal) (action : ActionType) (payload : Payload) (w : World)
    → Ensures (λ _ w'. w' ≡ w) (authorize_create p action payload w)
unfolding authorize_create
authorize_create-Same p memory_bulk_outdate (bulk_outdate ids reason) w =
    none_missing-Same (missing_targets p ids w.memories) w
authorize_create-Same p memory_bulk_outdate (reply_draft d) w = returns refl
authorize_create-Same p memory_bulk_outdate malformed w = returns refl
authorize_create-Same p email_reply_draft payload w = returns refl
authorize_create-Same p (unknown_action name) payload w = returns refl

pub create_approval-Advances :
    (p : Principal) (action : ActionType) (raw : Payload) (w : World)
    → Ensures (λ _ w'. Advances w w') (create_approval p action raw w)
unfolding create_approval get_definition
create_approval-Advances p action raw w =
    Ensures-bind _ (or_bad_request-Same (definition_of action) w) λ def w1 s1.
      Ensures-bind _ (parse_payload-Same action raw w1) λ payload w2 s2.
        Ensures-bind _ (authorize_create-Same p action payload w2) λ _ w3 s3.
          Ensures-mono (Ensures-transaction w3 (insert_new-Advances p action payload def w3))
            λ row w' a. subst (λ v. Advances v w') (s3 ∙ s2 ∙ s1) a

-- The ids of the stale rows.
abbrev stale_ids : ℕ → List ApprovalRow → List ℕ
stale_ids now rows = map (λ r. r.id) (keep (is_stale now) rows)

absent :
    (now k : ℕ) (rows : List ApprovalRow)
    → All (λ r. approval_key r ≢ k) rows
    → has_id k (stale_ids now rows) ≡ false
absent now k [] ne = refl
absent now k (row ∷ rows) ne = ground (arith, absent now k rows ne.1, ne.0)

-- Ids being unique, a row whose id is among the stale ones is stale itself.
listed_stale :
    (now k : ℕ) (rows : List ApprovalRow) (row : ApprovalRow)
    → UniqueKeys approval_key rows
    → find approval_key k rows ≡ some row
    → has_id k (stale_ids now rows) ≡ true
    → is_stale now row ≡ true
unfolding find
listed_stale now k [] row u found listed = absurd (cc)
listed_stale now k (x ∷ rows) row u found listed = elim (Bool-cases (x.id == k)) [
  | inl e ↦
      let same : x.id ≡ k = ground (arith, e) in
      let none_later : has_id k (stale_ids now rows) ≡ false =
        absent now k rows (subst (λ j. All (λ r. approval_key r ≢ j) rows) same u.0) in
      ground (arith, e, found, listed, none_later)
  | inr e ↦ listed_stale now k rows row u.1 (ground (arith, e, found)) (ground (arith, e, listed))
]

expire_row-key : (ids : List ℕ) (x : ApprovalRow) → (expire_row ids x).id ≡ x.id
expire_row-key ids x = ground arith

-- The update of all the stale rows.
find-expire :
    (ids : List ℕ) (k : ℕ) (rows : List ApprovalRow) (row : ApprovalRow)
    → find approval_key k rows ≡ some row
    → find approval_key k (map (expire_row ids) rows) ≡ some (expire_row ids row)
unfolding find
find-expire ids k [] row found = absurd (cc)
find-expire ids k (x ∷ rows) row found = elim (Bool-cases (x.id == k)) [
  | inl e ↦
      let test : ((expire_row ids x).id == k) ≡ true =
        ap (λ i. i == k) (expire_row-key ids x) ∙ e in
      let same : some x ≡ some row = rw e at found in
      let row_is : x ≡ row = cc same in rw test (ap (λ r. some (expire_row ids r)) row_is)
  | inr e ↦
      let test : ((expire_row ids x).id == k) ≡ false =
        ap (λ i. i == k) (expire_row-key ids x) ∙ e in
      rw test (find-expire ids k rows row (rw e at found))
]

All-expire :
    (P : ℕ → Type 0) (ids : List ℕ) (rows : List ApprovalRow)
    → All (λ r. P r.id) rows
    → All (λ r. P r.id) (map (expire_row ids) rows)
All-expire P ids [] h = tt
All-expire P ids (x ∷ rows) h =
    (subst P (sym (expire_row-key ids x)) h.0, All-expire P ids rows h.1)

UniqueKeys-expire :
    (ids : List ℕ) (rows : List ApprovalRow)
    → UniqueKeys approval_key rows
    → UniqueKeys approval_key (map (expire_row ids) rows)
UniqueKeys-expire ids [] u = tt
UniqueKeys-expire ids (x ∷ rows) u = (
  subst (λ j. All (λ r. r.id ≢ j) (map (expire_row ids) rows)) (sym (expire_row-key ids x))
      (All-expire (λ j. j ≢ x.id) ids rows u.0),
  UniqueKeys-expire ids rows u.1,
)

audit_expiries-Same :
    (rows : List ApprovalRow) (w : World)
    → Ensures
        (λ _ w'. (w'.approvals ≡ w.approvals) × (w'.next_id ≡ w.next_id))
        (audit_expiries rows w)
unfolding audit_expiries write_audit
audit_expiries-Same [] w = returns (refl, refl)
audit_expiries-Same (row ∷ rows) w = audit_expiries-Same rows _

stale_pending :
    (now : ℕ) (row : ApprovalRow) → is_stale now row ≡ true → row.status ≡ pending_approval
stale_pending now row h = ground (arith, h)

expire-Edits :
    (now : ℕ) (rows : List ApprovalRow) (k : ℕ) (row : ApprovalRow)
    → UniqueKeys approval_key rows
    → find approval_key k rows ≡ some row
    → Edits (expire_row (stale_ids now rows)) row
expire-Edits now rows k row u found =
    let key : row.id ≡ k = find-key approval_key k rows row found in
    elim (Bool-cases (has_id row.id (stale_ids now rows))) [
      | inl e ↦
          let pending : row.status ≡ pending_approval = stale_pending now row (
            listed_stale now row.id rows row u
              (subst (λ j. find approval_key j rows ≡ some row) (sym key) found) e) in
          record {
            action_type = rw e refl;
            payload_json = rw e refl;
            requested_by = rw e refl;
            org_id = rw e refl;
            follows = rw e (then_ stay (subst (λ s. MayFollow s expired) (sym pending) lapse));
          }
      | inr e ↦ record {
        action_type = rw e refl;
        payload_json = rw e refl;
        requested_by = rw e refl;
        org_id = rw e refl;
        follows = rw e stay;
      }
    ]

expire-Advances :
    (w w' : World)
    → w'.approvals ≡ map (expire_row (stale_ids w.now w.approvals)) w.approvals
    → w'.next_id ≡ w.next_id
    → Advances w w'
expire-Advances w w' written nid = record {
  ok_after = λ o. record {
    below = subst (All (λ r. approval_key r < w'.next_id)) (sym written) (
        All-expire (λ j. j < w'.next_id) _ w.approvals
          (subst (λ n. All (λ r. approval_key r < n) w.approvals) (sym nid) o.below));
    unique =
        subst (UniqueKeys approval_key) (sym written) (UniqueKeys-expire _ w.approvals o.unique);
  };
  later = λ o k row found.
      Edits-Later (expire_row (stale_ids w.now w.approvals)) k row w'
        (expire-Edits w.now w.approvals k row o.unique found)
        (rw written (find-expire _ k w.approvals row found));
}

expire_rows-Advances :
    (rows : List ApprovalRow) (w : World)
    → keep (is_stale w.now) w.approvals ≡ rows
    → Ensures (λ _ w'. Advances w w') (expire_rows rows w)
expire_rows-Advances [] w e = returns (Advances-refl w)
expire_rows-Advances (row ∷ rows) w e =
    Ensures-bind _ (audit_expiries-Same (row ∷ rows) _) λ _ w' same. returns (
      expire-Advances w w'
        (same.0 ∙ ap (λ rs. map (expire_row (map (λ r. r.id) rs)) w.approvals) (sym e)) same.1)

pub expire_stale-Advances : (w : World) → Ensures (λ _ w'. Advances w w') (expire_stale w)
unfolding expire_stale
expire_stale-Advances w = Ensures-transaction w (expire_rows-Advances _ w refl)
