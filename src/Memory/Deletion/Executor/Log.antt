-- ===== src/Memory/Deletion/Executor/Log.antt =====
-- The log of receipts under deletions and confirmations: it always verifies.
use cogeto.Base.{
  ℕ, String, true, false, some, List, [], ◌∷◌, ◌++◌, ◌≡◌, ◌≢◌, ◌⊎◌, inl, inr, refl, arith, sym, ap,
  subst, ◌∙◌, ◌&&◌, ◌==◌, str_eq, keep, any, has_id, map, All, Bool-cases, is_some, or_else, last,
}
use cogeto.Base.Table.{find, update, UniqueKeys, update-absent}
use cogeto.Db.{World, ok, ReceiptRow}
use cogeto.Memory.ReceiptChain.{ConfirmedReceipt, genesis_hash, by_prev}
use cogeto.Memory.Deletion.Executor.{
  receipt_key, is_confirmed, same_text, is_tip_row, tip_hashes, to_confirmed_receipt,
  confirmed_receipts,
}
use cogeto.Memory.Deletion.Executor.Links.{receipt_ids, is_tip, end_hash, end_of}
use cogeto.Memory.Deletion.Executor.Growth.{end_hash-last}

-- A confirmed row has its hash and the hash that it names.
abbrev pub Filled : ReceiptRow → Type 0
Filled r =
    (is_confirmed r.status ≡ false)
    ⊎ ((h : String) × (q : String) × (r.hash ≡ some h) × (r.prev_hash ≡ some q))

names_hash :
    (h : String) (rows : List ReceiptRow)
    → All Filled rows
    → any (λ s. is_confirmed s.status && same_text s.prev_hash (some h)) rows
      ≡ is_some (by_prev h (confirmed_receipts rows))
unfolding by_prev
names_hash h [] f = refl
names_hash h (r ∷ rows) (inl plain, f) = rw plain (names_hash h rows f)
names_hash h (r ∷ rows) (inr (x, q, eh, eq), f) = elim (Bool-cases (is_confirmed r.status)) [
  | inl e ↦
      rw (e, eq)
        (elim (Bool-cases (str_eq q h)) [
          | inl hit ↦ rw hit refl
          | inr miss ↦ rw miss (names_hash h rows f)
        ])
  | inr e ↦ rw e (names_hash h rows f)
]

-- The tips among the rows are the tips among the receipts.
pub tip_rows :
    (all_rows rows : List ReceiptRow)
    → All Filled all_rows
    → All Filled rows
    → map (λ r. or_else r.hash "") (keep (is_tip_row all_rows) rows)
      ≡ map (λ c. c.hash) (keep (is_tip (confirmed_receipts all_rows)) (confirmed_receipts rows))
tip_rows all_rows [] fa f = refl
tip_rows all_rows (r ∷ rows) fa (inl plain, f) = rw plain (tip_rows all_rows rows fa f)
tip_rows all_rows (r ∷ rows) fa (inr (h, q, eh, eq), f) =
    elim (Bool-cases (is_confirmed r.status)) [
      | inl e ↦
          rw (e, eh, names_hash h all_rows fa)
            (elim (Bool-cases (is_some (by_prev h (confirmed_receipts all_rows)))) [
              | inl named ↦ rw named (tip_rows all_rows rows fa f)
              | inr free ↦ rw free (ap (λ l. h ∷ l) (tip_rows all_rows rows fa f))
            ])
      | inr e ↦ rw e (tip_rows all_rows rows fa f)
    ]

pub tip_of :
    (l : List ReceiptRow) (chain : List ConfirmedReceipt) (w : World)
    → map (λ r. or_else r.hash "") l ≡ map (λ c. c.hash) (end_of chain)
    → tip_hashes l w ≡ ok (end_hash genesis_hash chain) w
tip_of [] [] w e = refl
tip_of [] (c ∷ chain) w e = absurd (cc e)
tip_of (r ∷ []) [] w e = absurd (cc e)
tip_of (r ∷ []) (c ∷ chain) w e =
    let same : or_else r.hash "" ≡ (last c chain).hash = cc e in
    ap (λ h. ok h w) (same ∙ sym (end_hash-last genesis_hash c chain))
tip_of (r ∷ s ∷ rs) [] w e = absurd (cc e)
tip_of (r ∷ s ∷ rs) (c ∷ chain) w e = absurd (cc e)

-- Confirming the one row of an id puts one receipt more into the log.
pub record Split (rows rows' : List ReceiptRow) (c : ConfirmedReceipt) : Type 0 where
  pub before : List ConfirmedReceipt
  pub after : List ConfirmedReceipt
  pub was : confirmed_receipts rows ≡ before ++ after
  pub is : confirmed_receipts rows' ≡ before ++ c ∷ after

Split-plain :
    (r : ReceiptRow) (rows rows' : List ReceiptRow) (c : ConfirmedReceipt)
    → Split rows rows' c
    → Split (r ∷ rows) (r ∷ rows') c
Split-plain r rows rows' c s = elim (Bool-cases (is_confirmed r.status)) [
  | inl e ↦ record {
    before = to_confirmed_receipt r ∷ s.before;
    after = s.after;
    was = rw e (ap (λ l. to_confirmed_receipt r ∷ l) s.was);
    is = rw e (ap (λ l. to_confirmed_receipt r ∷ l) s.is);
  }
  | inr e ↦ record { before = s.before; after = s.after; was = rw e s.was; is = rw e s.is }
]

pub cut_at :
    (id : ℕ) (f : ReceiptRow → ReceiptRow) (rows : List ReceiptRow) (row : ReceiptRow)
    → UniqueKeys receipt_key rows
    → find receipt_key id rows ≡ some row
    → is_confirmed row.status ≡ false
    → is_confirmed (f row).status ≡ true
    → Split rows (update receipt_key id f rows) (to_confirmed_receipt (f row))
unfolding find update
cut_at id f [] row u found was now = absurd (cc found)
cut_at id f (r ∷ rows) row u found was now = elim (Bool-cases (r.id == id)) [
  | inl hit ↦
      let same : r ≡ row = ground (arith, hit, found) in
      let key : r.id ≡ id = ground (arith, hit) in
      let rest : update receipt_key id f rows ≡ rows =
        update-absent receipt_key id f rows
          (subst (λ k. All (λ (s : ReceiptRow). s.id ≢ k) rows) key u.0) in
      record {
        before = [];
        after = confirmed_receipts rows;
        was = rw (same, was) refl;
        is = rw (hit, rest) (rw (same, now) refl);
      }
  | inr miss ↦ rw miss (
      Split-plain r rows (update receipt_key id f rows) (to_confirmed_receipt (f row))
        (cut_at id f rows row u.1 (ground (arith, miss, found)) was now))
]

-- The id of a pending receipt is that of no confirmed one.
absent_id :
    (id : ℕ) (rows : List ReceiptRow)
    → All (λ s. s.id ≢ id) rows
    → has_id id (receipt_ids (confirmed_receipts rows)) ≡ false
absent_id id [] h = refl
absent_id id (r ∷ rows) h = elim (Bool-cases (is_confirmed r.status)) [
  | inl e ↦ rw e (ground (arith, h.0, absent_id id rows h.1))
  | inr e ↦ rw e (absent_id id rows h.1)
]

pub pending_id :
    (id : ℕ) (rows : List ReceiptRow) (row : ReceiptRow)
    → UniqueKeys receipt_key rows
    → find receipt_key id rows ≡ some row
    → is_confirmed row.status ≡ false
    → has_id id (receipt_ids (confirmed_receipts rows)) ≡ false
unfolding find
pending_id id [] row u found was = absurd (cc found)
pending_id id (r ∷ rows) row u found was = elim (Bool-cases (r.id == id)) [
  | inl hit ↦
      let same : r ≡ row = ground (arith, hit, found) in
      let key : r.id ≡ id = ground (arith, hit) in
      rw (same, was)
        (absent_id id rows (subst (λ k. All (λ (s : ReceiptRow). s.id ≢ k) rows) key u.0))
  | inr miss ↦
      let rest = pending_id id rows row u.1 (ground (arith, miss, found)) was in
      elim (Bool-cases (is_confirmed r.status)) [
        | inl e ↦ rw e (ground (arith, miss, rest))
        | inr e ↦ rw e rest
      ]
]
