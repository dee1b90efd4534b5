-- ===== src/Memory/ReceiptChain.antt =====
-- project/src/memory/domain/receipt-chain.ts: the hash chain of deletion receipts. The hash of a
-- canonical payload and the check of a signature are parameters.
use cogeto.Base.{
  ℕ, zero, suc, ◌+◌, ◌≡◌, ◌↔◌, inl, inr, refl, arith, String, Bool, true, false, not, Option, none,
  some, List, [], ◌∷◌, if◌then◌else◌, str_eq, eq_iff, length, Bool-cases, Option-cases, sym, ap,
  ◌∙◌, is_some,
}
use cogeto.Shared.{SourceType}
use cogeto.Db.{
  ReceiptCounts, ChainError, chain_forks, broken_linkage, hash_mismatch, signature_invalid,
}

pub record ReceiptChainPayload : Type 0 where
  pub id : ℕ
  pub source_type : SourceType
  pub source_id : String
  pub counts_json : Option ReceiptCounts
  pub signed_at : Option ℕ
  pub confirmed_at : Option ℕ
  pub prev_hash : String

pub record ConfirmedReceipt : Type 0 where
  pub payload : ReceiptChainPayload
  pub hash : String
  pub signature : String

abbrev pub genesis_hash : String
genesis_hash = "cogeto:deletion-receipt-chain:genesis"

pub record ChainVerification : Type 0 where
  pub ok : Bool
  pub verified : ℕ
  pub confirmed : ℕ
  pub error : Option ChainError

-- `byPrev.get(prev)`.
unfoldable pub by_prev : String → List ConfirmedReceipt → Option ConfirmedReceipt
by_prev prev [] = none
by_prev prev (r ∷ rs) = if str_eq r.payload.prev_hash prev then some r else by_prev prev rs

-- Two receipts share a predecessor.
unfoldable pub forks : List ConfirmedReceipt → Bool
forks [] = false
forks (r ∷ rs) = if is_some (by_prev r.payload.prev_hash rs) then true else forks rs

module _ (hash_receipt_payload : ReceiptChainPayload → String)
    (verify_with_public_key : (hash signature : String) → Bool) where
  abbrev failure : ℕ → ℕ → ChainError → ChainVerification
  failure n verified e = record { ok = false; verified = verified; confirmed = n; error = some e }

  abbrev success : ℕ → ℕ → ChainVerification
  success n verified = record { ok = true; verified = verified; confirmed = n; error = none }

  -- One receipt, and what the rest of the walk answers.
  abbrev checked : ℕ → ℕ → ConfirmedReceipt → ChainVerification → ChainVerification
  checked n verified r rest =
      if not (str_eq (hash_receipt_payload r.payload) r.hash)
      then failure n verified hash_mismatch
      else if not (verify_with_public_key r.hash r.signature)
      then failure n verified signature_invalid
      else rest

  -- The loop: `left` receipts of the `n` are still to verify.
  unfoldable pub walk :
      ℕ → List ConfirmedReceipt → (left verified : ℕ) → (expected_prev : String) → ChainVerification
  walk n rs zero verified prev = success n verified
  walk n rs (suc left) verified prev = elim (by_prev prev rs) [
    | none ↦ failure n verified broken_linkage
    | some r ↦ checked n verified r (walk n rs left (suc verified) r.hash)
  ]

  unfoldable pub verify_chain : List ConfirmedReceipt → ChainVerification
  verify_chain rs =
      if forks rs
      then failure (length rs) 0 chain_forks
      else walk (length rs) rs (length rs) 0 genesis_hash

  -- A receipt that is what it says: its hash is that of its payload, and its signature is valid.
  pub record Authentic (r : ConfirmedReceipt) : Type 0 where
    pub hashed : hash_receipt_payload r.payload ≡ r.hash
    pub signed : verify_with_public_key r.hash r.signature ≡ true

  -- Authentic receipts of the log, each naming the hash of the one before it.
  abbrev pub Chain : List ConfirmedReceipt → String → List ConfirmedReceipt → Type 0
  Chain rs prev [] = Unit {0}
  Chain rs prev (r ∷ chain) =
      (r.payload.prev_hash ≡ prev)
      × (by_prev prev rs ≡ some r)
      × Authentic r
      × Chain rs r.hash chain

  by_prev-key :
      (prev : String) (rs : List ConfirmedReceipt) (r : ConfirmedReceipt)
      → by_prev prev rs ≡ some r
      → r.payload.prev_hash ≡ prev
  unfolding by_prev
  by_prev-key prev [] r e = absurd (cc)
  by_prev-key prev (x ∷ rs) r e =
      ground (arith, by_prev-key prev rs r, eq_iff x.payload.prev_hash prev)

  walk-lost :
      (n : ℕ) (rs : List ConfirmedReceipt) (left verified : ℕ) (prev : String)
      → by_prev prev rs ≡ none
      → walk n rs (suc left) verified prev ≡ failure n verified broken_linkage
  unfolding walk
  walk-lost n rs left verified prev lost = rw (lost, walk) refl

  walk-found :
      (n : ℕ) (rs : List ConfirmedReceipt) (left verified : ℕ) (prev : String)
      (r : ConfirmedReceipt)
      → by_prev prev rs ≡ some r
      → walk n rs (suc left) verified prev
        ≡ checked n verified r (walk n rs left (suc verified) r.hash)
  unfolding walk
  walk-found n rs left verified prev r found = rw (found, walk) refl

  checked_sound :
      (n verified : ℕ) (r : ConfirmedReceipt) (rest : ChainVerification)
      → (checked n verified r rest).ok ≡ true
      → Authentic r × (rest.ok ≡ true)
  checked_sound n verified r rest e =
      elim (Bool-cases (str_eq (hash_receipt_payload r.payload) r.hash)) [
        | inr bad ↦ absurd (ground (arith, bad, e))
        | inl hashed ↦ elim (Bool-cases (verify_with_public_key r.hash r.signature)) [
          | inr bad ↦ absurd (ground (arith, hashed, bad, e))
          | inl signed ↦ (
            record {
              hashed = (eq_iff (hash_receipt_payload r.payload) r.hash).0 hashed;
              signed = signed;
            },
            ground (arith, hashed, signed, e),
          )
        ]
      ]

  checked-Authentic :
      (n verified : ℕ) (r : ConfirmedReceipt) (rest : ChainVerification)
      → Authentic r
      → checked n verified r rest ≡ rest
  checked-Authentic n verified r rest a =
      let hashed : str_eq (hash_receipt_payload r.payload) r.hash ≡ true =
        (eq_iff (hash_receipt_payload r.payload) r.hash).1 a.hashed in
      rw hashed (rw a.signed refl)

  walk_sound :
      (n : ℕ) (rs : List ConfirmedReceipt) (left verified : ℕ) (prev : String)
      → (walk n rs left verified prev).ok ≡ true
      → (chain : List ConfirmedReceipt) × Chain rs prev chain × (length chain ≡ left)
  unfolding walk
  walk_sound n rs zero verified prev e = ([], tt, refl)
  walk_sound n rs (suc left) verified prev e = elim (Option-cases (by_prev prev rs)) [
    | inl lost ↦
        let failed : false ≡ true =
          ap (λ v. v.ok) (sym (walk-lost n rs left verified prev lost)) ∙ e in
        absurd (cc failed)
    | inr (r, found) ↦
        let rest : ChainVerification = walk n rs left (suc verified) r.hash in
        let both =
          checked_sound n verified r rest
            (ap (λ v. v.ok) (sym (walk-found n rs left verified prev r found)) ∙ e) in
        let tail = walk_sound n rs left (suc verified) r.hash both.1 in
        (r ∷ tail.0, (by_prev-key prev rs r found, found, both.0, tail.1), ap suc tail.2)
  ]

  walk-Chain :
      (n : ℕ) (rs : List ConfirmedReceipt) (verified : ℕ) (prev : String)
      (chain : List ConfirmedReceipt)
      → Chain rs prev chain
      → walk n rs (length chain) verified prev ≡ success n (verified + length chain)
  unfolding walk
  walk-Chain n rs verified prev [] c = ap (success n) (omega arith)
  walk-Chain n rs verified prev (r ∷ chain) c =
      walk-found n rs (length chain) verified prev r c.1
      ∙ checked-Authentic n verified r _ c.2
      ∙ walk-Chain n rs (suc verified) r.hash chain c.3
      ∙ ap (success n) (omega arith)

  -- A log verifies exactly when no two receipts name one predecessor and its receipts, from the one
  -- that names the genesis, form a chain as long as the log: each names the hash of the one before
  -- it, has the hash of its own payload, and is signed.
  pub verify_chain_iff :
      (rs : List ConfirmedReceipt)
      → ((verify_chain rs).ok ≡ true) ↔ (
          (forks rs ≡ false)
          × ((chain : List ConfirmedReceipt) × Chain rs genesis_hash chain
              × (length chain ≡ length rs)))
  unfolding verify_chain
  verify_chain_iff rs = (
    λ e. elim (Bool-cases (forks rs)) [
      | inl forked ↦ absurd (ground (arith, forked, e))
      | inr straight ↦ (
        straight,
        walk_sound (length rs) rs (length rs) 0 genesis_hash (ground (arith, straight, e)),
      )
    ],
    λ (straight, (chain, c, len)).
        let walked = walk-Chain (length rs) rs 0 genesis_hash chain c in
        rw straight
          (ap (λ v. v.ok) (ap (λ k. walk (length rs) rs k 0 genesis_hash) (sym len) ∙ walked)),
  )
