-- ===== src/Memory/Deletion/Executor/Growth.antt =====
-- The log of confirmed receipts as the executor grows it.
use cogeto.Base.{
  String, Bool, true, false, Option, none, some, List, [], ◌∷◌, ◌++◌, ◌≡◌, ◌≢◌, ◌⊎◌, inl, inr, refl,
  arith, sym, ap, ◌∙◌, ◌&&◌, not, str_eq, eq_iff, keep, has_id, length, All, Bool-cases, is_some,
  last, length-append,
}
use cogeto.Memory.ReceiptChain.{
  ReceiptChainPayload, ConfirmedReceipt, genesis_hash, by_prev, forks, Authentic, Chain,
  verify_chain, verify_chain_iff,
}
use cogeto.Memory.Deletion.Executor.Links.{
  prev_of, receipt_ids, is_tip, end_hash, end_of, by_prev-other, by_prev-same, forks-insert,
  keep-and, keep-cong, keep-insert, keep-one, length-insert, All-insert, All-imp, keep-id,
  ids-insert,
}

by_prev_absent :
    (q : String) (rs : List ConfirmedReceipt) → All (λ s. prev_of s ≢ q) rs → by_prev q rs ≡ none
unfolding by_prev
by_prev_absent q [] h = refl
by_prev_absent q (r ∷ rs) h = elim (Bool-cases (str_eq (prev_of r) q)) [
  | inl e ↦ absurd (h.0 ((eq_iff (prev_of r) q).0 e))
  | inr e ↦ rw e (by_prev_absent q rs h.1)
]

pub end_hash-last :
    (prev : String) (r : ConfirmedReceipt) (rs : List ConfirmedReceipt)
    → end_hash prev (r ∷ rs) ≡ (last r rs).hash
end_hash-last prev r [] = refl
end_hash-last prev r (s ∷ rs) = end_hash-last r.hash s rs

last-snoc : (c r : ConfirmedReceipt) (cs : List ConfirmedReceipt) → last c (cs ++ r ∷ []) ≡ r
last-snoc c r [] = refl
last-snoc c r (d ∷ cs) = last-snoc d r cs

end_of-snoc :
    (r : ConfirmedReceipt) (chain : List ConfirmedReceipt) → end_of (chain ++ r ∷ []) ≡ r ∷ []
end_of-snoc r [] = refl
end_of-snoc r (c ∷ chain) = ap (λ l. l ∷ []) (last-snoc c r chain)

is_tip-insert :
    (r s : ConfirmedReceipt) (xs ys : List ConfirmedReceipt)
    → by_prev (prev_of r) (xs ++ ys) ≡ none
    → is_tip (xs ++ r ∷ ys) s ≡ (is_tip (xs ++ ys) s && not (str_eq (prev_of r) s.hash))
is_tip-insert r s xs ys free = elim (Bool-cases (str_eq (prev_of r) s.hash)) [
  | inl e ↦
      let q : prev_of r ≡ s.hash = (eq_iff (prev_of r) s.hash).0 e in
      let found : by_prev s.hash (xs ++ r ∷ ys) ≡ some r =
        ap (λ h. by_prev h (xs ++ r ∷ ys)) (sym q) ∙ by_prev-same r xs ys free in
      rw (e, found) (ground arith)
  | inr e ↦ rw (e, by_prev-other r s.hash xs ys e) (ground arith)
]

-- Once the end is named, no old receipt is a tip.
no_old_tips :
    (r : ConfirmedReceipt) (chain : List ConfirmedReceipt)
    → prev_of r ≡ end_hash genesis_hash chain
    → keep (λ s. not (str_eq (prev_of r) s.hash)) (end_of chain) ≡ []
no_old_tips r [] e = refl
no_old_tips r (c ∷ chain) e =
    rw ((eq_iff (prev_of r) (last c chain).hash).1 (e ∙ end_hash-last genesis_hash c chain)) refl

module _ (hash : ReceiptChainPayload → String) (verify : (hash signature : String) → Bool) where
  -- A receipt names the genesis, or the hash of a payload of the log's.
  abbrev pub Known : List ConfirmedReceipt → ConfirmedReceipt → Type 0
  Known rs r =
      (prev_of r ≡ genesis_hash)
      ⊎ ((p : ReceiptChainPayload) × (hash p ≡ prev_of r) × (has_id p.id (receipt_ids rs) ≡ true))

  -- A log that is one chain, with its end.
  pub record Sealed (rs : List ConfirmedReceipt) : Type 0 where
    pub straight : forks rs ≡ false
    pub chain : List ConfirmedReceipt
    pub linked : Chain hash verify rs genesis_hash chain
    pub covers : length chain ≡ length rs
    pub ends : keep (is_tip rs) rs ≡ end_of chain
    pub known : All (Known rs) rs

  pub Sealed-verifies :
      (rs : List ConfirmedReceipt) → Sealed rs → (verify_chain hash verify rs).ok ≡ true
  Sealed-verifies rs s =
      (verify_chain_iff hash verify rs).1 (s.straight, (s.chain, s.linked, s.covers))

  pub empty-Sealed : Sealed []
  unfolding forks
  empty-Sealed = record {
    straight = refl;
    chain = [];
    linked = tt;
    covers = refl;
    ends = refl;
    known = tt;
  }

  Chain-last :
      (rs : List ConfirmedReceipt) (prev : String) (r : ConfirmedReceipt)
      (chain : List ConfirmedReceipt)
      → Chain hash verify rs prev (r ∷ chain)
      → Authentic hash verify (last r chain)
  Chain-last rs prev r [] c = c.2
  Chain-last rs prev r (s ∷ chain) c = Chain-last rs r.hash s chain c.3

  -- No receipt names the end of the chain.
  end-free :
      (rs chain : List ConfirmedReceipt)
      → length chain ≡ length rs
      → keep (is_tip rs) rs ≡ end_of chain
      → by_prev (end_hash genesis_hash chain) rs ≡ none
  unfolding by_prev
  end-free [] [] len ends = refl
  end-free (r ∷ rs) [] len ends = absurd (omega (arith, len))
  end-free rs (c ∷ chain) len ends =
      let tip = keep-one (is_tip rs) (last c chain) rs ends in
      let free : by_prev (last c chain).hash rs ≡ none =
        no_link (by_prev (last c chain).hash rs) tip in
      ap (λ h. by_prev h rs) (end_hash-last genesis_hash c chain) ∙ free
    where
      no_link : (o : Option ConfirmedReceipt) → not (is_some o) ≡ true → o ≡ none
      no_link none e = refl
      no_link (some x) e = absurd (cc e)

  module _ (r : ConfirmedReceipt) (xs ys : List ConfirmedReceipt) where
    Chain-insert :
        (prev : String) (chain : List ConfirmedReceipt)
        → by_prev (prev_of r) (xs ++ ys) ≡ none
        → Authentic hash verify r
        → prev_of r ≡ end_hash prev chain
        → Chain hash verify (xs ++ ys) prev chain
        → Chain hash verify (xs ++ r ∷ ys) prev (chain ++ r ∷ [])
    Chain-insert prev [] free a e c =
        (e, ap (λ q. by_prev q (xs ++ r ∷ ys)) (sym e) ∙ by_prev-same r xs ys free, a, tt)
    Chain-insert prev (x ∷ chain) free a e c = elim (Bool-cases (str_eq (prev_of r) prev)) [
      | inl same ↦
          let q : prev_of r ≡ prev = (eq_iff (prev_of r) prev).0 same in
          absurd (cc (sym (ap (λ h. by_prev h (xs ++ ys)) q) ∙ free, c.1))
      | inr apart ↦
          (c.0, by_prev-other r prev xs ys apart ∙ c.1, c.2, Chain-insert x.hash chain free a e c.3)
    ]

    Known-insert : (s : ConfirmedReceipt) → Known (xs ++ ys) s → Known (xs ++ r ∷ ys) s
    Known-insert s (inl g) = inl g
    Known-insert s (inr (p, e, i)) = inr (p, e, ids-insert p.id r xs ys ∙ ground (arith, i))

    tips-insert :
        (s : Sealed (xs ++ ys))
        → prev_of r ≡ end_hash genesis_hash s.chain
        → by_prev r.hash (xs ++ r ∷ ys) ≡ none
        → keep (is_tip (xs ++ r ∷ ys)) (xs ++ r ∷ ys) ≡ end_of (s.chain ++ r ∷ [])
    tips-insert s e unnamed =
        let rs : List ConfirmedReceipt = xs ++ ys in
        let free : by_prev (prev_of r) rs ≡ none =
          ap (λ h. by_prev h rs) e ∙ end-free rs s.chain s.covers s.ends in
        let old : keep (is_tip (xs ++ r ∷ ys)) rs ≡ [] =
          keep-cong (is_tip (xs ++ r ∷ ys)) (λ t. is_tip rs t && not (str_eq (prev_of r) t.hash)) rs
            (λ t. is_tip-insert r t xs ys free)
          ∙ keep-and (is_tip rs) (λ t. not (str_eq (prev_of r) t.hash)) rs
          ∙ ap (keep (λ t. not (str_eq (prev_of r) t.hash))) s.ends
          ∙ no_old_tips r s.chain e in
        keep-insert (is_tip (xs ++ r ∷ ys)) r xs ys (rw unnamed refl) old
        ∙ sym (end_of-snoc r s.chain)

    Known-end :
        (s : Sealed (xs ++ ys)) → prev_of r ≡ end_hash genesis_hash s.chain → Known (xs ++ ys) r
    Known-end s e = by_chain s.chain s.linked s.ends e
      where
        by_chain :
            (chain : List ConfirmedReceipt)
            → Chain hash verify (xs ++ ys) genesis_hash chain
            → keep (is_tip (xs ++ ys)) (xs ++ ys) ≡ end_of chain
            → prev_of r ≡ end_hash genesis_hash chain
            → Known (xs ++ ys) r
        by_chain [] c ends e = inl e
        by_chain (x ∷ chain) c ends e =
            let l : ConfirmedReceipt = last x chain in
            let real : Authentic hash verify l = Chain-last (xs ++ ys) genesis_hash x chain c in
            inr (
              l.payload,
              real.hashed ∙ sym (end_hash-last genesis_hash x chain) ∙ sym e,
              keep-id (is_tip (xs ++ ys)) l (xs ++ ys) ends,
            )

    -- No two receipts have payloads of one hash, and no payload has the hash that the genesis names.
    module _ (separates : (p q : ReceiptChainPayload) → hash p ≡ hash q → p.id ≡ q.id)
        (no_genesis : (p : ReceiptChainPayload) → hash p ≢ genesis_hash) where
      Known-unnamed :
          (s : ConfirmedReceipt)
          → Authentic hash verify r
          → has_id r.payload.id (receipt_ids (xs ++ ys)) ≡ false
          → Known (xs ++ ys) s
          → prev_of s ≢ r.hash
      Known-unnamed s a fresh (inl g) = λ q. no_genesis r.payload (a.hashed ∙ sym q ∙ g)
      Known-unnamed s a fresh (inr (p, e, i)) = λ q.
          let same : r.payload.id ≡ p.id = separates r.payload p (a.hashed ∙ sym q ∙ sym e) in
          absurd (cc (fresh, i, ap (λ k. has_id k (receipt_ids (xs ++ ys))) same))

      -- A receipt that names the end of a sealed log seals the log again, wherever it is put.
      pub Sealed-insert :
          (s : Sealed (xs ++ ys))
          → prev_of r ≡ end_hash genesis_hash s.chain
          → Authentic hash verify r
          → has_id r.payload.id (receipt_ids (xs ++ ys)) ≡ false
          → Sealed (xs ++ r ∷ ys)
      Sealed-insert s e a fresh =
          let rs : List ConfirmedReceipt = xs ++ ys in
          let free : by_prev (prev_of r) rs ≡ none =
            ap (λ h. by_prev h rs) e ∙ end-free rs s.chain s.covers s.ends in
          let known : Known rs r = Known-end s e in
          let unnamed : by_prev r.hash (xs ++ r ∷ ys) ≡ none =
            by_prev_absent r.hash (xs ++ r ∷ ys) (
              All-insert (λ t. prev_of t ≢ r.hash) r xs ys (Known-unnamed r a fresh known)
                (All-imp (Known rs) (λ t. prev_of t ≢ r.hash) rs (λ t. Known-unnamed t a fresh)
                  s.known)) in
          record {
            straight = forks-insert r xs ys free s.straight;
            chain = s.chain ++ r ∷ [];
            linked = Chain-insert genesis_hash s.chain free a e s.linked;
            covers = omega (arith, length-append s.chain (r ∷ []), length-insert r xs ys, s.covers);
            ends = tips-insert s e unnamed;
            known =
                All-insert (Known (xs ++ r ∷ ys)) r xs ys (Known-insert r known)
                  (All-imp (Known rs) (Known (xs ++ r ∷ ys)) rs Known-insert s.known);
          }
