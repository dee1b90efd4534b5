-- ===== src/Db/Vectors.antt =====
-- project/src/memory/persistence/vector-store.ts: the payload copies in the vector index, and the
-- partial payloads that the memory module writes. Vectors themselves are left out.
use cogeto.Base.{ℕ, Bool, String, Option, some}
use cogeto.Shared.{MemoryStatus, replaced, MemoryScope, SourceType}

pub record Point : Type 0 where
  pub id : ℕ
  pub owner_id : String
  pub scope : MemoryScope
  pub status : MemoryStatus
  pub sensitive : Bool
  pub source_type : SourceType
  pub source_id : String
  pub valid_until : Option ℕ

-- `Partial<MemoryPointPayload>`, by the fields that a caller sets.
pub data Patch : Type 0 where
  status_patch : MemoryStatus → Patch
  sensitive_patch : Bool → Patch
  scope_patch : MemoryScope → Patch
  closed_patch : ℕ → Patch
  gate_patch : String → MemoryScope → MemoryStatus → Bool → (valid_until : Option ℕ) → Patch

unfoldable pub apply_patch : Patch → Point → Point
apply_patch (status_patch s) p = record p { status = s }
apply_patch (sensitive_patch b) p = record p { sensitive = b }
apply_patch (scope_patch s) p = record p { scope = s }
apply_patch (closed_patch until) p = record p { status = replaced; valid_until = some until }
apply_patch (gate_patch owner scope status sensitive until) p = record p {
  owner_id = owner;
  scope = scope;
  status = status;
  sensitive = sensitive;
  valid_until = until;
}
