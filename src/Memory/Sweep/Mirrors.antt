-- ===== src/Memory/Sweep/Mirrors.antt =====
-- What the payload check of project/src/memory/integrity-sweep.ts is for: the copy of a row in the
-- index has the gate columns of the row.
use cogeto.Base.{
  Bool, true, false, Option, none, some, [], ◌≡◌, refl, sym, ◌++◌, is_some, str_eq, eq_iff,
}
use cogeto.Base.Table.{find}
use cogeto.Shared.{MemoryScope, private, shared, same_scope, same_status, same_status_iff}
use cogeto.Db.{
  World, MemoryRow, Point, point_key, owner_field, scope_field, status_field, sensitive_field,
}
use cogeto.Memory.Sweep.Payloads.{same_flag, unless, stale_fields}
use cogeto.Memory.Sweep.Healing.{copies, Fresh}

-- The columns of a copy in the index that the gates of a search read are those of its row.
pub record Mirrors (row : MemoryRow) (p : Point) : Type 0 where
  pub owner_id : p.owner_id ≡ row.owner_id
  pub scope : p.scope ≡ row.scope
  pub status : p.status ≡ row.status
  pub sensitive : p.sensitive ≡ row.sensitive

abbrev pub CopyMirrors : MemoryRow → Option Point → Type 0
CopyMirrors row none = Unit {0}
CopyMirrors row (some p) = Mirrors row p

-- The copy of the row in the index, where there is one, mirrors it.
abbrev pub Mirrored : World → MemoryRow → Type 0
Mirrored w row = CopyMirrors row (find point_key row.id (copies w.points))

abbrev pub is_embedded : MemoryRow → Bool
is_embedded row = is_some row.embedding_model

scope_is : (s t : MemoryScope) → same_scope s t ≡ true → s ≡ t
scope_is private private h = refl
scope_is shared shared h = refl
scope_is private shared h = absurd (cc h)
scope_is shared private h = absurd (cc h)

flag_is : (a b : Bool) → same_flag a b ≡ true → a ≡ b
flag_is true b h = sym h
flag_is false true h = absurd (cc h)
flag_is false false h = refl

stale_fields-Mirrors : (row : MemoryRow) (p : Point) → stale_fields row p ≡ [] → Mirrors row p
stale_fields-Mirrors row p none_stale =
    by_tests (str_eq p.owner_id row.owner_id) (same_scope p.scope row.scope)
      (same_status p.status row.status) (same_flag p.sensitive row.sensitive) refl refl refl refl
      none_stale
  where
    by_tests :
        (a b c d : Bool)
        → str_eq p.owner_id row.owner_id ≡ a
        → same_scope p.scope row.scope ≡ b
        → same_status p.status row.status ≡ c
        → same_flag p.sensitive row.sensitive ≡ d
        → unless a owner_field
            ++ unless b scope_field
            ++ unless c status_field
            ++ unless d sensitive_field
          ≡ []
        → Mirrors row p
    by_tests true true true true ea eb ec ed h = record {
      owner_id = (eq_iff p.owner_id row.owner_id).0 ea;
      scope = scope_is p.scope row.scope eb;
      status = (same_status_iff p.status row.status).0 ec;
      sensitive = flag_is p.sensitive row.sensitive ed;
    }
    by_tests false b c d ea eb ec ed h = absurd (cc h)
    by_tests true false c d ea eb ec ed h = absurd (cc h)
    by_tests true true false d ea eb ec ed h = absurd (cc h)
    by_tests true true true false ea eb ec ed h = absurd (cc h)

pub Fresh-Mirrored : (w : World) (row : MemoryRow) → Fresh row w → Mirrored w row
Fresh-Mirrored w row = by_copy (find point_key row.id (copies w.points))
  where
    by_copy :
        (o : Option Point)
        → ((p : Point) → o ≡ some p → stale_fields row p ≡ [])
        → CopyMirrors row o
    by_copy none f = tt
    by_copy (some p) f = stale_fields-Mirrors row p (f p refl)
