-- ===== src/Memory/Store/Rejection.antt =====
-- The rejection of an uncertain memory, where the memory is the successor of another.
use cogeto.Base.{ℕ, true, some, ◌≡◌, refl, str_eq, eq_iff}
use cogeto.Base.Table.{find}
use cogeto.Shared.{uncertain, Principal}
use cogeto.Db.{
  World, err, MemoryRow, memory_key, select_memory, is_referenced, delete_memory,
  constraint_violation,
}
use cogeto.Memory.Store.{reject_uncertain}

-- The owner's rejection of an uncertain memory that another memory names as its successor fails on
-- the foreign key, and the memory stays.
pub reject_referenced_fails :
    (p : Principal) (id : ℕ) (row : MemoryRow) (w : World)
    → find memory_key id w.memories ≡ some row
    → row.owner_id ≡ p.user_id
    → row.status ≡ uncertain
    → is_referenced id w.memories ≡ true
    → reject_uncertain p id w ≡ err constraint_violation w
unfolding reject_uncertain select_memory delete_memory
reject_referenced_fails p id row w found mine doubtful pointed =
    let own : str_eq row.owner_id p.user_id ≡ true = (eq_iff row.owner_id p.user_id).1 mine in
    rw found (rw own (rw doubtful (rw pointed refl)))
