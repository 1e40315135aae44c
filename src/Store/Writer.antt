-- ===== src/Store/Writer.antt =====
-- crates/authz-store/src/db.rs: the thread that writes the audit channel to the database in batches,
-- beside the calls that put records on it.
use Prim.Native.Nat.{ℕ, zero, suc, ◌≤◌}
use paac.Prelude.{List, [], ◌∷◌, ◌++◌, length, ◌≡◌, is_nil, if◌then◌else◌}
use paac.Store.{AuditWrite, PaacStore, write_all}

-- `try_recv` until the batch has its size or the channel is empty: what was taken and what is left.
unfoldable pub take_batch : ℕ → List AuditWrite → List AuditWrite × List AuditWrite
take_batch zero queue = ([], queue)
take_batch (suc n) [] = ([], [])
take_batch (suc n) (w ∷ queue) = let (batch, rest) = take_batch n queue in (w ∷ batch, rest)

abbrev pub batch_size : ℕ
batch_size = 64

-- One round of the writer: a batch is taken from the channel and written in one transaction.
unfoldable pub write_batch : PaacStore → PaacStore
unfolding take_batch write_all
write_batch s =
    let (batch, rest) = take_batch batch_size s.audit_queue in
    write_all batch (record s { audit_queue = rest })

-- The writer's loop while nobody sends, on fuel.
unfoldable pub drain : ℕ → PaacStore → PaacStore
unfolding write_batch
drain zero s = s
drain (suc fuel) s =
    let rest : PaacStore = drain fuel (write_batch s) in if is_nil s.audit_queue then s else rest

-- What happens to a store whose handle many threads share: records are sent, in the order in which
-- the channel receives them, and the writer takes batches of any size up to its own, as many records
-- as happen to be there.
pub data Run (s : PaacStore) : List AuditWrite → PaacStore → Type 0 where
  idle : Run s [] s
  send :
      (w : AuditWrite) {ws : List AuditWrite} {t : PaacStore}
      → Run s ws t
      → Run s (ws ++ w ∷ []) (record t { audit_queue = t.audit_queue ++ w ∷ [] })
  write :
      (batch rest : List AuditWrite) {ws : List AuditWrite} {t : PaacStore}
      → Run s ws t
      → t.audit_queue ≡ batch ++ rest
      → length batch ≤ batch_size
      → Run s ws (write_all batch (record t { audit_queue = rest }))
