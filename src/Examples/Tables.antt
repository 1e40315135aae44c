-- ===== src/Examples/Tables.antt =====
-- Tests of the database in crates/authz-store/src and of the signing keys in crates/authz-policy/src.

use paac.Prelude.{
  String, Bool, true, false, Option, none, some, List, [], ◌∷◌, ◌++◌, ◌≡◌, refl, arith, ok, first,
  leb, length, if◌then◌else◌,
}
use paac.Store.{AuditWrite, PaacStore, empty_store, audit_write, enqueue_audit, flush, recent_rows}
use mathlib.Core.List.{reverse}
use paac.Store.Written.{IsWritten, Run-IsWritten}
use paac.Store.Writer.{Run, drain}
use paac.Store.Laws.{drain-flush, recent_rows-newest}
use paac.Examples.Toy.{decision}

abbrev row : AuditWrite
row = audit_write decision 3 (some "key-1")

abbrev later_row : AuditWrite
later_row = record row { decision_id = "decision-2" }

-- The store after the writer has taken the first record.
abbrev written : PaacStore
written = record {
  audit_queue = [];
  audit_log = row ∷ [];
  decision_evidence = (row.decision_id, row.evidence) ∷ [];
  policy_revisions = [];
  identity_cache = [];
  resource_catalog = [];
}

-- The writer takes the first record before the second one is sent.
interleaved :
    Run empty_store (row ∷ (later_row ∷ [])) (record written { audit_queue = later_row ∷ [] })
unfolding paac.Store.write_all paac.Store.write_one paac.Prelude.insert
interleaved =
    Run.send later_row (Run.write (row ∷ []) [] (Run.send row Run.idle) refl (omega arith))

Run-IsWritten_example :
    IsWritten empty_store (row ∷ (later_row ∷ [])) (record written { audit_queue = later_row ∷ [] })
Run-IsWritten_example = Run-IsWritten interleaved

abbrev filled : PaacStore
filled = record empty_store { audit_queue = row ∷ (later_row ∷ []) }

drain-flush_example : drain 2 filled ≡ flush filled
drain-flush_example = drain-flush 2 filled (omega arith)

abbrev logged : PaacStore
logged = record empty_store { audit_log = row ∷ (later_row ∷ []) }

recent_rows-newest_example :
    (older : List AuditWrite) × (newest : List AuditWrite) × (row ∷ (later_row ∷ [])
      ≡ older ++ newest)
    × (recent_rows 1 logged ≡ reverse newest)
    × (length newest
        ≡ (if leb 1 (length (row ∷ (later_row ∷ []))) then 1 else length (row ∷ (later_row ∷ []))))
recent_rows-newest_example = recent_rows-newest 1 logged
