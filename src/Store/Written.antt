-- ===== src/Store/Written.antt =====
-- What the callers of crates/authz-store/src/db.rs can read while the writer's thread is at work.
use mathlib.Core.List.{append_assoc, append-nil}
use paac.Prelude.{
  String, Option, none, some, List, [], ◌∷◌, ◌++◌, ◌≡◌, refl, sym, ap, subst, ◌∙◌, str_eq,
  lookup-insert, if◌then◌else◌, arith,
}
use paac.Core.Decision.{AuthzDecision}
use paac.Store.{AuditWrite, PaacStore, or_other, write_one, write_all, get_evidence}
use paac.Store.Writer.{Run}
use paac.Store.Laws.{with_queue, write_all-queue, write_all-append}

-- The decision of the last record with an identifier.
abbrev pub latest : String → List AuditWrite → Option AuthzDecision
latest id [] = none
latest id (w ∷ ws) =
    or_other (latest id ws) (if str_eq w.decision_id id then some w.evidence else none)

-- The store `t` has the tables of the store `s` and of the first of the records that were on its channel
-- or sent since, and the others, in their order, on its channel.
pub record IsWritten (s : PaacStore) (ws : List AuditWrite) (t : PaacStore) : Type 0 where
  pub written : List AuditWrite
  pub in_order : s.audit_queue ++ ws ≡ written ++ t.audit_queue
  pub tables : t ≡ with_queue t.audit_queue (write_all written (with_queue [] s))
  pub found : (id : String) → get_evidence id t ≡ or_other (latest id written) (get_evidence id s)

or_other_assoc :
    {A : Type 0} (a b c : Option A) → or_other a (or_other b c) ≡ or_other (or_other a b) c
or_other_assoc none b c = refl
or_other_assoc (some a) b c = refl

get_evidence-write_one :
    (id : String) (w : AuditWrite) (s : PaacStore)
    → get_evidence id (write_one w s)
      ≡ or_other (if str_eq w.decision_id id then some w.evidence else none) (get_evidence id s)
unfolding get_evidence write_one
get_evidence-write_one id w s =
    ground (arith, lookup-insert w.decision_id id w.evidence s.decision_evidence)

get_evidence-write_all :
    (id : String) (ws : List AuditWrite) (s : PaacStore)
    → get_evidence id (write_all ws s) ≡ or_other (latest id ws) (get_evidence id s)
unfolding write_all
get_evidence-write_all id [] s = refl
get_evidence-write_all id (w ∷ ws) s =
    get_evidence-write_all id ws (write_one w s)
    ∙ (ap (or_other (latest id ws)) (get_evidence-write_one id w s)
        ∙ or_other_assoc (latest id ws) _ (get_evidence id s))

-- The tables decide what is found.
tables-IsWritten :
    (s : PaacStore) (ws written : List AuditWrite) (t : PaacStore)
    → s.audit_queue ++ ws ≡ written ++ t.audit_queue
    → t ≡ with_queue t.audit_queue (write_all written (with_queue [] s))
    → IsWritten s ws t
unfolding get_evidence
tables-IsWritten s ws written t in_order tables = record {
  written = written;
  in_order = in_order;
  tables = tables;
  found = λ id. ap (get_evidence id) tables ∙ get_evidence-write_all id written (with_queue [] s);
}

-- A batch that is written after others.
write_all-later :
    (batch rest written : List AuditWrite) (s t : PaacStore)
    → t ≡ with_queue t.audit_queue (write_all written s)
    → write_all batch (with_queue rest t) ≡ with_queue rest (write_all (written ++ batch) s)
write_all-later batch rest written s t h =
    ap (λ x. write_all batch (with_queue rest x)) h
    ∙ (write_all-queue batch rest (write_all written s)
        ∙ ap (with_queue rest) (sym (write_all-append written batch s)))

-- At every moment of a run, however the writer's batches fall between the records that are sent, the
-- tables are exactly those of a first part of the records, in the order in which they were sent, none
-- left out, and the rest is on the channel; a decision that is looked up is that of the last record of
-- this part with its identifier, and what the first store gives if it has none.
pub Run-IsWritten : {s t : PaacStore} {ws : List AuditWrite} → Run s ws t → IsWritten s ws t
unfolding write_all
Run-IsWritten {s} Run.idle = tables-IsWritten s [] [] s (append-nil s.audit_queue) refl
Run-IsWritten {s} (Run.send w {ws} {t} r) =
    let before = Run-IsWritten r in
    tables-IsWritten s (ws ++ w ∷ []) before.written (with_queue (t.audit_queue ++ w ∷ []) t)
      (sym (append_assoc s.audit_queue ws (w ∷ []))
        ∙ (ap (λ q. q ++ w ∷ []) before.in_order
            ∙ append_assoc before.written t.audit_queue (w ∷ [])))
      (ap (with_queue (t.audit_queue ++ w ∷ [])) before.tables)
Run-IsWritten {s} (Run.write batch rest {ws} {t} r taken small) =
    let before = Run-IsWritten r in
    let later = write_all (before.written ++ batch) (with_queue [] s) in
    subst (IsWritten s ws) (sym (write_all-later batch rest before.written _ t before.tables)) (
      tables-IsWritten s ws (before.written ++ batch) (with_queue rest later)
        (before.in_order
          ∙ (ap (λ q. before.written ++ q) taken ∙ sym (append_assoc before.written batch rest)))
        refl)
