-- ===== src/Store/Laws.antt =====
-- What the tables of crates/authz-store/src/db.rs hold after the calls on them and the rounds of the
-- writer.
use Prim.Native.Nat.{ℕ, zero, suc, ◌≤◌, ◌<◌}
use mathlib.Core.List.{
  append_assoc, append-nil, reverse, reverse-cons, reverse-append, reverse-reverse,
}
use paac.Prelude.{
  String, true, false, Option, some, List, [], ◌∷◌, ◌++◌, length, length-append, leb, first, is_nil,
  ◌≡◌, refl, sym, ap, ◌∙◌, arith, if◌then◌else◌, Bool-cases, inl, inr,
}
use paac.Core.Decision.{AuthzDecision}
use paac.Store.{
  AuditWrite, PaacStore, audit_write, enqueue_audit, write_one, write_all, flush, newest_first,
  limited, recent_rows,
}
use paac.Store.Writer.{take_batch, batch_size, write_batch, drain, Run}

-- A store with another channel.
abbrev pub with_queue : List AuditWrite → PaacStore → PaacStore
with_queue q s = record s { audit_queue = q }

pub write_all-queue :
    (ws q : List AuditWrite) (s : PaacStore)
    → write_all ws (with_queue q s) ≡ with_queue q (write_all ws s)
unfolding write_all write_one
write_all-queue [] q s = refl
write_all-queue (w ∷ ws) q s = write_all-queue ws q (write_one w s)

pub write_all-append :
    (vs ws : List AuditWrite) (s : PaacStore)
    → write_all (vs ++ ws) s ≡ write_all ws (write_all vs s)
unfolding write_all
write_all-append [] ws s = refl
write_all-append (v ∷ vs) ws s = write_all-append vs ws (write_one v s)

-- What has been written of a channel and what is left of it make no difference in the end.
flush-split :
    (batch rest : List AuditWrite) (s : PaacStore)
    → s.audit_queue ≡ batch ++ rest
    → flush (write_all batch (with_queue rest s)) ≡ flush s
unfolding flush
flush-split batch rest s h =
    ap flush (write_all-queue batch rest s)
    ∙ (ap (write_all rest) (sym (write_all-queue batch [] s))
        ∙ (sym (write_all-append batch rest (with_queue [] s))
            ∙ ap (λ q. write_all q (with_queue [] s)) (sym h)))

flush-send :
    (w : AuditWrite) (q : List AuditWrite) (s t : PaacStore)
    → flush t ≡ flush (with_queue (s.audit_queue ++ q) s)
    → flush (with_queue (t.audit_queue ++ w ∷ []) t)
      ≡ flush (with_queue (s.audit_queue ++ (q ++ w ∷ [])) s)
unfolding flush
flush-send w q s t h =
    write_all-append t.audit_queue (w ∷ []) (with_queue [] t)
    ∙ (ap (write_all (w ∷ [])) h
        ∙ (sym (write_all-append (s.audit_queue ++ q) (w ∷ []) (with_queue [] s))
            ∙ ap (λ l. write_all l (with_queue [] s)) (append_assoc s.audit_queue q (w ∷ []))))

-- Whatever the sizes of the writer's batches and however they fall between the records that are sent,
-- the tables end as if all records had been written at once in the order in which they were sent:
-- from every state that a run reaches, finishing the channel gives what finishing it from the first
-- state gives with the records of the run on it.
pub Run-flush :
    {s t : PaacStore} {ws : List AuditWrite}
    → Run s ws t
    → flush t ≡ flush (with_queue (s.audit_queue ++ ws) s)
Run-flush {s} Run.idle = rw (append-nil s.audit_queue)
Run-flush {s} (Run.send w {ws} {t} r) = flush-send w ws s t (Run-flush r)
Run-flush {s} (Run.write batch rest {ws} {t} r taken small) =
    flush-split batch rest t taken ∙ Run-flush r

take_batch-split :
    (n : ℕ) (q : List AuditWrite)
    → (q ≡ (take_batch n q).0 ++ (take_batch n q).1) × (length (take_batch n q).0 ≤ n)
unfolding take_batch
take_batch-split zero q = (refl, omega arith)
take_batch-split (suc n) [] = (refl, omega arith)
take_batch-split (suc n) (w ∷ q) =
    let (split, small) = take_batch-split n q in (ap (λ l. w ∷ l) split, omega arith)

take_batch-lt :
    (n : ℕ) (w : AuditWrite) (q : List AuditWrite)
    → length (take_batch (suc n) (w ∷ q)).1 ≤ length q
unfolding take_batch
take_batch-lt n w q =
    let (split, small) = take_batch-split n q in
    let sizes = ap length split in
    omega (arith, length-append (take_batch n q).0 (take_batch n q).1)

nil_of_length : (q : List AuditWrite) → length q ≤ 0 → is_nil q ≡ true
nil_of_length [] h = refl
nil_of_length (w ∷ q) h = absurd (omega arith)

flush-nil : (s : PaacStore) → is_nil s.audit_queue ≡ true → flush s ≡ s
unfolding flush write_all
flush-nil s h =
    let empty : s.audit_queue ≡ [] = is_nil-eq s.audit_queue h in
    ap (λ q. write_all q (with_queue [] s)) empty ∙ ap (λ q. with_queue q s) (sym empty)
  where
    is_nil-eq : (q : List AuditWrite) → is_nil q ≡ true → q ≡ []
    is_nil-eq [] h = refl
    is_nil-eq (w ∷ q) h = cc

drain-stop : (fuel : ℕ) (s : PaacStore) → is_nil s.audit_queue ≡ true → drain (suc fuel) s ≡ s
unfolding drain
drain-stop fuel s h = ground arith

drain-step :
    (fuel : ℕ) (s : PaacStore)
    → is_nil s.audit_queue ≡ false
    → drain (suc fuel) s ≡ drain fuel (write_batch s)
unfolding drain
drain-step fuel s h = ground arith

-- A round leaves less on a channel that is not empty.
write_batch-lt :
    (s : PaacStore)
    → is_nil s.audit_queue ≡ false
    → length (write_batch s).audit_queue < length s.audit_queue
unfolding write_batch
write_batch-lt s h =
    let (batch, rest) = take_batch batch_size s.audit_queue in
    rw
      (write_all-queue (take_batch batch_size s.audit_queue).0
        (take_batch batch_size s.audit_queue).1 s)
      (shorter s.audit_queue h)
  where
    shorter :
        (q : List AuditWrite) → is_nil q ≡ false → length (take_batch batch_size q).1 < length q
    shorter [] h = cc
    shorter (w ∷ q) h = omega (arith, take_batch-lt 63 w q)

flush-write_batch : (s : PaacStore) → flush (write_batch s) ≡ flush s
unfolding write_batch
flush-write_batch s =
    flush-split (take_batch batch_size s.audit_queue).0 (take_batch batch_size s.audit_queue).1 s
      (take_batch-split batch_size s.audit_queue).0

-- The loop of the writer, while nobody sends, ends with an empty channel and the tables of the whole
-- of it: as many rounds as there are records are enough.
pub drain-flush : (fuel : ℕ) (s : PaacStore) → length s.audit_queue ≤ fuel → drain fuel s ≡ flush s
unfolding drain
drain-flush zero s h = sym (flush-nil s (nil_of_length s.audit_queue h))
drain-flush (suc fuel) s h = elim (Bool-cases (is_nil s.audit_queue)) [
  | inl done ↦ drain-stop fuel s done ∙ sym (flush-nil s done)
  | inr more ↦
      drain-step fuel s more
      ∙ (drain-flush fuel (write_batch s) (omega (arith, write_batch-lt s more))
          ∙ flush-write_batch s)
]

newest_first-append :
    (ws : List AuditWrite) (w : AuditWrite) → newest_first (ws ++ w ∷ []) ≡ w ∷ newest_first ws
unfolding newest_first
newest_first-append [] w = refl
newest_first-append (v ∷ ws) w = rw (newest_first-append ws w)

length-newest_first : (ws : List AuditWrite) → length (newest_first ws) ≡ length ws
unfolding newest_first
length-newest_first [] = refl
length-newest_first (w ∷ ws) =
    omega (arith, length-append (newest_first ws) (w ∷ []), length-newest_first ws)

-- The library's reverse of a log.
newest_first-reverse : (ws : List AuditWrite) → newest_first ws ≡ reverse ws
unfolding newest_first
newest_first-reverse [] = refl
newest_first-reverse (w ∷ ws) =
    ap (λ l. l ++ w ∷ []) (newest_first-reverse ws) ∙ sym (reverse-cons w ws)

limited-split :
    (n : ℕ) (ws : List AuditWrite)
    → (rest : List AuditWrite) × (ws ≡ limited n ws ++ rest)
      × (length (limited n ws) ≡ (if leb n (length ws) then n else length ws))
unfolding limited
limited-split zero ws = (ws, refl, ground arith)
limited-split (suc n) [] = ([], refl, ground arith)
limited-split (suc n) (w ∷ ws) =
    let (rest, split, size) = limited-split n ws in (rest, ap (λ l. w ∷ l) split, ground arith)

-- The rows of `recent_audit` are the last rows of the log, as many as are asked for, or all if the log
-- has no more, in reverse: the newest row comes first.
pub recent_rows-newest :
    (limit : ℕ) (s : PaacStore)
    → (older : List AuditWrite) × (newest : List AuditWrite) × (s.audit_log ≡ older ++ newest)
      × (recent_rows limit s ≡ reverse newest)
      × (length newest ≡ (if leb limit (length s.audit_log) then limit else length s.audit_log))
unfolding recent_rows
recent_rows-newest limit s =
    let (older, split, size) = limited-split limit (newest_first s.audit_log) in
    let rows = limited limit (newest_first s.audit_log) in
    (
      reverse older,
      reverse rows,
      sym (reverse-reverse s.audit_log)
          ∙ (ap reverse (sym (newest_first-reverse s.audit_log) ∙ split)
              ∙ reverse-append rows older),
      sym (reverse-reverse rows),
      ap length (sym (newest_first-reverse rows))
          ∙ (length-newest_first rows ∙ rw (← length-newest_first s.audit_log) size),
    )

-- After a decision is put on the channel and the writer is done, `recent_audit` gives it first.
pub recent_rows-enqueue_audit :
    (d : AuthzDecision) (latency limit : ℕ) (key : Option String) (s : PaacStore)
    → first (recent_rows (suc limit) (flush (enqueue_audit d latency key s)))
      ≡ some (audit_write d latency key)
unfolding recent_rows enqueue_audit flush limited write_one write_all
recent_rows-enqueue_audit d latency limit key s =
    rw (write_all-append s.audit_queue (audit_write d latency key ∷ []) (with_queue [] s))
      (rw (newest_first-append _ (audit_write d latency key)))
