-- ===== src/Broker/EnrollmentService/Sinks.antt =====
-- internal/broker/enrollment_service.go: what auditEnrollmentDecision leaves in the audit table and in
-- the audit file.
use openbao_attested_unseal.Prelude.{
  ◌≡◌, refl, sym, ap, ◌∙◌, inl, inr, ℕ, true, false, ◌||◌, List, [], ◌∷◌, ◌++◌, Bool-cases,
}
use mathlib.Core.List.{append-nil, append_assoc}
use openbao_attested_unseal.Prelude.Result.{Result, ok, err, other, Result-cases}
use openbao_attested_unseal.Prelude.Text.{Text}
use openbao_attested_unseal.Broker.Audit.{WriteOutcome, AuditAttempt, complete, failed}
use openbao_attested_unseal.Broker.EnrollmentService.{
  EnrollmentEvent, EnrollmentService, EnrollmentCall, EnrollmentState, Audited, enrollment_event,
  write_event, insert_event, audit_enrollment_decision,
}

-- A log that goes on from another one.
abbrev pub Continues {ℓ} : {A : Type ℓ} → List A → List A → Type ℓ
Continues {A} log log' = (rest : List A) × (log ++ rest ≡ log')

module _ {ℓ} {A : Type ℓ} where
  pub Continues-refl : (log : List A) → Continues log log
  Continues-refl log = ([], append-nil log)

  pub Continues-trans : (u v w : List A) → Continues u v → Continues v w → Continues u w
  Continues-trans u v w (a, h) (b, k) =
      (a ++ b, sym (append_assoc u a b) ∙ ap (λ (xs : List A). xs ++ b) h ∙ k)

-- The logs of a state go on from those of another, over the same tables.
pub record Logs (s s' : EnrollmentState) : Type 0 where
  pub same_nodes : s'.nodes ≡ s.nodes
  pub table : Continues s.stored s'.stored
  pub file : Continues s.written s'.written

abbrev pub Logs-refl : (s : EnrollmentState) → Logs s s
Logs-refl s = record {
  same_nodes = refl;
  table = Continues-refl s.stored;
  file = Continues-refl s.written;
}

module _ (sv : EnrollmentService) (c : EnrollmentCall) where
  -- An event stands in every log that is configured.
  pub record IsLogged (e : EnrollmentEvent) (s s' : EnrollmentState) : Type 0 where
    pub configured : (sv.has_audit_store || sv.has_audit_file) ≡ true
    pub in_table : sv.has_audit_store ≡ true → Continues (s.stored ++ e ∷ []) s'.stored
    pub in_file : sv.has_audit_file ≡ true → Continues (s.written ++ e ∷ []) s'.written

  longer-Logs :
      (e : EnrollmentEvent) (s : EnrollmentState)
      → Logs s (record s { written = s.written ++ e ∷ [] })
  longer-Logs e s = record {
    same_nodes = refl;
    table = Continues-refl s.stored;
    file = (e ∷ [], refl);
  }

  write_event-Logs :
      (o : WriteOutcome) (e : EnrollmentEvent) (s : EnrollmentState)
      → Logs s (write_event sv c o e s).0
  unfolding write_event
  write_event-Logs complete e s = elim (Bool-cases sv.has_audit_file) [
    | inl f ↦ rw f (longer-Logs e s)
    | inr f ↦ rw f (Logs-refl s)
  ]
  write_event-Logs (failed true x) e s = elim (Bool-cases sv.has_audit_file) [
    | inl f ↦ rw f (longer-Logs e s)
    | inr f ↦ rw f (Logs-refl s)
  ]
  write_event-Logs (failed false x) e s = elim (Bool-cases sv.has_audit_file) [
    | inl f ↦ rw f (Logs-refl s)
    | inr f ↦ rw f (Logs-refl s)
  ]

  write_event-file :
      (o : WriteOutcome) (e : EnrollmentEvent) (s : EnrollmentState)
      → (write_event sv c o e s).1 ≡ ok tt
      → sv.has_audit_file ≡ true
      → (write_event sv c o e s).0.written ≡ s.written ++ e ∷ []
  unfolding write_event
  write_event-file complete e s h f = rw f refl
  write_event-file (failed reached x) e s h f = let failure : err x ≡ ok tt = rw f at h in cc

  Logs-trans : {s t u : EnrollmentState} → Logs s t → Logs t u → Logs s u
  Logs-trans {s} {t} {u} l m = record {
    same_nodes = m.same_nodes ∙ l.same_nodes;
    table = Continues-trans s.stored t.stored u.stored l.table m.table;
    file = Continues-trans s.written t.written u.written l.file m.file;
  }

  stored-Logs :
      (e : EnrollmentEvent) (s : EnrollmentState)
      → Logs s (record s { stored = s.stored ++ e ∷ [] })
  stored-Logs e s = record {
    same_nodes = refl;
    table = (e ∷ [], refl);
    file = Continues-refl s.written;
  }

  insert_event-Logs :
      (i : Result (Unit {0})) (id : Result Text) (now : ℕ) (o : WriteOutcome) (e : EnrollmentEvent)
      (s : EnrollmentState)
      → Logs s
          (insert_event sv c (record { audit_id = id; time = now; insert = i; write = o }) e s).0
  unfolding insert_event write_event
  insert_event-Logs (err x) id now o e s = elim (Bool-cases sv.has_audit_store) [
    | inl f ↦ rw f (Logs-refl s)
    | inr f ↦ rw f (write_event-Logs o e s)
  ]
  insert_event-Logs (ok _) id now o e s = elim (Bool-cases sv.has_audit_store) [
    | inl f ↦ rw f (
        Logs-trans (stored-Logs e s)
          (write_event-Logs o e (record s { stored = s.stored ++ e ∷ [] })))
    | inr f ↦ rw f (write_event-Logs o e s)
  ]

  -- Whatever the sinks do, the logs only grow, and the tables stay as they are.
  pub audit_enrollment_decision-Logs :
      (attempt : AuditAttempt) (a : Audited) (s : EnrollmentState)
      → Logs s (audit_enrollment_decision sv c attempt a s).0
  unfolding audit_enrollment_decision
  audit_enrollment_decision-Logs attempt a s =
      elim (Bool-cases (sv.has_audit_store || sv.has_audit_file)) [
        | inr f ↦ rw f (Logs-refl s)
        | inl f ↦ elim (Result-cases attempt.audit_id) [
          | inr (x, g) ↦ rw f (rw g (Logs-refl s))
          | inl (id, g) ↦ rw f (
              rw g (
                insert_event-Logs attempt.insert attempt.audit_id attempt.time attempt.write
                  (enrollment_event sv c a id attempt.time) s))
        ]
      ]

  insert_event-IsLogged :
      (i : Result (Unit {0})) (id : Result Text) (now : ℕ) (o : WriteOutcome) (e : EnrollmentEvent)
      (s : EnrollmentState)
      → (sv.has_audit_store || sv.has_audit_file) ≡ true
      → (insert_event sv c (record { audit_id = id; time = now; insert = i; write = o }) e s).1
        ≡ ok tt
      → IsLogged e s
          (insert_event sv c (record { audit_id = id; time = now; insert = i; write = o }) e s).0
  unfolding insert_event write_event
  insert_event-IsLogged (err x) id now o e s configured h = elim (Bool-cases sv.has_audit_store) [
    | inl f ↦ let failure : err x ≡ ok tt = rw f at h in cc
    | inr f ↦ record {
      configured = configured;
      in_table = λ g. cc (f, g);
      in_file = λ g.
          let written = write_event-file o e s (rw f at h) g in
          rw f (rw written (Continues-refl (s.written ++ e ∷ [])));
    }
  ]
  insert_event-IsLogged (ok _) id now o e s configured h = elim (Bool-cases sv.has_audit_store) [
    | inl f ↦
        let s1 : EnrollmentState = record s { stored = s.stored ++ e ∷ [] } in
        record {
          configured = configured;
          in_table = λ _. rw f (write_event-Logs o e s1).table;
          in_file = λ g.
              let written = write_event-file o e s1 (rw f at h) g in
              rw f (rw written (Continues-refl (s.written ++ e ∷ [])));
        }
    | inr f ↦ record {
      configured = configured;
      in_table = λ g. cc (f, g);
      in_file = λ g.
          let written = write_event-file o e s (rw f at h) g in
          rw f (rw written (Continues-refl (s.written ++ e ∷ [])));
    }
  ]

  -- Where it succeeds, the event stands in every log that is configured, and there is one.
  pub audit_enrollment_decision-IsLogged :
      (attempt : AuditAttempt) (a : Audited) (s : EnrollmentState)
      → (audit_enrollment_decision sv c attempt a s).1 ≡ ok tt
      → (id : Text) × (attempt.audit_id ≡ ok id)
        × IsLogged
            (enrollment_event sv c a id attempt.time)
            s
            (audit_enrollment_decision sv c attempt a s).0
  unfolding audit_enrollment_decision
  audit_enrollment_decision-IsLogged attempt a s h =
      elim (Bool-cases (sv.has_audit_store || sv.has_audit_file)) [
        | inr f ↦ let failure : err other ≡ ok tt = rw f at h in cc
        | inl f ↦ elim (Result-cases attempt.audit_id) [
          | inr (x, g) ↦ let failure : err x ≡ ok tt = rw (f, g) at h in cc
          | inl (id, g) ↦ (
            id,
            g,
            rw f (
                rw g (
                  insert_event-IsLogged attempt.insert attempt.audit_id attempt.time attempt.write
                    (enrollment_event sv c a id attempt.time) s f (rw (f, g) at h))),
          )
        ]
      ]
