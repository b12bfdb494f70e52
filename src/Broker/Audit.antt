-- ===== src/Broker/Audit.antt =====
-- internal/broker/audit.go and the calls of the two audit sinks in service.go and admin.go: an event
-- goes to the audit table and to the audit file, and a sink that fails is passed over.
use openbao_attested_unseal.Prelude.{
  ◌≡◌, refl, ap, ◌⊎◌, inl, inr, ℕ, Bool, true, false, List, [], ◌∷◌, ◌++◌, if◌then◌else◌,
}
use openbao_attested_unseal.Prelude.Result.{Error, Result, ok, err, Result-cases}
use openbao_attested_unseal.Prelude.Text.{Text}

-- A write to the audit file is complete, or fails before or after the line has reached the file.
pub data WriteOutcome : Type 0 where
  complete : WriteOutcome
  failed : Bool → Error → WriteOutcome

-- What one attempt to audit takes from outside: crypto/rand, the clock, the database and the file. A
-- context that is cancelled fails the last two.
pub record AuditAttempt : Type 0 where
  pub audit_id : Result Text
  pub time : ℕ
  pub insert : Result (Unit {0})
  pub write : WriteOutcome

-- The events in the audit table and in the audit file.
pub record AuditLogs {ℓ} (E : Type ℓ) : Type ℓ where
  pub stored : List E
  pub written : List E

module _ {ℓ} {E : Type ℓ} where
  -- InsertAuditEvent, with its error passed over
  unfoldable pub insert_audit_event : Result (Unit {0}) → E → AuditLogs E → AuditLogs E
  insert_audit_event (ok _) e logs = record logs { stored = logs.stored ++ e ∷ [] }
  insert_audit_event (err _) e logs = logs

  -- FileAuditSink.Write, with its error passed over
  unfoldable pub write_audit_event : WriteOutcome → E → AuditLogs E → AuditLogs E
  write_audit_event complete e logs = record logs { written = logs.written ++ e ∷ [] }
  write_audit_event (failed reached _) e logs =
      if reached then record logs { written = logs.written ++ e ∷ [] } else logs

  -- Both sinks, one after the other, on the event that an identifier and a time make; without an
  -- identifier there is no event.
  unfoldable pub record_event : AuditAttempt → (Text → ℕ → E) → AuditLogs E → AuditLogs E
  record_event attempt event logs = elim (attempt.audit_id) [
    | err _ ↦ logs
    | ok id ↦
        let e = event id attempt.time in
        write_audit_event attempt.write e (insert_audit_event attempt.insert e logs)
  ]

  -- The audit table holds the new event exactly where its insert succeeded.
  abbrev pub IsInserted : Result (Unit {0}) → E → List E → List E → Type ℓ
  IsInserted outcome e before after =
      ((outcome ≡ ok tt) × (after ≡ before ++ e ∷ []))
      ⊎ ((x : Error) × (outcome ≡ err x) × (after ≡ before))

  -- The audit file holds the new event exactly where its line has reached the file.
  abbrev pub IsWritten : WriteOutcome → E → List E → List E → Type ℓ
  IsWritten outcome e before after =
      (((outcome ≡ complete) ⊎ ((x : Error) × (outcome ≡ failed true x)))
        × (after ≡ before ++ e ∷ []))
      ⊎ ((x : Error) × (outcome ≡ failed false x) × (after ≡ before))

  -- What the logs hold after an attempt: no event without an identifier, otherwise the event in each
  -- sink that took it.
  abbrev pub IsRecorded : AuditAttempt → (Text → ℕ → E) → AuditLogs E → AuditLogs E → Type ℓ
  IsRecorded attempt event before after =
      ((x : Error) × (attempt.audit_id ≡ err x) × (after ≡ before))
      ⊎ ((id : Text) × (attempt.audit_id ≡ ok id)
          × IsInserted attempt.insert (event id attempt.time) before.stored after.stored
          × IsWritten attempt.write (event id attempt.time) before.written after.written)

  insert_audit_event-IsInserted :
      (outcome : Result (Unit {0})) (e : E) (logs : AuditLogs E)
      → IsInserted outcome e logs.stored (insert_audit_event outcome e logs).stored
        × ((insert_audit_event outcome e logs).written ≡ logs.written)
  unfolding insert_audit_event
  insert_audit_event-IsInserted (ok u) e logs = (inl (refl, refl), refl)
  insert_audit_event-IsInserted (err x) e logs = (inr (x, refl, refl), refl)

  write_audit_event-IsWritten :
      (outcome : WriteOutcome) (e : E) (logs : AuditLogs E) (before : List E)
      → logs.written ≡ before
      → IsWritten outcome e before (write_audit_event outcome e logs).written
        × ((write_audit_event outcome e logs).stored ≡ logs.stored)
  unfolding write_audit_event
  write_audit_event-IsWritten complete e logs before h =
      (inl (inl refl, ap (λ (es : List E). es ++ e ∷ []) h), refl)
  write_audit_event-IsWritten (failed true x) e logs before h =
      (inl (inr (x, refl), ap (λ (es : List E). es ++ e ∷ []) h), refl)
  write_audit_event-IsWritten (failed false x) e logs before h = (inr (x, refl, h), refl)

  pub record_event-IsRecorded :
      (attempt : AuditAttempt) (event : Text → ℕ → E) (logs : AuditLogs E)
      → IsRecorded attempt event logs (record_event attempt event logs)
  unfolding record_event
  record_event-IsRecorded attempt event logs = elim (Result-cases (attempt.audit_id)) [
    | inr (x, drawn) ↦ inl (x, drawn, rw (drawn, record_event) refl)
    | inl (id, drawn) ↦
        let e = event id attempt.time in
        let kept = insert_audit_event attempt.insert e logs in
        let (inserted, same_file) = insert_audit_event-IsInserted attempt.insert e logs in
        let (written, same_table) =
          write_audit_event-IsWritten attempt.write e kept logs.written same_file in
        inr (
          id,
          drawn,
          rw (drawn, record_event) (rw same_table inserted),
          rw (drawn, record_event) written,
        )
  ]
