-- ===== src/Prelude/Result.antt =====
-- Go's pair of a value and an error: `ok` where the error is nil, `err` with the sentinel that the
-- error wraps otherwise. An error that wraps no sentinel of the program is `other`.
use mathlib.Core.Path.{◌≡◌, refl}
use mathlib.Core.Logic.{◌⊎◌, inl, inr}
use mathlib.Core.Bool.{Bool, true, false}
use mathlib.Core.Option.{Option, none, some}

pub data Error : Type 0 where
  -- keyring/key.go
  invalid_metadata key_not_found key_not_usable : Error
  -- keyprotection/protection.go
  invalid_protected_key protector_mismatch : Error
  -- broker/store.go
  subject_not_found subject_revoked : Error
  challenge_not_found challenge_expired challenge_replayed challenge_mismatch : Error
  rotation_not_found rotation_in_progress rotation_invalid_transition : Error
  -- nodeevidence/evidence.go and enrollment.go
  node_evidence_not_found node_evidence_stale node_evidence_invalid : Error
  enrollment_not_found enrollment_revoked enrollment_changed invalid_enrollment : Error
  -- tpm/quote.go, and broker/node_evidence_verifier.go
  invalid_evidence quote_verification attestation_policy unsupported_profile : Error
  evidence_verification : Error
  -- enrollment/enrollment.go
  invalid_enrollment_request invalid_grant artifact_expired invalid_signature : Error
  -- recovery/package.go
  invalid_package invalid_share threshold_not_met : Error
  -- kmsplugin
  not_initialized backend_unavailable invalid_parameter : Error
  -- context.Context.Err, and errors that wrap none of the sentinels above
  cancelled other : Error

pub data Result {ℓ} (V : Type ℓ) : Type ℓ where
  ok : V → Result V
  err : Error → Result V

pub Result-cases {ℓ} :
    {V : Type ℓ} (r : Result V) → ((v : V) × (r ≡ ok v)) ⊎ ((x : Error) × (r ≡ err x))
Result-cases (ok v) = inl (v, refl)
Result-cases (err x) = inr (x, refl)

-- `if err != nil { return e }`, for the callers that replace the sentinel by their own.
abbrev pub wrap_err {ℓ} : {V : Type ℓ} → Result V → Error → Result V
wrap_err (ok v) own = ok v
wrap_err (err _) own = err own

-- `if !passed { return x }`
abbrev pub guard : Bool → Error → Result (Unit {0})
guard passed x = elim passed [ true ↦ ok tt | false ↦ err x ]

-- `if err != nil { return err }`, and what follows it
infixl 5 ◌>>=◌ ◌>>◌
abbrev pub ◌>>=◌ {ℓ κ} : {V : Type ℓ} {W : Type κ} → Result V → (V → Result W) → Result W
err x >>= next = err x
ok v >>= next = next v

abbrev pub ◌>>◌ {κ} : {W : Type κ} → Result (Unit {0}) → Result W → Result W
checked >> rest = checked >>= λ _. rest

-- What a chain that ends without an error went through.
pub >>=-ok {ℓ κ} :
    {V : Type ℓ} {W : Type κ} (r : Result V) (next : V → Result W) {w : W}
    → (r >>= next) ≡ ok w
    → (v : V) × (r ≡ ok v) × (next v ≡ ok w)
>>=-ok (ok v) next h = (v, refl, h)
>>=-ok (err x) next h = cc

pub >>-ok {κ} :
    {W : Type κ} (r : Result (Unit {0})) (rest : Result W) {w : W}
    → (r >> rest) ≡ ok w
    → (r ≡ ok tt) × (rest ≡ ok w)
>>-ok (ok tt) rest h = (refl, h)
>>-ok (err x) rest h = cc

pub guard-ok : (passed : Bool) (x : Error) → guard passed x ≡ ok tt → passed ≡ true
guard-ok true x h = refl
guard-ok false x h = cc

pub wrap_err-ok {ℓ} :
    {V : Type ℓ} (r : Result V) (own : Error) {v : V} → wrap_err r own ≡ ok v → r ≡ ok v
wrap_err-ok (ok v) own h = h
wrap_err-ok (err x) own h = cc

-- `if v == nil { return own }`, or a lookup that finds nothing
abbrev pub or_err {ℓ} : {V : Type ℓ} → Option V → Error → Result V
or_err none own = err own
or_err (some v) own = ok v

pub or_err-ok {ℓ} :
    {V : Type ℓ} (o : Option V) (own : Error) {v : V} → or_err o own ≡ ok v → o ≡ some v
or_err-ok none own h = cc
or_err-ok (some w) own h = cc
