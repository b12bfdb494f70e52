-- ===== src/Broker/Config/Listed.antt =====
-- internal/broker/config.go: the providers of node evidence that are listed.
use openbao_attested_unseal.Prelude.{
  ◌≡◌, refl, sym, ◌∙◌, true, not, List, [], ◌∷◌, inl, inr, arith, Bool-cases,
}
use openbao_attested_unseal.Prelude.Result.{ok, other, >>-ok, guard, guard-ok}
use openbao_attested_unseal.Prelude.Text.{Text, text_eq, text_eq_iff, is_empty}
use openbao_attested_unseal.Prelude.Trim.{trim_space}
use openbao_attested_unseal.Prelude.Order.{text_leb, insert_sorted, sort}
use openbao_attested_unseal.Nodeevidence.Evidence.{provider_tpm2_quote}
use openbao_attested_unseal.Broker.Subjects.{has_text}
use openbao_attested_unseal.Broker.Admin.{contains_trimmed}
use openbao_attested_unseal.Broker.Config.Nodes.{
  trim_all, compact, normalized_provider_ids, validate_providers,
}

has_text-trim_all : (t : Text) (ts : List Text) → has_text t (trim_all ts) ≡ contains_trimmed t ts
unfolding has_text trim_all contains_trimmed
has_text-trim_all t [] = refl
has_text-trim_all t (u ∷ us) = ground (arith, has_text-trim_all t us)

has_text-insert_sorted :
    (t u : Text) (us : List Text) → has_text t (insert_sorted text_leb u us) ≡ has_text t (u ∷ us)
unfolding has_text insert_sorted
has_text-insert_sorted t u [] = refl
has_text-insert_sorted t u (v ∷ vs) = ground (arith, has_text-insert_sorted t u vs)

has_text-sort : (t : Text) (ts : List Text) → has_text t (sort text_leb ts) ≡ has_text t ts
unfolding has_text sort
has_text-sort t [] = refl
has_text-sort t (u ∷ us) =
    has_text-insert_sorted t u (sort text_leb us) ∙ ground (arith, has_text-sort t us)

has_text-compact : (t : Text) (ts : List Text) → has_text t (compact ts) ≡ has_text t ts
unfolding has_text compact
has_text-compact t [] = refl
has_text-compact t (u ∷ []) = refl
has_text-compact t (u ∷ (v ∷ vs)) =
    let ih = has_text-compact t (v ∷ vs) in
    elim (Bool-cases (text_eq u v)) [
      | inr differs ↦ rw differs (ground (arith, ih))
      | inl same ↦ rw same (ih ∙ rw ((text_eq_iff u v).0 same) (ground arith))
    ]

-- The binary search finds a provider that is listed.
pub has_text-normalized_provider_ids :
    (t : Text) (ts : List Text) → has_text t (normalized_provider_ids ts) ≡ contains_trimmed t ts
unfolding normalized_provider_ids
has_text-normalized_provider_ids t ts =
    has_text-compact t (sort text_leb (trim_all ts))
    ∙ has_text-sort t (trim_all ts)
    ∙ has_text-trim_all t ts

pub validate_providers-listed :
    (t : Text) (ts : List Text)
    → validate_providers ts ≡ ok tt
    → contains_trimmed t ts ≡ true
    → t ≡ provider_tpm2_quote
unfolding validate_providers contains_trimmed
validate_providers-listed t [] h listed = cc
validate_providers-listed t (u ∷ us) h listed =
    let (_, h1) = >>-ok (guard (not (is_empty (trim_space u))) other) _ h in
    let (g, h2) = >>-ok (guard (text_eq (trim_space u) provider_tpm2_quote) other) _ h1 in
    elim (Bool-cases (text_eq (trim_space u) t)) [
      | inl here ↦
          sym ((text_eq_iff (trim_space u) t).0 here)
          ∙ (text_eq_iff (trim_space u) provider_tpm2_quote).0 (guard-ok _ other g)
      | inr later ↦ validate_providers-listed t us h2 (rw later at listed)
    ]
