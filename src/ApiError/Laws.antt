-- ===== src/ApiError/Laws.antt =====
-- The reasons that errors are counted under.
use high_performance_ledger.Prelude.{
  ◌≡◌, ◌⊎◌, ◌↔◌, inl, inr, refl, arith, Bool-cases, List, [], ◌∷◌, ◌∙◌, sym,
}
use high_performance_ledger.Prelude.Text.{Text, ◌=t◌, =t_sound}
use high_performance_ledger.Observability.{FinancialReason, TerminalOutcome, reason_label}
use high_performance_ledger.ApiError.{
  AppError, reasons, find_reason, financial_reason, financial_metric_outcome, response_parts,
}

IsLabelled : List (Text × FinancialReason) → Type 0
IsLabelled [] = Unit
IsLabelled ((arm, reason) ∷ arms) = (reason_label reason ≡ arm) × IsLabelled arms

reason_label-find_reason :
    (code : Text) (arms : List (Text × FinancialReason))
    → IsLabelled arms
    → (find_reason code arms ≡ FinancialReason.invalid_request)
      ⊎ (reason_label (find_reason code arms) ≡ code)
unfolding find_reason IsLabelled
reason_label-find_reason code [] h = inl refl
reason_label-find_reason code ((arm, reason) ∷ arms) (here, later) =
    elim (Bool-cases (code =t arm)) [
      | inl same ↦ rw same (inr (here ∙ sym (=t_sound code arm same)))
      | inr other ↦ rw other (reason_label-find_reason code arms later)
    ]

reasons-IsLabelled : IsLabelled reasons
unfolding IsLabelled
reasons-IsLabelled = ground arith

-- A code is counted under the reason of its own name, or under `invalid_request`.
pub reason_label-financial_reason :
    (code : Text)
    → (financial_reason code ≡ FinancialReason.invalid_request)
      ⊎ (reason_label (financial_reason code) ≡ code)
unfolding financial_reason
reason_label-financial_reason code = reason_label-find_reason code reasons reasons-IsLabelled

-- An error is counted as an internal one exactly if its response is a 500.
pub outcome_iff_status :
    (e : AppError)
    → ((financial_metric_outcome e).0 ≡ TerminalOutcome.internal_error)
      ↔ ((response_parts e).0 ≡ 500)
unfolding financial_metric_outcome response_parts
outcome_iff_status e = (λ h. ground arith, λ h. ground arith)
