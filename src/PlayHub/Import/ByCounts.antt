-- ===== src/PlayHub/Import/ByCounts.antt =====
-- The status with which an import settles, and the counts of its rounds.
use inkspire_lorcana_develop.Prelude.{
  ℕ, ◌+◌, ◌<◌, ◌≡◌, ◌≢◌, ◌↔◌, ◌==◌, refl, sym, subst, if◌then◌else◌, arith, Bool-cases, inl, inr,
}
use inkspire_lorcana_develop.PlayHub.Tables.{
  complete, partial, no_results, import_no_results, import_complete, import_partial,
}
use inkspire_lorcana_develop.PlayHub.Import.{import_status, settled_status}

-- A status that says exactly what the counts of rounds are.
abbrev pub IsByCounts : {S : Type 0} → S → S → S → S → ℕ → ℕ → Type 0
IsByCounts status empty whole part expected imported =
    ((status ≡ empty) ↔ (expected ≡ 0))
    × ((status ≡ whole) ↔ ((0 < expected) × (imported ≡ expected)))
    × ((status ≡ part) ↔ (imported < expected))

test-IsByCounts :
    {S : Type 0} (empty whole part : S) (expected imported failures : ℕ)
    → empty ≢ whole
    → empty ≢ part
    → whole ≢ part
    → imported + failures ≡ expected
    → IsByCounts
        (if expected == 0 then empty else if imported == expected then whole else part)
        empty
        whole
        part
        expected
        imported
test-IsByCounts empty whole part expected imported failures ew ep wp all =
    elim (Bool-cases (expected == 0)) [
      | inl nothing ↦ rw nothing (
        ((λ _. ground arith), (λ _. refl)),
        ((λ h. absurd (ew h)), (λ h. ground arith)),
        ((λ h. absurd (ep h)), (λ h. ground arith)),
      )
      | inr some_rounds ↦ elim (Bool-cases (imported == expected)) [
        | inl every ↦
            rw (some_rounds, every)
              (
                ((λ h. absurd (ew (sym h))), (λ h. ground arith)),
                ((λ _. (ground arith, ground arith)), (λ _. refl)),
                ((λ h. absurd (wp h)), (λ h. ground arith)),
              )
        | inr fewer ↦
            rw (some_rounds, fewer)
              (
                ((λ h. absurd (ep (sym h))), (λ h. ground arith)),
                ((λ h. absurd (wp (sym h))), (λ h. ground arith)),
                ((λ _. ground arith), (λ _. refl)),
              )
      ]
    ]

import_status-settled_status :
    (expected imported : ℕ)
    → import_status (settled_status expected imported) ≡ (
        if expected == 0
        then import_no_results
        else if imported == expected
        then import_complete
        else import_partial)
import_status-settled_status expected imported = elim (Bool-cases (expected == 0)) [
  | inl nothing ↦ rw nothing refl
  | inr some_rounds ↦ elim (Bool-cases (imported == expected)) [
    | inl every ↦ rw (some_rounds, every) refl
    | inr fewer ↦ rw (some_rounds, fewer) refl
  ]
]

pub settled_status-IsByCounts :
    (expected imported failures : ℕ)
    → imported + failures ≡ expected
    → let status = settled_status expected imported in
      IsByCounts status no_results complete partial expected imported
      × IsByCounts
          (import_status status)
          import_no_results
          import_complete
          import_partial
          expected
          imported
settled_status-IsByCounts expected imported failures all = (
  test-IsByCounts no_results complete partial expected imported failures (λ h. cc) (λ h. cc)
      (λ h. cc) all,
  subst (λ st. IsByCounts st import_no_results import_complete import_partial expected imported)
      (sym (import_status-settled_status expected imported))
      (test-IsByCounts import_no_results import_complete import_partial expected imported failures
        (λ h. cc) (λ h. cc) (λ h. cc) all),
)
