-- ===== src/Jobs/Lease/Select.antt =====
-- The row that `claim` selects.
use inkspire_lorcana_develop.Prelude.{
  filter_reflects, ℤ, ltb_ℤ, eqb_ℤ, ltb, subst, ℕ, Bool, true, false, not, none, some, List, [],
  ◌∷◌, ◌≡◌, refl, sym, ◌&&◌, ◌||◌, All, All-map, All-filter, filter, filter-All, arith, Bool-cases,
  Option-cases, inl, inr,
}
use inkspire_lorcana_develop.Jobs.Tables.{Job, Db, find_job}
use inkspire_lorcana_develop.Jobs.Invariant.{RowOk, IsValid}
use inkspire_lorcana_develop.Jobs.Invariant.Find.{rows_found}
use inkspire_lorcana_develop.Jobs.Lease.{claimable, precedes, first_by, select_claimable, tie}

-- The first row of an order is one of the rows.
first_by-All {κ} :
    (P : Job → Type κ) (before : Job → Job → Bool) (jobs : List Job) {j : Job}
    → All P jobs
    → first_by before jobs ≡ some j
    → P j
unfolding first_by
first_by-All P before [] h e = cc
first_by-All P before (x ∷ xs) {j} h e = elim (Option-cases (first_by before xs)) [
  | inl none_left ↦ let same : x ≡ j = ground arith in subst P same h.0
  | inr (y, found) ↦ elim (Bool-cases (before y x)) [
    | inl later ↦
        let same : y ≡ j = ground arith in subst P same (first_by-All P before xs h.1 found)
    | inr first ↦ let same : x ≡ j = ground arith in subst P same h.0
  ]
]

first_by-none :
    (before : Job → Job → Bool) (jobs : List Job) → first_by before jobs ≡ none → jobs ≡ []
unfolding first_by
first_by-none before [] h = refl
first_by-none before (x ∷ xs) h = ground arith

tie_neg :
    (a b c : ℕ) (r s t : Bool)
    → tie a b r ≡ false
    → tie b c s ≡ false
    → (r ≡ false → s ≡ false → t ≡ false)
    → tie a c t ≡ false
tie_neg a b c r s t h k step = ground arith

tie_asym : (a b : ℕ) (r s : Bool) → tie a b r ≡ true → (r ≡ true → s ≡ false) → tie b a s ≡ false
tie_asym a b r s h step = ground arith

priority_neg :
    (a b c : ℤ) (r s t : Bool)
    → (ltb_ℤ b a || (eqb_ℤ a b && r)) ≡ false
    → (ltb_ℤ c b || (eqb_ℤ b c && s)) ≡ false
    → (r ≡ false → s ≡ false → t ≡ false)
    → (ltb_ℤ c a || (eqb_ℤ a c && t)) ≡ false
priority_neg a b c r s t h k step = ground arith

priority_asym :
    (a b : ℤ) (r s : Bool)
    → (ltb_ℤ b a || (eqb_ℤ a b && r)) ≡ true
    → (r ≡ true → s ≡ false)
    → (ltb_ℤ a b || (eqb_ℤ b a && s)) ≡ false
priority_asym a b r s h step = ground arith

ltb_neg : (a b c : ℕ) → ltb a b ≡ false → ltb b c ≡ false → ltb a c ≡ false
ltb_neg a b c h k = ground arith

ltb_asym : (a b : ℕ) → ltb a b ≡ true → ltb b a ≡ false
ltb_asym a b h = ground arith

-- `precedes` is a strict weak order.
precedes_neg : (a b c : Job) → precedes a b ≡ false → precedes b c ≡ false → precedes a c ≡ false
precedes_neg a b c h k = priority_neg a.priority b.priority c.priority _ _ _ h k λ h1 k1.
    tie_neg a.available_at b.available_at c.available_at _ _ _ h1 k1 λ h2 k2.
      tie_neg a.created_at b.created_at c.created_at _ _ _ h2 k2
        (ltb_neg a.job_id b.job_id c.job_id)

precedes_asym : (a b : Job) → precedes a b ≡ true → precedes b a ≡ false
precedes_asym a b h = priority_asym a.priority b.priority _ _ h λ h1.
    tie_asym a.available_at b.available_at _ _ h1
      λ h2. tie_asym a.created_at b.created_at _ _ h2 (ltb_asym a.job_id b.job_id)

-- No row precedes the first.
abbrev pub NotAfter : Job → Job → Type 0
NotAfter j x = precedes x j ≡ false

precedes_irrefl : (a : Job) → precedes a a ≡ false
precedes_irrefl a = elim (Bool-cases (precedes a a)) [
  | inl before ↦ precedes_asym a a before
  | inr same ↦ same
]

first_by_least :
    (jobs : List Job) {j : Job} → first_by precedes jobs ≡ some j → All (NotAfter j) jobs
unfolding first_by
first_by_least [] e = cc
first_by_least (x ∷ xs) {j} e = elim (Option-cases (first_by precedes xs)) [
  | inl none_left ↦
      let same : x ≡ j = ground arith in
      (
        subst (NotAfter j) (sym same) (precedes_irrefl j),
        subst (All (NotAfter j)) (sym (first_by-none precedes xs none_left)) tt,
      )
  | inr (y, found) ↦ elim (Bool-cases (precedes y x)) [
    | inl later ↦
        let same : y ≡ j = ground arith in
        subst (λ k. All (NotAfter k) (x ∷ xs)) same
          (precedes_asym y x later, first_by_least xs found)
    | inr first ↦
        let same : x ≡ j = ground arith in
        subst (λ k. All (NotAfter k) (x ∷ xs)) same
          (
            precedes_irrefl x,
            All-map (NotAfter y) (NotAfter x) xs (λ z h. precedes_neg z y x h first)
                (first_by_least xs found),
          )
  ]
]

module _ (locked : ℕ → Bool) (now : ℕ) where
  abbrev pub is_candidate : Job → Bool
  is_candidate j = claimable now j && not (locked j.job_id)

  -- A selected row is in the table under its id, and is a candidate.
  pub select_claimable_is :
      (db : Db) {j : Job}
      → IsValid db
      → select_claimable locked now db.jobs ≡ some j
      → (find_job j.job_id db.jobs ≡ some j) × RowOk j × (is_candidate j ≡ true)
  unfolding select_claimable
  select_claimable_is db {j} v e =
      let found : List Job = filter is_candidate db.jobs in
      (
        first_by-All (λ k. find_job k.job_id db.jobs ≡ some k) precedes found
            (All-filter (λ k. find_job k.job_id db.jobs ≡ some k) is_candidate db.jobs
              (rows_found db.jobs v.ids))
            e,
        first_by-All RowOk precedes found (All-filter RowOk is_candidate db.jobs v.rows) e,
        first_by-All (λ k. is_candidate k ≡ true) precedes found
            (filter-All (λ k. is_candidate k ≡ true) is_candidate db.jobs (λ k h. h)) e,
      )

  -- No candidate comes before the selected row.
  pub select_claimable_least :
      (jobs : List Job) {j : Job}
      → select_claimable locked now jobs ≡ some j
      → All (λ x. is_candidate x ≡ true → NotAfter j x) jobs
  unfolding select_claimable
  select_claimable_least jobs {j} e =
      filter_reflects (NotAfter j) is_candidate jobs (first_by_least (filter is_candidate jobs) e)

  -- Nothing is selected only where there is no candidate.
  pub select_claimable-none :
      (jobs : List Job)
      → select_claimable locked now jobs ≡ none
      → All (λ x. is_candidate x ≡ true → ⊥) jobs
  unfolding select_claimable
  select_claimable-none jobs e =
      filter_reflects (λ x. ⊥) is_candidate jobs
        (subst (All (λ x. ⊥)) (sym (first_by-none precedes (filter is_candidate jobs) e)) tt)
