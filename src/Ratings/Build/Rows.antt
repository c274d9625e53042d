-- ===== src/Ratings/Build/Rows.antt =====
-- The rows of a run among the tables' rows.
use inkspire_lorcana_develop.Prelude.{
  ℕ, suc, true, false, not, ◌&&◌, ◌==◌, ==_refl, ==_iff, leb, List, [], ◌∷◌, ◌++◌, map, any, All,
  filter-All, ◌≡◌, refl, sym, ap, subst, ◌∙◌, arith, Bool-cases, Option-cases, inl, inr,
}
use inkspire_lorcana_develop.Ratings.Types.{RatingRunInput}
use inkspire_lorcana_develop.Ratings.Elo.{Floats}
use inkspire_lorcana_develop.Ratings.Publish.{
  RatingRun, RatingPublication, RatingTables, is_building, is_run, member, retained_run_ids,
  doomed_runs, delete_runs,
}
use inkspire_lorcana_develop.Ratings.Publish.Retention.{has_run, Resolves, Owned}
use inkspire_lorcana_develop.Ratings.Snapshot.Calculable.{Contiguous}
use inkspire_lorcana_develop.Ratings.Build.{of_run, rows_of, insert_input, by_sequence}

-- Rows that are numbered on are in order.
insert_input-first :
    (n : ℕ) (r : RatingRunInput) (qs : List RatingRunInput)
    → r.sequence_number ≡ n
    → Contiguous n qs
    → insert_input r qs ≡ r ∷ qs
insert_input-first n r [] same h = refl
insert_input-first n r (q ∷ qs) same h =
    let before : leb r.sequence_number q.sequence_number ≡ true = ground (arith, same, h.0) in
    rw before refl

pub by_sequence-Contiguous :
    (n : ℕ) (rs : List RatingRunInput) → Contiguous n rs → by_sequence rs ≡ rs
by_sequence-Contiguous n [] h = refl
by_sequence-Contiguous n (r ∷ rs) h =
    ap (insert_input r) (by_sequence-Contiguous (suc n) rs h.1)
    ∙ insert_input-first (suc n) r rs h.0 h.1

pub any-has_run : (i : ℕ) (runs : List RatingRun) → any (is_run i) runs ≡ has_run i runs
any-has_run i [] = refl
any-has_run i (r ∷ rs) = ground (arith, any-has_run i rs)

module _ {A : Type 0} where
  -- No row belongs to a run that is not in the table.
  pub rows_of-none :
      (i : ℕ) (runs : List RatingRun) (rows : List (ℕ × A))
      → has_run i runs ≡ false
      → All (Owned runs) rows
      → rows_of i rows ≡ []
  rows_of-none i runs [] fresh h = refl
  rows_of-none i runs ((j, a) ∷ rows) fresh h = elim (Bool-cases (j == i)) [
    | inl same ↦
        let known : has_run i runs ≡ true =
          subst (λ k. has_run k runs ≡ true) ((==_iff j i).0 same) h.0 in
        absurd (ground (arith, known, fresh))
    | inr other ↦ rw other (rows_of-none i runs rows fresh h.1)
  ]

  rows_of-own : (i : ℕ) (xs : List A) → rows_of i (map (of_run i) xs) ≡ xs
  rows_of-own i [] = refl
  rows_of-own i (x ∷ xs) = rw (==_refl i) (ap (λ r. x ∷ r) (rows_of-own i xs))

  pub rows_of-append :
      (i : ℕ) (rows : List (ℕ × A)) (xs : List A)
      → rows_of i rows ≡ []
      → rows_of i (rows ++ map (of_run i) xs) ≡ xs
  rows_of-append i [] xs h = rows_of-own i xs
  rows_of-append i ((j, a) ∷ rows) xs h = elim (Bool-cases (j == i)) [
    | inl same ↦ absurd (ground (arith, same, h))
    | inr other ↦
        let rest : rows_of i rows ≡ [] = ground (arith, other, h) in
        rw other (rows_of-append i rows xs rest)
  ]

-- A run that is done and not retained is doomed.
pub doomed_runs-member :
    (i : ℕ) (retained : List ℕ) (runs : List RatingRun)
    → any (λ r. is_run i r && not (is_building r.status)) runs ≡ true
    → member i retained ≡ false
    → member i (doomed_runs retained runs) ≡ true
doomed_runs-member i retained [] h out = cc
doomed_runs-member i retained (r ∷ rs) h out =
    ground (arith, h, out, doomed_runs-member i retained rs)

-- A publication's runs are in the table, so a run that is not is not retained.
pub retained-known :
    (i : ℕ) (runs : List RatingRun) (ps : List RatingPublication)
    → All (Resolves runs) ps
    → has_run i runs ≡ false
    → member i (retained_run_ids ps) ≡ false
retained-known i runs [] h fresh = refl
retained-known i runs (p ∷ ps) h fresh =
    let rest = retained-known i runs ps h.1 fresh in
    elim (Bool-cases (i == p.rating_run_id)) [
      | inl same ↦ absurd (ground (arith, same, h.0.0, fresh, ==_iff i p.rating_run_id))
      | inr other ↦ elim (Option-cases p.previous_rating_run_id) [
        | inl first ↦ rw (first, other) rest
        | inr (q, second) ↦ elim (Bool-cases (i == q)) [
          | inl same ↦ absurd (ground (arith, same, h.0.1 q second, fresh, ==_iff i q))
          | inr apart ↦ rw (second, other, apart) rest
        ]
      ]
    ]

-- A row of another run.
abbrev pub Foreign : {A : Type 0} → ℕ → ℕ × A → Type 0
Foreign i r = (r.0 == i) ≡ false

-- Nothing of the run is left.
abbrev pub Erased : (F : Floats) → ℕ → RatingTables F → Type 0
Erased F i t =
    All (λ r. is_run i r ≡ false) t.runs
    × All (Foreign i) t.inputs
    × All (Foreign i) t.history
    × All (Foreign i) t.current

spared : (i j : ℕ) (ds : List ℕ) → member i ds ≡ true → not (member j ds) ≡ true → (j == i) ≡ false
spared i j ds h kept = elim (Bool-cases (j == i)) [
  | inl same ↦
      let there : member j ds ≡ true =
        subst (λ k. member k ds ≡ true) (sym ((==_iff j i).0 same)) h in
      absurd (ground (arith, there, kept))
  | inr other ↦ other
]

pub delete_runs-Erased :
    (F : Floats) (i : ℕ) (ds : List ℕ) (t : RatingTables F)
    → member i ds ≡ true
    → Erased F i (delete_runs F ds t)
delete_runs-Erased F i [] t h = cc
delete_runs-Erased F i (d ∷ ds) t h = (
  filter-All (λ r. is_run i r ≡ false) (λ r. not (member r.rating_run_id (d ∷ ds))) t.runs
      (λ r kept. spared i r.rating_run_id (d ∷ ds) h kept),
  filter-All (Foreign i) (λ r. not (member r.0 (d ∷ ds))) t.inputs
      (λ r kept. spared i r.0 (d ∷ ds) h kept),
  filter-All (Foreign i) (λ r. not (member r.0 (d ∷ ds))) t.history
      (λ r kept. spared i r.0 (d ∷ ds) h kept),
  filter-All (Foreign i) (λ r. not (member r.0 (d ∷ ds))) t.current
      (λ r kept. spared i r.0 (d ∷ ds) h kept),
)
