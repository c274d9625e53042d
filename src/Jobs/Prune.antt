-- ===== src/Jobs/Prune.antt =====
-- `JobRepository.prune_completed_before` (src/lorcana/jobs/repository.py). `FOR UPDATE SKIP LOCKED`
-- skips the rows that another transaction has locked, given by the predicate `locked`.
pub mod Valid
pub mod Bounds
use inkspire_lorcana_develop.Prelude.{
  order_by, ℕ, Bool, true, false, not, none, some, List, [], ◌∷◌, ◌&&◌, ◌||◌, ◌==◌, ltb,
  if◌then◌else◌, filter, take, length, any,
}
use inkspire_lorcana_develop.Jobs.Tables.{Job, is_terminal, Db, has_id}

-- Terminal rows that completed before the given time, oldest first.
abbrev pub prunable : ℕ → Job → Bool
prunable before j =
    is_terminal j.status && elim j.completed_at [ none ↦ false | some t ↦ ltb t before ]

-- `ORDER BY completed_at, job_id`
abbrev pub completed_precedes : Job → Job → Bool
completed_precedes a b = elim a.completed_at [
  | none ↦ false
  | some s ↦ elim b.completed_at [
    | none ↦ true
    | some t ↦ ltb s t || (s == t && ltb a.job_id b.job_id)
  ]
]

-- The rows that `prune_completed_before` deletes.
unfoldable pub doomed : (ℕ → Bool) → ℕ → ℕ → List Job → List Job
doomed locked before limit jobs =
    take limit
      (order_by completed_precedes (filter (λ j. prunable before j && not (locked j.job_id)) jobs))

unfoldable pub prune_completed_before : (ℕ → Bool) → ℕ → ℕ → Db → ℕ × Db
unfolding doomed
prune_completed_before locked before limit db =
    let rows = doomed locked before limit db.jobs in
    (
      length rows,
      record {
        jobs = filter (λ j. not (any (has_id j.job_id) rows)) db.jobs;
        attempts = filter (λ a. not (any (has_id a.job_id) rows)) db.attempts;
      },
    )
