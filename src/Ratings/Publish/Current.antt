-- ===== src/Ratings/Publish/Current.antt =====
-- A `publish` that succeeds: the publication's row, and the runs that are left.
use inkspire_lorcana_develop.Prelude.{
  find_appended, find_updated, str_eq_self, ℕ, String, Bool, true, false, not, ◌&&◌, ◌||◌, ◌==◌,
  if◌then◌else◌, Option, none, some, List, [], ◌∷◌, filter, find, All, All-both, All-filter,
  All-map, filter-All, ◌≡◌, refl, sym, ap, subst, ◌∙◌, arith, ok, aware, transact, Option-cases,
  Bool-cases, inl, inr, strip, is_empty,
}
use inkspire_lorcana_develop.Ratings.Elo.{Floats}
use inkspire_lorcana_develop.Ratings.Publish.{
  RunStatus, RatingRun, RatingPublication, RatingTables, is_building, is_named, is_publishable,
  member, get_run_status, rotate, retained_run_ids, doomed_runs, delete_runs, publish_run,
  prune_unretained_runs, publish_body, publish,
}

-- The previous run that a publication names once `i` is current.
abbrev pub previous_after : ℕ → Option RatingPublication → Option ℕ
previous_after i none = none
previous_after i (some p) =
    if p.rating_run_id == i then p.previous_rating_run_id else some p.rating_run_id

-- The run stays: it is being calculated, or a publication names it.
abbrev pub is_kept : List RatingPublication → RatingRun → Bool
is_kept ps r = is_building r.status || member r.rating_run_id (retained_run_ids ps)

pub rotate_current :
    (name : String) (i at : ℕ) (by : Option String) (ps : List RatingPublication)
    → (p : RatingPublication) × (find (is_named name) (rotate name i at by ps).1 ≡ some p)
      × (p.rating_run_id ≡ i)
      × (p.previous_rating_run_id ≡ previous_after i (find (is_named name) ps))
      × (p.published_at ≡ at)
      × (p.published_by ≡ by)
unfolding rotate
rotate_current name i at by ps = elim (Option-cases (find (is_named name) ps)) [
  | inl absent ↦
      rw (absent, rotate)
        (_, find_appended (is_named name) ps _ absent (str_eq_self name), refl, refl, refl, refl)
  | inr (existing, present) ↦
      rw (present, rotate)
        (elim (Bool-cases (existing.rating_run_id == i)) [
          | inl again ↦ rw again (
            _,
            find_updated (is_named name) _ ps (λ y. refl) present,
            ground (arith, again),
            refl,
            refl,
            refl,
          )
          | inr other ↦
              rw other
                (_, find_updated (is_named name) _ ps (λ y. refl) present, refl, refl, refl, refl)
        ])
]

doomed_complete :
    (retained : List ℕ) (runs : List RatingRun)
    → All
        (λ r.
          not (is_building r.status) && not (member r.rating_run_id retained) ≡ true
          → member r.rating_run_id (doomed_runs retained runs) ≡ true)
        runs
doomed_complete retained [] = tt
doomed_complete retained (r ∷ rs) = (
  λ e. ground (arith, e),
  All-map _ _ rs (λ q h e. ground (arith, h e)) (doomed_complete retained rs),
)

module _ (F : Floats) where
  pub delete_runs-publications :
      (doomed : List ℕ) (t : RatingTables F)
      → (delete_runs F doomed t).publications ≡ t.publications
  delete_runs-publications [] t = refl
  delete_runs-publications (d ∷ ds) t = refl

  delete_runs_kept :
      (doomed : List ℕ) (t : RatingTables F)
      → All
          (λ r.
            not (is_building r.status)
                && not (member r.rating_run_id (retained_run_ids t.publications))
              ≡ true
            → member r.rating_run_id doomed ≡ true)
          t.runs
      → All (λ r. is_kept t.publications r ≡ true) (delete_runs F doomed t).runs
  delete_runs_kept [] t h = All-map _ _ t.runs (λ r complete. ground (arith, complete)) h
  delete_runs_kept (d ∷ ds) t h =
      let keep = λ (r : RatingRun). not (member r.rating_run_id (d ∷ ds)) in
      All-map _ _ (filter keep t.runs) (λ r both. ground (arith, both.0, both.1))
        (All-both _ (λ r. keep r ≡ true) (filter keep t.runs) (All-filter _ keep t.runs h)
          (filter-All (λ r. keep r ≡ true) keep t.runs (λ r e. e)))

  pub prune_kept :
      (t : RatingTables F)
      → let t' = (prune_unretained_runs F t).1 in
        All (λ r. is_kept t'.publications r ≡ true) t'.runs
  unfolding prune_unretained_runs
  prune_kept t =
      let doomed = doomed_runs (retained_run_ids t.publications) t.runs in
      subst (λ ps. All (λ r. is_kept ps r ≡ true) (delete_runs F doomed t).runs)
        (sym (delete_runs-publications doomed t))
        (delete_runs_kept doomed t (doomed_complete (retained_run_ids t.publications) t.runs))

  -- What the publication's row says once run `i` is published.
  pub record IsCurrent (name : String) (i at : ℕ) (by : Option String)
      (old new : List RatingPublication) : Type 0 where
    pub row : RatingPublication
    pub found : find (is_named name) new ≡ some row
    pub current : row.rating_run_id ≡ i
    pub previous : row.previous_rating_run_id ≡ previous_after i (find (is_named name) old)
    pub at_time : row.published_at ≡ at
    pub by_whom : row.published_by ≡ by

  pruned-IsCurrent :
      (name : String) (i at : ℕ) (by : Option String) (t : RatingTables F)
      → IsCurrent name i at by t.publications
          (prune_unretained_runs F (publish_run F name i at by t).1).1.publications
  unfolding publish_run prune_unretained_runs
  pruned-IsCurrent name i at by t =
      let t1 = (publish_run F name i at by t).1 in
      let (p, found, current, previous, when, who) = rotate_current name i at by t.publications in
      record {
        row = p;
        found =
            ap (find (is_named name))
              (delete_runs-publications (doomed_runs (retained_run_ids t1.publications) t1.runs) t1)
            ∙ found;
        current = current;
        previous = previous;
        at_time = when;
        by_whom = who;
      }

  -- Publishing an existing validated or published run under a name that is not blank, at an aware
  -- time, succeeds; the publication then names the run, the time and the publisher, its previous
  -- run is the one that was current before (unchanged on a republish, absent on a first
  -- publication), and every run left is being built or is named by a publication.
  pub publish_succeeds :
      (name : String) (i at : ℕ) (by : Option String) (t : RatingTables F) (s : RunStatus)
      → is_empty (strip name) ≡ false
      → get_run_status i t.runs ≡ some s
      → is_publishable s ≡ true
      → let (r, t') = publish F name i (aware at) by t in
        (r ≡ ok tt)
        × IsCurrent name i at by t.publications t'.publications
        × All (λ r. is_kept t'.publications r ≡ true) t'.runs
  unfolding publish publish_body
  publish_succeeds name i at by t s given present good =
      rw (given, publish)
        (rw (present, transact, publish_body)
          (rw good
            (refl, pruned-IsCurrent name i at by t, prune_kept (publish_run F name i at by t).1)))
