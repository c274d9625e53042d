-- ===== src/Ratings/Build/Resolved.antt =====
-- What a publication resolves to once a validated run is published.
use inkspire_lorcana_develop.Prelude.{
  ℕ, String, Bool, true, false, not, ◌||◌, ◌==◌, ==_iff, Option, some, List, [], ◌∷◌, find, filter,
  find_updated, All, ok, aware, transact, strip, is_empty, ◌≡◌, refl, sym, ap, subst, ◌∙◌, arith,
  Bool-cases, Option-cases, inl, inr,
}
use inkspire_lorcana_develop.Ratings.Elo.{Floats}
use inkspire_lorcana_develop.Ratings.Publish.{
  validated, published, RatingRun, RatingPublication, RatingTables, is_run, is_named, member,
  get_run_status, retained_run_ids, doomed_runs, delete_runs, publish_run, prune_unretained_runs,
  publish_body, publish,
}
use inkspire_lorcana_develop.Ratings.Publish.Retention.{retained_spared}
use inkspire_lorcana_develop.Ratings.Publish.Current.{
  is_kept, rotate_current, prune_kept, delete_runs-publications,
}
use inkspire_lorcana_develop.Ratings.Build.Refresh.{resolve_publication}

or-true : (b : Bool) → (b || true) ≡ true
or-true true = refl
or-true false = refl

-- A run that is not deleted is found as before.
find-delete :
    (i : ℕ) (ds : List ℕ) (runs : List RatingRun)
    → member i ds ≡ false
    → find (is_run i) (filter (λ r. not (member r.rating_run_id ds)) runs) ≡ find (is_run i) runs
find-delete i ds [] h = refl
find-delete i ds (r ∷ rs) h = elim (Bool-cases (r.rating_run_id == i)) [
  | inl same ↦
      let spared : member r.rating_run_id ds ≡ false =
        subst (λ k. member k ds ≡ false) (sym ((==_iff r.rating_run_id i).0 same)) h in
      rw (spared, same) refl
  | inr other ↦ elim (Bool-cases (member r.rating_run_id ds)) [
    | inl gone ↦ rw (gone, other) (find-delete i ds rs h)
    | inr kept ↦ rw (kept, other) (find-delete i ds rs h)
  ]
]

-- The run that a publication names is retained.
found-retained :
    (name : String) (ps : List RatingPublication) {p : RatingPublication}
    → find (is_named name) ps ≡ some p
    → member p.rating_run_id (retained_run_ids ps) ≡ true
found-retained name [] h = cc
found-retained name (q ∷ qs) {p} h = elim (Bool-cases (is_named name q)) [
  | inl hit ↦
      let same : q.rating_run_id ≡ p.rating_run_id = ground (arith, hit, h) in
      let here : (p.rating_run_id == q.rating_run_id) ≡ true =
        ground (arith, same, ==_iff p.rating_run_id q.rating_run_id) in
      rw here refl
  | inr miss ↦
      let rest : member p.rating_run_id (retained_run_ids qs) ≡ true =
        found-retained name qs {p = p} (ground (arith, miss, h)) in
      elim (Option-cases q.previous_rating_run_id) [
        | inl first ↦ rw (first, rest) (or-true (p.rating_run_id == q.rating_run_id))
        | inr (k, second) ↦
            rw (second, rest, or-true (p.rating_run_id == k))
              (or-true (p.rating_run_id == q.rating_run_id))
      ]
]

-- Pruning has nothing to delete where every run is kept.
doomed-none :
    (ps : List RatingPublication) (runs : List RatingRun)
    → All (λ r. is_kept ps r ≡ true) runs
    → doomed_runs (retained_run_ids ps) runs ≡ []
doomed-none ps [] h = refl
doomed-none ps (r ∷ rs) h = ground (arith, h.0, doomed-none ps rs h.1)

module _ (F : Floats) where
  find-delete_runs :
      (i : ℕ) (ds : List ℕ) (t : RatingTables F)
      → member i ds ≡ false
      → find (is_run i) (delete_runs F ds t).runs ≡ find (is_run i) t.runs
  find-delete_runs i [] t h = refl
  find-delete_runs i (d ∷ ds) t h = find-delete i (d ∷ ds) t.runs h

  prune-kept :
      (t : RatingTables F)
      → All (λ r. is_kept t.publications r ≡ true) t.runs
      → (prune_unretained_runs F t).1 ≡ t
  unfolding prune_unretained_runs
  prune-kept t h = ap (λ ds. delete_runs F ds t) (doomed-none t.publications t.runs h)

  -- What publishing a validated run leaves: the publication resolves to it, and nothing is to be pruned.
  pub publish_resolves :
      (name : String) (i at : ℕ) (by : Option String) (t : RatingTables F) (run : RatingRun)
      → is_empty (strip name) ≡ false
      → find (is_run i) t.runs ≡ some run
      → run.status ≡ validated
      → (after : RatingTables F) × (publish F name i (aware at) by t ≡ (ok tt, after))
        × (resolve_publication name after.publications after.runs
            ≡ some (record run { status = published }))
        × ((prune_unretained_runs F after).1 ≡ after)
  unfolding publish publish_body publish_run get_run_status prune_unretained_runs
      resolve_publication
  publish_resolves name i at by t run given found status =
      let after1 = (publish_run F name i at by t).1 in
      let retained = retained_run_ids after1.publications in
      let ds = doomed_runs retained after1.runs in
      let after = delete_runs F ds after1 in
      let (row, named, current, previous, when, who) = rotate_current name i at by t.publications in
      let present : get_run_status i t.runs ≡ some validated =
        rw (found, get_run_status) (ap some status) in
      let spare : member i ds ≡ false = retained_spared i retained after1.runs (
        subst (λ k. member k retained ≡ true) current
          (found-retained name after1.publications named)) in
      let located : find (is_run i) after.runs ≡ some (record run { status = published }) =
        find-delete_runs i ds after1 spare
        ∙ find_updated (is_run i) (λ r. record r { status = published }) t.runs (λ y. refl) found in
      let resolved : resolve_publication name after1.publications after.runs
          ≡ some (record run { status = published }) =
        rw (named, resolve_publication)
          (subst (λ k. find (is_run k) after.runs ≡ some (record run { status = published }))
            (sym current) located) in
      (
        after,
        rw (given, publish) (rw (present, transact, publish_body) refl),
        ap (λ ps. resolve_publication name ps after.runs) (delete_runs-publications F ds after1)
            ∙ resolved,
        prune-kept after (prune_kept F after1),
      )
