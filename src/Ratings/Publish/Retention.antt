-- ===== src/Ratings/Publish/Retention.antt =====
-- The foreign keys of the ratings tables under `RatingService.publish`.
use inkspire_lorcana_develop.Prelude.{
  ℕ, String, Bool, true, false, not, ◌||◌, ◌==◌, Option, some, List, [], ◌∷◌, filter, find,
  update_where, All, All-both, All-filter, find-All, All-append, All-map, All-update_where,
  filter-All, ◌≡◌, refl, ◌∙◌, arith, Datetime, naive, aware, transact, Option-cases, Bool-cases,
  inl, inr, strip, is_empty,
}
use inkspire_lorcana_develop.Ratings.Elo.{Floats}
use inkspire_lorcana_develop.Ratings.Publish.{
  RunStatus, RatingRun, RatingPublication, RatingTables, published, is_run, is_named,
  is_publishable, member, get_run_status, rotate, retained_run_ids, doomed_runs, delete_runs,
  publish_run, prune_unretained_runs, publish_body, publish,
}

-- The run is in the table.
abbrev pub has_run : ℕ → List RatingRun → Bool
has_run i [] = false
has_run i (r ∷ rs) = r.rating_run_id == i || has_run i rs

-- Both foreign keys of a publication.
abbrev pub Resolves : List RatingRun → RatingPublication → Type 0
Resolves runs p =
    (has_run p.rating_run_id runs ≡ true)
    × ((i : ℕ) → p.previous_rating_run_id ≡ some i → has_run i runs ≡ true)

module _ {R : Type 0} where
  -- The foreign key of a child table.
  abbrev pub Owned : List RatingRun → ℕ × R → Type 0
  Owned runs row = has_run row.0 runs ≡ true

pub record IsConsistent (F : Floats) (t : RatingTables F) : Type 0 where
  pub publications : All (Resolves t.runs) t.publications
  pub inputs : All (Owned t.runs) t.inputs
  pub history : All (Owned t.runs) t.history
  pub current : All (Owned t.runs) t.current

-- A run that is not among the deleted ones is still there.
has_run-filter :
    (i : ℕ) (doomed : List ℕ) (runs : List RatingRun)
    → member i doomed ≡ false
    → has_run i runs ≡ true
    → has_run i (filter (λ r. not (member r.rating_run_id doomed)) runs) ≡ true
has_run-filter i doomed [] spared h = h
has_run-filter i doomed (r ∷ rs) spared h = ground (arith, has_run-filter i doomed rs spared)

has_run-published :
    (i j : ℕ) (runs : List RatingRun)
    → has_run i (update_where (is_run j) (λ r. record r { status = published }) runs)
      ≡ has_run i runs
has_run-published i j [] = refl
has_run-published i j (r ∷ rs) = ground (arith, has_run-published i j rs)

-- Only ids outside the retained ones are doomed.
pub retained_spared :
    (i : ℕ) (retained : List ℕ) (runs : List RatingRun)
    → member i retained ≡ true
    → member i (doomed_runs retained runs) ≡ false
retained_spared i retained [] h = refl
retained_spared i retained (r ∷ rs) h = ground (arith, retained_spared i retained rs h)

get_run_status-has_run :
    (i : ℕ) (runs : List RatingRun) {s : RunStatus}
    → get_run_status i runs ≡ some s
    → has_run i runs ≡ true
unfolding get_run_status
get_run_status-has_run i [] h = cc
get_run_status-has_run i (r ∷ rs) {s} h = ground (arith, get_run_status-has_run i rs {s = s})

-- Neither foreign key of the publication is doomed.
abbrev Spared : List ℕ → RatingPublication → Type 0
Spared doomed p =
    (member p.rating_run_id doomed ≡ false)
    × ((i : ℕ) → p.previous_rating_run_id ≡ some i → member i doomed ≡ false)

abbrev Retained : List ℕ → RatingPublication → Type 0
Retained retained p =
    (member p.rating_run_id retained ≡ true)
    × ((i : ℕ) → p.previous_rating_run_id ≡ some i → member i retained ≡ true)

Retained-grows :
    (p q : RatingPublication) (ps : List RatingPublication)
    → Retained (retained_run_ids ps) q
    → Retained (retained_run_ids (p ∷ ps)) q
Retained-grows p q ps h = (ground (arith, h.0), λ i e. ground (arith, h.1 i e))

Retained-All : (ps : List RatingPublication) → All (Retained (retained_run_ids ps)) ps
Retained-All [] = tt
Retained-All (p ∷ ps) = (
  (ground arith, λ i e. ground (arith, e)),
  All-map (Retained (retained_run_ids ps)) (Retained (retained_run_ids (p ∷ ps))) ps
      (λ q. Retained-grows p q ps) (Retained-All ps),
)

Spared-All :
    (ps : List RatingPublication) (runs : List RatingRun)
    → All (Spared (doomed_runs (retained_run_ids ps) runs)) ps
Spared-All ps runs =
    All-map (Retained (retained_run_ids ps)) (Spared (doomed_runs (retained_run_ids ps) runs)) ps
      (λ q h. (
        retained_spared q.rating_run_id (retained_run_ids ps) runs h.0,
        λ i e. retained_spared i (retained_run_ids ps) runs (h.1 i e),
      ))
      (Retained-All ps)

abbrev survivors : List ℕ → List RatingRun → List RatingRun
survivors doomed runs = filter (λ r. not (member r.rating_run_id doomed)) runs

Owned-survive :
    {R : Type 0} (doomed : List ℕ) (runs : List RatingRun) (rows : List (ℕ × R))
    → All (Owned runs) rows
    → All (Owned (survivors doomed runs)) (filter (λ r. not (member r.0 doomed)) rows)
Owned-survive doomed runs rows h =
    let kept = λ (r : ℕ × _). not (member r.0 doomed) in
    All-map (λ r. Owned runs r × (kept r ≡ true)) (Owned (survivors doomed runs)) (filter kept rows)
      (λ r both. has_run-filter r.0 doomed runs (ground (arith, both.1)) both.0)
      (All-both (Owned runs) (λ r. kept r ≡ true) (filter kept rows)
        (All-filter (Owned runs) kept rows h)
        (filter-All (λ r. kept r ≡ true) kept rows (λ r e. e)))

resolve_survive :
    (doomed : List ℕ) (runs : List RatingRun) (ps : List RatingPublication)
    → All (Spared doomed) ps
    → All (Resolves runs) ps
    → All (Resolves (survivors doomed runs)) ps
resolve_survive doomed runs ps spared h =
    All-map (λ p. Spared doomed p × Resolves runs p) (Resolves (survivors doomed runs)) ps
      (λ p both. (
        has_run-filter p.rating_run_id doomed runs both.0.0 both.1.0,
        λ i e. has_run-filter i doomed runs (both.0.1 i e) (both.1.1 i e),
      ))
      (All-both (Spared doomed) (Resolves runs) ps spared h)

module _ (F : Floats) where
  delete_runs-IsConsistent :
      (doomed : List ℕ) (t : RatingTables F)
      → All (Spared doomed) t.publications
      → IsConsistent F t
      → IsConsistent F (delete_runs F doomed t)
  delete_runs-IsConsistent [] t spared c = c
  delete_runs-IsConsistent (d ∷ ds) t spared c = record {
    publications = resolve_survive (d ∷ ds) t.runs t.publications spared c.publications;
    inputs = Owned-survive (d ∷ ds) t.runs t.inputs c.inputs;
    history = Owned-survive (d ∷ ds) t.runs t.history c.history;
    current = Owned-survive (d ∷ ds) t.runs t.current c.current;
  }

  prune-IsConsistent :
      (t : RatingTables F) → IsConsistent F t → IsConsistent F (prune_unretained_runs F t).1
  unfolding prune_unretained_runs
  prune-IsConsistent t c =
      delete_runs-IsConsistent (doomed_runs (retained_run_ids t.publications) t.runs) t
        (Spared-All t.publications t.runs) c

  rotate-Resolves :
      (name : String) (i at : ℕ) (by : Option String) (runs : List RatingRun)
      (ps : List RatingPublication)
      → has_run i runs ≡ true
      → All (Resolves runs) ps
      → All (Resolves runs) (rotate name i at by ps).1
  unfolding rotate
  rotate-Resolves name i at by runs ps found h = elim (Option-cases (find (is_named name) ps)) [
    | inl absent ↦
        rw (absent, rotate)
          (All-append (Resolves runs) ps _ h ((found, λ j e. ground (arith, e)), tt))
    | inr (existing, present) ↦
        let e = find-All (Resolves runs) (is_named name) ps h present in
        rw (present, rotate)
          (elim (Bool-cases (existing.rating_run_id == i)) [
            | inl again ↦ rw again (
                All-update_where (Resolves runs) (Resolves runs) (is_named name) _ ps
                  (λ p r m. (r.0, r.1)) (λ p r m. r) h)
            | inr other ↦ rw other (
                All-update_where (Resolves runs) (Resolves runs) (is_named name) _ ps
                  (λ p r m. (found, λ j old. ground (arith, e.0.0, old))) (λ p r m. r) h)
          ])
  ]

  Owned-published :
      {R : Type 0} (i : ℕ) (runs : List RatingRun) (rows : List (ℕ × R))
      → All (Owned runs) rows
      → All (Owned (update_where (is_run i) (λ r. record r { status = published }) runs)) rows
  Owned-published i runs rows h =
      All-map (Owned runs)
        (Owned (update_where (is_run i) (λ r. record r { status = published }) runs)) rows
        (λ r own. has_run-published r.0 i runs ∙ own) h

  publish_run-IsConsistent :
      (name : String) (i at : ℕ) (by : Option String) (t : RatingTables F)
      → has_run i t.runs ≡ true
      → IsConsistent F t
      → IsConsistent F (publish_run F name i at by t).1
  unfolding publish_run
  publish_run-IsConsistent name i at by t found c = record {
    publications =
        All-map (Resolves t.runs)
          (Resolves (update_where (is_run i) (λ r. record r { status = published }) t.runs))
          (rotate name i at by t.publications).1
          (λ p r. (
            has_run-published p.rating_run_id i t.runs ∙ r.0,
            λ j e. has_run-published j i t.runs ∙ r.1 j e,
          ))
          (rotate-Resolves name i at by t.runs t.publications found c.publications);
    inputs = Owned-published i t.runs t.inputs c.inputs;
    history = Owned-published i t.runs t.history c.history;
    current = Owned-published i t.runs t.current c.current;
  }

  publish_body-IsConsistent :
      (name : String) (i at : ℕ) (by : Option String) (t : RatingTables F)
      → IsConsistent F t
      → IsConsistent F (transact (publish_body F name i at by) t).1
  unfolding publish_body
  publish_body-IsConsistent name i at by t c = elim (Option-cases (get_run_status i t.runs)) [
    | inl absent ↦ rw (absent, transact, publish_body) c
    | inr (s, present) ↦
        rw (present, transact, publish_body)
          (elim (Bool-cases (is_publishable s)) [
            | inl good ↦ rw good (
                prune-IsConsistent (publish_run F name i at by t).1 (
                  publish_run-IsConsistent name i at by t (get_run_status-has_run i t.runs present)
                    c))
            | inr bad ↦ rw bad c
          ])
  ]

  -- Whatever the call of RatingService.publish and its outcome, if before it every publication's
  -- current and previous run and the run of every stored input, history and current row exist,
  -- they do so after it.
  pub publish-IsConsistent :
      (name : String) (i : ℕ) (clock : Datetime) (by : Option String) (t : RatingTables F)
      → IsConsistent F t
      → IsConsistent F (publish F name i clock by t).1
  unfolding publish
  publish-IsConsistent name i (naive at) by t c = elim (Bool-cases (is_empty (strip name))) [
    | inl blank ↦ rw blank c
    | inr given ↦ rw given c
  ]
  publish-IsConsistent name i (aware at) by t c = elim (Bool-cases (is_empty (strip name))) [
    | inl blank ↦ rw blank c
    | inr given ↦ rw given (publish_body-IsConsistent name i at by t c)
  ]
