-- ===== src/Jobs/Invariant/Find.antt =====
-- Looking a job up by its id or key in a table that is filtered, updated or appended to.
use inkspire_lorcana_develop.Prelude.{
  filter, ℕ, String, Bool, true, false, Option, none, some, List, [], ◌∷◌, ◌++◌, ◌≡◌, refl, ◌==◌,
  All, All-map, update_where, if◌then◌else◌, arith, Bool-cases, inl, inr, eq_iff, key_eq,
}
use inkspire_lorcana_develop.Jobs.Tables.{Job, find_job, find_key}
use inkspire_lorcana_develop.Jobs.Invariant.Defs.{IdsDistinct, KeysDistinct}

abbrev pub touch {ℓ} : {A : Type ℓ} → (A → Bool) → (A → A) → A → A
touch p f x = if p x then f x else x

abbrev pub touched : (Job → Bool) → (Job → Job) → Option Job → Option Job
touched p f none = none
touched p f (some j) = some (touch p f j)

module _ (p : Job → Bool) (f : Job → Job) where
  -- An update that keeps ids commutes with the search for one.
  pub find_job-update_where :
      ((j : Job) → (f j).job_id ≡ j.job_id)
      → (i : ℕ) (jobs : List Job)
      → find_job i (update_where p f jobs) ≡ touched p f (find_job i jobs)
  find_job-update_where keep i [] = refl
  find_job-update_where keep i (j ∷ js) = ground (arith, find_job-update_where keep i js, keep j)

  pub find_key-update_where :
      ((j : Job) → (f j).idempotency_key ≡ j.idempotency_key)
      → (k : Option String) (jobs : List Job) → find_key k jobs ≡ none
      → find_key k (update_where p f jobs) ≡ none
  find_key-update_where keep none jobs h = refl
  find_key-update_where keep (some k) [] h = refl
  find_key-update_where keep (some k) (j ∷ js) h =
      ground (arith, find_key-update_where keep (some k) js, keep j)

  pub update_where-IdsDistinct :
      ((j : Job) → (f j).job_id ≡ j.job_id)
      → (jobs : List Job) → IdsDistinct jobs
      → IdsDistinct (update_where p f jobs)
  update_where-IdsDistinct keep [] h = tt
  update_where-IdsDistinct keep (j ∷ js) h = (
    ground (arith, find_job-update_where keep j.job_id js, h.0, keep j),
    update_where-IdsDistinct keep js h.1,
  )

  pub update_where-KeysDistinct :
      ((j : Job) → (f j).idempotency_key ≡ j.idempotency_key)
      → (jobs : List Job) → KeysDistinct jobs
      → KeysDistinct (update_where p f jobs)
  update_where-KeysDistinct keep [] h = tt
  update_where-KeysDistinct keep (j ∷ js) h = (
    ground (arith, find_key-update_where keep j.idempotency_key js, h.0, keep j),
    update_where-KeysDistinct keep js h.1,
  )

-- What is found under an id has that id.
pub find_job_id : (i : ℕ) (jobs : List Job) {j : Job} → find_job i jobs ≡ some j → i ≡ j.job_id
find_job_id i [] h = cc
find_job_id i (x ∷ xs) {j} h = ground (arith, find_job_id i xs {j = j})

pub find_job-cons_ne :
    (i : ℕ) (x : Job) (xs : List Job)
    → find_job x.job_id xs ≡ none
    → {j : Job} → find_job i xs ≡ some j
    → find_job i (x ∷ xs) ≡ some j
find_job-cons_ne i x xs new found = ground (arith, new, found)

-- With distinct ids each row is found under its own id.
pub rows_found :
    (jobs : List Job) → IdsDistinct jobs → All (λ j. find_job j.job_id jobs ≡ some j) jobs
rows_found [] h = tt
rows_found (x ∷ xs) h = (
  ground arith,
  All-map (λ j. find_job j.job_id xs ≡ some j) (λ j. find_job j.job_id (x ∷ xs) ≡ some j) xs
      (λ j found. find_job-cons_ne j.job_id x xs h.0 found) (rows_found xs h.1),
)

pub find_job-append :
    (i : ℕ) (xs : List Job) (y : Job)
    → find_job i (xs ++ y ∷ [])
      ≡ elim (find_job i xs) [ some x ↦ some x | none ↦ (if i == y.job_id then some y else none) ]
find_job-append i [] y = refl
find_job-append i (x ∷ xs) y = ground (arith, find_job-append i xs y)

pub append-IdsDistinct :
    (xs : List Job) (y : Job)
    → IdsDistinct xs
    → find_job y.job_id xs ≡ none
    → IdsDistinct (xs ++ y ∷ [])
append-IdsDistinct [] y h new = (refl, tt)
append-IdsDistinct (x ∷ xs) y h new =
    (ground (arith, find_job-append x.job_id xs y, h.0), append-IdsDistinct xs y h.1 (ground arith))

pub find_job-filter-none :
    (i : ℕ) (p : Job → Bool) (jobs : List Job)
    → find_job i jobs ≡ none
    → find_job i (filter p jobs) ≡ none
find_job-filter-none i p [] h = refl
find_job-filter-none i p (x ∷ xs) h = ground (arith, find_job-filter-none i p xs)

pub filter-IdsDistinct :
    (p : Job → Bool) (jobs : List Job) → IdsDistinct jobs → IdsDistinct (filter p jobs)
filter-IdsDistinct p [] h = tt
filter-IdsDistinct p (x ∷ xs) h = elim (Bool-cases (p x)) [
  | inl kept ↦ rw kept (find_job-filter-none x.job_id p xs h.0, filter-IdsDistinct p xs h.1)
  | inr gone ↦ rw gone (filter-IdsDistinct p xs h.1)
]

-- A row that is found survives a filter that it meets.
pub find_job-filter :
    (i : ℕ) (p : Job → Bool) (jobs : List Job) {j : Job}
    → find_job i jobs ≡ some j
    → p j ≡ true
    → find_job i (filter p jobs) ≡ some j
find_job-filter i p [] h keep = cc
find_job-filter i p (x ∷ xs) {j} h keep = ground (arith, find_job-filter i p xs {j = j})

-- A row that does not meet the filter is gone, since its id is not repeated.
pub find_job-filter_gone :
    (i : ℕ) (p : Job → Bool) (jobs : List Job) {j : Job}
    → IdsDistinct jobs
    → find_job i jobs ≡ some j
    → p j ≡ false
    → find_job i (filter p jobs) ≡ none
find_job-filter_gone i p [] d h keep = cc
find_job-filter_gone i p (x ∷ xs) {j} d h keep =
    ground (arith, find_job-filter_gone i p xs {j = j}, d.1, d.0, find_job-filter-none i p xs)

find_key-nil : (k : Option String) → find_key k [] ≡ none
find_key-nil none = refl
find_key-nil (some k) = refl

find_key-tail :
    (k : Option String) (x : Job) (xs : List Job)
    → find_key k (x ∷ xs) ≡ none
    → find_key k xs ≡ none
find_key-tail none x xs h = refl
find_key-tail (some k) x xs h = ground arith

-- A key that is not found differs from the first row's.
abbrev Differ : Option String → Option String → Type 0
Differ none l = Unit
Differ (some k) l = key_eq l k ≡ false

other_key :
    (k l : Option String) (x : Job) (xs : List Job)
    → x.idempotency_key ≡ k
    → find_key l (x ∷ xs) ≡ none
    → Differ k l
other_key none l x xs e h = tt
other_key (some k) none x xs e h = refl
other_key (some k) (some l) x xs e h = ground (arith, eq_iff k l, eq_iff l k)

find_key-append :
    (k : Option String) (xs : List Job) (y : Job)
    → find_key k xs ≡ none
    → Differ k y.idempotency_key
    → find_key k (xs ++ y ∷ []) ≡ none
find_key-append none xs y h d = refl
find_key-append (some k) [] y h d = ground arith
find_key-append (some k) (x ∷ xs) y h d = ground (arith, find_key-append (some k) xs y)

find_key-filter-none :
    (k : Option String) (p : Job → Bool) (jobs : List Job)
    → find_key k jobs ≡ none
    → find_key k (filter p jobs) ≡ none
find_key-filter-none none p jobs h = refl
find_key-filter-none (some k) p [] h = refl
find_key-filter-none (some k) p (x ∷ xs) h = ground (arith, find_key-filter-none (some k) p xs)

pub append-KeysDistinct :
    (xs : List Job) (y : Job)
    → KeysDistinct xs
    → find_key y.idempotency_key xs ≡ none
    → KeysDistinct (xs ++ y ∷ [])
append-KeysDistinct [] y h new = (find_key-nil y.idempotency_key, tt)
append-KeysDistinct (x ∷ xs) y h new = (
  find_key-append x.idempotency_key xs y h.0
      (other_key x.idempotency_key y.idempotency_key x xs refl new),
  append-KeysDistinct xs y h.1 (find_key-tail y.idempotency_key x xs new),
)

pub filter-KeysDistinct :
    (p : Job → Bool) (jobs : List Job) → KeysDistinct jobs → KeysDistinct (filter p jobs)
filter-KeysDistinct p [] h = tt
filter-KeysDistinct p (x ∷ xs) h = elim (Bool-cases (p x)) [
  | inl kept ↦
      rw kept (find_key-filter-none x.idempotency_key p xs h.0, filter-KeysDistinct p xs h.1)
  | inr gone ↦ rw gone (filter-KeysDistinct p xs h.1)
]
