-- ===== src/Prelude/Lists.antt =====
-- Lists measured by native numbers, and the shapes in which SQL reads and writes a table: filter and
-- update where.
use Prim.Native.Nat.{ℕ, zero, suc, ◌+◌, ◌≤◌}
use mathlib.Core.Path.{◌≡◌, refl, sym, ap, subst}
use mathlib.Core.Bool.{Bool, true, false}
use mathlib.Core.Logic.{◌⊎◌, inl, inr}
use mathlib.Core.List.{List, [], ◌∷◌, ◌++◌}
use mathlib.Core.Option.{Option, none, some}
use native.Mathlib.Omega.{arith}
use inkspire_lorcana_develop.Prelude.Tests.{if◌then◌else◌, Bool-cases}

module _ {ℓ} {A : Type ℓ} where
  abbrev pub length : List A → ℕ
  length [] = 0
  length (x ∷ xs) = suc (length xs)

  abbrev pub take : ℕ → List A → List A
  take zero xs = []
  take (suc n) [] = []
  take (suc n) (x ∷ xs) = x ∷ take n xs

  -- `SELECT … WHERE p`
  abbrev pub filter : (A → Bool) → List A → List A
  filter p [] = []
  filter p (x ∷ xs) = if p x then x ∷ filter p xs else filter p xs

  -- `UPDATE … SET f WHERE p`
  abbrev pub update_where : (A → Bool) → (A → A) → List A → List A
  update_where p f [] = []
  update_where p f (x ∷ xs) = (if p x then f x else x) ∷ update_where p f xs

  -- The number of rows that a statement's WHERE clause meets.
  abbrev pub count_where : (A → Bool) → List A → ℕ
  count_where p [] = 0
  count_where p (x ∷ xs) = if p x then suc (count_where p xs) else count_where p xs

  abbrev pub any : (A → Bool) → List A → Bool
  any p [] = false
  any p (x ∷ xs) = if p x then true else any p xs

  abbrev pub find : (A → Bool) → List A → Option A
  find p [] = none
  find p (x ∷ xs) = if p x then some x else find p xs

  -- Every element has the property, by recursion on the list.
  abbrev pub All {κ} : (A → Type κ) → List A → Type κ
  All P [] = Unit
  All P (x ∷ xs) = P x × All P xs

  -- Some element has the property.
  abbrev pub Exists : (A → Type 0) → List A → Type 0
  Exists P [] = ⊥
  Exists P (x ∷ xs) = P x ⊎ Exists P xs

  pub length-append : (xs ys : List A) → length (xs ++ ys) ≡ length xs + length ys
  length-append [] ys = omega arith
  length-append (x ∷ xs) ys = omega (arith, length-append xs ys)

  pub length-take-le : (n : ℕ) (xs : List A) → length (take n xs) ≤ n
  length-take-le zero xs = omega arith
  length-take-le (suc n) [] = omega arith
  length-take-le (suc n) (x ∷ xs) = omega (arith, length-take-le n xs)

  pub All-append {κ} : (P : A → Type κ) (xs ys : List A) → All P xs → All P ys → All P (xs ++ ys)
  All-append P [] ys hx hy = hy
  All-append P (x ∷ xs) ys hx hy = (hx.0, All-append P xs ys hx.1 hy)

  pub All-map {κ μ} :
      (P : A → Type κ) (Q : A → Type μ) (xs : List A) → ((x : A) → P x → Q x) → All P xs → All Q xs
  All-map P Q [] f h = tt
  All-map P Q (x ∷ xs) f h = (f x h.0, All-map P Q xs f h.1)

  pub All-both {κ μ} :
      (P : A → Type κ) (Q : A → Type μ) (xs : List A)
      → All P xs
      → All Q xs
      → All (λ x. P x × Q x) xs
  All-both P Q [] h k = tt
  All-both P Q (x ∷ xs) h k = ((h.0, k.0), All-both P Q xs h.1 k.1)

  pub All-filter {κ} :
      (P : A → Type κ) (p : A → Bool) (xs : List A) → All P xs → All P (filter p xs)
  All-filter P p [] h = tt
  All-filter P p (x ∷ xs) h =
      elim (p x) as (λ b. All P (if b then x ∷ filter p xs else filter p xs)) [
        | true ↦ (h.0, All-filter P p xs h.1)
        | false ↦ All-filter P p xs h.1
      ]

  -- What holds of the selected rows holds of every row that meets the condition.
  pub filter_reflects {κ} :
      (P : A → Type κ) (p : A → Bool) (xs : List A)
      → All P (filter p xs)
      → All (λ x. p x ≡ true → P x) xs
  filter_reflects P p [] h = tt
  filter_reflects P p (x ∷ xs) h =
      (elim (p x)
          as (λ b.
            b ≡ p x
            → All P (if b then x ∷ filter p xs else filter p xs)
            → All (λ y. p y ≡ true → P y) (x ∷ xs)) [
              | true ↦ λ e k. ((λ t. k.0), filter_reflects P p xs k.1)
              | false ↦ λ e k. ((λ t. cc), filter_reflects P p xs k)
            ])
        refl h

  -- Each row that is selected meets the condition.
  pub filter-All {κ} :
      (Q : A → Type κ) (p : A → Bool) (xs : List A)
      → ((x : A) → p x ≡ true → Q x)
      → All Q (filter p xs)
  filter-All Q p [] f = tt
  filter-All Q p (x ∷ xs) f =
      (elim (p x) as (λ b. b ≡ p x → All Q (if b then x ∷ filter p xs else filter p xs)) [
        | true ↦ λ e. (f x (sym e), filter-All Q p xs f)
        | false ↦ λ e. filter-All Q p xs f
      ])
        refl

  pub All-update_where {κ μ} :
      (P : A → Type κ) (Q : A → Type μ) (p : A → Bool) (f : A → A) (xs : List A)
      → ((x : A) → P x → p x ≡ true → Q (f x))
      → ((x : A) → P x → p x ≡ false → Q x)
      → All P xs
      → All Q (update_where p f xs)
  All-update_where P Q p f [] hit miss h = tt
  All-update_where P Q p f (x ∷ xs) hit miss h = (
    (elim (p x) as (λ b. b ≡ p x → Q (if b then f x else x)) [
      | true ↦ λ e. hit x h.0 (sym e)
      | false ↦ λ e. miss x h.0 (sym e)
    ])
        refl,
    All-update_where P Q p f xs hit miss h.1,
  )

  -- What is found is in the list and meets the condition.
  pub find-All {κ} :
      (P : A → Type κ) (p : A → Bool) (xs : List A) {x : A}
      → All P xs
      → find p xs ≡ some x
      → P x × (p x ≡ true)
  find-All P p [] h e = cc
  find-All P p (y ∷ ys) {x} h e =
      (elim (p y)
          as (λ b. b ≡ p y → (if b then some y else find p ys) ≡ some x → P x × (p x ≡ true)) [
            | true ↦ λ same found.
                let s : y ≡ x = cc in (subst P s h.0, subst (λ z. p z ≡ true) s (sym same))
            | false ↦ λ same found. find-All P p ys h.1 found
          ])
        refl e

  pub update_where_none :
      (p : A → Bool) (f : A → A) (xs : List A) → count_where p xs ≡ 0 → update_where p f xs ≡ xs
  update_where_none p f [] h = refl
  update_where_none p f (x ∷ xs) h = ground (arith, update_where_none p f xs)

  pub length-update_where :
      (p : A → Bool) (f : A → A) (xs : List A) → length (update_where p f xs) ≡ length xs
  length-update_where p f [] = refl
  length-update_where p f (x ∷ xs) = ap suc (length-update_where p f xs)

  pub count_where-append :
      (p : A → Bool) (xs ys : List A)
      → count_where p (xs ++ ys) ≡ count_where p xs + count_where p ys
  count_where-append p [] ys = omega arith
  count_where-append p (x ∷ xs) ys = ground (arith, count_where-append p xs ys)

  -- An update that leaves a test alone leaves the number of rows that meet it alone.
  pub count_where-update_where :
      (q p : A → Bool) (f : A → A) (xs : List A)
      → ((x : A) → q (f x) ≡ q x)
      → count_where q (update_where p f xs) ≡ count_where q xs
  count_where-update_where q p f [] h = refl
  count_where-update_where q p f (x ∷ xs) h =
      ground (arith, count_where-update_where q p f xs h, h x)

  -- Filtering keeps the count of what it keeps.
  pub count_where-filter :
      (q p : A → Bool) (xs : List A)
      → ((x : A) → q x ≡ true → p x ≡ true)
      → count_where q (filter p xs) ≡ count_where q xs
  count_where-filter q p [] h = refl
  count_where-filter q p (x ∷ xs) h = ground (arith, count_where-filter q p xs h, h x)

  -- A first row that meets the test is found where it is added or rewritten.
  pub find_appended :
      (p : A → Bool) (xs : List A) (x : A)
      → find p xs ≡ none
      → p x ≡ true
      → find p (xs ++ x ∷ []) ≡ some x
  find_appended p [] x h e = ground (arith, e)
  find_appended p (y ∷ ys) x h e = ground (arith, e, h, find_appended p ys x)

  pub find_updated :
      (p : A → Bool) (f : A → A) (xs : List A) {x : A}
      → ((y : A) → p (f y) ≡ p y)
      → find p xs ≡ some x
      → find p (update_where p f xs) ≡ some (f x)
  find_updated p f [] {x} keeps h = cc
  find_updated p f (y ∷ ys) {x} keeps h =
      ground (arith, keeps y, h, find_updated p f ys {x = x} keeps)

  -- An update of the row that was just added.
  pub update_where-new :
      (p : A → Bool) (f : A → A) (xs : List A) (a : A)
      → any p xs ≡ false
      → p a ≡ true
      → update_where p f (xs ++ a ∷ []) ≡ xs ++ f a ∷ []
  update_where-new p f [] a fresh h = rw h refl
  update_where-new p f (x ∷ xs) a fresh h = elim (Bool-cases (p x)) [
    | inl same ↦ absurd (ground (arith, same, fresh))
    | inr other ↦
        let later : any p xs ≡ false = ground (arith, other, fresh) in
        rw (other, update_where-new p f xs a later h) refl
  ]

  pub any-append : (p : A → Bool) (xs : List A) (a : A) → p a ≡ true → any p (xs ++ a ∷ []) ≡ true
  any-append p [] a h = rw h refl
  any-append p (x ∷ xs) a h = ground (arith, any-append p xs a h)

  -- What a search finds after an update that leaves its test alone, and after a row was added.
  pub find-update_where :
      (p q : A → Bool) (f : A → A) (xs : List A)
      → ((x : A) → p (f x) ≡ p x)
      → find p (update_where q f xs)
        ≡ elim (find p xs) [ none ↦ none | some x ↦ some (if q x then f x else x) ]
  find-update_where p q f [] keeps = refl
  find-update_where p q f (x ∷ xs) keeps = ground (arith, keeps x, find-update_where p q f xs keeps)

  pub find-append :
      (p : A → Bool) (xs : List A) (y : A)
      → find p (xs ++ y ∷ [])
        ≡ elim (find p xs) [ none ↦ if p y then some y else none | some x ↦ some x ]
  find-append p [] y = refl
  find-append p (x ∷ xs) y = ground (arith, find-append p xs y)

  pub find_absent : (p : A → Bool) (xs : List A) → any p xs ≡ false → find p xs ≡ none
  find_absent p [] h = refl
  find_absent p (x ∷ xs) h = ground (arith, find_absent p xs)

  pub find_present : (p : A → Bool) (xs : List A) → any p xs ≡ true → (x : A) × (find p xs ≡ some x)
  find_present p [] h = cc
  find_present p (x ∷ xs) h = elim (Bool-cases (p x)) [
    | inl here ↦ (x, rw here refl)
    | inr there ↦ let (y, e) = find_present p xs (ground (arith, there, h)) in (y, rw there e)
  ]

  pub any_found : (p : A → Bool) (xs : List A) {x : A} → find p xs ≡ some x → any p xs ≡ true
  any_found p [] h = cc
  any_found p (y ∷ ys) {x} h = ground (arith, any_found p ys {x = x})

  pub find_meets : (p : A → Bool) (xs : List A) {x : A} → find p xs ≡ some x → p x ≡ true
  find_meets p [] h = cc
  find_meets p (y ∷ ys) {x} h = ground (arith, find_meets p ys {x = x})

  -- A row that was found under a key counts under it.
  counted_found :
      (k p : A → Bool) (xs : List A) {x : A}
      → find p xs ≡ some x
      → k x ≡ true
      → 1 ≤ count_where k xs
  counted_found k p [] h e = cc
  counted_found k p (y ∷ ys) {x} h e = ground (arith, counted_found k p ys {x = x})

  -- Two searches that meet rows under a key that no two rows share met the same row.
  pub find_same :
      (k p q : A → Bool) (xs : List A) {x y : A}
      → count_where k xs ≤ 1
      → find p xs ≡ some x
      → k x ≡ true
      → find q xs ≡ some y
      → k y ≡ true
      → x ≡ y
  find_same k p q [] unique fx kx fy ky = cc
  find_same k p q (z ∷ zs) {x} {y} unique fx kx fy ky = ground (
    arith,
    find_same k p q zs {x = x} {y = y},
    counted_found k p zs {x = x},
    counted_found k q zs {x = y},
  )

  pub any-update_where :
      (p q : A → Bool) (f : A → A) (xs : List A)
      → ((x : A) → p (f x) ≡ p x)
      → any p (update_where q f xs) ≡ any p xs
  any-update_where p q f [] keeps = refl
  any-update_where p q f (x ∷ xs) keeps = ground (arith, keeps x, any-update_where p q f xs keeps)

  pub any_absent : (p : A → Bool) (xs : List A) → find p xs ≡ none → any p xs ≡ false
  any_absent p [] h = refl
  any_absent p (x ∷ xs) h = ground (arith, any_absent p xs)

  pub count_absent : (p : A → Bool) (xs : List A) → any p xs ≡ false → count_where p xs ≡ 0
  count_absent p [] h = refl
  count_absent p (x ∷ xs) h = ground (arith, count_absent p xs)

  pub any-append_new :
      (p : A → Bool) (xs : List A) (y : A) → p y ≡ false → any p (xs ++ y ∷ []) ≡ any p xs
  any-append_new p [] y h = rw h refl
  any-append_new p (x ∷ xs) y h = ground (arith, any-append_new p xs y h)

  pub any-append_old : (p : A → Bool) (xs ys : List A) → any p xs ≡ true → any p (xs ++ ys) ≡ true
  any-append_old p [] ys h = cc
  any-append_old p (x ∷ xs) ys h = ground (arith, any-append_old p xs ys)

  pub any_of_found :
      (p q : A → Bool) (xs : List A) {x : A} → find p xs ≡ some x → q x ≡ true → any q xs ≡ true
  any_of_found p q [] h e = cc
  any_of_found p q (y ∷ ys) {x} h e = ground (arith, any_of_found p q ys {x = x})
