-- ===== src/PlayHub/Discovery/Selection.antt =====
-- The rows that a discovery selects: its window, one row for each id, and the counts.
use inkspire_lorcana_develop.Prelude.{
  ℕ, ◌+◌, ◌≤◌, ◌<◌, Bool, true, false, ◌||◌, ◌==◌, ltb, List, [], ◌∷◌, length, any, All, All-map,
  Option, none, some, ℤ, eqb_ℤ, eqb_ℤ_refl, Fields, Result, ok, err, and_then, and_then-eq-ok,
  ok-injective, ◌≡◌, ◌≢◌, refl, sym, subst, ◌∙◌, arith, Bool-cases, inl, inr, ◌⊎◌,
}
use inkspire_lorcana_develop.PlayHub.Raw.{Builtins, get, is_null}
use inkspire_lorcana_develop.PlayHub.Parser.Results.{mem_ℤ}
use inkspire_lorcana_develop.PlayHub.Discovery.{
  DiscoverySelection, Verdict, without_id, without_datetime, at_boundary, duplicate, fresh,
  none_selected, tally, see, place, place_start, judge_row, event_id_of, event_start_of, judge,
  select_rows,
}

or-true : (b : Bool) → (b || true) ≡ true
or-true true = refl
or-true false = refl

module _ (python : Builtins) where
  -- The row has an id, and it starts in the window, whose end is not part of it.
  abbrev pub InWindow : ℕ → ℕ → Fields → Type 0
  InWindow start end raw =
      (i : ℤ) × (t : ℕ) × (is_null (get "id" raw) ≡ false)
      × (event_id_of python raw ≡ ok i)
      × (event_start_of python raw ≡ ok (some t))
      × (start ≤ t)
      × (t < end)

  abbrev pub is_id : ℤ → Result ℤ → Bool
  is_id i (ok j) = eqb_ℤ i j
  is_id i (err e) = false

  -- One of the events has the id.
  abbrev pub knows : ℤ → List Fields → Bool
  knows i events = any (λ e. is_id i (event_id_of python e)) events

  abbrev pub DistinctIds : List Fields → Type 0
  DistinctIds [] = Unit
  DistinctIds (e ∷ es) = All (λ f. event_id_of python e ≢ event_id_of python f) es × DistinctIds es

  abbrev Judged : ℕ → ℕ → List ℤ → Fields → Verdict → Type 0
  Judged start end seen raw (fresh i) =
      (event_id_of python raw ≡ ok i) × InWindow start end raw × (mem_ℤ i seen ≡ false)
  Judged start end seen raw duplicate =
      (i : ℤ) × (event_id_of python raw ≡ ok i) × (mem_ℤ i seen ≡ true)
  Judged start end seen raw other = ¬ InWindow start end raw

  place-Judged :
      (start end : ℕ) (seen : List ℤ) (raw : Fields) (i : ℤ) (t : ℕ) {v : Verdict}
      → is_null (get "id" raw) ≡ false
      → event_id_of python raw ≡ ok i
      → event_start_of python raw ≡ ok (some t)
      → place start end seen i t ≡ ok v
      → Judged start end seen raw v
  place-Judged start end seen raw i t {v} there named begins e = elim (Bool-cases (t == end)) [
    | inl at ↦
        let is : at_boundary ≡ v = ground (arith, at) in
        subst (Judged start end seen raw) is
          (λ (j, u, n, a, b, c, d). let same : t ≡ u = cc in ground (arith, at, same, d))
    | inr off ↦ elim (Bool-cases (ltb t start || ltb end t)) [
      | inl out ↦ absurd (ground (arith, off, out, e))
      | inr inside ↦ elim (Bool-cases (mem_ℤ i seen)) [
        | inl known ↦
            let is : duplicate ≡ v = ground (arith, off, inside, known) in
            subst (Judged start end seen raw) is (i, named, known)
        | inr unknown ↦
            let is : fresh i ≡ v = ground (arith, off, inside, unknown) in
            let low : start ≤ t = ground (arith, inside) in
            let high : t < end = ground (arith, inside, off) in
            subst (Judged start end seen raw) is
              (named, (i, t, there, named, begins, low, high), unknown)
      ]
    ]
  ]

  place_start-Judged :
      (start end : ℕ) (seen : List ℤ) (raw : Fields) (i : ℤ) (begins : Option ℕ) {v : Verdict}
      → is_null (get "id" raw) ≡ false
      → event_id_of python raw ≡ ok i
      → event_start_of python raw ≡ ok begins
      → place_start start end seen i begins ≡ ok v
      → Judged start end seen raw v
  place_start-Judged start end seen raw i none {v} there named read e =
      subst (Judged start end seen raw) (ok-injective e)
        (λ (j, u, n, a, b, c, d). let clash : none ≡ some u = ok-injective (sym read ∙ b) in cc)
  place_start-Judged start end seen raw i (some t) there named read e =
      place-Judged start end seen raw i t there named read e

  judge-Judged :
      (start end : ℕ) (seen : List ℤ) (raw : Fields) {v : Verdict}
      → judge python start end seen raw ≡ ok v
      → Judged start end seen raw v
  unfolding judge
  judge-Judged start end seen raw {v} e = elim (Bool-cases (is_null (get "id" raw))) [
    | inl missing ↦
        let is : without_id ≡ v = ground (arith, missing) in
        subst (Judged start end seen raw) is (λ (j, u, n, a, b, c, d). ground (arith, missing, n))
    | inr there ↦
        let judged : judge_row python start end seen raw ≡ ok v = ground (arith, there, e) in
        let (i, named, found) =
          and_then-eq-ok (event_id_of python raw)
            (λ i. and_then (event_start_of python raw) (place_start start end seen i)) judged in
        let (begins, read, placed) =
          and_then-eq-ok (event_start_of python raw) (place_start start end seen i) found in
        place_start-Judged start end seen raw i begins there named read placed
  ]

  abbrev Fresh : List ℤ → Fields → Type 0
  Fresh seen e = (i : ℤ) → event_id_of python e ≡ ok i → mem_ℤ i seen ≡ false

  -- A row outside the window, or one whose id was seen or is selected.
  abbrev pub Covered : ℕ → ℕ → List ℤ → List Fields → Fields → Type 0
  Covered start end seen events raw =
      (¬ InWindow start end raw)
      ⊎ ((i : ℤ) × (event_id_of python raw ≡ ok i) × ((mem_ℤ i seen || knows i events) ≡ true))

  abbrev pub total : DiscoverySelection → ℕ
  total s =
      length s.events + s.duplicate_rows + s.boundary_excluded + s.missing_datetime + s.missing_id

  abbrev Selects : ℕ → ℕ → List ℤ → List Fields → DiscoverySelection → Type 0
  Selects start end seen raws s =
      All (InWindow start end) s.events
      × All (Fresh seen) s.events
      × DistinctIds s.events
      × All (Covered start end seen s.events) raws
      × (total s ≡ length raws)

  tally-Selects :
      (start end : ℕ) (seen : List ℤ) (raw : Fields) (raws : List Fields) (v : Verdict)
      (s : DiscoverySelection)
      → Judged start end seen raw v
      → Selects start end (see v seen) raws s
      → Selects start end seen (raw ∷ raws) (tally v raw s)
  tally-Selects start end seen raw raws without_id s j (w, f, d, c, t) =
      (w, f, d, (inl j, c), omega (arith, t))
  tally-Selects start end seen raw raws without_datetime s j (w, f, d, c, t) =
      (w, f, d, (inl j, c), omega (arith, t))
  tally-Selects start end seen raw raws at_boundary s j (w, f, d, c, t) =
      (w, f, d, (inl j, c), omega (arith, t))
  tally-Selects start end seen raw raws duplicate s (k, named, there) (w, f, d, c, t) =
      (w, f, d, (inr (k, named, rw there refl), c), omega (arith, t))
  tally-Selects start end seen raw raws (fresh k) s (named, inside, unseen) (w, f, d, c, t) = (
    (inside, w),
    ((λ i same. subst (λ n. mem_ℤ n seen ≡ false) (ok-injective (sym named ∙ same)) unseen), older),
    (apart, d),
    (inr (k, named, rw (named, eqb_ℤ_refl k, or-true (mem_ℤ k seen)) refl), cover),
    omega (arith, t),
  )
    where
      older : All (Fresh seen) s.events
      older =
          All-map (Fresh (k ∷ seen)) (Fresh seen) s.events
            (λ e late i same. ground (arith, late i same)) f

      apart : All (λ e. event_id_of python raw ≢ event_id_of python e) s.events
      apart =
          All-map (Fresh (k ∷ seen)) (λ e. event_id_of python raw ≢ event_id_of python e) s.events
            (λ e late same.
              let miss : mem_ℤ k (k ∷ seen) ≡ false = late k (sym same ∙ named) in
              ground (arith, eqb_ℤ_refl k, miss))
            f

      cover : All (Covered start end seen (raw ∷ s.events)) raws
      cover =
          All-map (Covered start end (k ∷ seen) s.events) (Covered start end seen (raw ∷ s.events))
            raws
            (λ r covered. elim covered [
              | inl outside ↦ inl outside
              | inr (i, same, before) ↦ inr (i, same, rw named (ground (arith, before)))
            ])
            c

  pub select_rows-Selects :
      (start end : ℕ) (seen : List ℤ) (raws : List Fields) {s : DiscoverySelection}
      → select_rows python start end seen raws ≡ ok s
      → Selects start end seen raws s
  unfolding select_rows
  select_rows-Selects start end seen [] {s} e =
      let is : none_selected ≡ s = ok-injective e in
      subst (Selects start end seen []) is (tt, tt, tt, tt, refl)
  select_rows-Selects start end seen (raw ∷ raws) {s} e =
      let (v, judged, continued) =
        and_then-eq-ok (judge python start end seen raw)
          (λ v.
            and_then (select_rows python start end (see v seen) raws)
              (λ rest. ok (tally v raw rest)))
          e in
      let (rest, selected, same) =
        and_then-eq-ok (select_rows python start end (see v seen) raws)
          (λ rest. ok (tally v raw rest)) continued in
      subst (Selects start end seen (raw ∷ raws)) (ok-injective same) (
        tally-Selects start end seen raw raws v rest (judge-Judged start end seen raw judged)
          (select_rows-Selects start end (see v seen) raws selected))

  -- What a selection that is returned holds.
  abbrev pub IsSelection : ℕ → ℕ → List Fields → DiscoverySelection → Type 0
  IsSelection start end raws s =
      (start < end)
      × All (InWindow start end) s.events
      × DistinctIds s.events
      × All (Covered start end [] s.events) raws
      × (s.events_received ≡ length raws)
      × (total s ≡ s.events_received)
