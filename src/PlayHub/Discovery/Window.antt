-- ===== src/PlayHub/Discovery/Window.antt =====
-- What a discovery over a window returns or raises.
use inkspire_lorcana_develop.Prelude.{
  ℕ, ◌≤◌, ◌<◌, ◌==◌, ltb, leb, List, [], ◌∷◌, length, Exists, none, some, ℤ, Fields, Result, ok,
  err, and_then, ok-injective, and_then-elim, and_then-eq-err, raise_if-err, Error, raise_if,
  value_error, parse_error, Datetime, ◌≡◌, refl, sym, subst, arith, Bool-cases, inl, inr, ◌⊎◌,
}
use inkspire_lorcana_develop.PlayHub.Raw.{Builtins, get, is_null}
use inkspire_lorcana_develop.PlayHub.Discovery.{
  DiscoverySelection, tally, see, place, place_start, judge_row, event_id_of, event_start_of, judge,
  select_rows, select_discovered_events,
}
use inkspire_lorcana_develop.PlayHub.Discovery.Selection.{IsSelection, select_rows-Selects}

module _ (python : Builtins) where
  -- Why a row ends the selection: its id or its start is malformed, or it starts outside the window.
  abbrev pub IsRefused : ℕ → ℕ → Error → Fields → Type 0
  IsRefused start end e raw =
      (event_id_of python raw ≡ err e)
      ⊎ ((event_start_of python raw ≡ err e)
          ⊎ ((t : ℕ) × (event_start_of python raw ≡ ok (some t))
              × ((t < start) ⊎ (end < t))
              × (e ≡ parse_error)))

  place-err :
      (start end : ℕ) (seen : List ℤ) (i : ℤ) (t : ℕ) {e : Error}
      → place start end seen i t ≡ err e
      → ((t < start) ⊎ (end < t)) × (e ≡ parse_error)
  place-err start end seen i t {e} h = elim (Bool-cases (t == end)) [
    | inl at ↦ absurd (ground (arith, at, h))
    | inr off ↦ elim (Bool-cases (ltb t start)) [
      | inl early ↦ (inl (ground (arith, early)), ground (arith, off, early, h))
      | inr fine ↦ elim (Bool-cases (ltb end t)) [
        | inl late ↦ (inr (ground (arith, late)), ground (arith, off, fine, late, h))
        | inr within ↦ absurd (ground (arith, off, fine, within, h))
      ]
    ]
  ]

  judge-IsRefused :
      (start end : ℕ) (seen : List ℤ) (raw : Fields) (e : Error)
      → judge python start end seen raw ≡ err e
      → IsRefused start end e raw
  unfolding judge
  judge-IsRefused start end seen raw e h = elim (Bool-cases (is_null (get "id" raw))) [
    | inl missing ↦ absurd (ground (arith, missing, h))
    | inr there ↦
        let judged : judge_row python start end seen raw ≡ err e = ground (arith, there, h) in
        elim (and_then-eq-err (event_id_of python raw)
          (λ i. and_then (event_start_of python raw) (place_start start end seen i)) judged) [
            | inl bad ↦ inl bad
            | inr (i, named, h) ↦
                elim (and_then-eq-err (event_start_of python raw) (place_start start end seen i)
                  h) [
                    | inl bad ↦ inr (inl bad)
                    | inr (none, read, placed) ↦ cc
                    | inr (some t, read, placed) ↦
                        let (outside, is) = place-err start end seen i t placed in
                        inr (inr (t, read, outside, is))
                  ]
          ]
  ]

  select_rows-Exists :
      (start end : ℕ) (seen : List ℤ) (raws : List Fields) (e : Error)
      → select_rows python start end seen raws ≡ err e
      → Exists (IsRefused start end e) raws
  unfolding select_rows
  select_rows-Exists start end seen [] e h = cc
  select_rows-Exists start end seen (raw ∷ raws) e h =
      elim (and_then-eq-err (judge python start end seen raw)
        (λ v. and_then (select_rows python start end (see v seen) raws) (λ r. ok (tally v raw r)))
        h) [
          | inl bad ↦ inl (judge-IsRefused start end seen raw e bad)
          | inr (v, good, later) ↦
              elim (and_then-eq-err (select_rows python start end (see v seen) raws)
                (λ r. ok (tally v raw r)) later) [
                  | inl bad ↦ inr (select_rows-Exists start end (see v seen) raws e bad)
                  | inr (r, fine, h) ↦ cc
                ]
        ]

  -- What a discovery over a window returns or raises.
  abbrev pub Selected : ℕ → ℕ → List Fields → Result DiscoverySelection → Type 0
  Selected start end raws (ok s) = IsSelection python start end raws s
  Selected start end raws (err e) =
      ((end ≤ start) × (e ≡ value_error)) ⊎ Exists (IsRefused start end e) raws

  selection_cases :
      (raws : List Fields) (start end : ℕ) (r : Result DiscoverySelection)
      → select_discovered_events python raws (Datetime.aware start) (Datetime.aware end) ≡ r
      → Selected start end raws r
  unfolding select_discovered_events
  selection_cases raws start end (ok s) e =
      and_then-elim (raise_if (leb end start) value_error) e (λ _ ordered e.
        and_then-elim (select_rows python start end [] raws) e (λ r selected same.
          let (w, f, d, c, t) = select_rows-Selects python start end [] raws selected in
          subst (IsSelection python start end raws) (ok-injective same)
            (ground (arith, ordered), w, d, c, refl, t)))
  selection_cases raws start end (err x) e =
      elim (and_then-eq-err (raise_if (leb end start) value_error)
        (λ _.
          and_then (select_rows python start end [] raws)
            (λ r. ok (record r { events_received = length raws })))
        e) [
          | inl unordered ↦
              let (order, is) = raise_if-err (leb end start) value_error unordered in
              inl (ground (arith, order), sym is)
          | inr (_, ordered, h) ↦
              elim (and_then-eq-err (select_rows python start end [] raws)
                (λ r. ok (record r { events_received = length raws })) h) [
                  | inl bad ↦ inr (select_rows-Exists start end [] raws x bad)
                  | inr (r, fine, h) ↦ cc
                ]
        ]

  -- Over an aware window, a selection of discovered events that is returned starts before it ends
  -- and holds only events with an id and a start in the window, its end excluded, no two of the
  -- same id, and for each row in the window an event of its id; the events and the four counters
  -- add up to the rows received. An exception is a ValueError for an empty window, or comes from a
  -- row with a malformed id or start or a start outside the window.
  pub select_discovered_events_selects :
      (raws : List Fields) (start end : ℕ)
      → Selected start end raws
          (select_discovered_events python raws (Datetime.aware start) (Datetime.aware end))
  select_discovered_events_selects raws start end =
      selection_cases raws start end
        (select_discovered_events python raws (Datetime.aware start) (Datetime.aware end)) refl
