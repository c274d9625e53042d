-- ===== src/PlayHub/Discovery.antt =====
-- `select_discovered_events` (src/lorcana/playhub/parser.py): the events of a discovery window. The loop
-- appends to a list; here each pass puts its event before those of the passes that follow.
pub mod Selection
pub mod Window
pub mod Run
pub mod Ending
use inkspire_lorcana_develop.Prelude.{
  ℕ, zero, suc, String, Bool, true, false, ◌||◌, ◌==◌, ltb, leb, if◌then◌else◌, List, [], ◌∷◌,
  length, Option, none, some, ℤ, Json, Fields, Result, ok, err, and_then, ◌>>=◌, raise_if,
  value_error, parse_error, Datetime, to_utc,
}
use inkspire_lorcana_develop.PlayHub.Raw.{
  Builtins, get, is_null, required_int, parse_source_datetime,
}
use inkspire_lorcana_develop.PlayHub.Parser.Results.{mem_ℤ}

pub record DiscoverySelection : Type 0 where
  pub events : List Fields
  pub events_received : ℕ
  pub duplicate_rows : ℕ
  pub boundary_excluded : ℕ
  pub missing_datetime : ℕ
  pub missing_id : ℕ

-- What a pass of the loop decides about a row.
pub data Verdict : Type 0 where
  without_id without_datetime at_boundary duplicate : Verdict
  fresh : ℤ → Verdict

abbrev pub none_selected : DiscoverySelection
none_selected = record {
  events = [];
  events_received = 0;
  duplicate_rows = 0;
  boundary_excluded = 0;
  missing_datetime = 0;
  missing_id = 0;
}

abbrev pub tally : Verdict → Fields → DiscoverySelection → DiscoverySelection
tally without_id raw s = record s { missing_id = suc s.missing_id }
tally without_datetime raw s = record s { missing_datetime = suc s.missing_datetime }
tally at_boundary raw s = record s { boundary_excluded = suc s.boundary_excluded }
tally duplicate raw s = record s { duplicate_rows = suc s.duplicate_rows }
tally (fresh i) raw s = record s { events = raw ∷ s.events }

-- `seen_ids` after a row.
abbrev pub see : Verdict → List ℤ → List ℤ
see (fresh i) seen = i ∷ seen
see other seen = seen

-- A row with an id and a start, against the window and the ids seen.
abbrev pub place : ℕ → ℕ → List ℤ → ℤ → ℕ → Result Verdict
place start end seen i at =
    if at == end
    then ok at_boundary
    else if ltb at start || ltb end at
    then err parse_error
    else if mem_ℤ i seen
    then ok duplicate
    else ok (fresh i)

abbrev pub place_start : ℕ → ℕ → List ℤ → ℤ → Option ℕ → Result Verdict
place_start start end seen i none = ok without_datetime
place_start start end seen i (some at) = place start end seen i at

module _ (python : Builtins) where
  -- `_required_int(raw.get("id"))` and the parsed `start_datetime`.
  abbrev pub event_id_of : Fields → Result ℤ
  event_id_of raw = required_int python (get "id" raw)

  abbrev pub event_start_of : Fields → Result (Option ℕ)
  event_start_of raw = parse_source_datetime python (get "start_datetime" raw)

  abbrev pub judge_row : ℕ → ℕ → List ℤ → Fields → Result Verdict
  judge_row start end seen raw = do
    i ← event_id_of raw
    begins ← event_start_of raw
    place_start start end seen i begins

  unfoldable pub judge : ℕ → ℕ → List ℤ → Fields → Result Verdict
  judge start end seen raw =
      if is_null (get "id" raw) then ok without_id else judge_row start end seen raw

  unfoldable pub select_rows : ℕ → ℕ → List ℤ → List Fields → Result DiscoverySelection
  unfolding judge
  select_rows start end seen [] = ok none_selected
  select_rows start end seen (raw ∷ raws) = do
    verdict ← judge start end seen raw
    rest ← select_rows start end (see verdict seen) raws
    ok (tally verdict raw rest)

  unfoldable pub select_discovered_events :
      List Fields → Datetime → Datetime → Result DiscoverySelection
  unfolding select_rows
  select_discovered_events raw_events start_datetime end_datetime = do
    start ← to_utc start_datetime
    end ← to_utc end_datetime
    _ ← raise_if (leb end start) value_error
    selection ← select_rows start end [] raw_events
    ok (record selection { events_received = length raw_events })
