-- ===== src/Improvement/Candidates.antt =====
-- CandidateStore of internal/improvement/candidate_store.go. A hash is a number; `S` is BatchScore, and
-- `sort_rows` stands for sort.SliceStable by CompareBatchScores.
use simulation_core.Base.{
  ℕ, Bool, false, String, List, [], ◌∷◌, ◌++◌, Option, none, some, ◌||◌, ◌=ₛ◌, ◌==◌, if◌then◌else◌,
  length,
}

-- Go maps with numbers as keys.
module _ {A : Type 0} where
  abbrev pub find : ℕ → List (ℕ × A) → Option A
  find h [] = none
  find h ((key, a) ∷ rest) = let later = find h rest in if h == key then some a else later

  abbrev pub store : ℕ → A → List (ℕ × A) → List (ℕ × A)
  store h a [] = (h, a) ∷ []
  store h a ((key, old) ∷ rest) =
      let later = store h a rest in if h == key then (key, a) ∷ rest else (key, old) ∷ later

pub record CandidateStore (S : Type 0) : Type 0 where
  pub run_ids : List (ℕ × String)
  pub batch_scores : List (ℕ × S)

pub record Row (S : Type 0) : Type 0 where
  pub config_hash : ℕ
  pub run_id : String
  pub score : S

abbrev pub is_listed : String → List String → Bool
is_listed id [] = false
is_listed id (first ∷ rest) = id =ₛ first || is_listed id rest

abbrev pub distinct_ids : List String → List (ℕ × String) → List String
distinct_ids seen [] = []
distinct_ids seen ((h, id) ∷ rest) =
    let listed = is_listed id seen in
    let later = distinct_ids (if listed then seen else id ∷ seen) rest in
    if listed then later else id ∷ later

module _ {S : Type 0} where
  abbrev pub new_candidate_store : CandidateStore S
  new_candidate_store = record { run_ids = []; batch_scores = [] }

  abbrev pub register_found : CandidateStore S → ℕ → String → Option String → CandidateStore S
  register_found c h id (some old) = c
  register_found c h id none = record c { run_ids = store h id c.run_ids }

  -- The first run of a hash wins.
  unfoldable pub register : CandidateStore S → ℕ → String → CandidateStore S
  register c h id = if h == 0 || id =ₛ "" then c else register_found c h id (find h c.run_ids)

  unfoldable pub record_batch_score : CandidateStore S → ℕ → S → CandidateStore S
  record_batch_score c h score =
      if h == 0 then c else record c { batch_scores = store h score c.batch_scores }

  abbrev pub lookup_run : CandidateStore S → ℕ → Option String
  lookup_run c h = find h c.run_ids

  abbrev pub candidate_count : CandidateStore S → ℕ
  candidate_count c = length c.run_ids

  abbrev pub all_run_ids : CandidateStore S → List String
  all_run_ids c = distinct_ids [] c.run_ids

  abbrev pub scored_row : ℕ → String → Option S → List (Row S)
  scored_row h id none = []
  scored_row h id (some score) = (record { config_hash = h; run_id = id; score = score }) ∷ []

  -- The candidates with a score.
  abbrev pub scored_rows : List (ℕ × S) → List (ℕ × String) → List (Row S)
  scored_rows scores [] = []
  scored_rows scores ((h, id) ∷ rest) =
      let later = scored_rows scores rest in
      if id =ₛ "" then later else scored_row h id (find h scores) ++ later

  abbrev pub batch_candidate_records :
      (List (Row S) → List (Row S)) → CandidateStore S → List (Row S)
  batch_candidate_records sort_rows c = sort_rows (scored_rows c.batch_scores c.run_ids)

  abbrev pub ids_of : List (Row S) → List String
  ids_of [] = []
  ids_of (row ∷ rows) = row.run_id ∷ ids_of rows

  abbrev pub sorted_batch_candidate_run_ids :
      (List (Row S) → List (Row S)) → CandidateStore S → List String
  sorted_batch_candidate_run_ids sort_rows c = ids_of (batch_candidate_records sort_rows c)
