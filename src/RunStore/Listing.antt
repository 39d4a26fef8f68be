-- ===== src/RunStore/Listing.antt =====
-- ListFiltered of internal/simd/runstore.go. `sort_newest` stands for sort.Slice by the time of
-- creation, newest first, and `range_order` for the order in which the call ranges over the map; both
-- can differ from call to call.
pub mod Pages
mod Examples
use simulation_core.Base.{
  ℕ, zero, suc, ◌+◌, Bool, true, false, String, List, [], ◌∷◌, if◌then◌else◌, ltb, leb, length, min,
  ◌-◌,
}
use simulation_core.Base.Int.{ℤ, pos, pos_part, leb_ℤ}
use simulation_core.Base.Dict.{Dict}
use simulation_core.RunStore.Record.{
  Kinds, RunStatus, unspecified, pending, running, completed, failed, cancelled, stopped,
  same_status, Run, RunRecord,
}
use simulation_core.RunStore.{RunStore}

module _ {A : Type 0} where
  abbrev pub take : ℕ → List A → List A
  take zero xs = []
  take (suc n) [] = []
  take (suc n) (x ∷ xs) = x ∷ take n xs

  abbrev pub drop : ℕ → List A → List A
  drop zero xs = xs
  drop (suc n) [] = []
  drop (suc n) (x ∷ xs) = drop n xs

-- No filter, or the status that is asked for.
abbrev pub admits : RunStatus → RunStatus → Bool
admits unspecified status = true
admits filter status = same_status status filter

abbrev pub or_fifty : ℤ → ℕ
or_fifty limit = if leb_ℤ limit (pos 0) then 50 else pos_part limit

module _ {k : Kinds} where
  abbrev pub matching : RunStatus → Dict (RunRecord k) → List (RunRecord k)
  matching status [] = []
  matching status ((id, rec) ∷ runs) =
      let rest = matching status runs in if admits status rec.run.status then rec ∷ rest else rest

  -- `all[start:end]` with the bounds that the code checks.
  abbrev pub page : List (RunRecord k) → (limit start : ℕ) → List (RunRecord k)
  page all limit start =
      let finish = min (start + limit) (length all) in
      if ltb (length all) start
      then []
      else if leb finish start
      then []
      else take (finish - start) (drop start all)

  unfoldable pub list_filtered :
      (Dict (RunRecord k) → Dict (RunRecord k))
      → (List (RunRecord k) → List (RunRecord k))
      → RunStore k
      → (limit offset : ℤ) → RunStatus
      → List (RunRecord k)
  list_filtered range_order sort_newest s limit offset status =
      page (sort_newest (matching status (range_order s.runs))) (or_fifty limit) (pos_part offset)

  abbrev pub list :
      (Dict (RunRecord k) → Dict (RunRecord k))
      → (List (RunRecord k) → List (RunRecord k))
      → RunStore k
      → ℤ
      → List (RunRecord k)
  list range_order sort_newest s limit =
      list_filtered range_order sort_newest s limit (pos 0) unspecified
