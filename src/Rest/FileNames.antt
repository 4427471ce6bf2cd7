-- ===== src/Rest/FileNames.antt =====
-- `buildMasterName` and `buildDataName` of eigerApp/src/restApi.cpp.
pub mod PutId
use adeiger.Base.{
  ℕ, suc, Bool, true, false, Option, none, some, List, [], ◌∷◌, ◌++◌, ◌==◌, ◌-◌, ◌&&◌, take, drop,
  codes, if◌then◌else◌,
}
use adeiger.Base.Int.{ℤ}
use adeiger.Rest.Outside.{Outside}

-- "$id"
abbrev pub starts_id : List ℕ → Bool
starts_id (a ∷ b ∷ c ∷ l) = (a == 36) && (b == 105) && (c == 100)
starts_id _ = false

-- `strstr(pattern, ID_STR)`
unfoldable pub find_id : List ℕ → Option ℕ
find_id [] = none
find_id (c ∷ l) =
    let rest : Option ℕ = elim (find_id l) [ none ↦ none | some i ↦ some (suc i) ] in
    if starts_id (c ∷ l) then some 0 else rest

-- The pattern with the number in place of "$id".
unfoldable pub put_id : List ℕ → List ℕ → List ℕ
put_id pattern number = elim (find_id pattern) [
  | none ↦ pattern
  | some i ↦ take i pattern ++ (number ++ drop (suc (suc (suc i))) pattern)
]

module _ (o : Outside) where
  -- The text is cut off at the size of the array.
  unfoldable pub build_master_name : List ℕ → ℤ → ℕ → List ℕ
  build_master_name pattern seq_id size =
      take (size - 1) (put_id pattern (o.show_int seq_id) ++ codes "_master.h5")

  unfoldable pub build_data_name : ℕ → List ℕ → ℤ → ℕ → List ℕ
  build_data_name n pattern seq_id size =
      take (size - 1)
        (put_id pattern (o.show_int seq_id) ++ (codes "_data_" ++ (o.show_six n ++ codes ".h5")))
