-- ===== src/Rest/FileNames/PutId.antt =====
-- Where `buildMasterName` and `buildDataName` of eigerApp/src/restApi.cpp put the number.
use adeiger.Base.{
  ℕ, suc, ◌≡◌, refl, ap, Bool, true, false, Option, none, some, List, [], ◌∷◌, ◌++◌, ◌&&◌, length,
  drop, take-append, arith, if◌then◌else◌,
}
use adeiger.Rest.FileNames.{starts_id, find_id, put_id}

abbrev next : Option ℕ → Option ℕ
next r = elim r [ none ↦ none | some i ↦ some (suc i) ]

nowhere :
    (b : Bool) (r : Option ℕ) → (if b then some 0 else next r) ≡ none → (b ≡ false) × (r ≡ none)
nowhere true r h = cc
nowhere false none h = (refl, refl)
nowhere false (some i) h = cc

and_false : (a b : Bool) → (a && (b && false)) ≡ false
and_false true true = refl
and_false true false = refl
and_false false b = refl

not_yet :
    (c : ℕ) (before after : List ℕ)
    → starts_id (c ∷ before) ≡ false
    → starts_id (c ∷ (before ++ (36 ∷ 105 ∷ 100 ∷ after))) ≡ false
not_yet c [] after h = ground arith
not_yet c (b ∷ []) after h = ground arith
not_yet c (b ∷ d ∷ before) after h = h

-- A pattern that has no "$id" in front of the first one.
find_id-first :
    (before after : List ℕ)
    → find_id before ≡ none
    → find_id (before ++ (36 ∷ 105 ∷ 100 ∷ after)) ≡ some (length before)
unfolding find_id
find_id-first [] after h = refl
find_id-first (c ∷ before) after h =
    let found = nowhere (starts_id (c ∷ before)) (find_id before) h in
    rw (not_yet c before after found.0) (ap next (find_id-first before after found.1))

drop-id :
    (before after : List ℕ)
    → drop (suc (suc (suc (length before)))) (before ++ (36 ∷ 105 ∷ 100 ∷ after)) ≡ after
drop-id [] after = refl
drop-id (c ∷ before) after = drop-id before after

-- The number takes the place of the first "$id" of a pattern, and what stands around it stays.
pub put_id-first :
    (before after number : List ℕ)
    → find_id before ≡ none
    → put_id (before ++ (36 ∷ 105 ∷ 100 ∷ after)) number ≡ before ++ (number ++ after)
unfolding put_id
put_id-first before after number h =
    rw (find_id-first before after h, put_id)
      (rw (take-append before (36 ∷ 105 ∷ 100 ∷ after), drop-id before after) refl)
