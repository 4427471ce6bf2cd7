-- ===== src/Param/Names.antt =====
-- `create` and `getByName` of the parameter set in eigerApp/src/eigerParam.cpp.
use text.Mathlib.TextEquality.{eq_iff}
use adeiger.Base.{
  ℕ, ◌<◌, String, ◌≡◌, refl, ap, ◌∙◌, get_or, ◌++◌, true, false, Option, none, some, List, [], ◌∷◌,
  ◌==◌, ltb, length, Bool-cases, inl, inr, str_eq, arith,
}
use adeiger.Param.Outside.{Outside}
use adeiger.Param.Types.{Param, System, blank_param}
use adeiger.Param.FetchAll.{find_name, find_index, get_by_name, get_by_index}
use adeiger.Param.Create.{insert_name, insert_index, enter, is_det_config}

abbrev pub or_else : Option ℕ → ℕ → ℕ
or_else none i = i
or_else (some j) i = j

find_name-insert_name :
    (name : String) (i : ℕ) (entries : List (String × ℕ))
    → find_name (insert_name name i entries) name ≡ some (or_else (find_name entries name) i)
unfolding find_name insert_name
find_name-insert_name name i [] = rw ((eq_iff name name).1 refl) refl
find_name-insert_name name i (entry ∷ entries) = elim (Bool-cases (str_eq entry.0 name)) [
  | inl h ↦ rw h (rw h refl)
  | inr h ↦ rw h (rw h (find_name-insert_name name i entries))
]

-- All keys are above a number.
abbrev pub Above : ℕ → List (ℕ × ℕ) → Type 0
Above n [] = Unit
Above n (entry ∷ entries) = (n < entry.0) × Above n entries

-- The keys ascend, as in a `std::map`.
abbrev pub Ascending : List (ℕ × ℕ) → Type 0
Ascending [] = Unit
Ascending (entry ∷ entries) = Above entry.0 entries × Ascending entries

Above-trans : (m n : ℕ) (entries : List (ℕ × ℕ)) → m < n → Above n entries → Above m entries
Above-trans m n [] h k = tt
Above-trans m n (entry ∷ entries) h k = (omega arith, Above-trans m n entries h k.1)

Above-insert_index :
    (n index i : ℕ) (entries : List (ℕ × ℕ))
    → n < index
    → Above n entries
    → Above n (insert_index index i entries)
unfolding insert_index
Above-insert_index n index i [] h k = (h, tt)
Above-insert_index n index i (entry ∷ entries) h k = elim (Bool-cases (ltb index entry.0)) [
  | inl e ↦ rw e (h, k)
  | inr e ↦ rw e (elim (Bool-cases (entry.0 == index)) [
    | inl same ↦ rw same k
    | inr differ ↦ rw differ (k.0, Above-insert_index n index i entries h k.1)
  ])
]

insert_index-Ascending :
    (index i : ℕ) (entries : List (ℕ × ℕ))
    → Ascending entries
    → Ascending (insert_index index i entries)
unfolding insert_index
insert_index-Ascending index i [] h = (tt, tt)
insert_index-Ascending index i (entry ∷ entries) h = elim (Bool-cases (ltb index entry.0)) [
  | inl e ↦ rw e ((ground arith, Above-trans index entry.0 entries (ground arith) h.0), h)
  | inr e ↦ rw e (elim (Bool-cases (entry.0 == index)) [
    | inl same ↦ rw same h
    | inr differ ↦ rw differ (
      Above-insert_index entry.0 index i entries (ground arith) h.0,
      insert_index-Ascending index i entries h.1,
    )
  ])
]

find_index_below :
    (index n : ℕ) (entries : List (ℕ × ℕ))
    → index < n
    → Above n entries
    → find_index entries index ≡ none
unfolding find_index
find_index_below index n [] h k = refl
find_index_below index n (entry ∷ entries) h k =
    let differ : (entry.0 == index) ≡ false = ground arith in
    rw differ (find_index_below index n entries h k.1)

find_index-insert_index :
    (index i : ℕ) (entries : List (ℕ × ℕ))
    → Ascending entries
    → find_index (insert_index index i entries) index ≡ some (or_else (find_index entries index) i)
unfolding find_index insert_index
find_index-insert_index index i [] h =
    let same : (index == index) ≡ true = ground arith in rw same refl
find_index-insert_index index i (entry ∷ entries) h = elim (Bool-cases (ltb index entry.0)) [
  | inl e ↦
      let same : (index == index) ≡ true = ground arith in
      let differ : (entry.0 == index) ≡ false = ground arith in
      rw (e, same, differ, find_index_below index entry.0 entries (ground arith) h.0) refl
  | inr e ↦ rw e (elim (Bool-cases (entry.0 == index)) [
    | inl same ↦ rw same (rw same refl)
    | inr differ ↦ rw differ (rw differ (find_index-insert_index index i entries h.1))
  ])
]

last-append {ℓ} : {A : Type ℓ} (l : List A) (a d : A) → get_or (l ++ (a ∷ [])) (length l) d ≡ a
last-append [] a d = refl
last-append (b ∷ l) a d = last-append l a d

module _ {o : Outside} where
  -- The map from asyn indices stays in ascending order when an object is entered, and leads from the
  -- index of the object to the first object that was entered with this index.
  pub get_by_index-enter :
      (s : System o) (p : Param o.Double)
      → Ascending s.asyn_map
      → Ascending (enter p s).1.asyn_map
        × (get_by_index p.asyn_index (enter p s).1
            ≡ some (or_else (get_by_index p.asyn_index s) (length s.params)))
  unfolding enter get_by_index
  get_by_index-enter s p h = (
    insert_index-Ascending p.asyn_index (length s.params) s.asyn_map h,
    find_index-insert_index p.asyn_index (length s.params) s.asyn_map h,
  )

  -- The name of a detector setting leads to the object that was entered for it, if no object had the
  -- name before.
  pub get_by_name-enter :
      (s : System o) (p : Param o.Double)
      → str_eq p.name "" ≡ false
      → is_det_config p.sub_system ≡ true
      → get_by_name p.name s ≡ none
      → (get_by_name p.name (enter p s).1 ≡ some (length s.params))
        × (get_or (enter p s).1.params (length s.params) (blank_param o) ≡ p)
  unfolding enter get_by_name
  get_by_name-enter s p named config new = (
    rw (named, config)
        (find_name-insert_name p.name (length s.params) s.det_config_map
          ∙ ap (λ r. some (or_else r (length s.params))) new),
    last-append s.params p (blank_param o),
  )
