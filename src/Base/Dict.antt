-- ===== src/Base/Dict.antt =====
-- `std::unordered_map` as an association list. A map's keys are distinct: `emplace` keeps the old
-- entry of a key, and `erase` takes every entry of it away.
use chowdy.Base.{◌≡◌, refl, Option, none, some, List, [], ◌∷◌, arith, Eq, ◌==◌, if◌then◌else◌}

module _ {ℓ κ} {Key : Type ℓ} {Val : Type κ} ⦃eq : Eq Key⦄ where
  unfoldable pub lookup : Key → List (Key × Val) → Option Val
  lookup k [] = none
  lookup k ((other, new) ∷ es) = if other == k then some new else lookup k es

  -- `operator[]` and assignment.
  unfoldable pub insert : Key → Val → List (Key × Val) → List (Key × Val)
  insert k new [] = (k, new) ∷ []
  insert k new ((other, old) ∷ es) =
      if other == k then (other, new) ∷ es else (other, old) ∷ insert k new es

  -- `emplace`: an entry that is there stays.
  unfoldable pub emplace : Key → Val → List (Key × Val) → List (Key × Val)
  emplace k new [] = (k, new) ∷ []
  emplace k new ((other, old) ∷ es) =
      if other == k then (other, old) ∷ es else (other, old) ∷ emplace k new es

  unfoldable pub erase : Key → List (Key × Val) → List (Key × Val)
  erase k [] = []
  erase k ((other, old) ∷ es) =
      let rest = erase k es in if other == k then rest else (other, old) ∷ rest

  pub lookup-insert :
      (k other : Key) (new : Val) (es : List (Key × Val))
      → lookup other (insert k new es) ≡ (if k == other then some new else lookup other es)
  unfolding lookup insert
  lookup-insert k other new [] = refl
  lookup-insert k other new ((i, old) ∷ es) = ground (
    arith,
    lookup-insert k other new es,
    eq.same_iff k other,
    eq.same_iff i k,
    eq.same_iff i other,
  )

  pub lookup-erase :
      (k other : Key) (es : List (Key × Val))
      → lookup other (erase k es) ≡ (if k == other then none else lookup other es)
  unfolding lookup erase
  lookup-erase k other [] = ground arith
  lookup-erase k other ((i, old) ∷ es) =
      ground
        (arith, lookup-erase k other es, eq.same_iff k other, eq.same_iff i k, eq.same_iff i other)

  pub lookup-emplace :
      (k other : Key) (new : Val) (es : List (Key × Val))
      → lookup k es ≡ none
      → lookup other (emplace k new es) ≡ (if k == other then some new else lookup other es)
  unfolding lookup emplace
  lookup-emplace k other new [] h = refl
  lookup-emplace k other new ((i, old) ∷ es) h = ground (
    arith,
    lookup-emplace k other new es,
    eq.same_iff k other,
    eq.same_iff i k,
    eq.same_iff i other,
  )
