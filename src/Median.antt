-- ===== src/Median.antt =====
-- cmd/hm-ble-collector/main.go and cmd/hm-cisco-iot-orchestrator-collector/aggregate.go: the median
-- of the samples of a window. `sort.Float64s` is an insertion sort with a NaN before all else.
use home_metrics.Base.{
  ℕ, zero, suc, ◌-◌, ◌/◌, ◌%◌, Bool, Bool-cases, inl, inr, List, [], ◌∷◌, Option, none, some, ◌&&◌,
  ◌||◌, ◌==◌, not, if◌then◌else◌, length, get_or, All,
}
use home_metrics.Base.Int.{pos}
use home_metrics.Base.Float.{Float64}

module _ (fl : Float64) where
  abbrev is_nan : fl.F → Bool
  is_nan v = not (fl.eq v v)

  -- The order of `sort.Float64s`.
  abbrev precedes : fl.F → fl.F → Bool
  precedes a b = fl.lt a b || (is_nan a && not (is_nan b))

  unfoldable pub insert : fl.F → List fl.F → List fl.F
  insert v [] = v ∷ []
  insert v (x ∷ xs) = if precedes x v then x ∷ insert v xs else v ∷ x ∷ xs

  unfoldable pub sort : List fl.F → List fl.F
  unfolding insert
  sort [] = []
  sort (x ∷ xs) = insert x (sort xs)

  abbrev pub mean : fl.F → fl.F → fl.F
  mean a b = fl.div (fl.add a b) (fl.of_int (pos 2))

  -- The middle of a sorted list; `d` is never taken of a list with an element.
  unfoldable pub middle : fl.F → List fl.F → fl.F
  middle d xs =
      let mid = length xs / 2 in
      if length xs % 2 == 1 then get_or xs mid d else mean (get_or xs (mid - 1) d) (get_or xs mid d)

  unfoldable pub nullable_median : List fl.F → Option fl.F
  unfolding sort middle
  nullable_median [] = none
  nullable_median (x ∷ xs) = some (middle x (sort (x ∷ xs)))

  abbrev pub All? {κ} : (fl.F → Type κ) → Option fl.F → Type κ
  All? P none = Unit {κ}
  All? P (some v) = P v

  module _ (P : fl.F → Type 0) where
    insert-All : (v : fl.F) (xs : List fl.F) → P v → All P xs → All P (insert v xs)
    unfolding insert
    insert-All v [] p h = (p, tt)
    insert-All v (x ∷ xs) p h = elim (Bool-cases (precedes x v)) [
      | inl e ↦ rw e (h.0, insert-All v xs p h.1)
      | inr e ↦ rw e (p, h)
    ]

    sort-All : (xs : List fl.F) → All P xs → All P (sort xs)
    unfolding sort
    sort-All [] h = tt
    sort-All (x ∷ xs) h = insert-All x (sort xs) h.0 (sort-All xs h.1)

    get_or-All : (xs : List fl.F) (i : ℕ) (d : fl.F) → P d → All P xs → P (get_or xs i d)
    get_or-All [] i d p h = p
    get_or-All (x ∷ xs) zero d p h = h.0
    get_or-All (x ∷ xs) (suc i) d p h = get_or-All xs i d p h.1

    middle-All :
        (d : fl.F) (xs : List fl.F)
        → ((a b : fl.F) → P a → P b → P (mean a b))
        → P d
        → All P xs
        → P (middle d xs)
    unfolding middle
    middle-All d xs means p h = elim (Bool-cases (length xs % 2 == 1)) [
      | inl e ↦ rw e (get_or-All xs (length xs / 2) d p h)
      | inr e ↦ rw e (
          means _ _ (get_or-All xs (length xs / 2 - 1) d p h) (get_or-All xs (length xs / 2) d p h))
    ]

    -- What holds of each sample, and of the mean of two values of which it holds, holds of the median.
    pub nullable_median-All :
        (xs : List fl.F)
        → ((a b : fl.F) → P a → P b → P (mean a b))
        → All P xs
        → All? P (nullable_median xs)
    unfolding nullable_median
    nullable_median-All [] means h = tt
    nullable_median-All (x ∷ xs) means h =
        middle-All x (sort (x ∷ xs)) means h.0 (sort-All (x ∷ xs) h)
