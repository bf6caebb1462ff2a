-- ===== src/Controller/Singleton.antt =====
-- internal/controller/singleton.go: the oldest of several objects of one kind.
use mathlib.Core.List.{append_assoc, append-nil}
use ogo.Base.{
  ℕ, ◌≤◌, ◌<◌, ◌≡◌, refl, Option, none, some, List, [], ◌∷◌, ◌++◌, arith, ltb, if◌then◌else◌, All,
  Bool-cases, inl, inr, All-append,
}

module _ {A : Type 0} (created : A → ℕ) where
  -- the loop: the oldest so far, and the items left
  oldest_from : A → List A → A
  oldest_from oldest [] = oldest
  oldest_from oldest (item ∷ items) =
      oldest_from (if ltb (created item) (created oldest) then item else oldest) items

  -- `none` is the panic on an empty list
  unfoldable pub oldest_by_creation_timestamp : List A → Option A
  unfolding oldest_from
  oldest_by_creation_timestamp [] = none
  oldest_by_creation_timestamp (item ∷ items) = some (oldest_from item items)

  -- The first of the oldest: all before it are younger, and none after it is older.
  pub record IsOldest (items : List A) (o : A) : Type 0 where
    pub before : List A
    pub rest : List A
    pub split : items ≡ before ++ o ∷ rest
    pub younger_before : All (λ x. created o < created x) before
    pub none_older : All (λ x. created o ≤ created x) rest

  All-lt :
      (xs : List A) (o p : A)
      → created o < created p
      → All (λ x. created p < created x) xs
      → All (λ x. created o < created x) xs
  All-lt [] o p h k = tt
  All-lt (x ∷ xs) o p h (q, k) = (omega arith, All-lt xs o p h k)

  All-le-lt :
      (xs : List A) (o p : A)
      → created o < created p
      → All (λ x. created p ≤ created x) xs
      → All (λ x. created o < created x) xs
  All-le-lt [] o p h k = tt
  All-le-lt (x ∷ xs) o p h (q, k) = (omega arith, All-le-lt xs o p h k)

  -- The oldest of what was seen, and a further item.
  next-IsOldest :
      (seen : List A) (o item : A)
      → IsOldest seen o
      → IsOldest (seen ++ item ∷ []) (if ltb (created item) (created o) then item else o)
  next-IsOldest seen o item w = elim (Bool-cases (ltb (created item) (created o))) [
    | inl older ↦ rw older (
        let lt : created item < created o = ground arith in
        record {
          before = seen;
          rest = [];
          split = refl;
          younger_before = rw w.split (
              All-append _ w.before (o ∷ w.rest) (All-lt w.before item o lt w.younger_before)
                (lt, All-le-lt w.rest item o lt w.none_older));
          none_older = tt;
        })
    | inr not_older ↦ rw not_older (record {
      before = w.before;
      rest = w.rest ++ item ∷ [];
      split = rw w.split (append_assoc w.before (o ∷ w.rest) (item ∷ []));
      younger_before = w.younger_before;
      none_older = All-append _ w.rest (item ∷ []) w.none_older (ground arith, tt);
    })
  ]

  oldest_from-IsOldest :
      (seen : List A) (o : A) (items : List A)
      → IsOldest seen o
      → IsOldest (seen ++ items) (oldest_from o items)
  unfolding oldest_from
  oldest_from-IsOldest seen o [] w = rw append-nil w
  oldest_from-IsOldest seen o (item ∷ items) w =
      rw (← append_assoc seen (item ∷ []) items)
        (oldest_from-IsOldest (seen ++ item ∷ []) _ items (next-IsOldest seen o item w))

  -- Of a list that is not empty the first of the oldest items is returned.
  pub oldest_by_creation_timestamp-IsOldest :
      (item : A) (items : List A)
      → (o : A) × (oldest_by_creation_timestamp (item ∷ items) ≡ some o) × IsOldest (item ∷ items) o
  unfolding oldest_by_creation_timestamp
  oldest_by_creation_timestamp-IsOldest item items = (
    _,
    refl,
    oldest_from-IsOldest (item ∷ []) item items
        (record { before = []; rest = []; split = refl; younger_before = tt; none_older = tt }),
  )
