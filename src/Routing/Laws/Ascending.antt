-- ===== src/Routing/Laws/Ascending.antt =====
-- The order is by score, the lowest first.
use native.Mathlib.Omega.{arith}
use mixapi.Shared.{List, [], ◌∷◌, ◌++◌, String, Bool-cases, inl, inr, All, All-append, All-map}
use mixapi.Shared.Int.{◌≤ℤ◌, leb_ℤ}
use mixapi.Money.{Decimal}
use mixapi.Models.{ProviderModel}
use mixapi.Routing.Laws.Every.{insert_by-All, sorted_by-All}
use mixapi.Routing.Order.{
  Scored, Bucket, same_score, insert_by, sorted_by, add_item, fill, extend_all, ordered_candidates,
}

-- Each item is followed by items of no lower key.
abbrev pub IsAscending : {A : Type 0} → (A → Decimal) → List A → Type 0
IsAscending key [] = Unit
IsAscending key (x ∷ xs) = All (λ y. key x ≤ℤ key y) xs × IsAscending key xs

module _ {A : Type 0} (key : A → Decimal) where
  insert_by-IsAscending :
      (x : A) (xs : List A) → IsAscending key xs → IsAscending key (insert_by key x xs)
  unfolding insert_by
  insert_by-IsAscending x [] h = (tt, tt)
  insert_by-IsAscending x (y ∷ ys) h = elim (Bool-cases (leb_ℤ (key x) (key y))) [
    | inl first ↦
        let below : key x ≤ℤ key y = ground arith in
        rw first (
          (below, All-map (λ z. key y ≤ℤ key z) (λ z. key x ≤ℤ key z) (λ z le. omega arith) ys h.0),
          h,
        )
    | inr later ↦
        let below : key y ≤ℤ key x = ground arith in
        rw later
          (insert_by-All key (λ z. key y ≤ℤ key z) x ys below h.0, insert_by-IsAscending x ys h.1)
  ]

  sorted_by-IsAscending : (xs : List A) → IsAscending key (sorted_by key xs)
  unfolding sorted_by
  sorted_by-IsAscending [] = tt
  sorted_by-IsAscending (x ∷ xs) =
      insert_by-IsAscending x (sorted_by key xs) (sorted_by-IsAscending xs)

-- The item has the score.
abbrev Has : Decimal → Scored → Type 0
Has s x = (x.score ≤ℤ s) × (s ≤ℤ x.score)

-- The items of a bucket have its score.
abbrev IsBucket : Bucket → Type 0
IsBucket (s, items) = All (Has s) items

add_item-IsBucket : (x : Scored) (bs : List Bucket) → All IsBucket bs → All IsBucket (add_item x bs)
unfolding add_item
add_item-IsBucket x [] h = (((omega arith, omega arith), tt), tt)
add_item-IsBucket x ((s, items) ∷ bs) h = elim (Bool-cases (same_score s x.score)) [
  | inl here ↦
      let has : Has s x = ground arith in
      rw here (All-append (Has s) items (x ∷ []) h.0 (has, tt), h.1)
  | inr there ↦ rw there (h.0, add_item-IsBucket x bs h.1)
]

fill-IsBucket : (xs : List Scored) (bs : List Bucket) → All IsBucket bs → All IsBucket (fill xs bs)
unfolding fill
fill-IsBucket [] bs h = h
fill-IsBucket (x ∷ xs) bs h = fill-IsBucket xs (add_item x bs) (add_item-IsBucket x bs h)

-- A block of one score, before items that are not below it.
block-IsAscending :
    (s : Decimal) (items rest : List Scored)
    → All (Has s) items
    → All (λ y. s ≤ℤ y.score) rest
    → IsAscending (λ x. x.score) rest
    → IsAscending (λ x. x.score) (items ++ rest)
block-IsAscending s [] rest has above ascending = ascending
block-IsAscending s (x ∷ xs) rest has above ascending = (
  All-append (λ y. x.score ≤ℤ y.score) xs rest
      (All-map (Has s) (λ y. x.score ≤ℤ y.score) (λ y h. omega arith) xs has.1)
      (All-map (λ y. s ≤ℤ y.score) (λ y. x.score ≤ℤ y.score) (λ y h. omega arith) rest above),
  block-IsAscending s xs rest has.1 above ascending,
)

module _ (rendezvous_rank : String → ProviderModel → Decimal) (seed : String) where
  extend_all-above :
      (s : Decimal) (bs : List Bucket)
      → All IsBucket bs
      → All (λ b. s ≤ℤ b.0) bs
      → All (λ y. s ≤ℤ y.score) (extend_all rendezvous_rank seed bs)
  unfolding extend_all
  extend_all-above s [] buckets above = tt
  extend_all-above s ((t, items) ∷ bs) buckets above =
      All-append (λ y. s ≤ℤ y.score)
        (sorted_by (λ (x : Scored). rendezvous_rank seed x.candidate) items)
        (extend_all rendezvous_rank seed bs)
        (sorted_by-All (λ (x : Scored). rendezvous_rank seed x.candidate) (λ y. s ≤ℤ y.score) items
          (All-map (Has t) (λ y. s ≤ℤ y.score) (λ y h. omega arith) items buckets.0))
        (extend_all-above s bs buckets.1 above.1)

  extend_all-IsAscending :
      (bs : List Bucket)
      → All IsBucket bs
      → IsAscending (λ b. b.0) bs
      → IsAscending (λ x. x.score) (extend_all rendezvous_rank seed bs)
  unfolding extend_all
  extend_all-IsAscending [] buckets ascending = tt
  extend_all-IsAscending ((t, items) ∷ bs) buckets ascending =
      block-IsAscending t (sorted_by (λ (x : Scored). rendezvous_rank seed x.candidate) items)
        (extend_all rendezvous_rank seed bs)
        (sorted_by-All (λ (x : Scored). rendezvous_rank seed x.candidate) (Has t) items buckets.0)
        (extend_all-above t bs buckets.1 ascending.0)
        (extend_all-IsAscending bs buckets.1 ascending.1)

  -- The candidates come with the lowest score first, whatever the ranks of the hash are.
  pub ordered_candidates-IsAscending :
      (eligible : List Scored)
      → IsAscending (λ x. x.score) (ordered_candidates rendezvous_rank eligible seed)
  unfolding ordered_candidates
  ordered_candidates-IsAscending eligible =
      extend_all-IsAscending (sorted_by (λ b. b.0) (fill eligible []))
        (sorted_by-All (λ b. b.0) IsBucket (fill eligible []) (fill-IsBucket eligible [] tt))
        (sorted_by-IsAscending (λ b. b.0) (fill eligible []))
