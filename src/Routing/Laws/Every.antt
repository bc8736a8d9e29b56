-- ===== src/Routing/Laws/Every.antt =====
-- What holds of every eligible candidate holds of every one in the order.
use mixapi.Shared.{List, [], ◌∷◌, String, Bool-cases, inl, inr, All, All-append}
use mixapi.Shared.Int.{leb_ℤ}
use mixapi.Money.{Decimal}
use mixapi.Models.{ProviderModel}
use mixapi.Routing.Order.{
  Scored, Bucket, same_score, insert_by, sorted_by, add_item, fill, extend_all, ordered_candidates,
}

module _ {A : Type 0} (key : A → Decimal) where
  pub insert_by-All :
      (P : A → Type 0) (x : A) (xs : List A) → P x → All P xs → All P (insert_by key x xs)
  unfolding insert_by
  insert_by-All P x [] px h = (px, tt)
  insert_by-All P x (y ∷ ys) px h = elim (Bool-cases (leb_ℤ (key x) (key y))) [
    | inl first ↦ rw first (px, h)
    | inr later ↦ rw later (h.0, insert_by-All P x ys px h.1)
  ]

  pub sorted_by-All : (P : A → Type 0) (xs : List A) → All P xs → All P (sorted_by key xs)
  unfolding sorted_by
  sorted_by-All P [] h = tt
  sorted_by-All P (x ∷ xs) h = insert_by-All P x (sorted_by key xs) h.0 (sorted_by-All P xs h.1)

module _ (P : Scored → Type 0) where
  -- It holds of every item of the bucket.
  abbrev Every : Bucket → Type 0
  Every (s, items) = All P items

  add_item-Every : (x : Scored) (bs : List Bucket) → P x → All Every bs → All Every (add_item x bs)
  unfolding add_item
  add_item-Every x [] px h = ((px, tt), tt)
  add_item-Every x ((s, items) ∷ bs) px h = elim (Bool-cases (same_score s x.score)) [
    | inl here ↦ rw here (All-append P items (x ∷ []) h.0 (px, tt), h.1)
    | inr there ↦ rw there (h.0, add_item-Every x bs px h.1)
  ]

  fill-Every :
      (xs : List Scored) (bs : List Bucket) → All P xs → All Every bs → All Every (fill xs bs)
  unfolding fill
  fill-Every [] bs hx h = h
  fill-Every (x ∷ xs) bs hx h = fill-Every xs (add_item x bs) hx.1 (add_item-Every x bs hx.0 h)

  module _ (rendezvous_rank : String → ProviderModel → Decimal) (seed : String) where
    extend_all-All : (bs : List Bucket) → All Every bs → All P (extend_all rendezvous_rank seed bs)
    unfolding extend_all
    extend_all-All [] h = tt
    extend_all-All ((s, items) ∷ bs) h =
        All-append P (sorted_by (λ (x : Scored). rendezvous_rank seed x.candidate) items)
          (extend_all rendezvous_rank seed bs)
          (sorted_by-All (λ (x : Scored). rendezvous_rank seed x.candidate) P items h.0)
          (extend_all-All bs h.1)

    pub ordered_candidates-All :
        (xs : List Scored) → All P xs → All P (ordered_candidates rendezvous_rank xs seed)
    unfolding ordered_candidates
    ordered_candidates-All xs h =
        extend_all-All (sorted_by (λ b. b.0) (fill xs []))
          (sorted_by-All (λ b. b.0) Every (fill xs []) (fill-Every xs [] h tt))
