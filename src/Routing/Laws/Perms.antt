-- ===== src/Routing/Laws/Perms.antt =====
-- The order loses no candidate and invents none.
use mathlib.Core.List.{Perm, perm_middle, append_assoc, append-nil}
use mathlib.Core.List.Perm
use mixapi.Shared.{List, [], ◌∷◌, ◌++◌, String, Bool-cases, inl, inr}
use mixapi.Shared.Int.{leb_ℤ}
use mixapi.Money.{Decimal}
use mixapi.Models.{ProviderModel}
use mixapi.Routing.Order.{
  Scored, Bucket, same_score, insert_by, sorted_by, add_item, fill, extend_all, ordered_candidates,
}

insert_by-perm :
    {A : Type 0} (key : A → Decimal) (x : A) (xs : List A) → Perm (insert_by key x xs) (x ∷ xs)
unfolding insert_by
insert_by-perm key x [] = Perm.refl (x ∷ [])
insert_by-perm key x (y ∷ ys) = elim (Bool-cases (leb_ℤ (key x) (key y))) [
  | inl first ↦ rw first (Perm.refl (x ∷ y ∷ ys))
  | inr later ↦ rw later (Perm.trans (Perm.cons y (insert_by-perm key x ys)) (Perm.swap x y ys))
]

sorted_by-perm : {A : Type 0} (key : A → Decimal) (xs : List A) → Perm (sorted_by key xs) xs
unfolding sorted_by
sorted_by-perm key [] = Perm.refl []
sorted_by-perm key (x ∷ xs) =
    Perm.trans (insert_by-perm key x (sorted_by key xs)) (Perm.cons x (sorted_by-perm key xs))

-- All items of the buckets, bucket by bucket.
abbrev items_of : List Bucket → List Scored
items_of [] = []
items_of ((_, items) ∷ bs) = items ++ items_of bs

add_item-perm : (x : Scored) (bs : List Bucket) → Perm (items_of (add_item x bs)) (x ∷ items_of bs)
unfolding add_item
add_item-perm x [] = Perm.refl (x ∷ [])
add_item-perm x ((score, items) ∷ bs) = elim (Bool-cases (same_score score x.score)) [
  | inl here ↦ rw here (rw append_assoc (perm_middle items (items_of bs)))
  | inr there ↦
      rw there
        (Perm.trans (Perm.append_left items (add_item-perm x bs)) (perm_middle items (items_of bs)))
]

fill-perm : (xs : List Scored) (bs : List Bucket) → Perm (items_of (fill xs bs)) (xs ++ items_of bs)
unfolding fill
fill-perm [] bs = Perm.refl (items_of bs)
fill-perm (x ∷ xs) bs =
    Perm.trans (fill-perm xs (add_item x bs))
      (Perm.trans (Perm.append_left xs (add_item-perm x bs)) (perm_middle xs (items_of bs)))

swap_blocks : (xs ys zs : List Scored) → Perm (xs ++ (ys ++ zs)) (ys ++ (xs ++ zs))
swap_blocks [] ys zs = Perm.refl (ys ++ zs)
swap_blocks (x ∷ xs) ys zs =
    Perm.trans (Perm.cons x (swap_blocks xs ys zs)) (Perm.symm (perm_middle ys (xs ++ zs)))

insert_bucket-perm :
    (b : Bucket) (bs : List Bucket)
    → Perm (items_of (insert_by (λ x. x.0) b bs)) (items_of (b ∷ bs))
unfolding insert_by
insert_bucket-perm b [] = Perm.refl (items_of (b ∷ []))
insert_bucket-perm (s, items) ((t, others) ∷ bs) = elim (Bool-cases (leb_ℤ s t)) [
  | inl first ↦ rw first (Perm.refl (items_of ((s, items) ∷ (t, others) ∷ bs)))
  | inr later ↦ rw later (
      Perm.trans (Perm.append_left others (insert_bucket-perm (s, items) bs))
        (swap_blocks others items (items_of bs)))
]

sorted_buckets-perm : (bs : List Bucket) → Perm (items_of (sorted_by (λ x. x.0) bs)) (items_of bs)
unfolding sorted_by
sorted_buckets-perm [] = Perm.refl []
sorted_buckets-perm ((s, items) ∷ bs) =
    Perm.trans (insert_bucket-perm (s, items) (sorted_by (λ x. x.0) bs))
      (Perm.append_left items (sorted_buckets-perm bs))

fill_all-perm : (xs : List Scored) → Perm (items_of (fill xs [])) xs
fill_all-perm xs = rw (append-nil xs) at (fill-perm xs [])

module _ (rendezvous_rank : String → ProviderModel → Decimal) where
  extend_all-perm :
      (seed : String) (bs : List Bucket) → Perm (extend_all rendezvous_rank seed bs) (items_of bs)
  unfolding extend_all
  extend_all-perm seed [] = Perm.refl []
  extend_all-perm seed ((s, items) ∷ bs) =
      Perm.append (sorted_by-perm (λ (x : Scored). rendezvous_rank seed x.candidate) items)
        (extend_all-perm seed bs)

  -- The order keeps every eligible candidate, as often as it is there, and adds none.
  pub ordered_candidates-perm :
      (eligible : List Scored) (seed : String)
      → Perm (ordered_candidates rendezvous_rank eligible seed) eligible
  unfolding ordered_candidates
  ordered_candidates-perm eligible seed =
      Perm.trans (extend_all-perm seed (sorted_by (λ b. b.0) (fill eligible [])))
        (Perm.trans (sorted_buckets-perm (fill eligible [])) (fill_all-perm eligible))
