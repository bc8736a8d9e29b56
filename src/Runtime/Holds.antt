-- ===== src/Runtime/Holds.antt =====
-- The abstract account behind the token quota and the spend budget: what has been settled, and the
-- reservations that are open. What is reserved is the sum of the open ones and is not stored.
use mixapi.Shared.{
  ◌≡◌, ◌≢◌, refl, Bool, true, false, Option, none, some, List, [], ◌∷◌, String, arith, ◌==◌, eq_iff,
  if◌then◌else◌, Option-cases, inl, inr,
}
use mixapi.Shared.Int.{ℤ, pos, ◌+ℤ◌, ◌≤ℤ◌, int_laws, ltb_ℤ}

abbrev pub Holds : Type 0
Holds = List (String × ℤ)

unfoldable pub find : String → Holds → Option ℤ
find r [] = none
find r ((q, a) ∷ h) = if q == r then some a else find r h

unfoldable pub drop : String → Holds → Holds
drop r [] = []
drop r ((q, a) ∷ h) = if q == r then h else (q, a) ∷ drop r h

unfoldable pub total : Holds → ℤ
total [] = pos 0
total ((_, a) ∷ h) = a +ℤ total h

-- No reservation is listed twice.
abbrev pub IsDistinct : Holds → Type 0
IsDistinct [] = Unit
IsDistinct ((q, _) ∷ h) = (find q h ≡ none) × IsDistinct h

pub find-drop_ne : (r q : String) (h : Holds) → r ≢ q → find q (drop r h) ≡ find q h
unfolding find drop
find-drop_ne r q [] ne = refl
find-drop_ne r q ((p, a) ∷ h) ne = ground (arith, find-drop_ne r q h ne, eq_iff p r, eq_iff p q)

pub find-drop_self : (r : String) (h : Holds) → IsDistinct h → find r (drop r h) ≡ none
unfolding find drop
find-drop_self r [] d = refl
find-drop_self r ((p, a) ∷ h) d = ground (arith, find-drop_self r h d.1, eq_iff p r)

pub drop-IsDistinct : (r : String) (h : Holds) → IsDistinct h → IsDistinct (drop r h)
unfolding find drop
drop-IsDistinct r [] d = tt
drop-IsDistinct r ((p, a) ∷ h) d =
    ground (arith, drop-IsDistinct r h d.1, find-drop_ne r p h, eq_iff p r)

pub total-drop :
    (r : String) (h : Holds) {a : ℤ} → find r h ≡ some a → total (drop r h) +ℤ a ≡ total h
unfolding find drop total
total-drop r [] e = cc
total-drop r ((p, b) ∷ h) {a} e = grind (int_laws, total-drop r h {a = a})

pub record Account : Type 0 where
  pub actual : ℤ
  pub holds : Holds

abbrev pub reserved : Account → ℤ
reserved l = total l.holds

-- Opening a reservation: refused when it would pass the limit.
unfoldable pub open_hold : String → ℤ → ℤ → Account → Bool × Account
open_hold r amount limit l =
    if ltb_ℤ limit (l.actual +ℤ reserved l +ℤ amount)
    then (false, l)
    else (true, record l { holds = (r, amount) ∷ l.holds })

-- Closing a reservation, with or without something settled in its place; `false` if it is not open.
unfoldable pub close_hold : String → ℤ → Account → Bool × Account
close_hold r settled l = elim (find r l.holds) [
  | none ↦ (false, l)
  | some _ ↦ (true, record { actual = l.actual +ℤ settled; holds = drop r l.holds })
]

-- Settled and reserved stay within the limit together, and no open reservation is negative.
abbrev pub AreNonneg : Holds → Type 0
AreNonneg [] = Unit
AreNonneg ((_, a) ∷ h) = (pos 0 ≤ℤ a) × AreNonneg h

pub record IsWithin (limit : ℤ) (l : Account) : Type 0 where
  pub within : l.actual +ℤ reserved l ≤ℤ limit
  pub nonneg : AreNonneg l.holds

find_nonneg : (r : String) (h : Holds) {a : ℤ} → AreNonneg h → find r h ≡ some a → pos 0 ≤ℤ a
unfolding find
find_nonneg r [] n e = cc
find_nonneg r ((q, b) ∷ h) {a} n e = ground (arith, find_nonneg r h {a = a} n.1)

drop-AreNonneg : (r : String) (h : Holds) → AreNonneg h → AreNonneg (drop r h)
unfolding drop
drop-AreNonneg r [] n = tt
drop-AreNonneg r ((q, b) ∷ h) n = ground (arith, drop-AreNonneg r h n.1)

pub open_hold-IsWithin :
    (r : String) (amount limit : ℤ) (l : Account)
    → pos 0 ≤ℤ amount
    → IsWithin limit l
    → IsWithin limit (open_hold r amount limit l).1
unfolding open_hold total
open_hold-IsWithin r amount limit l p w = grind int_laws

-- A reservation that settles at most what it held leaves the account within the limit.
pub close_hold-IsWithin :
    (r : String) (settled limit : ℤ) (l : Account)
    → ((a : ℤ) → find r l.holds ≡ some a → settled ≤ℤ a)
    → IsWithin limit l
    → IsWithin limit (close_hold r settled l).1
unfolding close_hold
close_hold-IsWithin r settled limit l at_most w = elim (Option-cases (find r l.holds)) [
  | inl gone ↦ rw (gone, close_hold) w
  | inr (a, e) ↦
      rw (e, close_hold)
        (record {
          within = grind (int_laws, total-drop r l.holds e, at_most a e);
          nonneg = drop-AreNonneg r l.holds w.nonneg;
        })
]

-- Closing with nothing settled.
pub close_hold-IsWithin_unused :
    (r : String) (limit : ℤ) (l : Account)
    → IsWithin limit l
    → IsWithin limit (close_hold r (pos 0) l).1
close_hold-IsWithin_unused r limit l w =
    close_hold-IsWithin r (pos 0) limit l (λ a e. find_nonneg r l.holds w.nonneg e) w
