-- ===== src/Prelude/Member.antt =====
-- Sets of numbers as lists, with a Boolean membership test, and lists without repetition.
use Prim.Native.Nat.{ℕ}
use mathlib.Core.Path.{◌≡◌, refl}
use mathlib.Core.Bool.{Bool, false, ◌||◌}
use mathlib.Core.List.{List, [], ◌∷◌, ◌++◌}
use native.Mathlib.Omega.{arith}
use knowledgeos.Prelude.Tests.{◌==◌}

-- `k in xs`
abbrev pub contains : ℕ → List ℕ → Bool
contains k [] = false
contains k (x ∷ xs) = k == x || contains k xs

pub contains-append :
    (k : ℕ) (xs ys : List ℕ) → contains k (xs ++ ys) ≡ (contains k xs || contains k ys)
contains-append k [] ys = refl
contains-append k (x ∷ xs) ys = ground (arith, contains-append k xs ys)

-- No number is listed twice.
abbrev pub IsDistinct : List ℕ → Type 0
IsDistinct [] = Unit
IsDistinct (x ∷ xs) = (contains x xs ≡ false) × IsDistinct xs

pub IsDistinct-snoc :
    (xs : List ℕ) (x : ℕ) → IsDistinct xs → contains x xs ≡ false → IsDistinct (xs ++ x ∷ [])
IsDistinct-snoc [] x d h = (refl, tt)
IsDistinct-snoc (y ∷ ys) x d h =
    ground (arith, contains-append y ys (x ∷ []), IsDistinct-snoc ys x d.1)

-- Two lists have the same members.
abbrev pub SameMembers : List ℕ → List ℕ → Type 0
SameMembers xs ys = (j : ℕ) → contains j xs ≡ contains j ys

pub contains-snoc : (j x : ℕ) (xs : List ℕ) → contains j (xs ++ x ∷ []) ≡ (j == x || contains j xs)
contains-snoc j x [] = refl
contains-snoc j x (y ∷ xs) = ground (arith, contains-snoc j x xs)
