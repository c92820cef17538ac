-- ===== src/Prelude/Search.antt =====
-- The first row that a query finds, and the rows that it could find.
use mathlib.Core.Path.{◌≡◌, refl}
use mathlib.Core.Logic.{◌⊎◌, inl, inr}
use mathlib.Core.Bool.{Bool, true, false}
use knowledgeos.Prelude.Tests.{if◌then◌else◌}
use mathlib.Core.List.{List, [], ◌∷◌}
use mathlib.Core.Option.{Option, none, some}
use knowledgeos.Prelude.Lists.{All}

-- Some item of the list has the property.
abbrev pub Any : {A : Type 0} → (A → Type 0) → List A → Type 0
Any P [] = ⊥
Any P (a ∷ rows) = P a ⊎ Any P rows

-- `a or b` of two optional values
abbrev pub or_else : {B : Type 0} → Option B → Option B → Option B
or_else none other = other
or_else (some b) other = some b

or_else-some :
    {B : Type 0} (x y : Option B) (b : B) → or_else x y ≡ some b → (x ≡ some b) ⊎ (y ≡ some b)
or_else-some none y b e = inr e
or_else-some (some c) y b e = inl e

or_else-none : {B : Type 0} (x y : Option B) → or_else x y ≡ none → (x ≡ none) × (y ≡ none)
or_else-none none y e = (refl, e)
or_else-none (some c) y e = cc e

module _ {A : Type 0} {B : Type 0} where
  -- `f a` of the first item that has one: the first row of a query.
  abbrev pub search_rows : (A → Option B) → List A → Option B
  search_rows f [] = none
  search_rows f (a ∷ rows) = or_else (f a) (search_rows f rows)

  -- What the search finds, an item gives.
  pub search_rows-some :
      (f : A → Option B) (rows : List A) (b : B)
      → search_rows f rows ≡ some b
      → Any (λ a. f a ≡ some b) rows
  search_rows-some f [] b e = cc
  search_rows-some f (a ∷ rows) b e = elim (or_else-some (f a) (search_rows f rows) b e) [
    | inl here ↦ inl here
    | inr later ↦ inr (search_rows-some f rows b later)
  ]

  -- A search that finds nothing has passed every item.
  pub search_rows-none :
      (f : A → Option B) (rows : List A) → search_rows f rows ≡ none → All (λ a. f a ≡ none) rows
  search_rows-none f [] e = tt
  search_rows-none f (a ∷ rows) e =
      let (first, rest) = or_else-none (f a) (search_rows f rows) e in
      (first, search_rows-none f rows rest)

  -- An item that gives nothing does not matter.
  pub search_rows-cons_none :
      (f : A → Option B) (a : A) (rows : List A)
      → f a ≡ none
      → search_rows f (a ∷ rows) ≡ search_rows f rows
  search_rows-cons_none f a rows e = rw e refl

  -- Where every item gives nothing, nothing is found.
  pub search_rows_absent :
      (f : A → Option B) (rows : List A) → All (λ a. f a ≡ none) rows → search_rows f rows ≡ none
  search_rows_absent f [] h = refl
  search_rows_absent f (a ∷ rows) h = rw h.0 (search_rows_absent f rows h.1)

pub Any-imp :
    {A : Type 0} (P Q : A → Type 0) (rows : List A)
    → ((a : A) → P a → Q a)
    → Any P rows
    → Any Q rows
Any-imp P Q [] f none_here = elim none_here [ ]
Any-imp P Q (a ∷ rows) f (inl p) = inl (f a p)
Any-imp P Q (a ∷ rows) f (inr rest) = inr (Any-imp P Q rows f rest)

pub Any-elim :
    {A : Type 0} (P : A → Type 0) (C : Type 0) (rows : List A)
    → ((a : A) → P a → C)
    → Any P rows
    → C
Any-elim P C [] f none_here = elim none_here [ ]
Any-elim P C (a ∷ rows) f (inl p) = f a p
Any-elim P C (a ∷ rows) f (inr rest) = Any-elim P C rows f rest

-- A value that is given only where a test holds.
pub when_some :
    {A : Type 0} (c : Bool) (o : Option A) (a : A)
    → (if c then o else none) ≡ some a
    → (c ≡ true) × (o ≡ some a)
when_some true o a h = (refl, h)
when_some false o a h = cc h
