-- ===== src/Tokens/Rows.antt =====
-- The table of refresh tokens under each statement: the row of a digest, and the live rows of a
-- family.
use knowledgeos.Prelude.{
  ℕ, ◌+◌, ◌≤◌, ◌≡◌, refl, Bool, true, false, ◌&&◌, ◌||◌, Option, none, some, List, [], ◌∷◌, ◌++◌,
  ◌==◌, if◌then◌else◌, arith, contains, Bool-cases, inl, inr, ap, ◌⊎◌, ◌∙◌,
}
use knowledgeos.Tokens.{RefreshToken, Table, is_none, revoke_row, revoke_where, find_token, spend}

-- The number of rows of a family that are not revoked.
abbrev pub live_count : ℕ → Table → ℕ
live_count f [] = 0
live_count f (r ∷ db) =
    if r.family_id == f && is_none r.revoked_at then live_count f db + 1 else live_count f db

abbrev pub families : Table → List ℕ
families [] = []
families (r ∷ db) = r.family_id ∷ families db

abbrev pub hashes : Table → List ℕ
hashes [] = []
hashes (r ∷ db) = r.token_hash ∷ hashes db

-- `Option.map`
abbrev pub on_row : (RefreshToken → RefreshToken) → Option RefreshToken → Option RefreshToken
on_row f none = none
on_row f (some r) = some (f r)

abbrev pub spent_row : ℕ → ℕ → RefreshToken → RefreshToken
spent_row now successor r = record r { revoked_at = some now; replaced_by = some successor }

pub find-revoke_where :
    (h : ℕ) (selects : RefreshToken → Bool) (now : ℕ) (db : Table)
    → find_token h (revoke_where selects now db) ≡ on_row (revoke_row selects now) (find_token h db)
unfolding find_token revoke_where
find-revoke_where h selects now [] = refl
find-revoke_where h selects now (r ∷ db) = ground (arith, find-revoke_where h selects now db)

pub find-append :
    (h : ℕ) (db : Table) (row : RefreshToken)
    → find_token h (db ++ row ∷ []) ≡ elim (find_token h db) [
      | none ↦ (if row.token_hash == h then some row else none)
      | some r ↦ some r
    ]
unfolding find_token
find-append h [] row = ground arith
find-append h (r ∷ db) row = ground (arith, find-append h db row)

pub find-spend :
    (j h now successor : ℕ) (db : Table)
    → find_token j (spend h now successor db)
      ≡ (if j == h then on_row (spent_row now successor) (find_token j db) else find_token j db)
unfolding find_token spend
find-spend j h now successor [] = ground arith
find-spend j h now successor (r ∷ db) = ground (arith, find-spend j h now successor db)

pub live_count-revoke_where-le :
    (f : ℕ) (selects : RefreshToken → Bool) (now : ℕ) (db : Table)
    → live_count f (revoke_where selects now db) ≤ live_count f db
unfolding revoke_where
live_count-revoke_where-le f selects now [] = omega arith
live_count-revoke_where-le f selects now (r ∷ db) =
    ground (arith, live_count-revoke_where-le f selects now db)

pub live_count-revoke_family :
    (f now : ℕ) (db : Table) → live_count f (revoke_where (λ r. r.family_id == f) now db) ≡ 0
unfolding revoke_where
live_count-revoke_family f now [] = refl
live_count-revoke_family f now (r ∷ db) = ground (arith, live_count-revoke_family f now db)

pub live_count-append :
    (f : ℕ) (db : Table) (row : RefreshToken)
    → live_count f (db ++ row ∷ []) ≡ (
        if row.family_id == f && is_none row.revoked_at
        then live_count f db + 1
        else live_count f db)
live_count-append f [] row = refl
live_count-append f (r ∷ db) row = ground (arith, live_count-append f db row)

pub live_count-spend :
    (f h now successor : ℕ) (db : Table) (r : RefreshToken)
    → find_token h db ≡ some r
    → is_none r.revoked_at ≡ true
    → live_count f db ≡ (
        if r.family_id == f
        then live_count f (spend h now successor db) + 1
        else live_count f (spend h now successor db))
unfolding find_token spend
live_count-spend f h now successor [] r e live = cc
live_count-spend f h now successor (x ∷ db) r e live =
    ground (arith, live_count-spend f h now successor db r)

pub live_count_unused :
    (f : ℕ) (db : Table) → contains f (families db) ≡ false → live_count f db ≡ 0
live_count_unused f [] h = refl
live_count_unused f (r ∷ db) h = ground (arith, live_count_unused f db)

pub families-revoke_where :
    (selects : RefreshToken → Bool) (now : ℕ) (db : Table)
    → families (revoke_where selects now db) ≡ families db
unfolding revoke_where
families-revoke_where selects now [] = refl
families-revoke_where selects now (r ∷ db) = ground (arith, families-revoke_where selects now db)

pub families-spend :
    (h now successor : ℕ) (db : Table) → families (spend h now successor db) ≡ families db
unfolding spend
families-spend h now successor [] = refl
families-spend h now successor (r ∷ db) = ground (arith, families-spend h now successor db)

pub contains-families-append :
    (f : ℕ) (db : Table) (row : RefreshToken)
    → contains f (families (db ++ row ∷ [])) ≡ (contains f (families db) || f == row.family_id)
contains-families-append f [] row = ground arith
contains-families-append f (r ∷ db) row = ground (arith, contains-families-append f db row)

-- A row that is found is of a family of the table, and carries the digest.
pub find_token-family :
    (h : ℕ) (db : Table) (r : RefreshToken)
    → find_token h db ≡ some r
    → (contains r.family_id (families db) ≡ true) × (r.token_hash ≡ h)
unfolding find_token
find_token-family h [] r e = cc
find_token-family h (x ∷ db) r e = ground (arith, find_token-family h db r)

-- A live row counts.
pub find_token-live :
    (h : ℕ) (db : Table) (r : RefreshToken)
    → find_token h db ≡ some r
    → is_none r.revoked_at ≡ true
    → 1 ≤ live_count r.family_id db
unfolding find_token
find_token-live h [] r e live = cc
find_token-live h (x ∷ db) r e live = ground (arith, find_token-live h db r)

-- The rotation of a live row: a row of its family is added, and it is spent.
pub live_count_rotated :
    (f h now successor : ℕ) (db : Table) (r row : RefreshToken)
    → find_token h db ≡ some r
    → is_none r.revoked_at ≡ true
    → row.family_id ≡ r.family_id
    → row.revoked_at ≡ none
    → live_count f (spend h now successor (db ++ row ∷ [])) ≡ live_count f db
live_count_rotated f h now successor db r row found live same new = ground (
  arith,
  found,
  find-append h db row,
  live_count-append f db row,
  live_count-spend f h now successor (db ++ row ∷ []) r,
)

-- The digest belongs to a row of the family that is revoked.
abbrev pub IsSpent : ℕ → ℕ → Table → Type 0
IsSpent j f db =
    (x : RefreshToken) × (find_token j db ≡ some x)
    × (x.family_id ≡ f)
    × (is_none x.revoked_at ≡ false)

-- What one request does to the families: a family that is known gets no more live tokens, a new one
-- gets at most one, and what is spent stays spent.
pub record Effect (db db' : Table) : Type 0 where
  pub live :
      (f : ℕ)
      → (live_count f db' ≤ live_count f db)
        ⊎ ((contains f (families db) ≡ false) × (live_count f db' ≤ 1))
  pub known : (f : ℕ) → contains f (families db) ≡ true → contains f (families db') ≡ true
  pub spent : (j f : ℕ) → IsSpent j f db → IsSpent j f db'

pub Effect-refl : (db : Table) → Effect db db
Effect-refl db = record { live = λ f. inl (omega arith); known = λ f e. e; spent = λ j f s. s }

revoke_row_spent :
    (selects : RefreshToken → Bool) (now : ℕ) (x : RefreshToken)
    → is_none x.revoked_at ≡ false
    → revoke_row selects now x ≡ x
unfolding revoke_row
revoke_row_spent selects now x gone = ground arith

IsSpent-revoke_where :
    (selects : RefreshToken → Bool) (now j f : ℕ) (db : Table)
    → IsSpent j f db
    → IsSpent j f (revoke_where selects now db)
IsSpent-revoke_where selects now j f db (x, e, family, gone) = (
  x,
  find-revoke_where j selects now db
      ∙ ap (on_row (revoke_row selects now)) e
      ∙ ap some (revoke_row_spent selects now x gone),
  family,
  gone,
)

IsSpent-rotated :
    (j f h now successor : ℕ) (db : Table) (row : RefreshToken)
    → IsSpent j f db
    → IsSpent j f (spend h now successor (db ++ row ∷ []))
IsSpent-rotated j f h now successor db row (x, e, family, gone) = elim (Bool-cases (j == h)) [
  | inl same ↦ (
    spent_row now successor x,
    ground (arith, same, e, find-append j db row, find-spend j h now successor (db ++ row ∷ [])),
    family,
    refl,
  )
  | inr other ↦ (
    x,
    ground (arith, other, e, find-append j db row, find-spend j h now successor (db ++ row ∷ [])),
    family,
    gone,
  )
]

pub Effect-revoke_where :
    (selects : RefreshToken → Bool) (now : ℕ) (db : Table) → Effect db (revoke_where selects now db)
Effect-revoke_where selects now db = record {
  live = λ f. inl (live_count-revoke_where-le f selects now db);
  known = λ f e. rw families-revoke_where e;
  spent = λ j f. IsSpent-revoke_where selects now j f db;
}

pub Effect-rotated :
    (h now successor : ℕ) (db : Table) (r row : RefreshToken)
    → find_token h db ≡ some r
    → is_none r.revoked_at ≡ true
    → row.family_id ≡ r.family_id
    → row.revoked_at ≡ none
    → Effect db (spend h now successor (db ++ row ∷ []))
Effect-rotated h now successor db r row found live same new = record {
  live =
      λ f. inl (omega (arith, live_count_rotated f h now successor db r row found live same new));
  known = λ f e. rw (families-spend, contains-families-append) (ground (arith, e));
  spent = λ j f. IsSpent-rotated j f h now successor db row;
}

pub Effect-append :
    (db : Table) (row : RefreshToken)
    → contains row.family_id (families db) ≡ false
    → Effect db (db ++ row ∷ [])
Effect-append db row new = record {
  live = λ f. elim (Bool-cases (f == row.family_id)) [
    | inl same ↦ inr (
      ground (arith, new, same),
      ground (arith, live_count-append f db row, live_count_unused row.family_id db new),
    )
    | inr other ↦ inl (ground (arith, live_count-append f db row))
  ];
  known = λ f e. rw contains-families-append (ground (arith, e));
  spent = λ j f (x, e, family, gone). (x, ground (arith, find-append j db row), family, gone);
}
