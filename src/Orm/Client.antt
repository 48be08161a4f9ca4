-- ===== src/Orm/Client.antt =====
-- What the services rely on of the Prisma client. A table is the list of its rows, in the order in
-- which the database returns them when a query asks for no order.
use money_management_app.Prelude.{
  ℕ, ◌≡◌, ◌≢◌, Bool, true, false, String, List, [], ◌∷◌, ◌++◌, filter, replace, not, take, drop,
  flatten, All, Perm,
}

pub record Client : Type 1 where
  -- `findMany`: the rows that satisfy a `where`.
  pub find_many : {R : Type 0} → (R → Bool) → List R → List R
  -- `create`
  pub insert : {R : Type 0} → R → List R → List R
  -- `update` and `updateMany`: the rows that satisfy a `where` get new values.
  pub update_many : {R : Type 0} → (R → Bool) → (R → R) → List R → List R
  -- `delete` and `deleteMany`
  pub delete_many : {R : Type 0} → (R → Bool) → List R → List R
  -- `orderBy`, given as the test whether one row may stand before another.
  pub order_by : {R : Type 0} → (R → R → Bool) → List R → List R
  -- `skip` and `take`
  pub slice : {R : Type 0} → ℕ → ℕ → List R → List R
  -- `cursor`: the ordered rows from the one that satisfies the condition on.
  pub cursor : {R : Type 0} → (R → Bool) → List R → List R
  -- `groupBy`: the rows of each group, in the order in which the groups are returned.
  pub group_by : {R K : Type 0} → (R → K) → List R → List (List R)
  -- `contains` with `mode: 'insensitive'`
  pub contains_insensitive : String → String → Bool
  pub find_many-filter :
      {R : Type 0} (p : R → Bool) (rows : List R) → find_many p rows ≡ filter p rows
  pub insert-append : {R : Type 0} (row : R) (rows : List R) → insert row rows ≡ rows ++ row ∷ []
  pub update_many-replace :
      {R : Type 0} (p : R → Bool) (f : R → R) (rows : List R)
      → update_many p f rows ≡ replace p f rows
  pub delete_many-filter :
      {R : Type 0} (p : R → Bool) (rows : List R)
      → delete_many p rows ≡ filter (λ r. not (p r)) rows
  -- Ordering keeps the rows.
  pub order_by-perm :
      {R : Type 0} (le : R → R → Bool) (rows : List R) → Perm (order_by le rows) rows
  pub slice-take-drop :
      {R : Type 0} (skip n : ℕ) (rows : List R) → slice skip n rows ≡ take n (drop skip rows)
  pub cursor-split :
      {R : Type 0} (p : R → Bool) (before : List R) (row : R) (later : List R)
      → All (λ r. p r ≡ false) before
      → p row ≡ true
      → cursor p (before ++ row ∷ later) ≡ row ∷ later
  -- Every row falls into one group, and a group holds rows of its key only.
  pub group_by-perm :
      {R K : Type 0} (key : R → K) (rows : List R) → Perm (flatten (group_by key rows)) rows
  pub group_by-same :
      {R K : Type 0} (key : R → K) (rows : List R)
      → All (λ g. All (λ r. All (λ s. key r ≡ key s) g) g × (g ≢ [])) (group_by key rows)
