-- ===== src/Orm/Cursor.antt =====
-- Paging by a cursor: `cursor: { id }` with `skip: 1` continues after the last row of the page before.
use mathlib.Core.Logic.{∥∥₁_elim}
use mathlib.Core.HLevel.{×_prop, ¬_prop}
use mathlib.Core.List.{Permᴰ}
use money_management_app.Prelude.{
  ℕ, ◌≡◌, refl, sym, ◌∙◌, ap, ◌≢◌, Bool, false, Option, none, some, List, [], ◌∷◌, ◌++◌, Perm, All,
  filter, drop, take, take_all, take-drop, length, length-take, ◌≤◌, ◌<◌, append_assoc, ◌==◌,
  ==_refl, All-map, All-filter, arith,
}
use mathlib.Core.Path.{subst}
use money_management_app.Orm.Client.{Client}
use money_management_app.Orm.Rows.{UniqueIds}

-- `batch[batch.length - 1]`
abbrev pub last : {A : Type 0} → List A → Option A
last [] = none
last (x ∷ []) = some x
last (x ∷ y ∷ ys) = last (y ∷ ys)

-- A list that is not empty ends in its last element.
pub last-split :
    {A : Type 0} (x : A) (xs : List A)
    → (before : List A) × (y : A) × (x ∷ xs ≡ before ++ y ∷ []) × (last (x ∷ xs) ≡ some y)
last-split x [] = ([], x, refl, refl)
last-split x (y ∷ ys) =
    let (before, z, e, l) = last-split y ys in (x ∷ before, z, ap (λ t. x ∷ t) e, l)

pub last_of :
    {A : Type 0} (xs : List A) {y : A}
    → last xs ≡ some y
    → (before : List A) × (xs ≡ before ++ y ∷ [])
last_of [] e = cc
last_of (x ∷ xs) e = let (before, z, split, l) = last-split x xs in (before, cc)

pub last-nil : {A : Type 0} (xs : List A) → last xs ≡ none → xs ≡ []
last-nil [] e = refl
last-nil (x ∷ xs) e = let (before, y, split, l) = last-split x xs in cc

-- A page that is not full holds everything.
short_page : {A : Type 0} (n : ℕ) (xs : List A) → length (take n xs) < n → take n xs ≡ xs
short_page n xs h = take_all n xs (omega (arith, length-take n xs))

module _ {R : Type 0} where
  All-permᴰ : (P : R → Type 0) {xs ys : List R} → Permᴰ xs ys → All P xs → All P ys
  All-permᴰ P Permᴰ.nil h = h
  All-permᴰ P (Permᴰ.cons e p) h = (rw (← e) (h.0), All-permᴰ P p h.1)
  All-permᴰ P (Permᴰ.swap e e') h = (rw (← e') (h.1.0), (rw (← e) (h.0), h.1.1))
  All-permᴰ P (Permᴰ.trans p q) h = All-permᴰ P q (All-permᴰ P p h)

module _ {R : Type 0} (id_of : R → ℕ) where
  avoids :
      {a b : R} (rows : List R)
      → a ≡ b
      → All (λ s. id_of s ≢ id_of a) rows
      → All (λ s. id_of s ≢ id_of b) rows
  avoids rows e = All-map (λ s ne k. ne (k ∙ ap id_of (sym e))) rows

  UniqueIds-permᴰ : {xs ys : List R} → Permᴰ xs ys → UniqueIds id_of xs → UniqueIds id_of ys
  UniqueIds-permᴰ Permᴰ.nil u = u
  UniqueIds-permᴰ (Permᴰ.cons {a} {l₂} e p) u =
      (avoids l₂ e (All-permᴰ (λ s. id_of s ≢ id_of a) p u.0), UniqueIds-permᴰ p u.1)
  UniqueIds-permᴰ (Permᴰ.swap {l} e e') u = (
    ((λ k. u.0.0 (ap id_of e' ∙ sym k ∙ ap id_of (sym e))), avoids l e' u.1.0),
    (avoids l e u.0.1, u.1.1),
  )
  UniqueIds-permᴰ (Permᴰ.trans p q) u = UniqueIds-permᴰ q (UniqueIds-permᴰ p u)

  UniqueIds-IsProp : (rows : List R) → IsProp (UniqueIds id_of rows)
  UniqueIds-IsProp [] = hlevel
  UniqueIds-IsProp (r ∷ rows) = ×_prop (All-IsProp rows) (UniqueIds-IsProp rows)
    where
      All-IsProp : (xs : List R) → IsProp (All (λ s. id_of s ≢ id_of r) xs)
      All-IsProp [] = hlevel
      All-IsProp (x ∷ xs) = ×_prop ¬_prop (All-IsProp xs)

  pub UniqueIds-perm : {xs ys : List R} → Perm xs ys → UniqueIds id_of xs → UniqueIds id_of ys
  UniqueIds-perm {ys} p u = ∥∥₁_elim p (UniqueIds-IsProp ys) (λ d. UniqueIds-permᴰ d u)

  pub UniqueIds-filter :
      (p : R → Bool) (rows : List R) → UniqueIds id_of rows → UniqueIds id_of (filter p rows)
  UniqueIds-filter p [] u = tt
  UniqueIds-filter p (r ∷ rows) u =
      let less = All-filter (λ s. id_of s ≢ id_of r) p rows u.0 in
      ground (arith, UniqueIds-filter p rows u.1)

  -- The rows before one of unique id have other ids.
  before_other :
      (before : List R) (row : R) (later : List R)
      → UniqueIds id_of (before ++ row ∷ later)
      → All (λ r. (id_of r == id_of row) ≡ false) before
  before_other [] row later u = tt
  before_other (r ∷ before) row later u =
      (ground (arith, other before u.0), before_other before row later u.1)
    where
      other : (xs : List R) → All (λ s. id_of s ≢ id_of r) (xs ++ row ∷ later) → id_of row ≢ id_of r
      other [] h = h.0
      other (x ∷ xs) h = other xs h.1

module _ (orm : Client) {R : Type 0} (id_of : R → ℕ) where
  -- The rows that a query with this cursor goes on with: all of them when there is none.
  abbrev pub remaining : (cursor : Option ℕ) → List R → List R
  remaining none rows = rows
  remaining (some i) rows = drop 1 (orm.cursor (λ r. id_of r == i) rows)

  pub remaining-append :
      (before : List R) (row : R) (later : List R)
      → UniqueIds id_of (before ++ row ∷ later)
      → remaining (some (id_of row)) (before ++ row ∷ later) ≡ later
  remaining-append before row later u = ap (drop 1) (
      orm.cursor-split (λ r. id_of r == id_of row) before row later
        (before_other id_of before row later u) (==_refl (id_of row)))

  -- `take` with this cursor, and with `skip: 1` when there is one.
  unfoldable pub page_after : (cursor : Option ℕ) (size : ℕ) → List R → List R
  page_after none size rows = orm.slice 0 size rows
  page_after (some i) size rows = orm.slice 1 size (orm.cursor (λ r. id_of r == i) rows)

  pub page_after-take :
      (cursor : Option ℕ) (size : ℕ) (rows : List R)
      → page_after cursor size rows ≡ take size (remaining cursor rows)
  unfolding page_after
  page_after-take none size rows = orm.slice-take-drop 0 size rows
  page_after-take (some i) size rows =
      orm.slice-take-drop 1 size (orm.cursor (λ r. id_of r == i) rows)

  -- The rows are those of the pages so far, and those that the cursor goes on with.
  abbrev pub Seen : (done : List R) (cursor : Option ℕ) (rows : List R) → Type 0
  Seen done cursor rows = rows ≡ done ++ remaining cursor rows

  -- The cursor of the last row of a page goes on behind this page.
  pub Seen-next :
      (done : List R) (cursor : Option ℕ) (size : ℕ) (rows : List R) {r : R}
      → UniqueIds id_of rows
      → Seen done cursor rows
      → last (page_after cursor size rows) ≡ some r
      → Seen (done ++ page_after cursor size rows) (some (id_of r)) rows
  Seen-next done cursor size rows {r} u seen e =
      let rest = drop size (remaining cursor rows) in
      let (before, ends) = last_of (page_after cursor size rows) e in
      let whole : rows ≡ (done ++ page_after cursor size rows) ++ rest =
        seen
        ∙ ap (λ l. done ++ l)
            (sym (take-drop size (remaining cursor rows))
              ∙ ap (λ l. l ++ rest) (sym (page_after-take cursor size rows)))
        ∙ sym (append_assoc done (page_after cursor size rows) rest) in
      let split : rows ≡ (done ++ before) ++ r ∷ rest =
        whole ∙ ap (λ l. (done ++ l) ++ rest) ends ∙ regroup before rest in
      whole
      ∙ ap (λ l. (done ++ page_after cursor size rows) ++ l)
          (sym (
            ap (remaining (some (id_of r))) split
            ∙ remaining-append (done ++ before) r rest (subst (UniqueIds id_of) split u)))
    where
      regroup :
          (before rest : List R)
          → (done ++ (before ++ r ∷ [])) ++ rest ≡ (done ++ before) ++ r ∷ rest
      regroup before rest =
          append_assoc done (before ++ r ∷ []) rest
          ∙ ap (λ l. done ++ l) (append_assoc before (r ∷ []) rest)
          ∙ sym (append_assoc done before (r ∷ rest))

  pub page_size :
      (cursor : Option ℕ) (size : ℕ) (rows : List R) → length (page_after cursor size rows) ≤ size
  page_size cursor size rows =
      rw (page_after-take cursor size rows)
        (omega (arith, length-take size (remaining cursor rows)))

  -- A page that is not full is the last one.
  pub last_page :
      (done : List R) (cursor : Option ℕ) (size : ℕ) (rows : List R)
      → Seen done cursor rows
      → length (page_after cursor size rows) < size
      → rows ≡ done ++ page_after cursor size rows
  last_page done cursor size rows seen short =
      seen
      ∙ ap (λ l. done ++ l)
          (sym (
              short_page size (remaining cursor rows)
                (subst (λ l. length l < size) (page_after-take cursor size rows) short))
            ∙ sym (page_after-take cursor size rows))
