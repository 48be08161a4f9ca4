-- ===== src/Accounts/Primary.antt =====
-- At most one primary account for each user.
use money_management_app.Prelude.{
  ℕ, ◌+◌, ◌≤◌, ◌≡◌, refl, sym, ◌≢◌, Bool, true, false, ◌&&◌, Option, none, some, String, List, [],
  ◌∷◌, ◌==◌, if◌then◌else◌, or_else, inl, inr, arith, Bool-cases, length, length-append, filter,
  filter-append, find, find-passes, find-All, replace, All, ok, err, conflict, is_none, any, str_eq,
}
use money_management_app.Orm.Client.{Client}
use money_management_app.Orm.SoftDelete.{Action}
use money_management_app.Orm.Query.{
  having, live, reach, find_first, find_first-find, update_many, update_many-replace, update-ok,
}
use money_management_app.Orm.Rows.{UniqueIds, UniqueIds-replace, Owned, Owned-find, All-replace}
use money_management_app.Accounts.Schema.{Account, accounts, CreateAccountDto}
use money_management_app.Accounts.Service.{
  is_owned, is_primary_of, set_is_primary, name_taken, new_account, demote_if, create, set_primary,
  set_primary_found,
}

abbrev pub id_of : Account → ℕ
id_of a = a.id

abbrev pub owner : Account → ℕ
owner a = a.user_id

-- The primary accounts of a user that are not deleted.
abbrev pub is_live_primary : (user_id : ℕ) → Account → Bool
is_live_primary user_id a = (a.user_id == user_id) && a.is_primary && is_none a.deleted_at

abbrev pub primaries : (user_id : ℕ) → List Account → ℕ
primaries user_id rows = length (filter (is_live_primary user_id) rows)

module _ {ℓ} {A : Type ℓ} where
  filter-none :
      (q p : A → Bool) (f : A → A) (rows : List A)
      → ((r : A) → q (if p r then f r else r) ≡ false)
      → length (filter q (replace p f rows)) ≡ 0
  filter-none q p f [] h = refl
  filter-none q p f (r ∷ rows) h = rw (h r) (filter-none q p f rows h)

  filter-replace-le :
      (q p : A → Bool) (f : A → A) (rows : List A)
      → ((r : A) → q (if p r then f r else r) ≡ true → q r ≡ true)
      → length (filter q (replace p f rows)) ≤ length (filter q rows)
  filter-replace-le q p f [] h = omega arith
  filter-replace-le q p f (r ∷ rows) h = ground (arith, h r, filter-replace-le q p f rows h)

module _ {ℓ} {A : Type ℓ} where
  filter-replace-add :
      (q p : A → Bool) (f : A → A) (rows : List A)
      → length (filter q (replace p f rows)) ≤ length (filter q rows) + length (filter p rows)
  filter-replace-add q p f [] = omega arith
  filter-replace-add q p f (r ∷ rows) = ground (arith, filter-replace-add q p f rows)

  find-replace-pos :
      (q p : A → Bool) (f : A → A) (rows : List A) {r : A}
      → find p rows ≡ some r
      → q (f r) ≡ true
      → 1 ≤ length (filter q (replace p f rows))
  find-replace-pos q p f [] e h = cc
  find-replace-pos q p f (x ∷ rows) {r} e h = ground (arith, find-replace-pos q p f rows {r = r})

  any-replace :
      (q p : A → Bool) (f : A → A) (rows : List A)
      → ((r : A) → q (f r) ≡ q r)
      → any q (replace p f rows) ≡ any q rows
  any-replace q p f [] h = refl
  any-replace q p f (r ∷ rows) h = ground (arith, h r, any-replace q p f rows h)

-- Rows that pass a test have one id: there is at most one.
no_more :
    (q : Account → Bool) (i : ℕ) (rows : List Account)
    → ((r : Account) → q r ≡ true → r.id ≡ i)
    → All (λ r. r.id ≢ i) rows
    → length (filter q rows) ≡ 0
no_more q i [] h k = refl
no_more q i (r ∷ rows) h k = elim (Bool-cases (q r)) [
  | inl e ↦ absurd (k.0 (h r e))
  | inr e ↦ rw e (no_more q i rows h k.1)
]

at_most_one :
    (q : Account → Bool) (i : ℕ) (rows : List Account)
    → ((r : Account) → q r ≡ true → r.id ≡ i)
    → UniqueIds id_of rows
    → length (filter q rows) ≤ 1
at_most_one q i [] h u = omega arith
at_most_one q i (r ∷ rows) h u = elim (Bool-cases (q r)) [
  | inl e ↦ rw e (omega (arith, no_more q i rows h (rw (h r e) at u.0)))
  | inr e ↦ rw e (at_most_one q i rows h u.1)
]

module _ (orm : Client) (user_id now : ℕ) (rows : List Account) where
  demoted-primaries : primaries user_id (demote_if orm true (is_primary_of user_id) now rows) ≡ 0
  unfolding demote_if reach set_is_primary
  demoted-primaries =
      rw
        (update_many-replace orm accounts (having (is_primary_of user_id)) rows
          (set_is_primary false now))
        (filter-none (is_live_primary user_id)
          (reach accounts Action.update_many (having (is_primary_of user_id)))
          (set_is_primary false now) rows (λ r. ground arith))

  demoted-at-most-one :
      (b : Bool)
      → primaries user_id rows ≤ 1
      → primaries user_id (demote_if orm b (is_primary_of user_id) now rows) ≤ 1
  unfolding demote_if
  demoted-at-most-one true h = rw demoted-primaries (omega arith)
  demoted-at-most-one false h = h

insert-primaries :
    (orm : Client) (user_id : ℕ) (a : Account) (rows : List Account)
    → primaries user_id (orm.insert a rows)
      ≡ primaries user_id rows + (if is_live_primary user_id a then 1 else 0)
insert-primaries orm user_id a rows =
    rw (orm.insert-append, filter-append (is_live_primary user_id) rows (a ∷ []), length-append)
      (ground arith)

new_account-primary :
    (user_id : ℕ) (dto : CreateAccountDto) (id now : ℕ)
    → is_live_primary user_id (new_account user_id dto id now) ≡ or_else dto.is_primary false
unfolding new_account
new_account-primary user_id dto id now = ground arith

-- Creating an account keeps at most one primary account of the user that is not deleted, whatever the
-- outcome.
pub create-primaries :
    (orm : Client) (user_id : ℕ) (dto : CreateAccountDto) (id now : ℕ) (rows : List Account)
    → primaries user_id rows ≤ 1
    → primaries user_id (create orm user_id dto id now rows).1 ≤ 1
unfolding create
create-primaries orm user_id dto id now rows h = elim (Bool-cases (or_else dto.is_primary false)) [
  | inl e ↦ rw e (
      ground (
        arith,
        demoted-primaries orm user_id now rows,
        new_account-primary user_id dto id now,
        insert-primaries orm user_id (new_account user_id dto id now)
            (demote_if orm true (is_primary_of user_id) now rows),
      ))
  | inr e ↦ rw e (
      ground (
        arith,
        demoted-at-most-one orm user_id now rows false h,
        new_account-primary user_id dto id now,
        insert-primaries orm user_id (new_account user_id dto id now)
            (demote_if orm false (is_primary_of user_id) now rows),
      ))
]

name_taken-demoted :
    (orm : Client) (user_id now : ℕ) (name : String) (rows : List Account)
    → name_taken user_id name (demote_if orm true (is_primary_of user_id) now rows)
      ≡ name_taken user_id name rows
unfolding name_taken demote_if set_is_primary
name_taken-demoted orm user_id now name rows =
    rw
      (update_many-replace orm accounts (having (is_primary_of user_id)) rows
        (set_is_primary false now))
      (any-replace (λ a. (a.user_id == user_id) && str_eq a.account_name name) _
        (set_is_primary false now) rows (λ r. refl))

-- A primary account whose name is taken is refused, but the call is not atomic: it leaves the user
-- without any primary account.
pub create-conflict_demotes :
    (orm : Client) (user_id : ℕ) (dto : CreateAccountDto) (id now : ℕ) (rows : List Account)
    → dto.is_primary ≡ some true
    → name_taken user_id dto.account_name rows ≡ true
    → ((create orm user_id dto id now rows).0 ≡ err conflict)
      × (primaries user_id (create orm user_id dto id now rows).1 ≡ 0)
unfolding create
create-conflict_demotes orm user_id dto id now rows wanted taken =
    rw (wanted, name_taken-demoted orm user_id now dto.account_name rows, taken)
      (refl, demoted-primaries orm user_id now rows)

abbrev by_id : ℕ → Account → Bool
by_id id = reach accounts Action.update (having (λ r. r.id == id))

by_id-one :
    (id : ℕ) (rows : List Account) → UniqueIds id_of rows → length (filter (by_id id) rows) ≤ 1
unfolding reach
by_id-one id rows u = at_most_one (by_id id) id rows (λ r h. ground arith) u

module _ (orm : Client) (user_id id now : ℕ) (rows : List Account) where
  abbrev demoted : List Account
  demoted =
      update_many orm accounts (having (is_primary_of user_id)) (set_is_primary false now) rows

  demoted-none : primaries user_id demoted ≡ 0
  unfolding demote_if
  demoted-none = demoted-primaries orm user_id now rows

  demoted-UniqueIds : UniqueIds id_of rows → UniqueIds id_of demoted
  unfolding set_is_primary
  demoted-UniqueIds u =
      rw
        (update_many-replace orm accounts (having (is_primary_of user_id)) rows
          (set_is_primary false now))
        (UniqueIds-replace id_of _ (set_is_primary false now) rows (λ r. refl) u)

  -- What making an account primary does, when the account has been found.
  promoted :
      (found : Option Account) {a : Account}
      → UniqueIds id_of rows
      → (set_primary_found orm user_id id now rows found).0 ≡ ok a
      → (r : Account) × (a ≡ set_is_primary true now r)
        × (find (by_id id) demoted ≡ some r)
        × ((set_primary_found orm user_id id now rows found).1
            ≡ replace (by_id id) (set_is_primary true now) demoted)
  unfolding set_primary_found
  promoted none u done = cc
  promoted (some x) u done =
      update-ok orm accounts (having (λ r. r.id == id)) (set_is_primary true now) demoted done

  abbrev asked : Account → Bool
  asked = reach accounts Action.find_first (live accounts (is_owned user_id id))

  -- The demoted row of the id belongs to the user, if a row of both was found before.
  demoted-Owned :
      {x r : Account}
      → UniqueIds id_of rows
      → find asked rows ≡ some x
      → find (by_id id) demoted ≡ some r
      → (r.id ≡ id) × (r.user_id ≡ user_id) × (r.deleted_at ≡ none)
  unfolding reach set_is_primary
  demoted-Owned {r} u e again =
      let hit = find-passes (by_id id) demoted again in
      let own = find-All (Owned id_of owner user_id id) (by_id id) demoted again (
        rw
          (update_many-replace orm accounts (having (is_primary_of user_id)) rows
            (set_is_primary false now))
          (All-replace id_of (Owned id_of owner user_id id) _ (set_is_primary false now) rows
            (λ s k. k) (Owned-find id_of owner user_id id asked rows (λ s h. ground arith) u e))) in
      let same : r.id ≡ id = ground arith in (same, own same, ground arith)

  nothing : {a : Account} → (set_primary_found orm user_id id now rows none).0 ≢ ok a
  unfolding set_primary_found
  nothing e = cc

  exactly_one_found :
      (found : Option Account) {a : Account}
      → UniqueIds id_of rows
      → find asked rows ≡ found
      → (set_primary_found orm user_id id now rows found).0 ≡ ok a
      → (a.id ≡ id)
        × (a.is_primary ≡ true)
        × (primaries user_id (set_primary_found orm user_id id now rows found).1 ≡ 1)
  unfolding set_is_primary
  exactly_one_found none u e done = absurd (nothing done)
  exactly_one_found (some x) u e done =
      let (r, new, again, after) = promoted (some x) u done in
      let (same, own, kept) = demoted-Owned u e again in
      let one =
        filter-replace-add (is_live_primary user_id) (by_id id) (set_is_primary true now) demoted in
      let some_one =
        find-replace-pos (is_live_primary user_id) (by_id id) (set_is_primary true now) demoted
          again (ground arith) in
      (
        rw new same,
        rw new,
        rw after (
            omega (arith, one, some_one, demoted-none, by_id-one id demoted (demoted-UniqueIds u))),
      )

-- Making an account primary, when it succeeds, leaves the user with exactly one primary account that
-- is not deleted, and it is the account of the given id; if ids are unique.
pub set_primary-exactly_one :
    (orm : Client) (user_id id now : ℕ) (rows : List Account) {a : Account}
    → UniqueIds id_of rows
    → (set_primary orm user_id id now rows).0 ≡ ok a
    → (a.id ≡ id)
      × (a.is_primary ≡ true)
      × (primaries user_id (set_primary orm user_id id now rows).1 ≡ 1)
unfolding set_primary
set_primary-exactly_one orm user_id id now rows u done =
    exactly_one_found orm user_id id now rows
      (find_first orm accounts (live accounts (is_owned user_id id)) rows) u
      (sym (find_first-find orm accounts (live accounts (is_owned user_id id)) rows)) done
