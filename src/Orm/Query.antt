-- ===== src/Orm/Query.antt =====
-- A call of `this.prisma.<model>.<action>`: the middleware rewrites the condition, and the client
-- runs it on the rows of the table.
use money_management_app.Prelude.{
  ℕ, ◌≡◌, refl, ap, Bool, true, false, ◌&&◌, is_none, not, Option, none, some, List, length, filter,
  find, head, replace, head-filter, Result, ok, err, internal,
}
use money_management_app.Orm.Client.{Client}
use money_management_app.Orm.SoftDelete.{Model, Action, Where, middleware}

pub record Table (R : Type 0) : Type 0 where
  pub model : Model
  pub deleted_at : R → Option ℕ

-- A condition that asks for `deletedAt: null` itself.
abbrev pub live : {R : Type 0} → Table R → (R → Bool) → Where R
live t p = record { names_deleted = true; holds = λ r. p r && is_none (t.deleted_at r) }

-- A condition that does not mention `deletedAt`.
abbrev pub having : {R : Type 0} → (R → Bool) → Where R
having p = record { names_deleted = false; holds = p }

-- The rows that a query reaches.
unfoldable pub reach : {R : Type 0} → Table R → Action → Where R → R → Bool
unfolding middleware
reach t a w =
    (middleware t.deleted_at
      (record { model = t.model; action = a; condition = w })).condition.holds

-- The outcome of `update`, by the row that its condition finds.
abbrev pub written : {R : Type 0} → (R → R) → List R → List R → Option R → Result R × List R
written f rows changed none = (err internal, rows)
written f rows changed (some r) = (ok (f r), changed)

module _ (orm : Client) {R : Type 0} (t : Table R) where
  unfoldable pub find_first : Where R → List R → Option R
  find_first w rows = head (orm.find_many (reach t Action.find_first w) rows)

  unfoldable pub find_unique : Where R → List R → Option R
  find_unique w rows = head (orm.find_many (reach t Action.find_unique w) rows)

  unfoldable pub find_all : Where R → List R → List R
  find_all w rows = orm.find_many (reach t Action.find_many w) rows

  unfoldable pub count : Where R → List R → ℕ
  count w rows = length (orm.find_many (reach t Action.count w) rows)

  -- The rows that `aggregate` and `groupBy` range over.
  unfoldable pub aggregated : Where R → List R → List R
  aggregated w rows = orm.find_many (reach t Action.aggregate w) rows

  -- `update` returns the new row, and throws if there is none to update.
  unfoldable pub update : Where R → (R → R) → List R → Result R × List R
  update w f rows =
      written f rows (orm.update_many (reach t Action.update w) f rows)
        (head (orm.find_many (reach t Action.update w) rows))

  unfoldable pub update_many : Where R → (R → R) → List R → List R
  update_many w f rows = orm.update_many (reach t Action.update_many w) f rows

  unfoldable pub delete_many : Where R → List R → List R
  delete_many w rows = orm.delete_many (reach t Action.delete_many w) rows

  -- `delete` of one row, which the callers have found before.
  unfoldable pub delete : Where R → List R → List R
  delete w rows = orm.delete_many (reach t Action.delete w) rows

module _ (orm : Client) {R : Type 0} (t : Table R) (w : Where R) (rows : List R) where
  pub find_first-find : find_first orm t w rows ≡ find (reach t Action.find_first w) rows
  unfolding find_first
  find_first-find = rw (orm.find_many-filter) (head-filter _ rows)

  pub find_unique-find : find_unique orm t w rows ≡ find (reach t Action.find_unique w) rows
  unfolding find_unique
  find_unique-find = rw (orm.find_many-filter) (head-filter _ rows)

  pub find_all-filter : find_all orm t w rows ≡ filter (reach t Action.find_many w) rows
  unfolding find_all
  find_all-filter = orm.find_many-filter _ rows

  pub count-length : count orm t w rows ≡ length (filter (reach t Action.count w) rows)
  unfolding count
  count-length = ap length (orm.find_many-filter _ rows)

  pub aggregated-filter : aggregated orm t w rows ≡ filter (reach t Action.aggregate w) rows
  unfolding aggregated
  aggregated-filter = orm.find_many-filter _ rows

  pub update_many-replace :
      (f : R → R) → update_many orm t w f rows ≡ replace (reach t Action.update_many w) f rows
  unfolding update_many
  update_many-replace f = orm.update_many-replace _ f rows

  pub delete_many-filter :
      delete_many orm t w rows ≡ filter (λ r. not (reach t Action.delete_many w r)) rows
  unfolding delete_many
  delete_many-filter = orm.delete_many-filter _ rows

  pub delete-filter : delete orm t w rows ≡ filter (λ r. not (reach t Action.delete w r)) rows
  unfolding delete
  delete-filter = orm.delete_many-filter _ rows

pub update-written :
    (orm : Client) {R : Type 0} (t : Table R) (w : Where R) (f : R → R) (rows : List R)
    → update orm t w f rows
      ≡ written f rows
          (replace (reach t Action.update w) f rows)
          (find (reach t Action.update w) rows)
unfolding update
update-written orm t w f rows = rw (orm.find_many-filter, orm.update_many-replace, head-filter)

written-ok :
    {R : Type 0} (f : R → R) (rows changed : List R) (found : Option R) {a : R}
    → (written f rows changed found).0 ≡ ok a
    → (r : R) × (a ≡ f r) × (found ≡ some r) × ((written f rows changed found).1 ≡ changed)
written-ok f rows changed none e = cc
written-ok f rows changed (some r) e = (r, cc, refl, refl)

-- What an update has done that succeeded.
pub update-ok :
    (orm : Client) {R : Type 0} (t : Table R) (w : Where R) (f : R → R) (rows : List R) {a : R}
    → (update orm t w f rows).0 ≡ ok a
    → (r : R) × (a ≡ f r)
      × (find (reach t Action.update w) rows ≡ some r)
      × ((update orm t w f rows).1 ≡ replace (reach t Action.update w) f rows)
update-ok orm t w f rows done = rw (update-written orm t w f rows) (
    written-ok f rows (replace (reach t Action.update w) f rows)
      (find (reach t Action.update w) rows) (rw (update-written orm t w f rows) at done))
