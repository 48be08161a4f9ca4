-- ===== src/Transactions/Views.antt =====
-- Which transaction, if any, each user sees under each id, and what a handler that writes the row that
-- it has found does to this view.
use money_management_app.Prelude.{
  ℕ, ◌≡◌, refl, sym, ap, ◌∙◌, Bool, true, false, ◌&&◌, Option, none, some, List, [], ◌∷◌, ◌==◌,
  arith, Result, ok, err, not_found, find, replace, All, All-map, if◌then◌else◌, Bool-cases,
  Option-cases, inl, inr,
}
use money_management_app.Orm.Client.{Client}
use money_management_app.Orm.SoftDelete.{Action}
use money_management_app.Orm.Query.{having, live, reach}
use money_management_app.Orm.Rows.{UniqueIds, Owned-find}
use money_management_app.Orm.Owned.{
  or_not_found, by_id, outcome, outcome_absent, outcome_found, reach-holds,
}
use money_management_app.Transactions.Schema.{Transaction, transactions}
use money_management_app.Transactions.Service.{is_owned}
use money_management_app.Transactions.Ownership.{is_owned-asks, owned-meets}

-- The abstract state, and a change at one of its places.
abbrev pub View : Type 0
View = (user_id id : ℕ) → Option Transaction

abbrev pub change : (user_id id : ℕ) → (Option Transaction → Option Transaction) → View → View
change user_id id f v = λ u i. if (u == user_id) && (i == id) then f (v u i) else v u i

abbrev pub map_found : (Transaction → Transaction) → Option Transaction → Option Transaction
map_found f none = none
map_found f (some t) = some (f t)

abbrev pub asked : (user_id id : ℕ) → Transaction → Bool
asked user_id id = reach transactions Action.find_first (live transactions (is_owned user_id id))

-- What a list of rows shows.
abbrev pub view : List Transaction → View
view rows = λ user_id id. find (asked user_id id) rows

pub asked-asks :
    (user_id id : ℕ) (t : Transaction)
    → asked user_id id t ≡ true
    → (t.id ≡ id) × (t.user_id ≡ user_id)
unfolding reach
asked-asks user_id id t h = ground arith

-- A write that touches no row that the query asks for, before or after, does not change what it finds.
find-replace-other :
    {R : Type 0} (p q : R → Bool) (f : R → R) (rows : List R)
    → All (λ r. q r ≡ true → (p r ≡ false) × (p (f r) ≡ false)) rows
    → find p (replace q f rows) ≡ find p rows
find-replace-other p q f [] h = refl
find-replace-other p q f (r ∷ rows) h = elim (Bool-cases (q r)) [
  | inl hit ↦ rw (hit, (h.0 hit).1, (h.0 hit).0) (find-replace-other p q f rows h.1)
  | inr miss ↦ rw miss (ap (λ o. if p r then some r else o) (find-replace-other p q f rows h.1))
]

module _ (orm : Client) (user_id id : ℕ) (f : Transaction → Transaction)
    (rows : List Transaction) where
  abbrev pub write : Transaction → Bool
  write = by_id orm transactions (λ t. t.id) id (having (is_owned user_id id)) f rows

  abbrev pub handled : Result Transaction × List Transaction
  handled = outcome orm transactions (λ t. t.id) id (having (is_owned user_id id)) f rows

  -- Another place of the view is not touched.
  elsewhere :
      (u i : ℕ) {t : Transaction}
      → UniqueIds (λ t. t.id) rows
      → ((s : Transaction) → ((f s).id ≡ s.id) × ((f s).user_id ≡ s.user_id))
      → view rows user_id id ≡ some t
      → ((u == user_id) && (i == id)) ≡ false
      → view (replace write f rows) u i ≡ view rows u i
  unfolding reach
  elsewhere u i unique keep e other = find-replace-other (asked u i) write f rows (
      All-map away rows (
        Owned-find (λ t. t.id) (λ t. t.user_id) user_id id (asked user_id id) rows
          (asked-asks user_id id) unique e))
    where
      away :
          (s : Transaction)
          → (s.id ≡ id → s.user_id ≡ user_id)
          → write s ≡ true
          → (asked u i s ≡ false) × (asked u i (f s) ≡ false)
      away s own hit = ground (arith, own, keep s)

  handled_found :
      {t : Transaction}
      → UniqueIds (λ t. t.id) rows
      → view rows user_id id ≡ some t
      → handled ≡ (ok (f t), replace write f rows)
  unfolding reach
  handled_found u e =
      outcome_found orm transactions (λ t. t.id) id (having (is_owned user_id id)) f rows
        (λ s h.
          (is_owned-asks user_id id s
            (reach-holds transactions Action.find_first (having (is_owned user_id id)) s h)).0)
        (owned-meets user_id id) u e

  handled_absent : view rows user_id id ≡ none → handled ≡ (err not_found, rows)
  unfolding reach
  handled_absent e =
      outcome_absent orm transactions (λ t. t.id) id (having (is_owned user_id id)) f rows e

  -- A handler that writes what it has found: its answer, and the change of the view, if `shown` is what the
  -- view has of the row after the write.
  pub handled-change :
      (shown : Option Transaction → Option Transaction)
      → UniqueIds (λ t. t.id) rows
      → ((s : Transaction) → ((f s).id ≡ s.id) × ((f s).user_id ≡ s.user_id))
      → shown none ≡ none
      → ((t : Transaction)
          → view rows user_id id ≡ some t
          → view (replace write f rows) user_id id ≡ shown (some t))
      → (handled.0 ≡ or_not_found (map_found f (view rows user_id id)))
        × ((u i : ℕ) → view handled.1 u i ≡ change user_id id shown (view rows) u i)
  handled-change shown unique keep nothing here = elim (Option-cases (view rows user_id id)) [
    | inl e ↦ rw (handled_absent e, e) (refl, unchanged e)
    | inr (t, e) ↦ rw (handled_found unique e, e) (refl, changed t e)
  ]
    where
      at_place : (u i : ℕ) → ((u == user_id) && (i == id)) ≡ true → (u ≡ user_id) × (i ≡ id)
      at_place u i k = ground arith

      unchanged :
          view rows user_id id ≡ none
          → (u i : ℕ) → view rows u i ≡ change user_id id shown (view rows) u i
      unchanged e u i = elim (Bool-cases ((u == user_id) && (i == id))) [
        | inl k ↦
            let same : view rows u i ≡ none = rw ((at_place u i k).0, (at_place u i k).1) e in
            rw k (rw same (sym nothing))
        | inr k ↦ rw k
      ]

      changed :
          (t : Transaction)
          → view rows user_id id ≡ some t
          → (u i : ℕ) → view (replace write f rows) u i ≡ change user_id id shown (view rows) u i
      changed t e u i = elim (Bool-cases ((u == user_id) && (i == id))) [
        | inl k ↦ rw k (rw ((at_place u i k).0, (at_place u i k).1) (here t e ∙ ap shown (sym e)))
        | inr k ↦ rw k (elsewhere u i unique keep e k)
      ]
