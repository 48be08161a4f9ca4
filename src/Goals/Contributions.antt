-- ===== src/Goals/Contributions.antt =====
-- Contributions to a goal.
use money_management_app.Prelude.Doubles.{Doubles, min_num, largest}
use money_management_app.Prelude.{
  ◌≤◌, ◌≢◌, ◌||◌, not, ltb, Bool-cases, inl, inr, ℕ, ◌+◌, ◌≡◌, refl, min, Bool, true, false, none,
  some, List, ◌==◌, leb, arith, All-map, find, find-passes, replace, ok, err, not_found,
  bad_request,
}
use money_management_app.Orm.Client.{Client}
use money_management_app.Orm.SoftDelete.{Action}
use money_management_app.Orm.Query.{live, having, reach, find_first-find}
use money_management_app.Orm.Rows.{UniqueIds, Owned-find, foreign, foreign-replace}
use money_management_app.Orm.Owned.{outcome_found, find-replace, reach-holds, write_found}
use money_management_app.Goals.Schema.{Goal, goals}
use money_management_app.Goals.Service.{is_owned, contributed, contribute, contribute_found}

abbrev pub id_of : Goal → ℕ
id_of g = g.id

abbrev pub owner : Goal → ℕ
owner g = g.user_id

-- The condition by which the handlers look for a goal.
abbrev pub asked : (user_id id : ℕ) → Goal → Bool
asked user_id id = reach goals Action.find_first (live goals (is_owned user_id id))

abbrev pub by_id : ℕ → Goal → Bool
by_id id = reach goals Action.update (having (λ r. r.id == id))

asked-owned :
    (user_id id : ℕ) (g : Goal)
    → (live goals (is_owned user_id id)).holds g ≡ true
    → (g.id ≡ id) × (g.user_id ≡ user_id)
asked-owned user_id id g h = ground arith

asked-by_id : (user_id id : ℕ) (g : Goal) → asked user_id id g ≡ true → by_id id g ≡ true
unfolding reach
asked-by_id user_id id g h = ground arith

by_id-asks : (id : ℕ) (g : Goal) → by_id id g ≡ true → g.id ≡ id
unfolding reach
by_id-asks id g h = ground arith

module _ (orm : Client) (num : Doubles) (user_id id now : ℕ) where
  contribute-missing :
      (amount : ℕ) (rows : List Goal)
      → find (asked user_id id) rows ≡ none
      → contribute orm num user_id id amount now rows ≡ (err not_found, rows)
  unfolding contribute
  contribute-missing amount rows e =
      rw (find_first-find orm goals (live goals (is_owned user_id id)) rows, e)

  pub contribute-completed :
      (amount : ℕ) (rows : List Goal) {g : Goal}
      → find (asked user_id id) rows ≡ some g
      → g.is_completed ≡ true
      → contribute orm num user_id id amount now rows ≡ (err bad_request, rows)
  unfolding contribute
  contribute-completed amount rows e c =
      rw (find_first-find orm goals (live goals (is_owned user_id id)) rows, e, contribute_found, c)

  pub contribute-open :
      (amount : ℕ) (rows : List Goal) {g : Goal}
      → UniqueIds id_of rows
      → find (asked user_id id) rows ≡ some g
      → g.is_completed ≡ false
      → contribute orm num user_id id amount now rows ≡ (
        ok (contributed num g amount now g),
        replace (by_id id) (contributed num g amount now) rows,
      )
  unfolding contribute write_found contributed
  contribute-open amount rows {g} u e c =
      rw (find_first-find orm goals (live goals (is_owned user_id id)) rows, e, contribute_found, c)
        (rw (find_first-find orm goals (live goals (is_owned user_id id)) rows, e) at
          (outcome_found orm goals id_of id (live goals (is_owned user_id id))
            (contributed num g amount now) rows
            (λ s h.
              (asked-owned user_id id s
                (reach-holds goals Action.find_first (live goals (is_owned user_id id)) s h)).0)
            (asked-by_id user_id id) u e))

  -- The comparison of the sum with the target, which is only sure if they differ.
  abbrev reaches : (a b t : ℕ) → Bool
  reaches a b t = num.leb_num (num.of_cents t) (num.add (num.of_cents a) (num.of_cents b))

  reached_enough : (a b t : ℕ) → t ≤ largest → reaches a b t ≡ true → t ≤ a + b
  reached_enough a b t fits e = elim (Bool-cases (ltb (a + b) t)) [
    | inl below ↦ absurd (clash (num.leb_num-below a b t fits (ground arith)))
    | inr above ↦ ground arith
  ]
    where
      clash : reaches a b t ≢ false
      clash k = cc

  missed_short : (a b t : ℕ) → a + b ≤ largest → reaches a b t ≡ false → a + b ≤ t
  missed_short a b t small e = elim (Bool-cases (ltb t (a + b))) [
    | inl above ↦ absurd (clash (num.leb_num-above a b t small (ground arith)))
    | inr below ↦ ground arith
  ]
    where
      clash : reaches a b t ≢ true
      clash k = cc

  -- What is stored is the exact sum, or the target.
  stored :
      (a b t : ℕ)
      → a + b ≤ largest
      → t ≤ largest
      → num.to_cents (min_num num (num.add (num.of_cents a) (num.of_cents b)) (num.of_cents t))
        ≡ min (a + b) t
  stored a b t small fits = elim (Bool-cases (reaches a b t)) [
    | inl reached ↦
        let enough = reached_enough a b t fits reached in
        rw (reached, num.to_cents-of_cents t fits) (ground arith)
    | inr missed ↦
        let short = missed_short a b t small missed in
        rw (missed, num.to_cents-add a b small) (ground arith)
  ]

  completed_if : (a b t : ℕ) → a + b ≤ largest → (reaches a b t || leb (a + b) t) ≡ true
  completed_if a b t small = elim (Bool-cases (reaches a b t)) [
    | inl reached ↦ rw reached
    | inr missed ↦ let short = missed_short a b t small missed in ground arith
  ]

  completed_only_if : (a b t : ℕ) → t ≤ largest → (not (reaches a b t) || leb t (a + b)) ≡ true
  completed_only_if a b t fits = elim (Bool-cases (reaches a b t)) [
    | inl reached ↦ let enough = reached_enough a b t fits reached in ground arith
    | inr missed ↦ rw missed
  ]

  -- A contribution to a goal that is not completed succeeds, if ids are unique and the sum and the target fit
  -- the column: the stored goal has the exact amount added, but never above the target; it is completed if the
  -- sum exceeds the target and only if the sum reaches it, equality being left to the rounding of doubles; and
  -- the goals of other users stay as they are.
  pub contribute_lem :
      (amount : ℕ) (rows : List Goal) {g : Goal}
      → UniqueIds id_of rows
      → find (asked user_id id) rows ≡ some g
      → g.is_completed ≡ false
      → g.current_amount + amount ≤ largest
      → g.target_amount ≤ largest
      → let after = contribute orm num user_id id amount now rows in
        (g' : Goal) × (after.0 ≡ ok g')
        × (find (asked user_id id) after.1 ≡ some g')
        × (g'.current_amount ≡ min (g.current_amount + amount) g.target_amount)
        × (g'.target_amount ≡ g.target_amount)
        × ((g'.is_completed || leb (g.current_amount + amount) g.target_amount) ≡ true)
        × ((not g'.is_completed || leb g.target_amount (g.current_amount + amount)) ≡ true)
        × (foreign id_of owner user_id after.1 ≡ foreign id_of owner user_id rows)
  unfolding contributed reach
  contribute_lem amount rows {g} u e c small fits =
      let done = contribute-open amount rows u e c in
      (
        contributed num g amount now g,
        rw done,
        rw done (
            find-replace (asked user_id id) (by_id id) (contributed num g amount now) rows
              (λ s. refl) (asked-by_id user_id id g (find-passes (asked user_id id) rows e)) e),
        stored g.current_amount amount g.target_amount small fits,
        refl,
        completed_if g.current_amount amount g.target_amount small,
        completed_only_if g.current_amount amount g.target_amount fits,
        rw done (
            foreign-replace id_of owner user_id (by_id id) (contributed num g amount now) rows
              (λ s. refl)
              (All-map (λ s own h. own (by_id-asks id s h)) rows
                (Owned-find id_of owner user_id id (asked user_id id) rows
                  (λ s h.
                    asked-owned user_id id s
                      (reach-holds goals Action.find_first (live goals (is_owned user_id id)) s h))
                  u e))),
      )
