-- ===== src/Goals/Completion.antt =====
-- A goal that is contributed to for long enough is completed.
use money_management_app.Prelude.Doubles.{Doubles, largest}
use money_management_app.Prelude.{
  ℕ, ◌+◌, ◌≤◌, ◌<◌, ◌≡◌, refl, ◌∙◌, true, false, some, List, [], ◌∷◌, arith, find, Bool-cases, inl,
  inr,
}
use money_management_app.Orm.Client.{Client}
use money_management_app.Orm.Rows.{UniqueIds, UniqueIds-replace}
use money_management_app.Goals.Schema.{Goal}
use money_management_app.Goals.Service.{contributed, contribute}
use money_management_app.Goals.Contributions.{
  id_of, asked, by_id, contribute-completed, contribute-open, contribute_lem,
}

abbrev pub sum : List ℕ → ℕ
sum [] = 0
sum (a ∷ amounts) = a + sum amounts

module _ (orm : Client) (num : Doubles) (user_id id now : ℕ) where
  -- Contributions one after the other, whatever each of them answers.
  abbrev pub contribute_all : List ℕ → List Goal → List Goal
  contribute_all [] rows = rows
  contribute_all (a ∷ amounts) rows =
      contribute_all amounts (contribute orm num user_id id a now rows).1

  -- A completed goal stays as it is.
  completed_stays :
      (amounts : List ℕ) (rows : List Goal) {g : Goal}
      → find (asked user_id id) rows ≡ some g
      → g.is_completed ≡ true
      → contribute_all amounts rows ≡ rows
  completed_stays [] rows e c = refl
  completed_stays (a ∷ amounts) rows e c =
      rw (contribute-completed orm num user_id id now a rows e c) (completed_stays amounts rows e c)

  contribute-UniqueIds :
      (amount : ℕ) (rows : List Goal) {g : Goal}
      → UniqueIds id_of rows
      → find (asked user_id id) rows ≡ some g
      → g.is_completed ≡ false
      → UniqueIds id_of (contribute orm num user_id id amount now rows).1
  unfolding contributed
  contribute-UniqueIds amount rows {g} u e c =
      rw (contribute-open orm num user_id id now amount rows u e c)
        (UniqueIds-replace id_of (by_id id) (contributed num g amount now) rows (λ s. refl) u)

  -- A goal that is open is completed, with exactly its target saved, by any sequence of contributions that
  -- exceed what is missing, however doubles round, if ids are unique and the amounts fit the column.
  pub contribute_all-completes :
      (amounts : List ℕ) (rows : List Goal) {g : Goal}
      → UniqueIds id_of rows
      → find (asked user_id id) rows ≡ some g
      → g.is_completed ≡ false
      → g.current_amount ≤ g.target_amount
      → g.target_amount < g.current_amount + sum amounts
      → g.current_amount + sum amounts ≤ largest
      → (g' : Goal) × (find (asked user_id id) (contribute_all amounts rows) ≡ some g')
        × (g'.is_completed ≡ true)
        × (g'.current_amount ≡ g.target_amount)
  contribute_all-completes [] rows u e c below enough fits = absurd (omega arith)
  contribute_all-completes (a ∷ amounts) rows {g} u e c below enough fits =
      let small : g.current_amount + a ≤ largest = omega arith in
      let held : g.target_amount ≤ largest = omega arith in
      let (h, done, found, current, target, if_above, only_if, other) =
        contribute_lem orm num user_id id now a rows u e c small held in
      let rows' = (contribute orm num user_id id a now rows).1 in
      elim (Bool-cases h.is_completed) [
        | inl full ↦ (h, rw (completed_stays amounts rows' found full) found, full, ground arith)
        | inr open_ ↦
            let left : g.current_amount + a ≤ g.target_amount = ground arith in
            let saved : h.current_amount ≡ g.current_amount + a = ground arith in
            let (g', found', completed', current') =
              contribute_all-completes amounts rows' (contribute-UniqueIds a rows u e c) found open_
                (omega arith) (omega arith) (omega arith) in
            (g', found', completed', current' ∙ target)
      ]
