-- ===== src/Weekly/Weeks.antt =====
-- One summary for each week of a user.
use money_management_app.Prelude.{
  ℕ, ◌≤◌, ◌≡◌, refl, sym, ap, ◌∙◌, Bool, true, not, Option, none, some, List, [], ◌∷◌, length,
  filter, filter-append, append_nil, find, find-snoc, head, ◌≢◌, head-filter, replace, ==_refl,
  Result, ok, err, internal, Bool-cases, inl, inr, arith,
}
use money_management_app.Orm.Client.{Client}
use money_management_app.Orm.Query.{reach, find_unique-find}
use money_management_app.Transactions.Schema.{Transaction}
use money_management_app.Ai.Json.{Json}
use money_management_app.Weekly.Schema.{WeeklySummary}
use money_management_app.Weekly.Totals.{current_week_range}
use money_management_app.Weekly.Service.{
  is_week, rate_fits, summary_of, week_data, upsert_week, store_week, generate_for_range, generate,
  current_found, get_or_generate_current,
}

module _ {A : Type 0} (p : A → Bool) (f : A → A) (hits : (x : A) → p (f x) ≡ true) where
  filter-replace-length : (xs : List A) → length (filter p (replace p f xs)) ≡ length (filter p xs)
  filter-replace-length [] = refl
  filter-replace-length (x ∷ xs) = ground (arith, hits x, filter-replace-length xs)

  others-replace :
      (xs : List A) → filter (λ x. not (p x)) (replace p f xs) ≡ filter (λ x. not (p x)) xs
  others-replace [] = refl
  others-replace (x ∷ xs) = ground (arith, hits x, others-replace xs)

  find-replaced : (xs : List A) {r : A} → find p xs ≡ some r → find p (replace p f xs) ≡ some (f r)
  find-replaced [] e = cc
  find-replaced (x ∷ xs) {r} e = ground (arith, hits x, find-replaced xs {r = r})

none-filter : {A : Type 0} (p : A → Bool) (xs : List A) → find p xs ≡ none → filter p xs ≡ []
none-filter p [] e = refl
none-filter p (x ∷ xs) e = ground (arith, none-filter p xs)

some-length :
    {A : Type 0} (p : A → Bool) (xs : List A) {r : A}
    → find p xs ≡ some r
    → 1 ≤ length (filter p xs)
some-length p [] e = cc
some-length p (x ∷ xs) {r} e = ground (arith, some-length p xs {r = r})

module _ (orm : Client) (fresh : ℕ) (build : ℕ → WeeklySummary) (user_id week_start : ℕ)
    (hits : (i : ℕ) → is_week user_id week_start (build i) ≡ true) (rows : List WeeklySummary) where
  abbrev p : WeeklySummary → Bool
  p = is_week user_id week_start

  -- What a write of the week leaves.
  abbrev Stored : Result WeeklySummary × List WeeklySummary → WeeklySummary → Type 0
  Stored o s =
      (length (filter p o.1) ≡ 1)
      × (filter (λ r. not (p r)) o.1 ≡ filter (λ r. not (p r)) rows)
      × (find p o.1 ≡ some s)

  upsert-Stored :
      (found : Option WeeklySummary) {s : WeeklySummary}
      → find p rows ≡ found
      → length (filter p rows) ≤ 1
      → (upsert_week orm fresh build user_id week_start rows found).0 ≡ ok s
      → Stored (upsert_week orm fresh build user_id week_start rows found) s
  unfolding upsert_week
  upsert-Stored none {s} e once done =
      let same : build fresh ≡ s = cc in
      rw (orm.insert-append, ← same)
        (
          ap length (filter-append p rows (build fresh ∷ []))
              ∙ rw (none-filter p rows e, hits fresh),
          filter-append (λ r. not (p r)) rows (build fresh ∷ [])
              ∙ rw (hits fresh) (append_nil (filter (λ r. not (p r)) rows)),
          find-snoc p rows (build fresh) ∙ rw (e, hits fresh),
        )
  upsert-Stored (some r) {s} e once done =
      let same : build r.id ≡ s = cc in
      rw (orm.update_many-replace, ← same)
        (
          filter-replace-length p (λ q. build q.id) (λ q. hits q.id) rows
              ∙ omega (arith, once, some-length p rows e),
          others-replace p (λ q. build q.id) (λ q. hits q.id) rows,
          find-replaced p (λ q. build q.id) (λ q. hits q.id) rows e,
        )

  found-Stored :
      (found : Option WeeklySummary) {s : WeeklySummary}
      → found ≡ find p rows
      → length (filter p rows) ≤ 1
      → (upsert_week orm fresh build user_id week_start rows found).0 ≡ ok s
      → Stored (upsert_week orm fresh build user_id week_start rows found) s
  found-Stored found e once done = upsert-Stored found (sym e) once done

  store-Stored :
      {s : WeeklySummary}
      → length (filter p rows) ≤ 1
      → (store_week orm fresh build user_id week_start rows).0 ≡ ok s
      → Stored (store_week orm fresh build user_id week_start rows) s
  unfolding store_week
  store-Stored {s} once done = elim (Bool-cases (rate_fits (build fresh).savings_rate)) [
    | inl fits ↦
        rw (fits, store_week)
          (found-Stored (head (orm.find_many p rows))
            (ap head (orm.find_many-filter p rows) ∙ head-filter p rows) once
            (rw (fits, store_week) at done))
    | inr large ↦ absurd (refused (rw (large, store_week) at done))
  ]
    where
      refused : err internal ≢ ok s
      refused k = cc

week_data-week :
    (orm : Client) (answer : Result Json) (user_id week_start week_end : ℕ)
    (txns : List Transaction)
    → (i : ℕ)
    → is_week user_id week_start (week_data orm answer user_id week_start week_end txns i) ≡ true
unfolding summary_of
week_data-week orm answer user_id week_start week_end txns i =
    ground (arith, ==_refl user_id, ==_refl week_start)

module _ (orm : Client) (answer again : Result Json) (user_id fresh fresh' now later : ℕ)
    (txns txns' : List Transaction) (rows : List WeeklySummary) where
  -- The rows of the present week of the user.
  abbrev pub this_week : WeeklySummary → Bool
  this_week = is_week user_id (current_week_range now).week_start

  known-again :
      (after : List WeeklySummary) {s : WeeklySummary}
      → (current_week_range later).week_start ≡ (current_week_range now).week_start
      → find this_week after ≡ some s
      → get_or_generate_current orm again user_id fresh' later txns' after ≡ (ok s, after)
  unfolding get_or_generate_current current_found reach
  known-again after same e = rw (find_unique-find, same, e)

  -- A generation that succeeds leaves exactly one summary of this week of the user, and all other summaries as
  -- they were, whether the week had one before or not; and until the week is over, the current summary is that
  -- one, whatever transactions come and whatever the AI service would say.
  pub generate-one_week :
      {s : WeeklySummary}
      → length (filter this_week rows) ≤ 1
      → (generate orm answer user_id fresh now txns rows).0 ≡ ok s
      → (current_week_range later).week_start ≡ (current_week_range now).week_start
      → let after = (generate orm answer user_id fresh now txns rows).1 in
        (length (filter this_week after) ≡ 1)
        × (filter (λ r. not (this_week r)) after ≡ filter (λ r. not (this_week r)) rows)
        × (get_or_generate_current orm again user_id fresh' later txns' after ≡ (ok s, after))
  unfolding generate generate_for_range
  generate-one_week {s} once done same =
      let week = current_week_range now in
      let (one, others, found) =
        store-Stored orm fresh (week_data orm answer user_id week.week_start week.week_end txns)
          user_id week.week_start
          (week_data-week orm answer user_id week.week_start week.week_end txns) rows once done in
      (one, others, known-again (generate orm answer user_id fresh now txns rows).1 same found)
