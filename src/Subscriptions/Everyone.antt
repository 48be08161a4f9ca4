-- ===== src/Subscriptions/Everyone.antt =====
-- The weekly scan ends, and whom it visits.
use money_management_app.Prelude.{
  ℕ, zero, suc, ◌+◌, ◌≤◌, ◌<◌, ◌≡◌, refl, sym, ap, ◌∙◌, Bool, false, ◌&&◌, Option, none, some,
  String, List, [], ◌∷◌, ◌++◌, append_nil, length, length-append, filter, is_none, ltb, Bool-cases,
  Option-cases, inl, inr, arith,
}
use mathlib.Core.List.Perm.{symm}
use money_management_app.Prelude.Int.{ℤ}
use money_management_app.Prelude.Doubles.{Doubles}
use money_management_app.Broker.{Event}
use money_management_app.Orm.Client.{Client}
use money_management_app.Orm.Query.{having, reach, find_all-filter}
use money_management_app.Orm.Rows.{UniqueIds}
use money_management_app.Orm.Cursor.{
  last, last-nil, page_after, last_page, remaining, Seen, Seen-next, UniqueIds-perm,
  UniqueIds-filter,
}
use money_management_app.Transactions.Schema.{Transaction}
use money_management_app.Users.Schema.{User, users}
use money_management_app.Subscriptions.Schema.{Subscription}
use money_management_app.Subscriptions.Scan.{
  Progress, users_per_batch, by_id, active_users, scan_users, scan_pages, run_weekly_scan,
}

-- The active users that are not deleted, in the order of their ids.
abbrev pub in_order : Client → List User → List User
in_order orm people = orm.order_by by_id (filter (λ u. u.is_active && is_none u.deleted_at) people)

active-eq : (orm : Client) (people : List User) → active_users orm people ≡ in_order orm people
unfolding reach
active-eq orm people =
    ap (orm.order_by by_id) (find_all-filter orm users (having (λ u. u.is_active)) people)

in_order_ids :
    (orm : Client) (people : List User)
    → UniqueIds (λ u. u.id) people
    → UniqueIds (λ u. u.id) (in_order orm people)
in_order_ids orm people u =
    let scanned = λ (u : User). u.is_active && is_none u.deleted_at in
    UniqueIds-perm (λ u. u.id) (symm (orm.order_by-perm by_id (filter scanned people)))
      (UniqueIds-filter (λ u. u.id) scanned people u)

module _ (orm : Client) (num : Doubles) (key_of : String → String)
    (mean : (total : ℤ) (count : ℕ) → ℤ) (fresh : (user_id n : ℕ) → ℕ) (now : ℕ)
    (accepts : Event → Bool) (times_out : (user_id : ℕ) → Bool) (txns : List Transaction) where
  abbrev visit : List User → Progress → Progress
  visit = scan_users orm num key_of mean fresh now accepts times_out txns

  visit-append : (us vs : List User) (s : Progress) → visit (us ++ vs) s ≡ visit vs (visit us s)
  unfolding scan_users
  visit-append [] vs s = refl
  visit-append (u ∷ us) vs s = visit-append us vs (visit (u ∷ []) s)

  module _ (size : ℕ) (people : List User) (start : Progress) where
    abbrev page : Option ℕ → List User
    page cursor = page_after orm (λ u. u.id) cursor size people

    -- One round more than there are users to go is enough.
    scan_pages-visit :
        (m : ℕ) (done : List User) (cursor : Option ℕ)
        → 0 < size
        → UniqueIds (λ u. u.id) people
        → Seen orm (λ u. u.id) done cursor people
        → length people < length done + m
        → scan_pages orm num key_of mean fresh now accepts times_out txns size m people cursor
            (visit done start)
          ≡ some (visit people start)
    unfolding scan_pages
    scan_pages-visit zero done cursor pos u seen h = absurd (
        omega (arith, ap length seen, length-append done (remaining orm (λ u. u.id) cursor people)))
    scan_pages-visit (suc m) done cursor pos u seen h = elim (Option-cases (last (page cursor))) [
      | inl none_left ↦
          let empty = last-nil (page cursor) none_left in
          let same = last_page orm (λ u. u.id) done cursor size people seen (rw empty pos) in
          let all : done ≡ people = sym (same ∙ ap (λ l. done ++ l) empty ∙ append_nil done) in
          rw (none_left, scan_pages) (ap (λ l. some (visit l start)) all)
      | inr (last_user, some_left) ↦ elim (Bool-cases (ltb (length (page cursor)) size)) [
        | inl short ↦
            let same = last_page orm (λ u. u.id) done cursor size people seen (ground arith) in
            rw (some_left, short, scan_pages)
              (ap some
                (sym (visit-append done (page cursor) start) ∙ ap (λ l. visit l start) (sym same)))
        | inr full ↦
            rw (some_left, full, scan_pages)
              (ap
                  (scan_pages orm num key_of mean fresh now accepts times_out txns size m people
                    (some last_user.id))
                  (sym (visit-append done (page cursor) start))
                ∙ scan_pages-visit m (done ++ page cursor) (some last_user.id) pos u
                    (Seen-next orm (λ u. u.id) done cursor size people u seen some_left)
                    (further (page cursor) full))
      ]
    ]
      where
        further :
            (xs : List User)
            → ltb (length xs) size ≡ false
            → length people < length (done ++ xs) + m
        further xs e =
            let big : size ≤ length xs = ground arith in omega (arith, length-append done xs)

  -- The weekly scan ends, for every number of users whose ids are unique: it runs the detection of each
  -- active user that is not deleted, once and in the order of the ids, whatever fails or times out for
  -- other users.
  pub run_weekly_scan_visits :
      (people : List User) (rows : List Subscription) (queue : List Event)
      → UniqueIds (λ u. u.id) people
      → run_weekly_scan orm num key_of mean fresh now accepts times_out txns people rows queue
        ≡ some (
            scan_users orm num key_of mean fresh now accepts times_out txns
              (in_order orm people)
              (record { processed = 0; detected = 0; rows = rows; queue = queue }))
  unfolding run_weekly_scan
  run_weekly_scan_visits people rows queue u = rw (active-eq orm people) (
      scan_pages-visit users_per_batch (in_order orm people)
        (record { processed = 0; detected = 0; rows = rows; queue = queue })
        (suc (length (in_order orm people))) [] none (omega arith) (in_order_ids orm people u) refl
        (omega arith))
