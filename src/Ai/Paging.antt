-- ===== src/Ai/Paging.antt =====
-- The paging loop of fetchTransactions ends, and with which rows.
use money_management_app.Prelude.{
  ℕ, zero, suc, ◌+◌, ◌*◌, ◌-◌, ◌≤◌, ◌<◌, ◌≡◌, refl, sym, ap, ◌∙◌, Option, none, some, List, [],
  ◌++◌, take, take_all, take-append, append_nil, length, length-append, filter, ◌&&◌, is_none, ltb,
  map, true, false, Bool-cases, Option-cases, inl, inr, arith, String,
}
use mathlib.Core.List.Perm.{symm}
use money_management_app.Calendar.{day_ms}
use money_management_app.Orm.Client.{Client}
use money_management_app.Orm.Query.{live, reach, find_all-filter}
use money_management_app.Orm.Rows.{UniqueIds}
use money_management_app.Orm.Cursor.{
  last, last-nil, page_after, page_size, last_page, remaining, Seen, Seen-next, UniqueIds-perm,
  UniqueIds-filter,
}
use money_management_app.Transactions.Schema.{Transaction, transactions}
use money_management_app.Ai.Context.{
  fetch_pages, fetch_rows, recent_transactions, is_since, newest_by_id, tx_hard_cap,
  fetch_transactions, view_transaction,
}

module _ (orm : Client) (size cap : ℕ) (rows : List Transaction) where
  abbrev id_of : Transaction → ℕ
  id_of t = t.id

  abbrev page : Option ℕ → List Transaction
  page cursor = page_after orm id_of cursor size rows

  all_of : (done : List Transaction) → length done ≤ cap → rows ≡ done → take cap rows ≡ done
  all_of done h e = rw e (take_all cap done h)

  capped :
      (done rest : List Transaction)
      → length done ≡ cap
      → rows ≡ done ++ rest
      → take cap rows ≡ done
  capped done rest h e = rw (e, ← h) (take-append done rest)

  -- With `m` pages to go, `m + 1` rounds are enough.
  fetch_pages-take :
      (m : ℕ) (done : List Transaction) (cursor : Option ℕ)
      → 0 < size
      → UniqueIds id_of rows
      → Seen orm id_of done cursor rows
      → length done + m * size ≡ cap
      → fetch_pages orm size cap (suc m) rows done cursor ≡ some (take cap rows)
  unfolding fetch_pages
  fetch_pages-take zero done cursor pos u seen e =
      let full : ltb (length done) cap ≡ false = ground (arith) in
      rw (full, fetch_pages)
        (ap some (sym (capped done (remaining orm id_of cursor rows) (omega arith) seen)))
  fetch_pages-take (suc m) done cursor pos u seen e =
      let more : ltb (length done) cap ≡ true = ground (arith) in
      rw (more, fetch_pages)
        (elim (Option-cases (last (page cursor))) [
          | inl none_left ↦
              let empty = last-nil (page cursor) none_left in
              let same = last_page orm id_of done cursor size rows seen (rw empty pos) in
              rw none_left
                (ap some (sym (all_of done (omega arith) (same ∙ rw empty (append_nil done)))))
          | inr (t, some_left) ↦ rw some_left (elim (Bool-cases (ltb (length (page cursor)) size)) [
            | inl short ↦
                let same = last_page orm id_of done cursor size rows seen (ground arith) in
                rw short (
                  ap some (
                    sym (
                      all_of (done ++ page cursor)
                        (omega (
                          arith,
                          length-append done (page cursor),
                          page_size orm id_of cursor size rows,
                        ))
                        same)))
            | inr full ↦
                let whole : length (page cursor) ≡ size =
                  ground (arith, page_size orm id_of cursor size rows) in
                rw full (
                  fetch_pages-take m (done ++ page cursor) (some t.id) pos u
                    (Seen-next orm id_of done cursor size rows u seen some_left)
                    (omega (arith, length-append done (page cursor))))
          ])
        ])

module _ (orm : Client) (user_id days now : ℕ) (rows : List Transaction) where
  -- The rows that are not deleted and not older than `days` days, newest first.
  abbrev pub recent : List Transaction
  recent =
      orm.order_by newest_by_id
        (filter (λ t. is_since user_id (now - days * day_ms) t && is_none t.deleted_at) rows)

  recent-eq : recent_transactions orm user_id days now rows ≡ recent
  unfolding reach
  recent-eq = ap (orm.order_by newest_by_id) (
      find_all-filter orm transactions (live transactions (is_since user_id (now - days * day_ms)))
        rows)

  recent_ids : UniqueIds (λ t. t.id) rows → UniqueIds (λ t. t.id) recent
  recent_ids u =
      let ok_row =
        λ (t : Transaction). is_since user_id (now - days * day_ms) t && is_none t.deleted_at in
      UniqueIds-perm (λ t. t.id) (symm (orm.order_by-perm newest_by_id (filter ok_row rows)))
        (UniqueIds-filter (λ t. t.id) ok_row rows u)

  fetch_rows-take :
      UniqueIds (λ t. t.id) rows
      → fetch_rows orm user_id days now rows ≡ some (take tx_hard_cap recent)
  unfolding fetch_rows
  fetch_rows-take u =
      ap (λ l. fetch_pages orm 1000 5000 6 l [] none) recent-eq
      ∙ fetch_pages-take orm 1000 5000 recent 5 [] none (omega arith) (recent_ids u) refl
          (omega arith)

  -- The loop that pages through the user's transactions ends, for every table whose ids are unique, and
  -- what is sent are the user's transactions of the last days that are not deleted, newest first, each
  -- once and none skipped, up to the hard cap of 5000.
  pub fetch_transactions_complete :
      (iso : ℕ → String)
      → UniqueIds (λ t. t.id) rows
      → fetch_transactions orm iso user_id days now rows
        ≡ some (map (view_transaction iso) (take tx_hard_cap recent))
  unfolding fetch_transactions
  fetch_transactions_complete iso u = rw (fetch_rows-take u, fetch_transactions)
