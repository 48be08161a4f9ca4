-- ===== src/ActionCards/Sync.antt =====
-- What a batch of the AI service does to the cards that are stored.
use money_management_app.Prelude.{
  ℕ, suc, ◌≡◌, refl, sym, ap, ◌∙◌, Bool, true, false, not, List, [], ◌∷◌, ◌++◌, arith, filter,
  filter-append, or_else, append_assoc, append_nil,
}
use money_management_app.Orm.Client.{Client}
use money_management_app.Orm.Query.{having, reach, delete_many, delete_many-filter}
use money_management_app.ActionCards.Schema.{
  ActionCard, action_cards, CreateActionCardDto, BulkSyncCardsDto,
}
use money_management_app.ActionCards.Service.{
  is_pending, new_card, new_cards, insert_all, bulk_sync,
}

insert_all-append : (orm : Client) (cs rows : List ActionCard) → insert_all orm cs rows ≡ rows ++ cs
unfolding insert_all
insert_all-append orm [] rows = sym (append_nil rows)
insert_all-append orm (c ∷ cs) rows =
    insert_all-append orm cs (orm.insert c rows)
    ∙ ap (λ l. l ++ cs) (orm.insert-append c rows)
    ∙ append_assoc rows (c ∷ []) cs

filter-twice :
    {A : Type 0} (p : A → Bool) (xs : List A) → filter p (filter (λ x. not (p x)) xs) ≡ []
filter-twice p [] = refl
filter-twice p (x ∷ xs) = ground (arith, filter-twice p xs)

filter-same : {A : Type 0} (p : A → Bool) (xs : List A) → filter p (filter p xs) ≡ filter p xs
filter-same p [] = refl
filter-same p (x ∷ xs) = ground (arith, filter-same p xs)

module _ (orm : Client) (user_id now : ℕ) (fresh : ℕ → ℕ) where
  fresh_pending :
      (dtos : List CreateActionCardDto) (n : ℕ)
      → filter (is_pending user_id) (new_cards orm user_id fresh now dtos n)
        ≡ new_cards orm user_id fresh now dtos n
  unfolding new_cards new_card
  fresh_pending [] n = refl
  fresh_pending (d ∷ ds) n = ground (arith, fresh_pending ds (suc n))

  fresh_acted :
      (dtos : List CreateActionCardDto) (n : ℕ)
      → filter (λ c. not (is_pending user_id c)) (new_cards orm user_id fresh now dtos n) ≡ []
  unfolding new_cards new_card
  fresh_acted [] n = refl
  fresh_acted (d ∷ ds) n = ground (arith, fresh_acted ds (suc n))

  kept :
      (rows : List ActionCard)
      → delete_many orm action_cards (having (is_pending user_id)) rows
        ≡ filter (λ c. not (is_pending user_id c)) rows
  unfolding reach
  kept rows = delete_many-filter orm action_cards (having (is_pending user_id)) rows

  -- A batch that replaces: afterwards the pending cards of the user are exactly those of the batch, in
  -- its order, and all other cards, acted ones and those of other users, are as they were.
  pub bulk_sync-replaces :
      (dto : BulkSyncCardsDto) (rows : List ActionCard)
      → or_else dto.replace_pending true ≡ true
      → let after = bulk_sync orm user_id dto fresh now rows in
        (filter (is_pending user_id) after.1 ≡ after.0.cards)
        × (filter (λ c. not (is_pending user_id c)) after.1
            ≡ filter (λ c. not (is_pending user_id c)) rows)
  unfolding bulk_sync
  bulk_sync-replaces dto rows e =
      rw (e, kept rows, insert_all-append)
        (
          filter-append (is_pending user_id) (filter (λ c. not (is_pending user_id c)) rows)
                (new_cards orm user_id fresh now dto.cards 0)
              ∙ rw (filter-twice (is_pending user_id) rows) (fresh_pending dto.cards 0),
          filter-append (λ c. not (is_pending user_id c))
                (filter (λ c. not (is_pending user_id c)) rows)
                (new_cards orm user_id fresh now dto.cards 0)
              ∙ rw (fresh_acted dto.cards 0, filter-same (λ c. not (is_pending user_id c)) rows)
                  (append_nil (filter (λ c. not (is_pending user_id c)) rows)),
        )

  -- A batch that does not replace only adds its cards at the end.
  pub bulk_sync-appends :
      (dto : BulkSyncCardsDto) (rows : List ActionCard)
      → or_else dto.replace_pending true ≡ false
      → (bulk_sync orm user_id dto fresh now rows).1
        ≡ rows ++ (bulk_sync orm user_id dto fresh now rows).0.cards
  unfolding bulk_sync
  bulk_sync-appends dto rows e =
      rw e (insert_all-append orm (new_cards orm user_id fresh now dto.cards 0) rows)
