-- ===== src/Transactions/Refinement.antt =====
-- The service as an abstract store of what each user sees under each id.
use money_management_app.Prelude.{
  ℕ, ◌≡◌, ◌≢◌, refl, ap, ◌∙◌, if◌then◌else◌, Result, ok, err, not_found, internal, Bool, true,
  false, ◌&&◌, Option, none, some, List, [], ◌∷◌, ◌==◌, arith, find, All, Bool-cases, inl, inr,
  find-passes, find-snoc, or_option,
}
use money_management_app.Orm.Client.{Client}
use money_management_app.Orm.Query.{live, having, reach, find_first, find_first-find}
use money_management_app.Orm.Rows.{UniqueIds}
use money_management_app.Orm.Owned.{or_not_found, find-replace, find-replace-none}
use money_management_app.Broker.{Event}
use money_management_app.Transactions.Schema.{
  Transaction, transactions, CreateTransactionDto, UpdateTransactionDto,
}
use money_management_app.Transactions.Service.{
  References, refused, is_accepted, has_references, is_owned, new_transaction, apply_update,
  mark_deleted, find_one, create, update_transaction, delete,
}
use money_management_app.Transactions.Ownership.{owned-meets, refused-rows}
use money_management_app.Transactions.Views.{
  View, handled, change, map_found, asked, view, write, handled-change,
}

or_option-none : {A : Type 0} (o : Option A) → or_option o none ≡ o
or_option-none none = refl
or_option-none (some a) = refl

module _ (user_id id now : ℕ) where
  last_place : (u i : ℕ) → ((u == user_id) && (i == id)) ≡ true → i ≡ id
  last_place u i k = ground arith

  unseen :
      (u i : ℕ) (rows : List Transaction)
      → i ≡ id
      → All (λ t. t.id ≢ id) rows
      → find (asked u i) rows ≡ none
  unfolding reach
  unseen u i [] e h = refl
  unseen u i (r ∷ rows) e h = ground (arith, h.0, unseen u i rows e h.1)

  shows :
      (dto : CreateTransactionDto) (u i : ℕ)
      → ((u == user_id) && (i == id)) ≡ true
      → asked u i (new_transaction user_id dto id now) ≡ true
  unfolding reach new_transaction
  shows dto u i k = ground arith

  hides :
      (dto : CreateTransactionDto) (u i : ℕ)
      → ((u == user_id) && (i == id)) ≡ false
      → asked u i (new_transaction user_id dto id now) ≡ false
  unfolding reach new_transaction
  hides dto u i k = ground arith

-- The abstract answer to a write that the database refuses, and that to an update.
abbrev pub refusal : Option Transaction → Result Transaction
refusal none = err not_found
refusal (some t) = err internal

abbrev pub update_answer :
    References → UpdateTransactionDto → (now : ℕ) → Option Transaction → Result Transaction
update_answer refs dto now seen =
    if is_accepted refs dto
    then or_not_found (map_found (apply_update dto now) seen)
    else refusal seen

-- A change that is only made if a condition holds.
abbrev pub only_if :
    Bool → (Option Transaction → Option Transaction) → Option Transaction → Option Transaction
only_if b f o = if b then f o else o

refused-answer :
    (orm : Client) (rows : List Transaction) (found : Option Transaction)
    → (refused orm rows found).0 ≡ refusal found
refused-answer orm rows none = refl
refused-answer orm rows (some t) = refl

same_place : (user_id id u i : ℕ) (v : View) → v u i ≡ change user_id id (λ o. o) v u i
same_place user_id id u i v = elim (Bool-cases ((u == user_id) && (i == id))) [
  | inl k ↦ rw k
  | inr k ↦ rw k
]

module _ (orm : Client) (user_id id now : ℕ) (rows : List Transaction) where
  applied-change :
      (dto : UpdateTransactionDto)
      → UniqueIds (λ t. t.id) rows
      → ((handled orm user_id id (apply_update dto now) rows).0
          ≡ or_not_found (map_found (apply_update dto now) (view rows user_id id)))
        × ((u i : ℕ)
            → view (handled orm user_id id (apply_update dto now) rows).1 u i
              ≡ change user_id id (map_found (apply_update dto now)) (view rows) u i)
  unfolding reach apply_update
  applied-change dto unique =
      handled-change orm user_id id (apply_update dto now) rows (map_found (apply_update dto now))
        unique (λ s. (refl, refl)) refl
        (λ t e.
          find-replace (asked user_id id) (write orm user_id id (apply_update dto now) rows)
            (apply_update dto now) rows (λ s. refl)
            (owned-meets user_id id t (find-passes (asked user_id id) rows e)) e)

  update-change :
      (refs : References) (dto : UpdateTransactionDto)
      → UniqueIds (λ t. t.id) rows
      → ((update_transaction orm refs user_id id dto now rows).0
          ≡ update_answer refs dto now (view rows user_id id))
        × ((u i : ℕ)
            → view (update_transaction orm refs user_id id dto now rows).1 u i
              ≡ change user_id id
                  (only_if (is_accepted refs dto) (map_found (apply_update dto now)))
                  (view rows)
                  u
                  i)
  unfolding update_transaction reach
  update-change refs dto unique =
      let w = having (is_owned user_id id) in
      elim (Bool-cases (is_accepted refs dto)) [
        | inl yes_ ↦ rw (yes_, update_transaction) (applied-change dto unique)
        | inr no_ ↦
            rw (no_, update_transaction)
              (
                refused-answer orm rows (find_first orm transactions w rows)
                    ∙ ap refusal (find_first-find orm transactions w rows),
                λ u i.
                    ap (λ l. view l u i)
                      (refused-rows orm rows (find_first orm transactions w rows))
                    ∙ same_place user_id id u i (view rows),
              )
      ]

  delete-change :
      UniqueIds (λ t. t.id) rows
      → ((delete orm user_id id now rows).0
          ≡ or_not_found (map_found (mark_deleted now) (view rows user_id id)))
        × ((u i : ℕ)
            → view (delete orm user_id id now rows).1 u i
              ≡ change user_id id (λ o. none) (view rows) u i)
  unfolding delete reach mark_deleted
  delete-change unique =
      handled-change orm user_id id (mark_deleted now) rows (λ o. none) unique (λ s. (refl, refl))
        refl
        (λ t e.
          find-replace-none (asked user_id id) (write orm user_id id (mark_deleted now) rows)
            (mark_deleted now) rows (λ s. ground arith))

  added-change :
      (dto : CreateTransactionDto)
      → All (λ t. t.id ≢ id) rows
      → (u i : ℕ)
      → view (orm.insert (new_transaction user_id dto id now) rows) u i
        ≡ change user_id id (λ o. some (new_transaction user_id dto id now)) (view rows) u i
  unfolding reach new_transaction
  added-change dto fresh u i =
      let t = new_transaction user_id dto id now in
      rw (orm.insert-append, find-snoc (asked u i) rows t)
        (elim (Bool-cases ((u == user_id) && (i == id))) [
          | inl k ↦ rw (
            k,
            unseen user_id id now u i rows (last_place user_id id now u i k) fresh,
            shows user_id id now dto u i k,
          )
          | inr k ↦ rw (k, hides user_id id now dto u i k) (or_option-none (view rows u i))
        ])

  create-change :
      (refs : References) (accepts : Event → Bool) (dto : CreateTransactionDto) (queue : List Event)
      → All (λ t. t.id ≢ id) rows
      → let t = new_transaction user_id dto id now in
        let (answer, rows', queue') = create orm refs accepts user_id dto id now (rows, queue) in
        (answer ≡ (if has_references refs t then ok t else err internal))
        × ((u i : ℕ)
            → view rows' u i
              ≡ change user_id id (only_if (has_references refs t) (λ o. some t)) (view rows) u i)
  unfolding create
  create-change refs accepts dto queue fresh =
      elim (Bool-cases (has_references refs (new_transaction user_id dto id now))) [
        | inl yes_ ↦ rw (yes_, create) (refl, λ u i. added-change dto fresh u i)
        | inr no_ ↦ rw (no_, create) (refl, λ u i. same_place user_id id u i (view rows))
      ]

-- The service is an abstract store of transactions, by user and id. With unique ids: findOne reads the place
-- of the user and the id; update answers with what it changes there, delete with what it removes from there,
-- and create fills the place of the user and the new id, if that id is fresh; a place with nothing in it is
-- reported as not found, and no operation changes any other place, of the user or of another one. An update
-- or a new transaction that the database refuses, for a foreign key or a null, fails and changes no place.
pub service_refines :
    (orm : Client) (refs : References) (accepts : Event → Bool) (user_id id now : ℕ)
    (rows : List Transaction)
    → (dto : UpdateTransactionDto) (new_id : ℕ) (new : CreateTransactionDto) (queue : List Event)
    → (u i : ℕ) → UniqueIds (λ t. t.id) rows
    → All (λ t. t.id ≢ new_id) rows
    → let seen = view rows user_id id in
      let (r, updated) = update_transaction orm refs user_id id dto now rows in
      let (d, left) = delete orm user_id id now rows in
      let t = new_transaction user_id new new_id now in
      let (c, added, queue') = create orm refs accepts user_id new new_id now (rows, queue) in
      (find_one orm user_id id rows ≡ or_not_found seen)
      × (r ≡ update_answer refs dto now seen)
      × (view updated u i
          ≡ change user_id id
              (only_if (is_accepted refs dto) (map_found (apply_update dto now)))
              (view rows)
              u
              i)
      × (d ≡ or_not_found (map_found (mark_deleted now) seen))
      × (view left u i ≡ change user_id id (λ o. none) (view rows) u i)
      × (c ≡ (if has_references refs t then ok t else err internal))
      × (view added u i
          ≡ change user_id new_id (only_if (has_references refs t) (λ o. some t)) (view rows) u i)
unfolding find_one
service_refines orm refs accepts user_id id now rows dto new_id new queue u i unique fresh =
    let (answer, updated) = update-change orm user_id id now rows refs dto unique in
    let (gone, left) = delete-change orm user_id id now rows unique in
    let (made, added) = create-change orm user_id new_id now rows refs accepts new queue fresh in
    (
      ap or_not_found
          (find_first-find orm transactions (live transactions (is_owned user_id id)) rows),
      answer,
      updated u i,
      gone,
      left u i,
      made,
      added u i,
    )
