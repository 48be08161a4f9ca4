-- ===== src/ActionCards/Service.antt =====
-- The operations of backend/src/modules/action-card/action-card.service.ts. `now` is the clock, `id`
-- the uuid of a new row, and `before` the order in which the database sorts priorities.
use money_management_app.Prelude.{
  ℕ, zero, suc, Bool, true, ◌&&◌, ◌||◌, not, Option, none, some, String, List, [], ◌∷◌, map, length,
  ◌==◌, leb, if◌then◌else◌, or_else, or_option, str_eq, Result, ok, err, not_found,
}
use money_management_app.Prelude.Int.{ℤ, pos}
use money_management_app.Orm.Client.{Client}
use money_management_app.Orm.Query.{having, find_first, find_all, delete, delete_many}
use money_management_app.Orm.Owned.{write_found, or_not_found}
use money_management_app.ActionCards.Schema.{
  ActionCard, action_cards, CreateActionCardDto, UpdateActionCardDto, BulkSyncCardsDto,
}

unfoldable pub new_card : (user_id : ℕ) → CreateActionCardDto → (id now : ℕ) → ActionCard
new_card user_id dto id now = record {
  id = id;
  user_id = user_id;
  type = dto.type;
  title = dto.title;
  description = dto.description;
  priority = or_else dto.priority "MEDIUM";
  impact_amount = dto.impact_amount;
  impact_type = dto.impact_type;
  status = "PENDING";
  action_data = or_else dto.action_data "{}";
  expires_at = dto.expires_at;
  completed_at = none;
  dismissed_at = none;
  created_at = now;
}

-- `{ id, userId }`
abbrev pub is_owned : (user_id id : ℕ) → ActionCard → Bool
is_owned user_id id c = (c.id == id) && (c.user_id == user_id)

-- `{ userId, status: CardStatus.PENDING }`
abbrev pub is_pending : (user_id : ℕ) → ActionCard → Bool
is_pending user_id c = (c.user_id == user_id) && str_eq c.status "PENDING"

-- `c.impactAmount ? Number(c.impactAmount) : null`
abbrev pub nonzero : Option ℤ → Option ℤ
nonzero none = none
nonzero (some (pos zero)) = none
nonzero (some a) = some a

abbrev pub serialize : ActionCard → ActionCard
serialize c = record c { impact_amount = nonzero c.impact_amount }

unfoldable pub apply_update : UpdateActionCardDto → ActionCard → ActionCard
apply_update dto c = record c {
  type = or_else dto.type c.type;
  title = or_else dto.title c.title;
  description = or_else dto.description c.description;
  priority = or_else dto.priority c.priority;
  impact_amount = or_option dto.impact_amount c.impact_amount;
  impact_type = or_option dto.impact_type c.impact_type;
  action_data = or_else dto.action_data c.action_data;
  expires_at = or_option dto.expires_at c.expires_at;
}

unfoldable pub mark_dismissed : (now : ℕ) → ActionCard → ActionCard
mark_dismissed now c = record c { status = "DISMISSED"; dismissed_at = some now }

unfoldable pub mark_completed : (now : ℕ) → ActionCard → ActionCard
mark_completed now c = record c { status = "COMPLETED"; completed_at = some now }

-- `if (filter) where.column = filter`
abbrev pub text_is : Option String → String → Bool
text_is none s = true
text_is (some t) s = if str_eq t "" then true else str_eq s t

abbrev pub not_expired : (now : ℕ) → Option ℕ → Bool
not_expired now none = true
not_expired now (some t) = leb now t

-- The condition of `findAll`: acted cards, and those that have not expired.
abbrev pub is_listed : (user_id : ℕ) (status priority : Option String) (now : ℕ) → ActionCard → Bool
is_listed user_id status priority now c =
    (c.user_id == user_id)
    && text_is status c.status
    && text_is priority c.priority
    && (str_eq c.status "COMPLETED" || str_eq c.status "DISMISSED" || not_expired now c.expires_at)

-- `[{ priority: 'desc' }, { createdAt: 'desc' }]`
abbrev pub by_priority : (before : String → String → Bool) → ActionCard → ActionCard → Bool
by_priority before c d =
    before d.priority c.priority
    && (not (str_eq c.priority d.priority) || leb d.created_at c.created_at)

pub record SyncResult : Type 0 where
  pub created : ℕ
  pub replaced_pending : Bool
  pub cards : List ActionCard

module _ (orm : Client) where
  unfoldable pub create :
      (user_id : ℕ)
      → CreateActionCardDto
      → (id now : ℕ) → List ActionCard
      → ActionCard × List ActionCard
  create user_id dto id now rows = let c = new_card user_id dto id now in (c, orm.insert c rows)

  unfoldable pub find_all_cards :
      (before : String → String → Bool) (user_id : ℕ) (status priority : Option String) (now : ℕ)
      → List ActionCard
      → List ActionCard
  find_all_cards before user_id status priority now rows = map serialize (
      orm.order_by (by_priority before)
        (find_all orm action_cards (having (is_listed user_id status priority now)) rows))

  unfoldable pub find_one : (user_id id : ℕ) → List ActionCard → Result ActionCard
  find_one user_id id rows =
      elim (or_not_found (find_first orm action_cards (having (is_owned user_id id)) rows)) [
        | ok c ↦ ok (serialize c)
        | err e ↦ err e
      ]

  unfoldable pub update_card :
      (user_id id : ℕ) → UpdateActionCardDto → List ActionCard → Result ActionCard × List ActionCard
  unfolding write_found
  update_card user_id id dto rows =
      write_found orm action_cards (λ c. c.id) id (apply_update dto) rows
        (find_first orm action_cards (having (is_owned user_id id)) rows)

  unfoldable pub dismiss :
      (user_id id now : ℕ) → List ActionCard → Result ActionCard × List ActionCard
  unfolding write_found
  dismiss user_id id now rows =
      write_found orm action_cards (λ c. c.id) id (mark_dismissed now) rows
        (find_first orm action_cards (having (is_owned user_id id)) rows)

  unfoldable pub complete :
      (user_id id now : ℕ) → List ActionCard → Result ActionCard × List ActionCard
  unfolding write_found
  complete user_id id now rows =
      write_found orm action_cards (λ c. c.id) id (mark_completed now) rows
        (find_first orm action_cards (having (is_owned user_id id)) rows)

  -- The rest of `delete`, once the card has been looked for.
  unfoldable pub delete_found :
      (id : ℕ) → List ActionCard → Option ActionCard → Result ActionCard × List ActionCard
  delete_found id rows none = (err not_found, rows)
  delete_found id rows (some c) = (ok c, delete orm action_cards (having (λ r. r.id == id)) rows)

  unfoldable pub delete_card :
      (user_id id : ℕ) → List ActionCard → Result ActionCard × List ActionCard
  delete_card user_id id rows =
      delete_found id rows (find_first orm action_cards (having (is_owned user_id id)) rows)

  -- The rows that `bulkSync` creates, in the order of the batch.
  unfoldable pub new_cards :
      (user_id : ℕ) (fresh : ℕ → ℕ) (now : ℕ) → List CreateActionCardDto → (n : ℕ) → List ActionCard
  new_cards user_id fresh now [] n = []
  new_cards user_id fresh now (dto ∷ dtos) n =
      new_card user_id dto (fresh n) now ∷ new_cards user_id fresh now dtos (suc n)

  unfoldable pub insert_all : List ActionCard → List ActionCard → List ActionCard
  insert_all [] rows = rows
  insert_all (c ∷ cs) rows = insert_all cs (orm.insert c rows)

  -- `dto.replacePending !== false`
  unfoldable pub bulk_sync :
      (user_id : ℕ)
      → BulkSyncCardsDto
      → (fresh : ℕ → ℕ) (now : ℕ) → List ActionCard
      → SyncResult × List ActionCard
  bulk_sync user_id dto fresh now rows =
      let replace_pending = or_else dto.replace_pending true in
      let kept =
        if replace_pending
        then delete_many orm action_cards (having (is_pending user_id)) rows
        else rows in
      let created = new_cards user_id fresh now dto.cards 0 in
      (
        record { created = length created; replaced_pending = replace_pending; cards = created },
        insert_all created kept,
      )
