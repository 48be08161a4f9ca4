-- ===== src/Orm/SoftDelete.antt =====
-- The middleware of backend/src/config/prisma.service.ts, which adds `deletedAt: null` to queries.
use money_management_app.Prelude.{
  ℕ, Bool, true, false, ◌&&◌, ◌||◌, not, Option, if◌then◌else◌, is_none,
}

-- The models of backend/prisma/schema.prisma that the services query.
pub data Model : Type 0 where
  user account transaction subscription budget notification goal : Model
  refresh_token sms_log action_card weekly_summary device_token : Model

-- `Prisma.PrismaAction`
pub data Action : Type 0 where
  find_unique find_unique_or_throw find_first find_first_or_throw find_many : Action
  create create_many update update_many upsert delete delete_many : Action
  count aggregate group_by : Action

-- SOFT_DELETE_MODELS
unfoldable pub is_soft_delete_model : Model → Bool
is_soft_delete_model Model.user = true
is_soft_delete_model Model.account = true
is_soft_delete_model Model.transaction = true
is_soft_delete_model Model.subscription = true
is_soft_delete_model Model.budget = true
is_soft_delete_model Model.notification = true
is_soft_delete_model Model.goal = true
is_soft_delete_model _ = false

-- READ_ACTIONS
unfoldable pub is_read_action : Action → Bool
is_read_action Action.find_first = true
is_read_action Action.find_first_or_throw = true
is_read_action Action.find_many = true
is_read_action Action.count = true
is_read_action Action.aggregate = true
is_read_action Action.group_by = true
is_read_action _ = false

-- WRITE_ACTIONS
unfoldable pub is_write_action : Action → Bool
is_write_action Action.update = true
is_write_action Action.update_many = true
is_write_action Action.delete = true
is_write_action Action.delete_many = true
is_write_action _ = false

-- FIND_UNIQUE_ACTIONS
unfoldable pub is_find_unique_action : Action → Bool
is_find_unique_action Action.find_unique = true
is_find_unique_action Action.find_unique_or_throw = true
is_find_unique_action _ = false

-- A `where` argument: the rows that it holds of, and whether it names `deletedAt` itself.
pub record Where (R : Type 0) : Type 0 where
  pub names_deleted : Bool
  pub holds : R → Bool

-- The `params` of a query on rows of type `R`.
pub record Params (R : Type 0) : Type 0 where
  pub model : Model
  pub action : Action
  pub condition : Where R

module _ {R : Type 0} (deleted_at : R → Option ℕ) where
  -- `{ ...where, deletedAt: null }`
  unfoldable pub with_live : Where R → Where R
  with_live w = record { names_deleted = true; holds = λ r. w.holds r && is_none (deleted_at r) }

  -- The first branch, which turns `findUnique` into `findFirst`.
  unfoldable pub on_find_unique : Params R → Params R
  unfolding with_live
  on_find_unique q = if q.condition.names_deleted then q else record q {
    action = elim q.action [
      | Action.find_unique_or_throw ↦ Action.find_first_or_throw
      | _ ↦ Action.find_first
    ];
    condition = with_live q.condition;
  }

  -- The second branch, for reads and writes.
  unfoldable pub on_read_or_write : Params R → Params R
  unfolding with_live
  on_read_or_write q =
      if q.condition.names_deleted then q else record q { condition = with_live q.condition }

  -- The function given to `this.$use`: what `next` is called with.
  unfoldable pub middleware : Params R → Params R
  unfolding on_find_unique on_read_or_write is_soft_delete_model is_read_action is_write_action
      is_find_unique_action
  middleware q =
      if not (is_soft_delete_model q.model)
      then q
      else if is_find_unique_action q.action
      then on_find_unique q
      else if is_read_action q.action || is_write_action q.action
      then on_read_or_write q
      else q
