-- ===== src/Goals/Service.antt =====
-- The operations of backend/src/modules/goal/goal.service.ts. `now` is the clock and `id` the uuid
-- that the database gives a new row.
use money_management_app.Prelude.{
  ℕ, ◌+◌, ◌-◌, ◌*◌, Bool, false, ◌&&◌, ◌||◌, not, Option, none, some, List, [], ◌∷◌, map, length,
  filter, ◌==◌, ltb, leb, if◌then◌else◌, or_else, or_option, Result, ok, err, not_found,
  bad_request,
}
use money_management_app.Prelude.Rounding.{ceil_div, round_div}
use money_management_app.Prelude.Doubles.{Doubles, min_num}
use money_management_app.Calendar.{day_ms}
use money_management_app.Orm.Client.{Client}
use money_management_app.Orm.Query.{live, having, find_first, find_all, update}
use money_management_app.Orm.Owned.{write_found, or_not_found}
use money_management_app.Goals.Schema.{Goal, goals, CreateGoalDto, UpdateGoalDto}

unfoldable pub new_goal : (user_id : ℕ) → CreateGoalDto → (id now : ℕ) → Goal
new_goal user_id dto id now = record {
  id = id;
  user_id = user_id;
  name = dto.name;
  target_amount = dto.target_amount;
  current_amount = or_else dto.current_amount 0;
  currency = or_else dto.currency "INR";
  target_date = dto.target_date;
  category = dto.category;
  icon = dto.icon;
  color = dto.color;
  auto_allocate = or_else dto.auto_allocate false;
  allocation_percent = dto.allocation_percent;
  priority = or_else dto.priority 0;
  is_completed = false;
  completed_at = none;
  deleted_at = none;
  created_at = now;
}

pub record GoalView : Type 0 where
  pub goal : Goal
  pub allocation_percent : Option ℕ
  -- In hundredths of a percent.
  pub progress : ℕ
  pub months_to_goal : Option ℕ

-- `part / whole * 100`, rounded to two digits, in hundredths of a percent; 0 if there is no whole.
unfoldable pub percent_of : (part whole : ℕ) → ℕ
percent_of part whole = if ltb 0 whole then round_div (part * 10000) whole else 0

abbrev pub months_until : (now : ℕ) → Option ℕ → Option ℕ
months_until now none = none
months_until now (some date) = some (ceil_div (date - now) (30 * day_ms))

-- `goal.allocationPercent ? Number(...) : null`
abbrev pub nonzero : Option ℕ → Option ℕ
nonzero none = none
nonzero (some p) = if p == 0 then none else some p

unfoldable pub serialize : (now : ℕ) → Goal → GoalView
unfolding percent_of ceil_div round_div
serialize now g = record {
  goal = g;
  allocation_percent = nonzero g.allocation_percent;
  progress = percent_of g.current_amount g.target_amount;
  months_to_goal = months_until now g.target_date;
}

-- `{ id, userId }`
abbrev pub is_owned : (user_id id : ℕ) → Goal → Bool
is_owned user_id id g = (g.id == id) && (g.user_id == user_id)

unfoldable pub apply_update : UpdateGoalDto → Goal → Goal
apply_update dto g = record g {
  name = or_else dto.name g.name;
  target_amount = or_else dto.target_amount g.target_amount;
  current_amount = or_else dto.current_amount g.current_amount;
  currency = or_else dto.currency g.currency;
  target_date = or_option dto.target_date g.target_date;
  category = or_option dto.category g.category;
  icon = or_option dto.icon g.icon;
  color = or_option dto.color g.color;
  auto_allocate = or_else dto.auto_allocate g.auto_allocate;
  allocation_percent = or_option dto.allocation_percent g.allocation_percent;
  priority = or_else dto.priority g.priority;
}

unfoldable pub mark_deleted : (now : ℕ) → Goal → Goal
mark_deleted now g = record g { deleted_at = some now }

-- The new values that `contribute` writes, computed from the row that it found.
unfoldable pub contributed : (num : Doubles) (found : Goal) (amount now : ℕ) → Goal → Goal
contributed num found amount now g =
    let new_amount = num.add (num.of_cents found.current_amount) (num.of_cents amount) in
    let target = num.of_cents found.target_amount in
    let is_completed = num.leb_num target new_amount in
    record g {
      current_amount = num.to_cents (min_num num new_amount target);
      is_completed = is_completed;
      completed_at = if is_completed then some now else none;
    }

-- `[{ priority: 'asc' }, { createdAt: 'desc' }]`
abbrev pub by_priority : Goal → Goal → Bool
by_priority g h =
    ltb g.priority h.priority || ((g.priority == h.priority) && leb h.created_at g.created_at)

abbrev pub sum_by : (Goal → ℕ) → List Goal → ℕ
sum_by f [] = 0
sum_by f (g ∷ gs) = f g + sum_by f gs

pub record GoalSummary : Type 0 where
  pub active_count : ℕ
  pub completed_count : ℕ
  pub total_target : ℕ
  pub total_saved : ℕ
  pub overall_progress : ℕ
  pub goals : List GoalView

module _ (orm : Client) where
  unfoldable pub create :
      (user_id : ℕ) → CreateGoalDto → (id now : ℕ) → List Goal → GoalView × List Goal
  unfolding new_goal serialize
  create user_id dto id now rows =
      let g = new_goal user_id dto id now in (serialize now g, orm.insert g rows)

  unfoldable pub find_all_goals :
      (user_id : ℕ) (include_completed : Bool) (now : ℕ) → List Goal → List GoalView
  unfolding serialize
  find_all_goals user_id include_completed now rows = map (serialize now) (
      orm.order_by by_priority (
        find_all orm goals
          (live goals (λ g. (g.user_id == user_id) && (include_completed || not g.is_completed)))
          rows))

  unfoldable pub find_one : (user_id id now : ℕ) → List Goal → Result GoalView
  unfolding serialize
  find_one user_id id now rows =
      elim (or_not_found (find_first orm goals (live goals (is_owned user_id id)) rows)) [
        | ok g ↦ ok (serialize now g)
        | err e ↦ err e
      ]

  unfoldable pub update_goal :
      (user_id id : ℕ) → UpdateGoalDto → List Goal → Result Goal × List Goal
  unfolding write_found
  update_goal user_id id dto rows =
      write_found orm goals (λ g. g.id) id (apply_update dto) rows
        (find_first orm goals (live goals (is_owned user_id id)) rows)

  unfoldable pub delete : (user_id id now : ℕ) → List Goal → Result Goal × List Goal
  unfolding write_found
  delete user_id id now rows =
      write_found orm goals (λ g. g.id) id (mark_deleted now) rows
        (find_first orm goals (live goals (is_owned user_id id)) rows)

  -- The rest of `contribute`, once the goal has been found.
  unfoldable pub contribute_found :
      (num : Doubles) (id amount now : ℕ) → List Goal → Option Goal → Result Goal × List Goal
  contribute_found num id amount now rows none = (err not_found, rows)
  contribute_found num id amount now rows (some g) =
      if g.is_completed
      then (err bad_request, rows)
      else update orm goals (having (λ r. r.id == id)) (contributed num g amount now) rows

  unfoldable pub contribute :
      (num : Doubles) (user_id id amount now : ℕ) → List Goal → Result Goal × List Goal
  unfolding contribute_found
  contribute num user_id id amount now rows =
      contribute_found num id amount now rows
        (find_first orm goals (live goals (is_owned user_id id)) rows)

  unfoldable pub get_summary : (user_id now : ℕ) → List Goal → GoalSummary
  unfolding serialize
  get_summary user_id now rows =
      let found = find_all orm goals (live goals (λ g. g.user_id == user_id)) rows in
      let active = filter (λ g. not g.is_completed) found in
      let total_target = sum_by (λ g. g.target_amount) active in
      let total_saved = sum_by (λ g. g.current_amount) active in
      record {
        active_count = length active;
        completed_count = length (filter (λ g. g.is_completed) found);
        total_target = total_target;
        total_saved = total_saved;
        overall_progress = percent_of total_saved total_target;
        goals = map (serialize now) found;
      }
