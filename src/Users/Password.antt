-- ===== src/Users/Password.antt =====
-- Changing the password of a user.
use money_management_app.Prelude.{ℕ, Bool, ◌==◌}
use money_management_app.Orm.Client.{Client}
use money_management_app.Orm.SoftDelete.{Action}
use money_management_app.Orm.Query.{having, reach, find_first}
use money_management_app.Users.Schema.{User, users}
use money_management_app.Users.Tokens.{Claims}

abbrev has_id : ℕ → User → Bool
has_id i u = u.id == i

abbrev asked : Claims → User → Bool
asked claims = reach users Action.find_first (having (has_id claims.sub))
