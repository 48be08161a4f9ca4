-- ===== src/Users/Tokens.antt =====
-- The tokens of a session: what backend/src/modules/user/auth.service.ts signs and hashes, and how
-- backend/src/config/jwt.config.ts and the refresh strategy of backend/src/config check them.
use money_management_app.Prelude.{
  ℕ, Bool, not, Option, none, some, String, List, ◌==◌, if◌then◌else◌, or_else, Result, ok, err,
  unauthorized,
}
use money_management_app.Orm.Client.{Client}
use money_management_app.Orm.Query.{having, find_first}
use money_management_app.Users.Schema.{User, users}

-- JwtPayload, with the `type` that only refresh tokens carry, and `iat` in seconds.
pub record Claims : Type 0 where
  pub sub : ℕ
  pub email : String
  pub tv : Option ℕ
  pub is_refresh : Bool
  pub iat : ℕ

-- The packages: SHA-256, bcrypt, and the signatures of jsonwebtoken, which are a function of the
-- claims and the secret.
pub record Crypto : Type 0 where
  pub sha256 : String → String
  pub hash_password : String → String
  pub compare_password : (password hash : String) → Bool
  pub sign_access : Claims → String
  pub sign_refresh : Claims → String

pub record AuthUser : Type 0 where
  pub id : ℕ
  pub email : String

-- JwtStrategy.validate, once the user has been looked for.
unfoldable pub check_version : Claims → Option User → Result AuthUser
check_version claims none = err unauthorized
check_version claims (some u) =
    if not u.is_active
    then err unauthorized
    else if or_else claims.tv 0 == u.token_version
    then ok (record { id = u.id; email = u.email })
    else err unauthorized

-- JwtStrategy.validate, for claims whose signature and expiry have been checked.
unfoldable pub validate : Client → Claims → List User → Result AuthUser
unfolding check_version
validate orm claims rows =
    check_version claims (find_first orm users (having (λ u. u.id == claims.sub)) rows)
