-- ===== src/Accounts/Schema.antt =====
-- `model Account` of backend/prisma/schema.prisma and the DTOs of
-- backend/src/modules/account/dto.ts.
use money_management_app.Prelude.{ℕ, Bool, true, false, Option, String}
use money_management_app.Prelude.Int.{ℤ}
use money_management_app.Orm.SoftDelete.{Model}
use money_management_app.Orm.Query.{Table}

pub data AccountType : Type 0 where
  bank wallet credit_card investment loan : AccountType

pub record Account : Type 0 where
  pub id : ℕ
  pub user_id : ℕ
  pub account_type : AccountType
  pub account_name : String
  pub masked_account_number : Option String
  pub provider_name : Option String
  pub ifsc_code : Option String
  pub balance : ℤ
  pub currency : String
  pub color : Option String
  pub icon : Option String
  pub is_primary : Bool
  pub is_active : Bool
  pub deleted_at : Option ℕ
  pub created_at : ℕ
  pub updated_at : ℕ

abbrev pub accounts : Table Account
accounts = record { model = Model.account; deleted_at = λ a. a.deleted_at }

pub record CreateAccountDto : Type 0 where
  pub account_type : AccountType
  pub account_name : String
  pub provider_name : Option String
  pub masked_account_number : Option String
  pub ifsc_code : Option String
  pub balance : Option ℤ
  pub currency : Option String
  pub color : Option String
  pub icon : Option String
  pub is_primary : Option Bool

pub record UpdateAccountDto : Type 0 where
  pub account_type : Option AccountType
  pub account_name : Option String
  pub provider_name : Option String
  pub masked_account_number : Option String
  pub ifsc_code : Option String
  pub balance : Option ℤ
  pub currency : Option String
  pub color : Option String
  pub icon : Option String
  pub is_primary : Option Bool

abbrev pub same_account_type : AccountType → AccountType → Bool
same_account_type AccountType.bank AccountType.bank = true
same_account_type AccountType.wallet AccountType.wallet = true
same_account_type AccountType.credit_card AccountType.credit_card = true
same_account_type AccountType.investment AccountType.investment = true
same_account_type AccountType.loan AccountType.loan = true
same_account_type _ _ = false
