-- ===== src/Sms/Parsing.antt =====
-- The parsers of backend/src/modules/sms/sms.service.ts: parseSms, adaptAiParsedResponse,
-- parseSmsLocal, identifyBank and categorizeTransaction.
use text.Mathlib.Text.{find?}
use money_management_app.Prelude.{
  ℕ, ◌+◌, min, Bool, true, false, ◌&&◌, ◌||◌, not, Option, none, some, String, List, any, find,
  ◌==◌, if◌then◌else◌, or_else, or_option, is_some, str_eq,
}
use money_management_app.Prelude.Int.{ℤ, pos, negsuc}
use money_management_app.Transactions.Schema.{TransactionType, credit, debit, QueryNumber}
use money_management_app.Ai.Json.{Json, Fields, member, coalesce, as_number, as_string}
use money_management_app.Sms.Schema.{ParsedSms}
use money_management_app.Sms.Keywords.{
  Mapping, Sender, credit_keywords, debit_keywords, atm_keywords, subscription_keywords,
  transfer_keywords, category_mappings, bank_sender_mapping,
}

-- What JavaScript does with texts: the case conversions, `trim`, `parseFloat` without the commas, and
-- the first group of a regular expression that is matched without regard to case.
pub record Texts : Type 0 where
  pub lower : String → String
  pub upper : String → String
  pub trim : String → String
  pub number : String → QueryNumber
  pub match_group : (pattern text : String) → Option String

-- `text.includes(kw)`
abbrev pub includes : (text kw : String) → Bool
includes text kw = is_some (find? text kw)

-- `if (parsed.amount)`: 0 and NaN do not count.
abbrev pub has_amount : QueryNumber → Bool
has_amount QueryNumber.missing = false
has_amount QueryNumber.nan = false
has_amount (QueryNumber.num (pos n)) = not (n == 0)
has_amount (QueryNumber.num (negsuc n)) = true

-- `parsed.amount && parsed.transactionType`
abbrev pub is_complete : ParsedSms → Bool
is_complete p = has_amount p.amount && is_some p.transaction_type

abbrev pub number_option : Option ℤ → QueryNumber
number_option none = QueryNumber.missing
number_option (some n) = QueryNumber.num n

-- What is added to the confidence for a part that is found.
abbrev pub worth {ℓ} : {A : Type ℓ} → (points : ℕ) → Option A → ℕ
worth points none = 0
worth points (some a) = points

-- The regular expressions of parseSmsLocal.
abbrev pub amount_pattern : String
amount_pattern = "(?:INR|₹|Rs\\.?)\\s*([\\d,]+\\.?\\d*)"

abbrev pub verb_amount_pattern : String
verb_amount_pattern = "(?:debited|credited)[^\\d]*([\\d,]+\\.?\\d*)"

abbrev pub merchant_pattern : String
merchant_pattern = "(?:at|to|from)\\s+([A-Za-z0-9\\s&.,-]+)"

abbrev pub balance_pattern : String
balance_pattern = "(?:balance|avail)[^\\d]*([\\d,]+\\.?\\d*)"

abbrev pub account_pattern : String
account_pattern = "(?:ending|card)[^\\d]*(\\d{4})"

-- The type that the words of the message give it.
abbrev pub type_in : (lower_body : String) → Option TransactionType
type_in lower_body =
    if any (includes lower_body) credit_keywords
    then some credit
    else if any (includes lower_body) debit_keywords
    then some debit
    else none

-- Whether one of the texts stands in the message or in the merchant.
abbrev pub mentions : (body merchant : String) → List String → Bool
mentions body merchant keywords = any (λ kw. includes body kw || includes merchant kw) keywords

-- The first category of the table that is mentioned, and the keywords after it.
unfoldable pub category_of : (body merchant : String) → Option Mapping → String
category_of body merchant (some m) = m.category
category_of body merchant none =
    if any (includes body) atm_keywords
    then "ATM"
    else if any (includes body) subscription_keywords
    then "SUBSCRIPTION"
    else if any (includes body) transfer_keywords
    then "TRANSFER"
    else "OTHER"

-- `response?.parsed ?? response?.data?.parsed ?? response?.data ?? response ?? {}`
abbrev pub inner_of : Json → Option Json
inner_of response =
    let r = some response in
    let data_ = member r "data" in
    coalesce (coalesce (coalesce (coalesce (member r "parsed") (member data_ "parsed")) data_) r)
      (some (Json.obj Fields.end))

abbrev pub type_of : Option String → Option TransactionType
type_of none = none
type_of (some s) =
    if str_eq s "CREDIT" then some credit else if str_eq s "DEBIT" then some debit else none

module _ (js : Texts) where
  abbrev pub identify_bank : (sender : String) → Option String
  identify_bank sender =
      elim (find (λ (s : Sender). str_eq s.code (js.trim (js.upper sender))) bank_sender_mapping) [
        | none ↦ none
        | some s ↦ some s.bank
      ]

  abbrev pub lower_option : Option String → String
  lower_option none = ""
  lower_option (some s) = js.lower s

  unfoldable pub categorize_transaction : (body : String) (merchant : Option String) → String
  unfolding category_of
  categorize_transaction body merchant =
      let b = js.lower body in
      let m = lower_option merchant in
      category_of b m (find (λ (e : Mapping). mentions b m e.keywords) category_mappings)

  -- The texts of the answer are taken to be strings where they are given.
  unfoldable pub adapt_ai_parsed_response :
      Json → (body sender : String) (timestamp : ℕ) → ParsedSms
  unfolding categorize_transaction
  adapt_ai_parsed_response response body sender timestamp =
      let inner = inner_of response in
      record {
        raw_sms = body;
        sender = sender;
        timestamp = timestamp;
        amount = number_option (as_number (member inner "amount"));
        merchant = as_string (coalesce (member inner "merchant") (member inner "merchantName"));
        transaction_type = type_of (
            as_string
              (coalesce (member inner "transaction_type") (member inner "transactionType")));
        category = some (
            or_else (as_string (member inner "category"))
              (categorize_transaction body (as_string (member inner "merchant"))));
        balance = number_option (as_number (member inner "balance"));
        account_last4 =
            as_string (coalesce (member inner "account_last_4") (member inner "accountLast4"));
        confidence =
            or_else (as_number (member (some response) "confidence"))
              (or_else (as_number (member inner "confidence")) (pos 0));
      }

  abbrev pub number_of : Option String → QueryNumber
  number_of none = QueryNumber.missing
  number_of (some s) = js.number s

  abbrev pub trimmed : Option String → Option String
  trimmed none = none
  trimmed (some s) = some (js.trim s)

  -- The confidence, part by part, with the bonus for a message that has an amount and a type.
  unfoldable pub confidence_of :
      (amount : Option String) (type : Option TransactionType)
      → (merchant balance account : Option String) → ℕ
  confidence_of amount type merchant balance account =
      let found =
        worth 3000 amount
        + worth 2000 type
        + worth 1000 merchant
        + worth 1000 balance
        + worth 1000 account in
      if has_amount (number_of amount) && is_some type then min (found + 2000) 10000 else found

  unfoldable pub parse_sms_local : (body sender : String) (timestamp : ℕ) → ParsedSms
  unfolding categorize_transaction confidence_of
  parse_sms_local body sender timestamp =
      let amount =
        or_option (js.match_group amount_pattern body) (js.match_group verb_amount_pattern body) in
      let type = type_in (js.lower body) in
      let merchant = trimmed (js.match_group merchant_pattern body) in
      let balance = js.match_group balance_pattern body in
      let account = js.match_group account_pattern body in
      record {
        raw_sms = body;
        sender = sender;
        timestamp = timestamp;
        amount = number_of amount;
        merchant = merchant;
        transaction_type = type;
        category = some (categorize_transaction body merchant);
        balance = number_of balance;
        account_last4 = account;
        confidence = pos (confidence_of amount type merchant balance account);
      }

  -- The AI answer, where there is one with an amount and a type, and else the local parser.
  unfoldable pub choose_parse : Option Json → (body sender : String) (timestamp : ℕ) → ParsedSms
  unfolding parse_sms_local adapt_ai_parsed_response
  choose_parse none body sender timestamp = parse_sms_local body sender timestamp
  choose_parse (some response) body sender timestamp =
      let ai = adapt_ai_parsed_response response body sender timestamp in
      if is_complete ai then ai else parse_sms_local body sender timestamp

  -- `answer` is what the AI service gives, or `none` when the call throws.
  unfoldable pub parse_sms :
      (use_ai_parser : Bool) (answer : Option Json) (body sender : String) (timestamp : ℕ)
      → ParsedSms
  unfolding choose_parse
  parse_sms use_ai_parser answer body sender timestamp =
      choose_parse (if use_ai_parser then answer else none) body sender timestamp
