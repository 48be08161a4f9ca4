-- ===== src/Tests/Sms.antt =====
-- The message parser and the ingest at concrete inputs.
use money_management_app.Prelude.{
  List, [], ◌∷◌, ℕ, ◌≤◌, ◌≡◌, refl, true, false, none, some, String, [], List, ◌∷◌, All,
  if◌then◌else◌, str_eq,
}
use money_management_app.Prelude.Int.{pos}
use money_management_app.Orm.Query.{reach, update, find_unique}
use money_management_app.Transactions.Schema.{QueryNumber}
use money_management_app.Sms.Schema.{ParsedSms, SmsIngestDto, SmsParseResponse}
use money_management_app.Sms.Parsing.{
  Texts, amount_pattern, is_complete, parse_sms_local, parse_sms,
}
use money_management_app.Sms.Service.{
  Stores, World, ingest_sms, compute_dedup_hash, ingest_found, logged, after_upsert, upsert_found,
  sms_transaction, announce, link_log, after_link,
}
use money_management_app.Sms.Ingest.{ingest_at, ingest_sms-once}
use money_management_app.Sms.Categories.{
  category_names, ingest_sms-no_category, parse_sms_local-confidence,
}
use money_management_app.Tests.Data.{list_client}

-- The amount is found, and nothing else.
abbrev texts : Texts
texts = record {
  lower = λ s. s;
  upper = λ s. s;
  trim = λ s. s;
  number = λ s. QueryNumber.num (pos 45000);
  match_group = λ pattern t. if str_eq pattern amount_pattern then some "450" else none;
}

abbrev message : SmsIngestDto
message = record {
  body = "rs 450 debited at swiggy";
  sender = "HDFCBK";
  phone_number = none;
  timestamp = some 5000;
  received_at = none;
}

abbrev world : World
world = record {
  sha256 = λ s. 77;
  id_text = λ n. "7";
  category_exists = λ c. str_eq c "FOOD_DINING";
  accepts = λ e. true;
  empty_update_touches = false;
}

abbrev bare_world : World
bare_world = record world { category_exists = λ c. false }

abbrev nothing : Stores
nothing = record { logs = []; transaction_rows = []; queue = [] }

abbrev local : (body sender : String) (timestamp : ℕ) → ParsedSms
local = parse_sms_local texts

abbrev first_time : SmsParseResponse × Stores
first_time = ingest_at world list_client 7 message local 1 11 6000 nothing

first_creates : first_time.0.transaction_created ≡ true
unfolding ingest_sms reach compute_dedup_hash ingest_found logged after_upsert upsert_found
    sms_transaction parse_sms_local announce link_log after_link update find_unique
first_creates = refl

ingest_sms-once_example :
    ((ingest_at world list_client 7 message local 2 12 9000 first_time.1).1 ≡ first_time.1)
    × ((ingest_at world list_client 7 message local 2 12 9000 first_time.1).0.transaction_created
        ≡ false)
    × ((ingest_at world list_client 7 message local 2 12 9000 first_time.1).0.transaction_id
        ≡ first_time.0.transaction_id)
ingest_sms-once_example =
    ingest_sms-once world list_client 7 message local local 1 11 6000 2 12 9000 nothing refl
      first_creates refl

none_known : (cs : List String) → All (λ c. bare_world.category_exists c ≡ false) cs
none_known [] = tt
none_known (c ∷ cs) = (refl, none_known cs)

ingest_sms-no_category_example :
    let (r, s) =
      ingest_at bare_world list_client 7 message (parse_sms texts false none) 1 11 6000 nothing in
    (r.success ≡ true)
    × (r.transaction_created ≡ false)
    × (s.transaction_rows ≡ [])
    × (s.queue ≡ [])
ingest_sms-no_category_example =
    ingest_sms-no_category texts false bare_world list_client 7 message 1 11 6000 nothing
      (none_known category_names) refl

is_read : is_complete (local "rs 450 debited at swiggy" "HDFCBK" 5000) ≡ true
unfolding parse_sms_local
is_read = refl

parse_sms_local-confidence_example :
    (n : ℕ) × ((local "rs 450 debited at swiggy" "HDFCBK" 5000).confidence ≡ pos n)
    × (7000 ≤ n)
    × (n ≤ 10000)
parse_sms_local-confidence_example =
    parse_sms_local-confidence texts "rs 450 debited at swiggy" "HDFCBK" 5000 is_read
