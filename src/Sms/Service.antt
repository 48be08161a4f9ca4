-- ===== src/Sms/Service.antt =====
-- ingestSms, getUnprocessedSms and getSmsHistory of backend/src/modules/sms/sms.service.ts. `fresh` is
-- the uuid of a new transaction and `log_id` that of a new log.
use money_management_app.Prelude.{
  ℕ, ◌+◌, ◌-◌, ◌*◌, ◌/◌, Bool, true, false, ◌&&◌, not, Option, none, some, String, List, any, head,
  ◌==◌, leb, if◌then◌else◌, or_else, or_option, or_text, Result, ok, err, internal, append,
}
use money_management_app.Prelude.Int.{ℤ, pos}
use money_management_app.Broker.{Event, publish_transaction_created}
use money_management_app.Orm.Client.{Client}
use money_management_app.Orm.Query.{having, find_unique, find_all, count, update}
use money_management_app.Transactions.Schema.{
  Transaction, TransactionSource, credit, transactions, QueryNumber,
}
use money_management_app.Sms.Schema.{ParsedSms, SmsLog, sms_logs, SmsIngestDto, SmsParseResponse}
use money_management_app.Sms.Parsing.{is_complete}

-- The tables and the queue of events.
pub record Stores : Type 0 where
  pub logs : List SmsLog
  pub transaction_rows : List Transaction
  pub queue : List Event

-- What the service relies on from outside: the digest, the text of an id, which categories the
-- database knows (the foreign key of `categoryId`), whether the broker takes an event, and whether the
-- database moves `updatedAt` for an upsert that has nothing to update.
pub record World : Type 0 where
  pub sha256 : String → ℕ
  pub id_text : ℕ → String
  pub category_exists : String → Bool
  pub accepts : Event → Bool
  pub empty_update_touches : Bool

-- `new Date(dto.timestamp ?? dto.receivedAt ?? new Date())`
abbrev pub received : SmsIngestDto → (now : ℕ) → ℕ
received dto now = or_else (or_option dto.timestamp dto.received_at) now

-- `(userId, externalReferenceId)`
abbrev pub has_reference : (user_id hash : ℕ) → Transaction → Bool
has_reference user_id hash t =
    (t.user_id == user_id) && (elim t.external_reference_id [ none ↦ false | some h ↦ h == hash ])

-- The amount and type of a message that has them.
abbrev pub amount_of : QueryNumber → ℤ
amount_of (QueryNumber.num n) = n
amount_of _ = pos 0

module _ (world : World) where
  unfoldable pub compute_dedup_hash : (user_id : ℕ) (sender body : String) (received_at : ℕ) → ℕ
  compute_dedup_hash user_id sender body received_at = world.sha256 (
      append (world.id_text user_id) (
        append "|" (
          append sender
            (append "|" (append body (append "|" (world.id_text (received_at / 1000))))))))

  -- The `create` of the upsert.
  unfoldable pub sms_transaction :
      (user_id : ℕ) → SmsIngestDto → ParsedSms → (hash id now : ℕ) → Transaction
  sms_transaction user_id dto parsed hash id now = record {
    id = id;
    user_id = user_id;
    account_id = none;
    amount = amount_of parsed.amount;
    type = or_else parsed.transaction_type credit;
    category_id = parsed.category;
    merchant_name = parsed.merchant;
    description = none;
    transaction_date = parsed.timestamp;
    source = TransactionSource.sms;
    ai_suggested_category = parsed.category;
    ai_suggested_merchant = parsed.merchant;
    ai_confidence = some parsed.confidence;
    is_user_confirmed = false;
    external_reference_id = some hash;
    raw_sms_text = some dto.body;
    sms_sender_id = some dto.sender;
    is_subscription = false;
    subscription_id = none;
    is_impulse = false;
    is_late_night = false;
    is_weekend = false;
    deleted_at = none;
    created_at = now;
    updated_at = now;
  }

  -- The foreign key on the category.
  abbrev pub category_fits : Option String → Bool
  category_fits none = true
  category_fits (some c) = world.category_exists c

  abbrev pub touch : (now : ℕ) → Transaction → Transaction
  touch now t = if world.empty_update_touches then record t { updated_at = now } else t

  module _ (orm : Client) where
    -- `upsert`, which the middleware leaves alone: on the row that has the reference, deleted or not.
    unfoldable pub upsert_found :
        (now : ℕ)
        → Transaction
        → List Transaction
        → Option Transaction
        → Result Transaction × List Transaction
    upsert_found now t rows none =
        if category_fits t.category_id then (ok t, orm.insert t rows) else (err internal, rows)
    upsert_found now t rows (some r) =
        (ok (touch now r), orm.update_many (λ s. s.id == r.id) (touch now) rows)

    -- `transactionId` is unique among the logs.
    unfoldable pub link_log : (log_id transaction_id : ℕ) → List SmsLog → Result Unit × List SmsLog
    link_log log_id transaction_id logs =
        if any
          (λ l.
            not (l.id == log_id)
            && (elim l.transaction_id [ none ↦ false | some i ↦ i == transaction_id ]))
          logs
        then (err internal, logs)
        else (
          ok tt,
          (update orm sms_logs (having (λ l. l.id == log_id))
              (λ l. record l { transaction_id = some transaction_id }) logs).1,
        )

    abbrev pub response : ParsedSms → Bool → Option ℕ → SmsParseResponse
    response parsed created id = record {
      success = true;
      parsed = parsed;
      transaction_created = created;
      transaction_id = id;
    }

    -- The rest of the `try`, once the log is linked.
    unfoldable pub announce :
        (user_id : ℕ) → ParsedSms → Transaction → Stores → SmsParseResponse × Stores
    unfolding publish_transaction_created
    announce user_id parsed t s =
        let created = t.created_at == t.updated_at in
        (
          response parsed created (some t.id),
          record s {
            queue =
                if created
                then publish_transaction_created world.accepts t.id user_id
                    (amount_of parsed.amount) (or_text parsed.category "UNKNOWN") s.queue
                else s.queue;
          },
        )

    unfoldable pub after_link :
        (user_id : ℕ)
        → ParsedSms
        → Transaction
        → Stores
        → Result Unit × List SmsLog
        → SmsParseResponse × Stores
    unfolding announce
    after_link user_id parsed t s (err e, logs) =
        (response parsed false none, record s { logs = logs })
    after_link user_id parsed t s (ok u, logs) =
        announce user_id parsed t (record s { logs = logs })

    -- What is done after the upsert; an error in the `try` is logged, and nothing was created.
    unfoldable pub after_upsert :
        (user_id log_id : ℕ)
        → ParsedSms
        → Stores
        → Result Transaction × List Transaction
        → SmsParseResponse × Stores
    unfolding link_log after_link
    after_upsert user_id log_id parsed s (err e, rows) =
        (response parsed false none, record s { transaction_rows = rows })
    after_upsert user_id log_id parsed s (ok t, rows) =
        after_link user_id parsed t (record s { transaction_rows = rows })
          (link_log log_id t.id s.logs)

    -- The message that was ingested before.
    unfoldable pub duplicate_response :
        SmsIngestDto → (received_at : ℕ) → Transaction → SmsParseResponse
    duplicate_response dto received_at t = record {
      success = true;
      parsed = record {
        raw_sms = dto.body;
        sender = dto.sender;
        timestamp = received_at;
        amount = QueryNumber.num t.amount;
        merchant = t.merchant_name;
        transaction_type = some t.type;
        category = t.category_id;
        balance = QueryNumber.missing;
        account_last4 = none;
        confidence = or_else t.ai_confidence (pos 0);
      };
      transaction_created = false;
      transaction_id = some t.id;
    }

    abbrev pub new_log : (user_id : ℕ) → SmsIngestDto → (log_id now : ℕ) → SmsLog
    new_log user_id dto log_id now = record {
      id = log_id;
      user_id = user_id;
      body = dto.body;
      sender = dto.sender;
      phone_number = dto.phone_number;
      received_at = received dto now;
      is_processed = false;
      parsed_data = none;
      transaction_id = none;
      created_at = now;
    }

    -- The log is written before the parse, and marked after it.
    unfoldable pub logged :
        (user_id : ℕ) → SmsIngestDto → ParsedSms → (log_id now : ℕ) → List SmsLog → List SmsLog
    logged user_id dto parsed log_id now logs =
        (update orm sms_logs (having (λ l. l.id == log_id))
          (λ l. record l { is_processed = true; parsed_data = some parsed })
          (orm.insert (new_log user_id dto log_id now) logs)).1

    -- The rest of `ingestSms`, once the reference has been looked for.
    unfoldable pub ingest_found :
        (user_id : ℕ)
        → SmsIngestDto
        → ParsedSms
        → (hash log_id id now : ℕ) → Stores
        → Option Transaction
        → SmsParseResponse × Stores
    unfolding duplicate_response logged after_upsert upsert_found sms_transaction
    ingest_found user_id dto parsed hash log_id id now s (some t) =
        (duplicate_response dto (received dto now) t, s)
    ingest_found user_id dto parsed hash log_id id now s none =
        let s' = record s { logs = logged user_id dto parsed log_id now s.logs } in
        if is_complete parsed
        then after_upsert user_id log_id parsed s' (
            upsert_found now (sms_transaction user_id dto parsed hash id now) s.transaction_rows
              (head (orm.find_many (has_reference user_id hash) s.transaction_rows)))
        else (response parsed false none, s')

    -- `parse` is parseSms, given the time of the message.
    unfoldable pub ingest_sms :
        (parse : (body sender : String) (timestamp : ℕ) → ParsedSms)
        → (user_id : ℕ) → SmsIngestDto
        → (log_id id now : ℕ) → Stores
        → SmsParseResponse × Stores
    unfolding compute_dedup_hash ingest_found
    ingest_sms parse user_id dto log_id id now s =
        let hash = compute_dedup_hash user_id dto.sender dto.body (received dto now) in
        ingest_found user_id dto (parse dto.body dto.sender (received dto now)) hash log_id id now s
          (find_unique orm transactions (having (has_reference user_id hash)) s.transaction_rows)

pub record SmsPage : Type 0 where
  pub data_ : List SmsLog
  pub total : ℕ
  pub page : ℕ
  pub limit : ℕ
  pub total_pages : ℕ

module _ (orm : Client) where
  -- `orderBy: { receivedAt: 'desc' }`
  abbrev pub latest_first : SmsLog → SmsLog → Bool
  latest_first l m = leb m.received_at l.received_at

  unfoldable pub get_unprocessed_sms : (user_id limit : ℕ) → List SmsLog → List SmsLog
  get_unprocessed_sms user_id limit logs = orm.slice 0 limit (
      orm.order_by latest_first
        (find_all orm sms_logs (having (λ l. (l.user_id == user_id) && not l.is_processed)) logs))

  -- For a page and a limit of at least 1; the controller passes on what the request asks for.
  unfoldable pub get_sms_history : (user_id page limit : ℕ) → List SmsLog → SmsPage
  get_sms_history user_id page limit logs =
      let condition = having (λ (l : SmsLog). l.user_id == user_id) in
      let total = count orm sms_logs condition logs in
      record {
        data_ =
            orm.slice ((page - 1) * limit) limit
              (orm.order_by latest_first (find_all orm sms_logs condition logs));
        total = total;
        page = page;
        limit = limit;
        total_pages = (total + limit - 1) / limit;
      }
