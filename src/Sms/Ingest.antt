-- ===== src/Sms/Ingest.antt =====
-- A message that is sent again creates no second transaction.
use money_management_app.Prelude.{
  ℕ, ◌≡◌, ◌≢◌, refl, sym, ap, ◌∙◌, Bool, true, false, none, some, String, List, [], ◌∷◌, ◌++◌, find,
  head-filter, ==_refl, if◌then◌else◌, Bool-cases, inl, inr, arith, Result, ok, err, internal, head,
}
use money_management_app.Orm.Client.{Client}
use money_management_app.Orm.SoftDelete.{Action}
use money_management_app.Orm.Query.{having, reach, find_unique-find}
use money_management_app.Transactions.Schema.{Transaction, transactions}
use money_management_app.Sms.Schema.{ParsedSms, SmsLog, SmsIngestDto, SmsParseResponse}
use money_management_app.Sms.Parsing.{is_complete}
use money_management_app.Sms.Service.{
  Stores, World, received, has_reference, compute_dedup_hash, category_fits, sms_transaction,
  upsert_found, after_link, after_upsert, response, announce, link_log, logged, ingest_found,
  ingest_sms, duplicate_response,
}

module _ (world : World) (orm : Client) where
  after_link-created :
      (user_id : ℕ) (parsed : ParsedSms) (t : Transaction) (s : Stores)
      (o : Result Unit × List SmsLog)
      → (after_link world orm user_id parsed t s o).0.transaction_created ≡ true
      → ((after_link world orm user_id parsed t s o).1.transaction_rows ≡ s.transaction_rows)
        × ((after_link world orm user_id parsed t s o).0.transaction_id ≡ some t.id)
  unfolding after_link announce
  after_link-created user_id parsed t s (err e, logs) done = cc
  after_link-created user_id parsed t s (ok u, logs) done = (refl, refl)

  module _ (user_id : ℕ) (dto : SmsIngestDto) (parsed : ParsedSms) (hash log_id id now : ℕ)
      (s : Stores) where
    abbrev new_row : Transaction
    new_row = sms_transaction world user_id dto parsed hash id now

    abbrev pub with_log : Stores
    with_log = record s { logs = logged world orm user_id dto parsed log_id now s.logs }

    -- The ingest of a message whose reference is not found.
    abbrev pub ingested : SmsParseResponse × Stores
    ingested = ingest_found world orm user_id dto parsed hash log_id id now s none

    pub ingest_incomplete :
        is_complete parsed ≡ false → ingested ≡ (response world orm parsed false none, with_log)
    unfolding ingest_found
    ingest_incomplete e = rw (e, ingest_found)

    upsert_new :
        find (has_reference user_id hash) s.transaction_rows ≡ none
        → (if category_fits world new_row.category_id
            then (ok new_row, s.transaction_rows ++ new_row ∷ [])
            else (err internal, s.transaction_rows))
          ≡ upsert_found world orm now new_row s.transaction_rows
              (head (orm.find_many (has_reference user_id hash) s.transaction_rows))
    unfolding upsert_found
    upsert_new unknown = rw (orm.find_many-filter, head-filter, unknown, orm.insert-append)

    pub ingest_refused :
        is_complete parsed ≡ true
        → find (has_reference user_id hash) s.transaction_rows ≡ none
        → category_fits world parsed.category ≡ false
        → ingested ≡ (response world orm parsed false none, with_log)
    unfolding ingest_found after_upsert sms_transaction
    ingest_refused e unknown bad = rw (e, ingest_found, ← upsert_new unknown, bad)

    pub ingest_new :
        is_complete parsed ≡ true
        → find (has_reference user_id hash) s.transaction_rows ≡ none
        → category_fits world parsed.category ≡ true
        → ingested
          ≡ after_link world orm user_id parsed new_row
              (record with_log { transaction_rows = s.transaction_rows ++ new_row ∷ [] })
              (link_log world orm log_id id with_log.logs)
    unfolding ingest_found after_upsert sms_transaction
    ingest_new e unknown good = rw (e, ingest_found, ← upsert_new unknown, good)

    ingested-created :
        find (has_reference user_id hash) s.transaction_rows ≡ none
        → ingested.0.transaction_created ≡ true
        → (ingested.1.transaction_rows ≡ s.transaction_rows ++ new_row ∷ [])
          × (ingested.0.transaction_id ≡ some id)
    unfolding sms_transaction
    ingested-created unknown done = elim (Bool-cases (is_complete parsed)) [
      | inl e ↦ elim (Bool-cases (category_fits world parsed.category)) [
        | inl good ↦
            let same = ingest_new e unknown good in
            rw same (
              after_link-created user_id parsed new_row
                (record with_log { transaction_rows = s.transaction_rows ++ new_row ∷ [] })
                (link_log world orm log_id id with_log.logs) (rw same at done))
        | inr bad ↦ absurd (no_creation (rw (ingest_refused e unknown bad) at done))
      ]
      | inr e ↦ absurd (no_creation (rw (ingest_incomplete e) at done))
    ]
      where
        no_creation : false ≢ true
        no_creation k = cc

-- The reference is found once the row stands at the end.
find-last :
    {A : Type 0} (p q : A → Bool) (xs : List A) (x : A)
    → find p xs ≡ none
    → ((y : A) → p y ≡ false → q y ≡ false)
    → q x ≡ true
    → find q (xs ++ x ∷ []) ≡ some x
find-last p q [] x e sub h = rw h
find-last p q (y ∷ ys) x e sub h = elim (Bool-cases (p y)) [
  | inl k ↦ absurd (hit (rw k at e))
  | inr k ↦ rw (sub y k) (find-last p q ys x (rw k at e) sub h)
]
  where
    hit : some y ≢ none
    hit k = cc

none_reached :
    {A : Type 0} (p q : A → Bool) (xs : List A)
    → ((y : A) → p y ≡ false → q y ≡ false)
    → find p xs ≡ none
    → find q xs ≡ none
none_reached p q [] sub e = refl
none_reached p q (y ∷ ys) sub e = ground (arith, sub y, none_reached p q ys sub)

module _ (world : World) (orm : Client) (user_id : ℕ) (dto : SmsIngestDto) where
  abbrev pub reference_at : (now : ℕ) → ℕ
  reference_at now = compute_dedup_hash world user_id dto.sender dto.body (received dto now)

  abbrev pub ingest_at :
      (parse : (body sender : String) (timestamp : ℕ) → ParsedSms)
      → (log_id id now : ℕ) → Stores
      → SmsParseResponse × Stores
  ingest_at parse log_id id now s = ingest_sms world orm parse user_id dto log_id id now s

  pub ingest_sms_unknown :
      (parse : (body sender : String) (timestamp : ℕ) → ParsedSms) (log_id id now : ℕ) (s : Stores)
      → find (has_reference user_id (reference_at now)) s.transaction_rows ≡ none
      → ingest_at parse log_id id now s
        ≡ ingested world orm user_id dto
            (parse dto.body dto.sender (received dto now))
            (reference_at now)
            log_id
            id
            now
            s
  unfolding ingest_sms reach
  ingest_sms_unknown parse log_id id now s e =
      let p = has_reference user_id (reference_at now) in
      ap
        (ingest_found world orm user_id dto (parse dto.body dto.sender (received dto now))
          (reference_at now) log_id id now s)
        (find_unique-find orm transactions (having p) s.transaction_rows
          ∙ none_reached p (reach transactions Action.find_unique (having p)) s.transaction_rows
              (λ y k. ground arith) e)

  -- With the row at the end, the message is a duplicate.
  ingest_sms_again :
      (parse : (body sender : String) (timestamp : ℕ) → ParsedSms) (log_id id now : ℕ)
      → (s : Stores) (rows : List Transaction) (t : Transaction)
      → find (has_reference user_id (reference_at now)) rows ≡ none
      → reach transactions Action.find_unique (having (has_reference user_id (reference_at now))) t
        ≡ true
      → s.transaction_rows ≡ rows ++ t ∷ []
      → ingest_at parse log_id id now s ≡ (duplicate_response world orm dto (received dto now) t, s)
  unfolding ingest_sms ingest_found reach
  ingest_sms_again parse log_id id now s rows t e hit same =
      let p = has_reference user_id (reference_at now) in
      ap
        (ingest_found world orm user_id dto (parse dto.body dto.sender (received dto now))
          (reference_at now) log_id id now s)
        (find_unique-find orm transactions (having p) s.transaction_rows
          ∙ ap (find (reach transactions Action.find_unique (having p))) same
          ∙ find-last p (reach transactions Action.find_unique (having p)) rows t e
              (λ y k. ground arith) hit)

  new_row_reached :
      (parsed : ParsedSms) (hash id now : ℕ)
      → reach transactions Action.find_unique
          (having (has_reference user_id hash))
          (sms_transaction world user_id dto parsed hash id now)
        ≡ true
  unfolding reach sms_transaction
  new_row_reached parsed hash id now = ground (arith, ==_refl user_id, ==_refl hash)

  -- A message that made a transaction makes no other when it is sent again in the same second, however it
  -- is parsed then: the second call reports no creation and the same transaction, and it changes no table
  -- and publishes nothing; this if no transaction of the user, deleted or not, had the reference before.
  pub ingest_sms-once :
      (parse reparse : (body sender : String) (timestamp : ℕ) → ParsedSms)
      → (log_id id now log_id' id' later : ℕ) (s : Stores)
      → find (has_reference user_id (reference_at now)) s.transaction_rows ≡ none
      → (ingest_at parse log_id id now s).0.transaction_created ≡ true
      → reference_at later ≡ reference_at now
      → let (r, s') = ingest_at parse log_id id now s in
        ((ingest_at reparse log_id' id' later s').1 ≡ s')
        × ((ingest_at reparse log_id' id' later s').0.transaction_created ≡ false)
        × ((ingest_at reparse log_id' id' later s').0.transaction_id ≡ r.transaction_id)
  unfolding duplicate_response sms_transaction
  ingest_sms-once parse reparse log_id id now log_id' id' later s unknown done same =
      let parsed = parse dto.body dto.sender (received dto now) in
      let hash = reference_at now in
      let first = ingest_sms_unknown parse log_id id now s unknown in
      let (rows, named) =
        ingested-created world orm user_id dto parsed hash log_id id now s unknown
          (rw first at done) in
      let t = sms_transaction world user_id dto parsed hash id now in
      let again =
        ingest_sms_again reparse log_id' id' later
          (ingested world orm user_id dto parsed hash log_id id now s).1 s.transaction_rows t
          (rw same unknown) (rw same (new_row_reached parsed hash id now)) rows in
      rw (first, again) (refl, refl, sym named)
