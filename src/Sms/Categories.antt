-- ===== src/Sms/Categories.antt =====
-- The categories that the parsers give, and the foreign key on the category.
use money_management_app.Prelude.{
  ℕ, ◌≤◌, ◌≡◌, refl, Bool, true, false, Option, none, some, String, List, [], ◌∷◌, ◌++◌, ◌&&◌,
  is_some, or_option, map, any, find, find-All, All, if◌then◌else◌, Bool-cases, inl, inr, arith,
}
use money_management_app.Prelude.Int.{pos}
use money_management_app.Orm.Client.{Client}
use money_management_app.Transactions.Schema.{TransactionType}
use money_management_app.Sms.Schema.{SmsIngestDto}
use money_management_app.Sms.Keywords.{
  Mapping, category_mappings, atm_keywords, subscription_keywords, transfer_keywords,
}
use money_management_app.Sms.Parsing.{
  Texts, includes, mentions, category_of, lower_option, categorize_transaction, parse_sms_local,
  choose_parse, parse_sms, is_complete, worth, has_amount, number_of, confidence_of, type_in,
  trimmed, amount_pattern, verb_amount_pattern, merchant_pattern, balance_pattern, account_pattern,
}
use money_management_app.Sms.Service.{Stores, World, received, category_fits, has_reference}
use money_management_app.Sms.Ingest.{
  reference_at, ingest_at, ingest_sms_unknown, ingest_refused, ingest_incomplete,
}

-- The names that `categorizeTransaction` can return.
abbrev pub category_names : List String
category_names =
    map (λ (m : Mapping). m.category) category_mappings
    ++ "ATM" ∷ "SUBSCRIPTION" ∷ "TRANSFER" ∷ "OTHER" ∷ []

All-split : {A : Type 0} (P : A → Type 0) (xs ys : List A) → All P (xs ++ ys) → All P xs × All P ys
All-split P [] ys h = (tt, h)
All-split P (x ∷ xs) ys h = let (a, b) = All-split P xs ys h.1 in ((h.0, a), b)

All-unmap :
    {A B : Type 0} (P : B → Type 0) (f : A → B) (xs : List A)
    → All P (map f xs)
    → All (λ x. P (f x)) xs
All-unmap P f [] h = tt
All-unmap P f (x ∷ xs) h = (h.0, All-unmap P f xs h.1)

module _ (js : Texts) (P : String → Type 0) (named : All P category_names) where
  split :
      All P (map (λ (m : Mapping). m.category) category_mappings)
      × All P ("ATM" ∷ "SUBSCRIPTION" ∷ "TRANSFER" ∷ "OTHER" ∷ [])
  split =
      All-split P (map (λ (m : Mapping). m.category) category_mappings)
        ("ATM" ∷ "SUBSCRIPTION" ∷ "TRANSFER" ∷ "OTHER" ∷ []) named

  category_of-All :
      (body merchant : String) (found : Option Mapping)
      → find (λ (e : Mapping). mentions body merchant e.keywords) category_mappings ≡ found
      → P (category_of body merchant found)
  unfolding category_of
  category_of-All body merchant (some m) e =
      find-All (λ (x : Mapping). P (x.category))
        (λ (x : Mapping). mentions body merchant x.keywords) category_mappings e
        (All-unmap P (λ (x : Mapping). x.category) category_mappings split.0)
  category_of-All body merchant none e =
      let a = any (includes body) atm_keywords in
      let b = any (includes body) subscription_keywords in
      let c = any (includes body) transfer_keywords in choose a b c
    where
      choose :
          (a b c : Bool)
          → P (if a then "ATM" else if b then "SUBSCRIPTION" else if c then "TRANSFER" else "OTHER")
      choose true b c = split.1.0
      choose false true c = split.1.1.0
      choose false false true = split.1.1.1.0
      choose false false false = split.1.1.1.1.0

  categorize_transaction-All :
      (body : String) (merchant : Option String) → P (categorize_transaction js body merchant)
  unfolding categorize_transaction
  categorize_transaction-All body merchant =
      category_of-All (js.lower body) (lower_option js merchant) _ refl

module _ (js : Texts) (use_ai_parser : Bool) where
  -- Without an answer of the AI service the local parser is used.
  parse_sms-none :
      (body sender : String) (timestamp : ℕ)
      → parse_sms js use_ai_parser none body sender timestamp
        ≡ parse_sms_local js body sender timestamp
  unfolding parse_sms choose_parse
  parse_sms-none body sender timestamp = elim (Bool-cases use_ai_parser) [
    | inl e ↦ rw e
    | inr e ↦ rw e
  ]

  module _ (world : World) (orm : Client) (user_id : ℕ) (dto : SmsIngestDto) where
    refused_category :
        (timestamp : ℕ)
        → All (λ c. world.category_exists c ≡ false) category_names
        → category_fits world
            (parse_sms js use_ai_parser none dto.body dto.sender timestamp).category
          ≡ false
    unfolding parse_sms_local
    refused_category timestamp unknown =
        rw (parse_sms-none dto.body dto.sender timestamp)
          (categorize_transaction-All js (λ c. world.category_exists c ≡ false) unknown dto.body _)

    -- If no row of the category table has the name of a category as its id, then no message that the local
    -- parser reads ever becomes a transaction, whatever it says: the call reports success without a creation,
    -- no transaction is written and nothing is published, for a message that was not ingested before.
    pub ingest_sms-no_category :
        (log_id id now : ℕ) (s : Stores)
        → All (λ c. world.category_exists c ≡ false) category_names
        → find (has_reference user_id (reference_at world orm user_id dto now)) s.transaction_rows
          ≡ none
        → let (r, s') =
            ingest_at world orm user_id dto (parse_sms js use_ai_parser none) log_id id now s in
          (r.success ≡ true)
          × (r.transaction_created ≡ false)
          × (s'.transaction_rows ≡ s.transaction_rows)
          × (s'.queue ≡ s.queue)
    ingest_sms-no_category log_id id now s none_known unknown =
        let parse = parse_sms js use_ai_parser none in
        let parsed = parse dto.body dto.sender (received dto now) in
        let first = ingest_sms_unknown world orm user_id dto parse log_id id now s unknown in
        elim (Bool-cases (is_complete parsed)) [
          | inl e ↦
              rw
                (
                  first,
                  ingest_refused world orm user_id dto parsed _ log_id id now s e unknown
                      (refused_category (received dto now) none_known),
                )
                (refl, refl, refl, refl)
          | inr e ↦
              rw (first, ingest_incomplete world orm user_id dto parsed _ log_id id now s e)
                (refl, refl, refl, refl)
        ]

worth-le : {A : Type 0} (n : ℕ) (o : Option A) → worth n o ≤ n
worth-le n none = omega arith
worth-le n (some a) = omega arith

confidence_of-bounds :
    (js : Texts) (amount : Option String) (type : Option TransactionType)
    → (merchant balance account : Option String)
    → (has_amount (number_of js amount) && is_some type) ≡ true
    → (7000 ≤ confidence_of js amount type merchant balance account)
      × (confidence_of js amount type merchant balance account ≤ 10000)
unfolding confidence_of
confidence_of-bounds js none type merchant balance account full = cc
confidence_of-bounds js (some a) none merchant balance account full = ground arith
confidence_of-bounds js (some a) (some t) merchant balance account full =
    rw (full, confidence_of)
      (omega (arith, worth-le 1000 merchant, worth-le 1000 balance, worth-le 1000 account))

-- The local parser is sure of a message that has an amount and a type to at least 0.7, and to at most 1.
pub parse_sms_local-confidence :
    (js : Texts) (body sender : String) (timestamp : ℕ)
    → is_complete (parse_sms_local js body sender timestamp) ≡ true
    → (n : ℕ) × ((parse_sms_local js body sender timestamp).confidence ≡ pos n)
      × (7000 ≤ n)
      × (n ≤ 10000)
unfolding parse_sms_local
parse_sms_local-confidence js body sender timestamp full =
    let (lo, hi) =
      confidence_of-bounds js
        (or_option (js.match_group amount_pattern body) (js.match_group verb_amount_pattern body))
        (type_in (js.lower body)) (trimmed js (js.match_group merchant_pattern body))
        (js.match_group balance_pattern body) (js.match_group account_pattern body) full in
    (_, refl, lo, hi)
