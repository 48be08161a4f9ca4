-- ===== src/Sms/Keywords.antt =====
-- shared/src/constants/sms.constants.ts: TRANSACTION_KEYWORDS, CATEGORY_MAPPINGS and
-- BANK_SENDER_MAPPING.
use money_management_app.Prelude.{String, List, [], ◌∷◌}

abbrev pub credit_keywords : List String
credit_keywords =
    "credited" ∷ "credited to" ∷ "received" ∷ "deposit" ∷ "transfer to" ∷ "inward transfer"
    ∷ "refund" ∷ "cashback" ∷ "interest" ∷ []

abbrev pub debit_keywords : List String
debit_keywords =
    "debited" ∷ "debited from" ∷ "paid" ∷ "payment" ∷ "purchase" ∷ "withdrawal" ∷ "transfer from"
    ∷ "outward transfer" ∷ "spent" ∷ []

abbrev pub atm_keywords : List String
atm_keywords = "atm" ∷ "cash withdrawal" ∷ "cash withdraw" ∷ []

abbrev pub subscription_keywords : List String
subscription_keywords =
    "subscription" ∷ "recurring" ∷ "auto debit" ∷ "autopay" ∷ "standing instruction" ∷ []

abbrev pub transfer_keywords : List String
transfer_keywords = "transfer" ∷ "imps" ∷ "neft" ∷ "rtgs" ∷ "upi" ∷ []

-- A category with the texts that stand for it, in the order in which they are tried.
pub record Mapping : Type 0 where
  pub category : String
  pub keywords : List String

abbrev pub category_mappings : List Mapping
category_mappings =
    record { category = "SHOPPING"; keywords = "amazon" ∷ "flipkart" ∷ "myntra" ∷ "ajio" ∷ [] }
    ∷ record { category = "GROCERY"; keywords = "bigbasket" ∷ "grofers" ∷ "blinkit" ∷ "zepto" ∷ [] }
    ∷ record {
      category = "FOOD_DINING";
      keywords =
          "swiggy" ∷ "zomato" ∷ "uber eats" ∷ "dineout" ∷ "pizza" ∷ "pizza hut" ∷ "dominos"
          ∷ "domino's" ∷ "kfc" ∷ "mcdonald" ∷ "starbucks" ∷ "cafe" ∷ "restaurant" ∷ [];
    }
    ∷ record { category = "TRANSPORT"; keywords = "uber" ∷ "ola" ∷ "rapido" ∷ [] }
    ∷ record { category = "TRAVEL"; keywords = "irctc" ∷ "makemytrip" ∷ "goibibo" ∷ "redbus" ∷ [] }
    ∷ record { category = "ENTERTAINMENT"; keywords = "netflix" ∷ "prime video" ∷ "hotstar" ∷ [] }
    ∷ record {
      category = "UTILITIES";
      keywords = "jio" ∷ "airtel" ∷ "vi" ∷ "electricity" ∷ "gas" ∷ [];
    }
    ∷ record { category = "HEALTHCARE"; keywords = "pharmacy" ∷ "medicine" ∷ "1mg" ∷ "apollo" ∷ [] }
    ∷ record {
      category = "FUEL";
      keywords = "fuel" ∷ "petrol" ∷ "diesel" ∷ "hpcl" ∷ "iocl" ∷ "bpcl" ∷ [];
    }
    ∷ record {
      category = "SUBSCRIPTION";
      keywords = "subscription" ∷ "recurring" ∷ "auto debit" ∷ [];
    }
    ∷ []

pub record Sender : Type 0 where
  pub code : String
  pub bank : String

abbrev pub bank_sender_mapping : List Sender
bank_sender_mapping =
    record { code = "HDFCBK"; bank = "HDFC Bank" }
    ∷ record { code = "HDFC"; bank = "HDFC Bank" }
    ∷ record { code = "ICICIB"; bank = "ICICI Bank" }
    ∷ record { code = "ICICI"; bank = "ICICI Bank" }
    ∷ record { code = "SBIBNK"; bank = "SBI" }
    ∷ record { code = "SBI"; bank = "SBI" }
    ∷ record { code = "AXIBNK"; bank = "Axis Bank" }
    ∷ record { code = "AXIS"; bank = "Axis Bank" }
    ∷ record { code = "KKBK"; bank = "Kotak Mahindra Bank" }
    ∷ record { code = "KOTAK"; bank = "Kotak Mahindra Bank" }
    ∷ record { code = "SWIGGY"; bank = "Swiggy" }
    ∷ record { code = "ZOMATO"; bank = "Zomato" }
    ∷ record { code = "UBER"; bank = "Uber" }
    ∷ record { code = "OLA"; bank = "Ola" }
    ∷ record { code = "NETFLIX"; bank = "Netflix" }
    ∷ record { code = "AMZN"; bank = "Amazon" }
    ∷ record { code = "FLIPKART"; bank = "Flipkart" }
    ∷ []
