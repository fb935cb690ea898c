-- ===== src/Alerts/Message.antt =====
-- The message of a fired alert (`check_alerts` of app/services/alert_service.py).
use Prim.Native.String.{String, ◌++◌}
use price_monitoring_service.Prelude.{ℕ, Option, none, some}
use price_monitoring_service.Decimal.{Decimal}
use price_monitoring_service.Schemas.{Currency, code}
use price_monitoring_service.Env.{Email, Env}

-- a row of `list_triggered`
pub record TriggeredRow : Type 0 where
  pub id : ℕ
  pub email : String
  pub product_title : String
  pub threshold_price_usd : Decimal
  pub currency_code : Option Currency
  pub min_price_usd : Decimal

abbrev code_text : Option Currency → String
code_text none = "None"
code_text (some c) = code c

unfoldable pub message : Env → TriggeredRow → Email
message env row = record {
  to = row.email;
  subject = "Price dropped: " ++ row.product_title;
  body =
      "The price of \""
      ++ row.product_title
      ++ "\" reached your threshold.\n\n"
      ++ "Current lowest price: $"
      ++ env.str_decimal row.min_price_usd
      ++ "\n"
      ++ "Your threshold: $"
      ++ env.str_decimal row.threshold_price_usd
      ++ " (set in "
      ++ code_text row.currency_code
      ++ ")\n";
}
