-- ===== src/Payments/Service/Validate.antt =====
-- payment.service.ts: `validateCreatePaymentInput`. A body is what `JSON.parse` answers, so that no
-- value in it is a Date. What `new Date(text)` reads is a parameter, with times before 1970 as 0.
use queue_system.Prelude.{
  ℕ, ◌+◌, Bool, true, false, String, Option, none, some, ◌==◌, ltb, leb, str_eq, if◌then◌else◌,
}
use queue_system.Prelude.Chars.{js_length, all_upper}
use queue_system.Domain.Json.{Json, null, number, text, object, whole, Fields, end, field}
use queue_system.Domain.Payment.{PaymentPriority, high, normal, low, default_max_retries}
use queue_system.Payments.Exec.{Result, ok, raised}
use queue_system.Payments.Service.{CreatePaymentInput}

abbrev pub max_delay_ms : ℕ
max_delay_ms = 2_147_483_000

-- `body[key]`, where `none` is `undefined`.
unfoldable pub property : String → Fields → Option Json
property key end = none
property key (field k v rest) = elim (property key rest) [
  | some w ↦ some w
  | none ↦ if str_eq key k then some v else none
]

-- `v ?? d`
abbrev value_or : Option Json → Json → Json
value_or none d = d
value_or (some null) d = d
value_or (some v) d = v

-- `if (…) throw new BadRequestException(message)`, where `none` is what the test refuses.
abbrev pub demand : {A : Type 0} → Option A → String → Result String A
demand none message = raised message
demand (some a) message = ok a

abbrev pub when {ℓ} : {A : Type ℓ} → Bool → A → Option A
when true a = some a
when false a = none

infixl 10 ◌>>=◌
abbrev pub ◌>>=◌ : {A B : Type 0} → Result String A → (A → Result String B) → Result String B
ok a >>= f = f a
raised message >>= f = raised message

-- `isPlainObject`
abbrev pub plain_object : Json → Option Fields
plain_object (object fields) = some fields
plain_object _ = none

unfoldable pub short_text : Option Json → Option String
short_text (some (text s)) = when (if js_length s == 0 then false else leb (js_length s) 100) s
short_text _ = none

unfoldable pub some_text : Option Json → Option String
some_text (some (text s)) = when (if js_length s == 0 then false else true) s
some_text _ = none

unfoldable pub positive_integer : Option Json → Option ℕ
positive_integer (some (number (whole n))) = when (ltb 0 n) n
positive_integer _ = none

unfoldable pub currency_code : Option Json → Option String
currency_code (some (text s)) = when (if js_length s == 3 then all_upper s else false) s
currency_code _ = none

abbrev priority_named : String → Option PaymentPriority
priority_named s =
    if str_eq s "high"
    then some high
    else if str_eq s "normal"
    then some normal
    else if str_eq s "low"
    then some low
    else none

abbrev named : Json → Option PaymentPriority
named (text s) = priority_named s
named _ = none

unfoldable pub priority_value : Option Json → Option PaymentPriority
priority_value v = named (value_or v (text "normal"))

abbrev at_most_10 : Json → Option ℕ
at_most_10 (number (whole n)) = when (leb n 10) n
at_most_10 _ = none

unfoldable pub retries_value : Option Json → Option ℕ
retries_value v = at_most_10 (value_or v (number (whole default_max_retries)))

unfoldable pub metadata_value : Option Json → Option Fields
metadata_value none = some end
metadata_value (some v) = plain_object v

-- The value, or `undefined`.
unfoldable pub schedule_text : Option Json → Option (Option String)
schedule_text none = some none
schedule_text (some (text s)) = some (some s)
schedule_text (some _) = none

unfoldable pub delay_value : Option Json → Option (Option ℕ)
delay_value none = some none
delay_value (some (number (whole n))) = some (some n)
delay_value (some _) = none

module _ (parse_date : String → Option ℕ) (now : ℕ) where
  -- The times that are set on the input: `scheduledAt` and `delayMs`.
  unfoldable pub times : Option String → Option ℕ → Result String (Option ℕ × Option ℕ)
  times (some s) (some ms) = raised "provide either scheduledAt or delayMs, not both"
  times (some s) none = do
    at ← demand (parse_date s) "scheduledAt must be a valid ISO-8601 date string"
    demand (when (leb at (now + max_delay_ms)) (some at, none))
        "scheduledAt is too far in the future"
  times none (some ms) = demand (when (leb ms max_delay_ms) (none, some ms)) "delayMs is too large"
  times none none = ok (none, none)

  -- The order of the tests is the order of the messages.
  unfoldable pub validate_fields : Fields → Result String CreatePaymentInput
  unfolding property short_text some_text positive_integer currency_code priority_value
      retries_value metadata_value schedule_text delay_value times
  validate_fields body = do
    id ← demand (short_text (property "id" body)) "id must be a non-empty string (<= 100 chars)"
    amount ←
        demand (positive_integer (property "amount" body))
          "amount must be a positive integer (minor currency unit)"
    currency ←
        demand (currency_code (property "currency" body)) "currency must be a 3-letter ISO code"
    customer_id ←
        demand (some_text (property "customerId" body)) "customerId must be a non-empty string"
    gateway_id ←
        demand (short_text (property "gatewayId" body))
          "gatewayId must be a non-empty string (<= 100 chars)"
    priority ←
        demand (priority_value (property "priority" body))
          "priority must be one of high, normal, low"
    max_retries ←
        demand (retries_value (property "maxRetries" body))
          "maxRetries must be an integer between 0 and 10"
    metadata ← demand (metadata_value (property "metadata" body)) "metadata must be an object"
    scheduled ←
        demand (schedule_text (property "scheduledAt" body))
          "scheduledAt must be an ISO-8601 date string"
    delay ← demand (delay_value (property "delayMs" body)) "delayMs must be a non-negative integer"
    set ← times scheduled delay
    ok (record {
      id = id;
      amount = amount;
      currency = currency;
      customer_id = customer_id;
      gateway_id = gateway_id;
      priority = some priority;
      max_retries = some max_retries;
      metadata = some metadata;
      scheduled_at = set.0;
      delay_ms = set.1;
      correlation_id = none;
    })

  unfoldable pub validate_create_payment_input : Json → Result String CreatePaymentInput
  unfolding validate_fields
  validate_create_payment_input raw = do
    body ← demand (plain_object raw) "body must be a JSON object"
    validate_fields body
