-- ===== src/Payments/Service/Body.antt =====
-- payment.service.ts: the JSON body of an input, as a client writes it, and what the validator finds
-- under its keys.
use mathlib.Core.Option as Option
use queue_system.Prelude.{
  arith, ℕ, ◌≡◌, refl, String, Option, none, some, or_else, Bool, true, false, List, [], ◌∷◌,
  str_eq, if◌then◌else◌,
}
use queue_system.Domain.Json.{Json, Fields, field, end, text, number, whole, object}
use queue_system.Domain.Payment.{PaymentPriority, high, normal, low, default_max_retries}
use queue_system.Payments.Service.{CreatePaymentInput}
use queue_system.Payments.Service.Validate.{property}

-- The properties of an object; a value that is `none` is left out.
abbrev pub fields_from : List (String × Option Json) → Fields
fields_from [] = end
fields_from ((key, none) ∷ rest) = fields_from rest
fields_from ((key, some v) ∷ rest) = field key v (fields_from rest)

abbrev pub entry : String → List (String × Option Json) → Option Json
entry key [] = none
entry key ((k, v) ∷ rest) = if str_eq key k then v else entry key rest

-- Whether a key does not occur.
abbrev absent : String → List (String × Option Json) → Bool
absent key [] = true
absent key ((k, v) ∷ rest) = if str_eq key k then false else absent key rest

abbrev pub at_most_once : String → List (String × Option Json) → Bool
at_most_once key [] = true
at_most_once key ((k, v) ∷ rest) = if str_eq key k then absent key rest else at_most_once key rest

property-absent :
    (key : String) (entries : List (String × Option Json))
    → absent key entries ≡ true
    → property key (fields_from entries) ≡ none
unfolding property
property-absent key [] h = refl
property-absent key ((k, none) ∷ rest) h = ground (arith, property-absent key rest)
property-absent key ((k, some v) ∷ rest) h = ground (arith, property-absent key rest)

-- A key that occurs at most once is found with its value.
pub property-fields_from :
    (key : String) (entries : List (String × Option Json))
    → at_most_once key entries ≡ true
    → property key (fields_from entries) ≡ entry key entries
unfolding property
property-fields_from key [] h = refl
property-fields_from key ((k, none) ∷ rest) h =
    ground (arith, property-absent key rest, property-fields_from key rest)
property-fields_from key ((k, some v) ∷ rest) h =
    ground (arith, property-absent key rest, property-fields_from key rest)

abbrev pub priority_text : PaymentPriority → String
priority_text high = "high"
priority_text normal = "normal"
priority_text low = "low"

module _ (print_date : ℕ → String) where
  abbrev pub entries_of : CreatePaymentInput → List (String × Option Json)
  entries_of input =
      ("id", some (text input.id))
      ∷ ("amount", some (number (whole input.amount)))
      ∷ ("currency", some (text input.currency))
      ∷ ("customerId", some (text input.customer_id))
      ∷ ("gatewayId", some (text input.gateway_id))
      ∷ ("priority", Option.map (λ p. text (priority_text p)) input.priority)
      ∷ ("maxRetries", Option.map (λ k. number (whole k)) input.max_retries)
      ∷ ("metadata", Option.map object input.metadata)
      ∷ ("scheduledAt", Option.map (λ at. text (print_date at)) input.scheduled_at)
      ∷ ("delayMs", Option.map (λ ms. number (whole ms)) input.delay_ms)
      ∷ ("correlationId", Option.map text input.correlation_id)
      ∷ []

  abbrev pub body_of : CreatePaymentInput → Json
  body_of input = object (fields_from (entries_of input))

-- The input with the defaults for what it leaves open, and without its correlation id.
abbrev pub completed : CreatePaymentInput → CreatePaymentInput
completed input = record input {
  priority = some (or_else input.priority normal);
  max_retries = some (or_else input.max_retries default_max_retries);
  metadata = some (or_else input.metadata end);
  correlation_id = none;
}
