-- ===== src/Payments/Service/RoundTrip.antt =====
-- payment.service.ts: the validator reads a valid input back from its JSON body.
use queue_system.Prelude.{
  arith, ℕ, ◌+◌, ◌≤◌, ◌≡◌, ◌⊎◌, refl, ap, ◌∙◌, String, Option, none, some, or_else, true,
}
use mathlib.Core.Option as Option
use queue_system.Prelude.Chars.{js_length, all_upper}
use queue_system.Domain.Json.{Fields, end, text, number, whole, object}
use queue_system.Domain.Payment.{PaymentPriority, high, normal, low, default_max_retries}
use queue_system.Payments.Exec.{ok}
use queue_system.Payments.Service.{CreatePaymentInput}
use queue_system.Payments.Service.Validate.{
  max_delay_ms, property, short_text, some_text, positive_integer, currency_code, retries_value,
  times, priority_value, metadata_value, schedule_text, delay_value, validate_create_payment_input,
  validate_fields,
}
use queue_system.Payments.Service.Body.{
  body_of, completed, entries_of, fields_from, priority_text, property-fields_from,
}
use queue_system.Payments.Service.Accepted.{IsValid}

short_text-text :
    (s : String) → 1 ≤ js_length s → js_length s ≤ 100 → short_text (some (text s)) ≡ some s
unfolding short_text
short_text-text s h k = ground arith

some_text-text : (s : String) → 1 ≤ js_length s → some_text (some (text s)) ≡ some s
unfolding some_text
some_text-text s h = ground arith

positive_integer-whole : (n : ℕ) → 1 ≤ n → positive_integer (some (number (whole n))) ≡ some n
unfolding positive_integer
positive_integer-whole n h = ground arith

currency_code-text :
    (s : String) → js_length s ≡ 3 → all_upper s ≡ true → currency_code (some (text s)) ≡ some s
unfolding currency_code
currency_code-text s h k = ground arith

retries_value-map :
    (o : Option ℕ)
    → or_else o default_max_retries ≤ 10
    → retries_value (Option.map (λ k. number (whole k)) o) ≡ some (or_else o default_max_retries)
unfolding retries_value
retries_value-map none h = refl
retries_value-map (some k) h = ground arith

schedule_text-map :
    (print_date : ℕ → String) (s : Option ℕ)
    → schedule_text (Option.map (λ at. text (print_date at)) s) ≡ some (Option.map print_date s)
unfolding schedule_text
schedule_text-map print_date none = refl
schedule_text-map print_date (some at) = refl

delay_value-map : (d : Option ℕ) → delay_value (Option.map (λ ms. number (whole ms)) d) ≡ some d
unfolding delay_value
delay_value-map none = refl
delay_value-map (some ms) = refl

at_most_10 : {k : ℕ} → (j : ℕ) × (some k ≡ some j) × (j ≤ 10) → k ≤ 10
at_most_10 (j, is_j, bounded) = ground arith

priority_value-map :
    (o : Option PaymentPriority)
    → priority_value (Option.map (λ p. text (priority_text p)) o) ≡ some (or_else o normal)
unfolding priority_value
priority_value-map none = refl
priority_value-map (some high) = refl
priority_value-map (some normal) = refl
priority_value-map (some low) = refl

metadata_value-map :
    (o : Option Fields) → metadata_value (Option.map object o) ≡ some (or_else o end)
unfolding metadata_value
metadata_value-map none = refl
metadata_value-map (some m) = refl

module _ (parse_date : String → Option ℕ) (print_date : ℕ → String) (now : ℕ) where
  times-set :
      (scheduled delay : Option ℕ)
      → ((at : ℕ) → scheduled ≡ some at → parse_date (print_date at) ≡ some at)
      → (scheduled ≡ none) ⊎ (delay ≡ none)
      → or_else scheduled 0 ≤ now + max_delay_ms
      → or_else delay 0 ≤ max_delay_ms
      → times parse_date now (Option.map print_date scheduled) delay ≡ ok (scheduled, delay)
  unfolding times
  times-set none none reads one h k = refl
  times-set none (some ms) reads one h k = ground arith
  times-set (some at) none reads one h k = rw (reads at refl) (ground arith)
  times-set (some at) (some ms) reads one h k = ground arith

  -- A body whose properties are read as those of an input is answered by it.
  validate_fields-reads :
      (body : Fields) (input : CreatePaymentInput) (scheduled : Option String)
      → let full = completed input in
        short_text (property "id" body) ≡ some input.id
        → positive_integer (property "amount" body) ≡ some input.amount
        → currency_code (property "currency" body) ≡ some input.currency
        → some_text (property "customerId" body) ≡ some input.customer_id
        → short_text (property "gatewayId" body) ≡ some input.gateway_id
        → priority_value (property "priority" body) ≡ full.priority
        → retries_value (property "maxRetries" body) ≡ full.max_retries
        → metadata_value (property "metadata" body) ≡ full.metadata
        → schedule_text (property "scheduledAt" body) ≡ some scheduled
        → delay_value (property "delayMs" body) ≡ some input.delay_ms
        → times parse_date now scheduled input.delay_ms ≡ ok (input.scheduled_at, input.delay_ms)
        → validate_fields parse_date now body ≡ ok full
  unfolding validate_fields
  validate_fields-reads body input scheduled a b c d e f g h i j l =
      rw (validate_fields, a)
        (rw (b)
          (rw (c) (rw (d) (rw (e) (rw (f) (rw (g) (rw (h) (rw (i) (rw (j) (rw (l) refl))))))))))

  -- The validator reads every valid input back from its JSON body, whichever of the optional properties
  -- the input has, if the date that it may have is read as it was printed. What it answers is the input
  -- with normal priority, three retries and empty metadata where the input leaves these open, and
  -- always without a correlation id, also where the body has one.
  pub validate_create_payment_input-body_of :
      (input : CreatePaymentInput)
      → IsValid now (completed input)
      → ((at : ℕ) → input.scheduled_at ≡ some at → parse_date (print_date at) ≡ some at)
      → validate_create_payment_input parse_date now (body_of print_date input)
        ≡ ok (completed input)
  unfolding validate_create_payment_input
  validate_create_payment_input-body_of input v reads =
      let entries = entries_of print_date input in
      validate_fields-reads (fields_from entries) input (Option.map print_date input.scheduled_at)
        (ap short_text (property-fields_from "id" entries refl)
          ∙ short_text-text input.id v.id_length.0 v.id_length.1)
        (ap positive_integer (property-fields_from "amount" entries refl)
          ∙ positive_integer-whole input.amount v.amount_positive)
        (ap currency_code (property-fields_from "currency" entries refl)
          ∙ currency_code-text input.currency v.currency_form.0 v.currency_form.1)
        (ap some_text (property-fields_from "customerId" entries refl)
          ∙ some_text-text input.customer_id v.customer_present)
        (ap short_text (property-fields_from "gatewayId" entries refl)
          ∙ short_text-text input.gateway_id v.gateway_length.0 v.gateway_length.1)
        (ap priority_value (property-fields_from "priority" entries refl)
          ∙ priority_value-map input.priority)
        (ap retries_value (property-fields_from "maxRetries" entries refl)
          ∙ retries_value-map input.max_retries (at_most_10 v.retries_bounded))
        (ap metadata_value (property-fields_from "metadata" entries refl)
          ∙ metadata_value-map input.metadata)
        (ap schedule_text (property-fields_from "scheduledAt" entries refl)
          ∙ schedule_text-map print_date input.scheduled_at)
        (ap delay_value (property-fields_from "delayMs" entries refl)
          ∙ delay_value-map input.delay_ms)
        (times-set input.scheduled_at input.delay_ms reads v.one_time v.scheduled_bounded
          v.delay_bounded)
