-- ===== src/Payments/Service/Accepted.antt =====
-- payment.service.ts: what is known of a body that `validateCreatePaymentInput` accepts.
use queue_system.Prelude.{
  ℕ, ◌+◌, ◌≤◌, ◌≡◌, ◌⊎◌, refl, ap, true, String, Option, none, some, or_else, arith,
}
use mathlib.Core.Path.{subst}
use queue_system.Prelude.Chars.{js_length, all_upper}
use queue_system.Domain.Json.{Json, Fields}
use queue_system.Payments.Exec.{Result, ok, raised}
use queue_system.Payments.Service.{CreatePaymentInput}
use queue_system.Payments.Service.Body.{completed}
use queue_system.Payments.Service.Validate.{
  demand, ◌>>=◌, max_delay_ms, property, short_text, some_text, positive_integer, currency_code,
  retries_value, times, priority_value, metadata_value, schedule_text, delay_value, plain_object,
  validate_create_payment_input, validate_fields,
}

pub record IsValid (now : ℕ) (input : CreatePaymentInput) : Type 0 where
  pub id_length : (1 ≤ js_length input.id) × (js_length input.id ≤ 100)
  pub amount_positive : 1 ≤ input.amount
  pub currency_form : (js_length input.currency ≡ 3) × (all_upper input.currency ≡ true)
  pub customer_present : 1 ≤ js_length input.customer_id
  pub gateway_length : (1 ≤ js_length input.gateway_id) × (js_length input.gateway_id ≤ 100)
  pub retries_bounded : (k : ℕ) × (input.max_retries ≡ some k) × (k ≤ 10)
  pub one_time : (input.scheduled_at ≡ none) ⊎ (input.delay_ms ≡ none)
  pub scheduled_bounded : or_else input.scheduled_at 0 ≤ now + max_delay_ms
  pub delay_bounded : or_else input.delay_ms 0 ≤ max_delay_ms

module _ {A B : Type 0} where
  bind-ok :
      (m : Result String A) (f : A → Result String B) {b : B}
      → m >>= f ≡ ok b
      → (a : A) × (m ≡ ok a) × (f a ≡ ok b)
  bind-ok (ok a) f h = (a, refl, h)
  bind-ok (raised message) f h = ground arith

  demand-ok :
      (o : Option A) (message : String) (f : A → Result String B) {b : B}
      → demand o message >>= f ≡ ok b
      → (a : A) × (o ≡ some a) × (f a ≡ ok b)
  demand-ok (some a) message f h = (a, refl, h)
  demand-ok none message f h = ground arith

abbrev from_ok : CreatePaymentInput → Result String CreatePaymentInput → CreatePaymentInput
from_ok d (ok input) = input
from_ok d (raised message) = d

short_text-some :
    (o : Option Json) {s : String} → short_text o ≡ some s → (1 ≤ js_length s) × (js_length s ≤ 100)
unfolding short_text
short_text-some o h = ground arith

some_text-some : (o : Option Json) {s : String} → some_text o ≡ some s → 1 ≤ js_length s
unfolding some_text
some_text-some o h = ground arith

positive_integer-some : (o : Option Json) {n : ℕ} → positive_integer o ≡ some n → 1 ≤ n
unfolding positive_integer
positive_integer-some o h = ground arith

currency_code-some :
    (o : Option Json) {s : String}
    → currency_code o ≡ some s
    → (js_length s ≡ 3) × (all_upper s ≡ true)
unfolding currency_code
currency_code-some o h = ground arith

retries_value-some : (o : Option Json) {n : ℕ} → retries_value o ≡ some n → n ≤ 10
unfolding retries_value
retries_value-some o h = ground arith

module _ (parse_date : String → Option ℕ) (now : ℕ) where
  times-ok :
      (scheduled : Option String) (delay : Option ℕ) {t : Option ℕ × Option ℕ}
      → times parse_date now scheduled delay ≡ ok t
      → ((t.0 ≡ none) ⊎ (t.1 ≡ none))
        × (or_else t.0 0 ≤ now + max_delay_ms)
        × (or_else t.1 0 ≤ max_delay_ms)
  unfolding times
  times-ok scheduled delay h = ground arith

  validate_fields-IsValid :
      (body : Fields) (input : CreatePaymentInput)
      → validate_fields parse_date now body ≡ ok input
      → IsValid now input × (completed input ≡ input)
  unfolding validate_fields
  validate_fields-IsValid body input h =
      let a = demand-ok (short_text (property "id" body)) _ _ h in
      let b = demand-ok (positive_integer (property "amount" body)) _ _ a.2 in
      let c = demand-ok (currency_code (property "currency" body)) _ _ b.2 in
      let d = demand-ok (some_text (property "customerId" body)) _ _ c.2 in
      let e = demand-ok (short_text (property "gatewayId" body)) _ _ d.2 in
      let f = demand-ok (priority_value (property "priority" body)) _ _ e.2 in
      let g = demand-ok (retries_value (property "maxRetries" body)) _ _ f.2 in
      let i = demand-ok (metadata_value (property "metadata" body)) _ _ g.2 in
      let j = demand-ok (schedule_text (property "scheduledAt" body)) _ _ i.2 in
      let k = demand-ok (delay_value (property "delayMs" body)) _ _ j.2 in
      let l = bind-ok (times parse_date now j.0 k.0) _ k.2 in
      let t = times-ok j.0 k.0 l.1 in
      subst (λ i. IsValid now i × (completed i ≡ i)) (ap (from_ok input) l.2)
        (
          record {
            id_length = short_text-some _ a.1;
            amount_positive = positive_integer-some (property "amount" body) b.1;
            currency_form = currency_code-some _ c.1;
            customer_present = some_text-some _ d.1;
            gateway_length = short_text-some _ e.1;
            retries_bounded = (g.0, refl, retries_value-some (property "maxRetries" body) g.1);
            one_time = t.0;
            scheduled_bounded = t.1;
            delay_bounded = t.2;
          },
          refl,
        )

  -- An input that the validator answers is within the bounds that it tests: the id and the gateway id
  -- have 1 to 100 characters, the amount is positive, the currency is three upper case letters, the
  -- customer id is not empty, there are at most 10 retries, at most one of the two times is set, and it
  -- is no further ahead than `MAX_DELAY_MS`; and the input has a priority, retries and metadata, and no
  -- correlation id.
  pub validate_create_payment_input-IsValid :
      (raw : Json) (input : CreatePaymentInput)
      → validate_create_payment_input parse_date now raw ≡ ok input
      → IsValid now input × (completed input ≡ input)
  unfolding validate_create_payment_input
  validate_create_payment_input-IsValid raw input h =
      let b = demand-ok (plain_object raw) _ _ h in validate_fields-IsValid b.0 input b.2
