-- ===== src/Payments/Exec.antt =====
-- `async` methods of the payments module: they read and change a state, and may throw. What was
-- done before a throw stays done, so the state comes back beside the error too.

use mathlib.Core.Path.{◌≡◌, ap}

pub data Result {ℓ} (X A : Type ℓ) : Type ℓ where
  ok : A → Result X A
  raised : X → Result X A

-- `S` is the state, `X` what is thrown.
abbrev pub Exec {ℓ} : Type ℓ → Type ℓ → Type ℓ → Type ℓ
Exec S X A = S → Result X A × S

module _ {ℓ} {S X A : Type ℓ} where
  abbrev pub pure : A → Exec S X A
  pure a s = (ok a, s)

  abbrev pub raise : X → Exec S X A
  raise x s = (raised x, s)

  abbrev pub gets : (S → A) → Exec S X A
  gets f s = (ok (f s), s)

  -- `try { m } catch (err) { h(err) }`
  abbrev pub catching : (X → Exec S X A) → Result X A × S → Result X A × S
  catching h (ok a, s) = (ok a, s)
  catching h (raised x, s) = h x s

  abbrev pub try_catch : Exec S X A → (X → Exec S X A) → Exec S X A
  try_catch m h s = catching h (m s)

module _ {ℓ} {S X A B : Type ℓ} where
  abbrev pub continue : (A → Exec S X B) → Result X A × S → Result X B × S
  continue f (ok a, s) = f a s
  continue f (raised x, s) = (raised x, s)

  pub continue-ok :
      (f : A → Exec S X B) (m : Result X A × S) {a : A} → m.0 ≡ ok a → continue f m ≡ f a m.1
  continue-ok f (r, s) returned = ap (λ r. continue f (r, s)) returned

  pub continue-raised :
      (f : A → Exec S X B) (m : Result X A × S) {x : X}
      → m.0 ≡ raised x
      → continue f m ≡ (raised x, m.1)
  continue-raised f (r, s) thrown = ap (λ r. continue f (r, s)) thrown

  infixl 10 ◌>>=◌ ◌>>◌
  abbrev pub ◌>>=◌ : Exec S X A → (A → Exec S X B) → Exec S X B
  ◌>>=◌ m f s = continue f (m s)

  abbrev pub ◌>>◌ : Exec S X A → Exec S X B → Exec S X B
  m >> n = m >>= λ _. n

  -- `try { m } finally { n }`: a throw of `n` replaces the result of `m`.
  abbrev pub keeping : Result X A → Result X B × S → Result X A × S
  keeping r (ok b, s) = (r, s)
  keeping r (raised x, s) = (raised x, s)

  abbrev pub finishing : Exec S X B → Result X A × S → Result X A × S
  finishing n (r, s) = keeping r (n s)

  abbrev pub try_finally : Exec S X A → Exec S X B → Exec S X A
  try_finally m n s = finishing n (m s)
