-- ===== src/Exec.antt =====
-- Asynchronous methods: an action takes the state and gives its outcome and the new state. What was
-- written before an exception stays written. An `await` ends one way: the awaited action is run.
pub mod Ends
use relayer_node.Base.{String, ◌≡◌, refl, ◌⊎◌, inl, inr, Option, none, some}

-- An Error object.
pub record JsError : Type 0 where
  pub message : String

-- `waiting` is an action that waits for a promise which nothing settles.
pub data Result {ℓ} (A : Type ℓ) : Type ℓ where
  returned : A → Result A
  thrown : JsError → Result A
  waiting : Result A

abbrev pub Exec {ℓ κ} : Type ℓ → Type κ → Type (ℓ ⊔ κ)
Exec S A = S → Result A × S

module _ {ℓ κ μ} {S : Type ℓ} {A : Type κ} {B : Type μ} where
  abbrev pub continue : Result A → (A → Exec S B) → Exec S B
  continue (returned a) f s = f a s
  continue (thrown e) f s = (thrown e, s)
  continue waiting f s = (waiting, s)

  infixl 10 ◌>>=◌ ◌>>◌
  unfoldable pub ◌>>=◌ : Exec S A → (A → Exec S B) → Exec S B
  ◌>>=◌ m f s = let (r, s') = m s in continue r f s'

  abbrev pub ◌>>◌ : Exec S A → Exec S B → Exec S B
  m >> k = m >>= λ _. k

module _ {ℓ κ} {S : Type ℓ} {A : Type κ} where
  abbrev pub pure : A → Exec S A
  pure a s = (returned a, s)

  abbrev pub throw : JsError → Exec S A
  throw e s = (thrown e, s)

  abbrev pub gets : (S → A) → Exec S A
  gets f s = (returned (f s), s)

  abbrev pub handle : Result A → (JsError → Exec S A) → Exec S A
  handle (returned a) h s = (returned a, s)
  handle (thrown e) h s = h e s
  handle waiting h s = (waiting, s)

  -- try { m } catch (e) { h(e) }
  unfoldable pub try_catch : Exec S A → (JsError → Exec S A) → Exec S A
  try_catch m h s = let (r, s') = m s in handle r h s'

-- A call that is not awaited: its outcome is nobody's. What it does before the caller goes on is
-- taken to be all that it does, where the code does not say otherwise; an error of it is dropped.
unfoldable pub detach {ℓ κ} : {S : Type ℓ} {A : Type κ} → Exec S A → Exec S (Unit {0})
detach m s = (returned tt, (m s).1)

abbrev ended {ℓ} : {A : Type ℓ} → Result A → Result (Unit {0})
ended (thrown e) = waiting
ended _ = returned tt

-- A call that is not awaited and whose rejection nobody handles: it ends the process, so that the
-- caller does not come to its end.
unfoldable pub unless_rejected {ℓ κ} : {S : Type ℓ} {A : Type κ} → Exec S A → Exec S (Unit {0})
unless_rejected m s = let (r, t) = m s in (ended r, t)

abbrev pub modify {ℓ} : {S : Type ℓ} → (S → S) → Exec S (Unit {0})
modify f s = (returned tt, f s)

-- An error of the runtime or of a package, by its message.
abbrev pub type_error : String → JsError
type_error text = record { message = text }

-- The value, or an exception with a message where there is none.
unfoldable pub or_throw {ℓ κ} : {S : Type ℓ} {A : Type κ} → Option A → String → Exec S A
or_throw none message = throw (type_error message)
or_throw (some a) message = pure a

-- What holds of the state afterwards, whatever the outcome.
module _ {ℓ κ} {S : Type ℓ} (P : S → Type κ) where
  continue_cases {μ ν} :
      {A : Type μ} {B : Type ν} (r : Result A) (f : A → Exec S B) (s : S)
      → P s
      → ((a : A) → P (f a s).1)
      → P (continue r f s).1
  continue_cases (returned a) f s p h = h a
  continue_cases (thrown e) f s p h = p
  continue_cases waiting f s p h = p

  pub bind_cases {μ ν} :
      {A : Type μ} {B : Type ν} (m : Exec S A) (f : A → Exec S B) (s : S)
      → P (m s).1
      → ((a : A) → P (f a (m s).1).1)
      → P ((m >>= f) s).1
  unfolding ◌>>=◌
  bind_cases m f s p h = continue_cases (m s).0 f (m s).1 p h

  continue_returned_cases {μ ν} :
      {A : Type μ} {B : Type ν} (r : Result A) (f : A → Exec S B) (s : S)
      → P s
      → ((a : A) → r ≡ returned a → P (f a s).1)
      → P (continue r f s).1
  continue_returned_cases (returned a) f s p h = h a refl
  continue_returned_cases (thrown e) f s p h = p
  continue_returned_cases waiting f s p h = p

  -- The same, where it matters what the first action returns.
  pub bind_returned_cases {μ ν} :
      {A : Type μ} {B : Type ν} (m : Exec S A) (f : A → Exec S B) (s : S)
      → P (m s).1
      → ((a : A) → (m s).0 ≡ returned a → P (f a (m s).1).1)
      → P ((m >>= f) s).1
  unfolding ◌>>=◌
  bind_returned_cases m f s p h = continue_returned_cases (m s).0 f (m s).1 p h

  handle_cases {μ} :
      {A : Type μ} (r : Result A) (h : JsError → Exec S A) (s : S)
      → P s
      → ((e : JsError) → P s → P (h e s).1)
      → P (handle r h s).1
  handle_cases (returned a) h s p k = p
  handle_cases (thrown e) h s p k = k e p
  handle_cases waiting h s p k = p

  pub try_cases {μ} :
      {A : Type μ} (m : Exec S A) (h : JsError → Exec S A) (s : S)
      → P (m s).1
      → ((e : JsError) → P (m s).1 → P (h e (m s).1).1)
      → P (try_catch m h s).1
  unfolding try_catch
  try_cases m h s p k = handle_cases (m s).0 h (m s).1 p k

  -- The first action returns without a doubt: a read, or a write.
  pub returned_cases {μ ν} :
      {A : Type μ} {B : Type ν} (a : A) (g : S → S) (f : A → Exec S B) (s : S)
      → P (f a (g s)).1
      → P (((λ t. (returned a, g t)) >>= f) s).1
  unfolding ◌>>=◌
  returned_cases a g f s p = p

  pub gets_cases {μ ν} :
      {A : Type μ} {B : Type ν} (g : S → A) (f : A → Exec S B) (s : S)
      → P (f (g s) s).1
      → P ((gets g >>= f) s).1
  unfolding ◌>>=◌
  gets_cases g f s p = p

  pub or_throw_cases {μ ν} :
      {A : Type μ} {B : Type ν} (o : Option A) (message : String) (f : A → Exec S B) (s : S)
      → P s
      → ((a : A) → P (f a s).1)
      → P ((or_throw o message >>= f) s).1
  unfolding ◌>>=◌ or_throw
  or_throw_cases none message f s p h = p
  or_throw_cases (some a) message f s p h = h a

-- An action that leaves the state alone: it returns, or throws.
abbrev pub Throws {ℓ κ} : {S : Type ℓ} {A : Type κ} → Exec S A → S → Type (ℓ ⊔ κ)
Throws m s = (e : JsError) × (m s ≡ (thrown e, s))

abbrev pub IsPure {ℓ κ} : {S : Type ℓ} {A : Type κ} → Exec S A → S → Type (ℓ ⊔ κ)
IsPure {A} m s = ((a : A) × (m s ≡ (returned a, s))) ⊎ Throws m s

module _ {ℓ κ} {S : Type ℓ} {A : Type κ} where
  pub or_throw-IsPure : (o : Option A) (message : String) (s : S) → IsPure (or_throw o message) s
  unfolding or_throw
  or_throw-IsPure none message s = inr (_, refl)
  or_throw-IsPure (some a) message s = inl (a, refl)

  module _ {μ} {B : Type μ} where
    pub bind-IsPure :
        (m : Exec S A) (f : A → Exec S B) (s : S)
        → IsPure m s
        → ((a : A) → IsPure (f a) s)
        → IsPure (m >>= f) s
    unfolding ◌>>=◌
    bind-IsPure m f s (inl (a, e)) h = rw e (h a)
    bind-IsPure m f s (inr (x, e)) h = rw e (inr (x, refl))

    pub bind-Throws :
        (m : Exec S A) (f : A → Exec S B) (s : S)
        → IsPure m s
        → ((a : A) → Throws (f a) s)
        → Throws (m >>= f) s
    unfolding ◌>>=◌
    bind-Throws m f s (inl (a, e)) h = rw e (h a)
    bind-Throws m f s (inr (x, e)) h = rw e (x, refl)

    pub Throws-bind : (m : Exec S A) (f : A → Exec S B) (s : S) → Throws m s → Throws (m >>= f) s
    unfolding ◌>>=◌
    Throws-bind m f s (x, e) = rw e (x, refl)

    pub or_throw-Throws :
        (o : Option A) (message : String) (f : A → Exec S B) (s : S)
        → ((a : A) → o ≡ some a → Throws (f a) s)
        → Throws (or_throw o message >>= f) s
    unfolding ◌>>=◌ or_throw
    or_throw-Throws none message f s h = (_, refl)
    or_throw-Throws (some a) message f s h = h a refl
