-- ===== src/Exec/Ends.antt =====
-- Actions that end, and what holds of the value that they return.
use relayer_node.Base.{String, ◌≡◌, ◌≢◌, refl, Option, none, some}
use relayer_node.Exec.{
  JsError, Result, returned, thrown, waiting, Exec, ◌>>=◌, continue, try_catch, handle, or_throw,
}

-- The action returns or throws, and what it returns satisfies P.
abbrev pub EndsIn {ℓ} : {A : Type ℓ} → (A → Type 0) → Result A → Type 0
EndsIn P (returned a) = P a
EndsIn P (thrown e) = Unit
EndsIn P waiting = ⊥

-- The action returns, and its value satisfies P.
abbrev pub ReturnsIn {ℓ} : {A : Type ℓ} → (A → Type 0) → Result A → Type 0
ReturnsIn P (returned a) = P a
ReturnsIn P (thrown e) = ⊥
ReturnsIn P waiting = ⊥

abbrev pub Anything {ℓ} : {A : Type ℓ} → A → Type 0
Anything a = Unit

module _ {ℓ} {A : Type ℓ} where
  pub ne_waiting-EndsIn : (r : Result A) → r ≢ waiting → EndsIn Anything r
  ne_waiting-EndsIn (returned a) h = tt
  ne_waiting-EndsIn (thrown e) h = tt
  ne_waiting-EndsIn waiting h = absurd (h refl)

  pub ReturnsIn-value :
      (P : A → Type 0) (r : Result A) → ReturnsIn P r → (a : A) × (r ≡ returned a) × P a
  ReturnsIn-value P (returned a) h = (a, refl, h)
  ReturnsIn-value P (thrown e) h = absurd h
  ReturnsIn-value P waiting h = absurd h

module _ {ℓ κ μ} {S : Type ℓ} {A : Type κ} {B : Type μ} (P : B → Type 0) where
  continue-EndsIn :
      (r : Result A) (f : A → Exec S B) (s : S)
      → EndsIn Anything r
      → ((a : A) (t : S) → EndsIn P (f a t).0)
      → EndsIn P (continue r f s).0
  continue-EndsIn (returned a) f s h k = k a s
  continue-EndsIn (thrown e) f s h k = tt
  continue-EndsIn waiting f s h k = absurd h

  pub bind-EndsIn :
      (m : Exec S A) (f : A → Exec S B) (s : S)
      → EndsIn Anything (m s).0
      → ((a : A) (t : S) → EndsIn P (f a t).0)
      → EndsIn P ((m >>= f) s).0
  unfolding ◌>>=◌
  bind-EndsIn m f s h k = continue-EndsIn (m s).0 f (m s).1 h k

  pub or_throw-EndsIn :
      (o : Option A) (message : String) (f : A → Exec S B) (s : S)
      → ((a : A) (t : S) → EndsIn P (f a t).0)
      → EndsIn P ((or_throw o message >>= f) s).0
  unfolding ◌>>=◌ or_throw
  or_throw-EndsIn none message f s k = tt
  or_throw-EndsIn (some a) message f s k = k a s

module _ {ℓ κ} {S : Type ℓ} {A : Type κ} (P : A → Type 0) where
  handle-ReturnsIn :
      (r : Result A) (h : JsError → Exec S A) (s : S)
      → EndsIn P r
      → ((e : JsError) (t : S) → ReturnsIn P (h e t).0)
      → ReturnsIn P (handle r h s).0
  handle-ReturnsIn (returned a) h s p k = p
  handle-ReturnsIn (thrown e) h s p k = k e s
  handle-ReturnsIn waiting h s p k = absurd p

  pub try-ReturnsIn :
      (m : Exec S A) (h : JsError → Exec S A) (s : S)
      → EndsIn P (m s).0
      → ((e : JsError) (t : S) → ReturnsIn P (h e t).0)
      → ReturnsIn P (try_catch m h s).0
  unfolding try_catch
  try-ReturnsIn m h s p k = handle-ReturnsIn (m s).0 h (m s).1 p k

module _ {ℓ κ μ} {S : Type ℓ} {A : Type κ} {B : Type μ} (Q : A → Type 0) (P : B → Type 0) where
  continue-ReturnsIn :
      (r : Result A) (f : A → Exec S B) (s : S)
      → ReturnsIn Q r
      → ((a : A) (t : S) → Q a → ReturnsIn P (f a t).0)
      → ReturnsIn P (continue r f s).0
  continue-ReturnsIn (returned a) f s h k = k a s h
  continue-ReturnsIn (thrown e) f s h k = absurd h
  continue-ReturnsIn waiting f s h k = absurd h

  pub bind-ReturnsIn :
      (m : Exec S A) (f : A → Exec S B) (s : S)
      → ReturnsIn Q (m s).0
      → ((a : A) (t : S) → Q a → ReturnsIn P (f a t).0)
      → ReturnsIn P ((m >>= f) s).0
  unfolding ◌>>=◌
  bind-ReturnsIn m f s h k = continue-ReturnsIn (m s).0 f (m s).1 h k

-- What holds of the state once the action has returned; an action that throws or waits may leave any.
abbrev pub OnReturn {ℓ κ} : {S : Type ℓ} {A : Type κ} → (S → Type 0) → Result A × S → Type κ
OnReturn {A} P r = (a : A) → r.0 ≡ returned a → P r.1

module _ {ℓ κ μ} {S : Type ℓ} {A : Type κ} {B : Type μ} (P : S → Type 0) where
  continue-OnReturn :
      (r : Result A) (f : A → Exec S B) (s : S)
      → ((a : A) → r ≡ returned a → OnReturn P (f a s))
      → OnReturn P (continue r f s)
  continue-OnReturn (returned a) f s k b h = k a refl b h
  continue-OnReturn (thrown e) f s k b h = absurd (cc)
  continue-OnReturn waiting f s k b h = absurd (cc)

  pub bind-OnReturn :
      (m : Exec S A) (f : A → Exec S B) (s : S)
      → ((a : A) → (m s).0 ≡ returned a → OnReturn P (f a (m s).1))
      → OnReturn P ((m >>= f) s)
  unfolding ◌>>=◌
  bind-OnReturn m f s k = continue-OnReturn (m s).0 f (m s).1 k

  pub or_throw-OnReturn :
      (o : Option A) (message : String) (f : A → Exec S B) (s : S)
      → ((a : A) → o ≡ some a → OnReturn P (f a s))
      → OnReturn P ((or_throw o message >>= f) s)
  unfolding ◌>>=◌ or_throw
  or_throw-OnReturn none message f s k b h = absurd (cc)
  or_throw-OnReturn (some a) message f s k b h = k a refl b h

-- The action returns, in a state that satisfies P.
abbrev pub Reaches {ℓ κ} : {S : Type ℓ} {A : Type κ} → (S → Type 0) → Result A × S → Type 0
Reaches P (returned a, s) = P s
Reaches P (thrown e, s) = ⊥
Reaches P (waiting, s) = ⊥

-- The action returns or throws, in a state that satisfies P.
abbrev pub Leaves {ℓ κ} : {S : Type ℓ} {A : Type κ} → (S → Type 0) → Result A × S → Type 0
Leaves P (returned a, s) = P s
Leaves P (thrown e, s) = P s
Leaves P (waiting, s) = ⊥

module _ {ℓ κ μ} {S : Type ℓ} {A : Type κ} {B : Type μ} (Q P : S → Type 0) where
  continue-Reaches :
      (r : Result A × S) (f : A → Exec S B)
      → Reaches Q r
      → ((a : A) (t : S) → Q t → Reaches P (f a t))
      → Reaches P (continue r.0 f r.1)
  continue-Reaches (returned a, s) f h k = k a s h
  continue-Reaches (thrown e, s) f h k = absurd h
  continue-Reaches (waiting, s) f h k = absurd h

  pub bind-Reaches :
      (m : Exec S A) (f : A → Exec S B) (s : S)
      → Reaches Q (m s)
      → ((a : A) (t : S) → Q t → Reaches P (f a t))
      → Reaches P ((m >>= f) s)
  unfolding ◌>>=◌
  bind-Reaches m f s h k = continue-Reaches (m s) f h k

module _ {ℓ κ} {S : Type ℓ} {A : Type κ} (P : S → Type 0) where
  continue-Leaves {μ} :
      {B : Type μ} (r : Result A × S) (f : A → Exec S B)
      → Leaves P r
      → ((a : A) (t : S) → P t → Leaves P (f a t))
      → Leaves P (continue r.0 f r.1)
  continue-Leaves (returned a, s) f h k = k a s h
  continue-Leaves (thrown e, s) f h k = h
  continue-Leaves (waiting, s) f h k = absurd h

  pub bind-Leaves {μ} :
      {B : Type μ} (m : Exec S A) (f : A → Exec S B) (s : S)
      → Leaves P (m s)
      → ((a : A) (t : S) → P t → Leaves P (f a t))
      → Leaves P ((m >>= f) s)
  unfolding ◌>>=◌
  bind-Leaves m f s h k = continue-Leaves (m s) f h k

  handle-Reaches :
      (r : Result A × S) (h : JsError → Exec S A)
      → Leaves P r
      → ((e : JsError) (t : S) → P t → Reaches P (h e t))
      → Reaches P (handle r.0 h r.1)
  handle-Reaches (returned a, s) h p k = p
  handle-Reaches (thrown e, s) h p k = k e s p
  handle-Reaches (waiting, s) h p k = absurd p

  pub try-Reaches :
      (m : Exec S A) (h : JsError → Exec S A) (s : S)
      → Leaves P (m s)
      → ((e : JsError) (t : S) → P t → Reaches P (h e t))
      → Reaches P (try_catch m h s)
  unfolding try_catch
  try-Reaches m h s p k = handle-Reaches (m s) h p k

  pub Reaches-state : (r : Result A × S) → Reaches P r → P r.1
  Reaches-state (returned a, s) h = h
  Reaches-state (thrown e, s) h = absurd h
  Reaches-state (waiting, s) h = absurd h
