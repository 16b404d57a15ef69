-- ===== src/Common/Outcome.antt =====
-- What a run of C++ code comes to, and the state monad over it.
use mathlib.Core.Path.{◌≡◌}

pub data Exception : Type 0 where
  out_of_range invalid_argument bad_cast runtime_error logic_error : Exception

-- `fault` is undefined behaviour or a failed assertion: a null or dangling pointer, an access out
-- of bounds, a division by zero. `stuck` is no C++ outcome: a loop of the model ran out of fuel.
pub data Outcome {ℓ κ} (S : Type ℓ) (A : Type κ) : Type (ℓ ⊔ κ) where
  done : A → S → Outcome S A
  raised : Exception → S → Outcome S A
  fault : Outcome S A
  stuck : Outcome S A

-- A run on a part of a state.
abbrev pub map_state : {S U A : Type 0} → (S → U) → Outcome S A → Outcome U A
map_state f (done a s) = done a (f s)
map_state f (raised e s) = raised e (f s)
map_state f fault = fault
map_state f stuck = stuck

module _ {S : Type 0} where
  infixl 5 ◌>>=◌ ◌>>◌
  abbrev pub ◌>>=◌ : {A B : Type 0} → (S → Outcome S A) → (A → S → Outcome S B) → S → Outcome S B
  ◌>>=◌ m f s = elim (m s) [
    | done a t ↦ f a t
    | raised e t ↦ raised e t
    | fault ↦ fault
    | stuck ↦ stuck
  ]

  abbrev pub ◌>>◌ : {B : Type 0} → (S → Outcome S (Unit {0})) → (S → Outcome S B) → S → Outcome S B
  m >> k = m >>= λ _. k

  abbrev pub pure : {A : Type 0} → A → S → Outcome S A
  pure a s = done a s

  -- One step of a chain whose first part is known.
  pub >>=-done :
      {A B : Type 0} (m : S → Outcome S A) (f : A → S → Outcome S B) {s t : S} {a : A}
      → m s ≡ done a t
      → (m >>= f) s ≡ f a t
  >>=-done m f e = rw (e, ◌>>=◌)

  pub >>=-fault :
      {A B : Type 0} (m : S → Outcome S A) (f : A → S → Outcome S B) {s : S}
      → m s ≡ fault
      → (m >>= f) s ≡ fault
  >>=-fault m f e = rw (e, ◌>>=◌)
