-- ===== src/Async.antt =====
-- Asynchronous JavaScript as state passing: what a promise settles with, and the state that the
-- function leaves. What was written before a rejection stays written.
use go_grpc_microservices.Prelude.{String, Bool, true, false, ◌≡◌, refl, ◌⊎◌, inl, inr}

pub data Settled (A : Type 0) : Type 0 where
  resolved : A → Settled A
  rejected : String → Settled A

abbrev pub Async : Type 0 → Type 0 → Type 0
Async S A = S → Settled A × S

abbrev pub is_resolved : {A : Type 0} → Settled A → Bool
is_resolved (resolved a) = true
is_resolved (rejected e) = false

pub Settled-cases :
    {A : Type 0} (r : Settled A) → ((a : A) × (r ≡ resolved a)) ⊎ ((e : String) × (r ≡ rejected e))
Settled-cases (resolved a) = inl (a, refl)
Settled-cases (rejected e) = inr (e, refl)

module _ {S A : Type 0} where
  abbrev pub resolve : A → Async S A
  resolve a s = (resolved a, s)

  -- `throw new Error(message)`
  abbrev pub throw : String → Async S A
  throw e s = (rejected e, s)

module _ {S A B : Type 0} where
  abbrev pub continue : (A → Async S B) → Settled A → S → Settled B × S
  continue f (resolved a) s = f a s
  continue f (rejected e) s = (rejected e, s)

  infixl 5 ◌>>=◌ ◌>>◌
  -- `await`
  abbrev pub ◌>>=◌ : Async S A → (A → Async S B) → Async S B
  ◌>>=◌ m f s = continue f (m s).0 (m s).1

  abbrev pub ◌>>◌ : Async S A → Async S B → Async S B
  m >> n = m >>= λ _. n

module _ {S A : Type 0} where
  abbrev handle : (String → Async S A) → Settled A → S → Settled A × S
  handle h (resolved a) s = (resolved a, s)
  handle h (rejected e) s = h e s

  -- `try { return await m } catch (error) { … }`
  abbrev pub try_catch : Async S A → (String → Async S A) → Async S A
  try_catch m h s = handle h (m s).0 (m s).1

  -- `if (guard) throw …`, and the rest
  abbrev pub throw_if : Bool → String → Async S A → Async S A
  throw_if true e m = throw e
  throw_if false e m = m
