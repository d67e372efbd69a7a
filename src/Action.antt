-- ===== src/Action.antt =====
-- A method that changes its object and can fail: it returns a result and the object as it was left,
-- also where it fails, since what was written before an early return stays written.
use sn_node.Prelude.{◌≡◌, refl, ap, Bool, if◌then◌else◌}
use sn_node.Errors.{Error, Result, ok, err}

abbrev pub Action : Type 0 → Type 0 → Type 0
Action S A = S → Result A × S

module _ {S A : Type 0} where
  abbrev pub pure : A → Action S A
  pure a s = (ok a, s)

  abbrev pub fail : Error → Action S A
  fail e s = (err e, s)

  -- A result that is computed from the object and leaves it alone.
  abbrev pub lift : Result A → Action S A
  lift r s = (r, s)

  abbrev pub gets : (S → A) → Action S A
  gets f s = (ok (f s), s)

-- Rust's `?`, then the rest of the method.
infixl 5 ◌>>=◌ ◌>>◌
abbrev pub ◌>>=◌ : {S A B : Type 0} → Action S A → (A → Action S B) → Action S B
◌>>=◌ m f s = let (r, s') = m s in elim r [ ok a ↦ f a s' | err e ↦ (err e, s') ]

abbrev pub ◌>>◌ : {S A B : Type 0} → Action S A → Action S B → Action S B
m >> k = m >>= λ _. k

abbrev pub fail_if : {S : Type 0} → Bool → Error → Action S (Unit {0})
fail_if b e s = (if b then err e else ok tt, s)

abbrev pub modify : {S : Type 0} → (S → S) → Action S (Unit {0})
modify f s = (ok tt, f s)

-- What holds of a sequence holds by how its first call ended.
pub >>=-cases {ℓ} :
    {S A B : Type 0} (R : Result B × S → Type ℓ) (m : Action S A) (f : A → Action S B) (s : S)
    → ((a : A) (s' : S) → m s ≡ (ok a, s') → R (f a s'))
    → ((e : Error) (s' : S) → m s ≡ (err e, s') → R (err e, s'))
    → R ((m >>= f) s)
>>=-cases {S} {A} {B} R m f s good bad = ended (m s) refl
  where
    ended : (p : Result A × S) → m s ≡ p → R ((◌>>=◌ {S = S} (λ _. p) f) s)
    ended (ok a, s') e = good a s' e
    ended (err x, s') e = bad x s' e

module _ {S A B : Type 0} (m : Action S A) (f : A → Action S B) (s : S) where
  pub >>=-ok : {a : A} {s' : S} → m s ≡ (ok a, s') → (m >>= f) s ≡ f a s'
  >>=-ok e = ap (λ p. ◌>>=◌ {S = S} (λ _. p) f s) e

  pub >>=-err : {e : Error} {s' : S} → m s ≡ (err e, s') → (m >>= f) s ≡ (err e, s')
  >>=-err q = ap (λ p. ◌>>=◌ {S = S} (λ _. p) f s) q
