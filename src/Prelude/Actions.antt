-- ===== src/Prelude/Actions.antt =====
-- Calls that change a state and may fail, the changes made before a failure staying.
use jq_ble.Prelude.Results.{Result, ok, err}

abbrev pub Action : Type 0 → Type 0 → Type 0 → Type 0
Action S E A = S → Result E A × S

module _ {S E A : Type 0} where
  abbrev pub pure : A → Action S E A
  pure a s = (ok a, s)

  abbrev pub fail : E → Action S E A
  fail e s = (err e, s)

  -- A call that does not fail, and one that only reads.
  abbrev pub effect : (S → A × S) → Action S E A
  effect f s = let (a, s') = f s in (ok a, s')

  abbrev pub reads : (S → A) → Action S E A
  reads f s = (ok (f s), s)

module _ {S E A B : Type 0} where
  abbrev pub continue : (A → Action S E B) → Result E A × S → Result E B × S
  continue f (ok a, s) = f a s
  continue f (err e, s) = (err e, s)

  infixl 5 ◌>>=◌ ◌>>◌
  abbrev pub ◌>>=◌ : Action S E A → (A → Action S E B) → Action S E B
  ◌>>=◌ m f s = continue f (m s)

  abbrev pub ◌>>◌ : Action S E A → Action S E B → Action S E B
  m >> k = m >>= λ _. k

-- A promise about how a call ends.
module _ {S E A : Type 0} where
  abbrev pub Ends : (A → S → Type 0) → (E → S → Type 0) → Result E A × S → Type 0
  Ends Q F (ok a, s) = Q a s
  Ends Q F (err e, s) = F e s

  pub Ends-map :
      {Q Q' : A → S → Type 0} {F F' : E → S → Type 0}
      → ((a : A) (s : S) → Q a s → Q' a s)
      → ((e : E) (s : S) → F e s → F' e s)
      → (r : Result E A × S) → Ends Q F r
      → Ends Q' F' r
  Ends-map q f (ok a, s) h = q a s h
  Ends-map q f (err e, s) h = f e s h

module _ {S E A B : Type 0} (Q : A → S → Type 0) (R : B → S → Type 0) (F : E → S → Type 0) where
  pub Ends-bind :
      (r : Result E A × S) (f : A → Action S E B)
      → Ends Q F r
      → ((a : A) (s : S) → Q a s → Ends R F (f a s))
      → Ends R F (continue f r)
  Ends-bind (ok a, s) f h k = k a s h
  Ends-bind (err e, s) f h k = h
