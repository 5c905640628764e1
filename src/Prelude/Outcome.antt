-- ===== src/Prelude/Outcome.antt =====
-- How a call ends: Rust's `Result`, and the outcome of a call that may also panic; stateful calls.

-- `std::result::Result`
pub data Result (E A : Type 0) : Type 0 where
  ok : A → Result E A
  err : E → Result E A

-- The places of the program that can panic. `recursion` is the model's own: a solver called
-- another more deeply than the depth that the call was given. The last three are of the tests.
pub data Panic : Type 0 where
  no_solvers sum_overflow ipv4_range no_namespace no_name resolver_build recursion not_serialized
        no_response unwrapped assertion :
      Panic

pub data Outcome (E A : Type 0) : Type 0 where
  done : A → Outcome E A
  fail : E → Outcome E A
  panic : Panic → Outcome E A

-- The call did not panic.
abbrev pub NoPanic : {F A : Type 0} → Outcome F A → Type 0
NoPanic (done a) = Unit
NoPanic (fail e) = Unit
NoPanic (panic p) = ⊥

-- A stateful call: what it changed stays changed, however it ends.
abbrev pub Exec : Type 0 → Type 0 → Type 0 → Type 0
Exec S E A = S → Outcome E A × S

module _ {S E A : Type 0} where
  abbrev pub pure : A → Exec S E A
  pure a s = (done a, s)

  abbrev pub throw : E → Exec S E A
  throw e s = (fail e, s)

  abbrev pub crash : Panic → Exec S E A
  crash p s = (panic p, s)

  -- A computed `Result` under `?`.
  abbrev pub lift : Result E A → Exec S E A
  lift (ok a) s = (done a, s)
  lift (err e) s = (fail e, s)

module _ {S E A B : Type 0} where
  abbrev pub resume : Outcome E A → (A → Exec S E B) → Exec S E B
  resume (done a) f s = f a s
  resume (fail e) f s = (fail e, s)
  resume (panic p) f s = (panic p, s)

  infixl 5 ◌>>=◌ ◌>>◌
  unfoldable pub ◌>>=◌ : Exec S E A → (A → Exec S E B) → Exec S E B
  ◌>>=◌ m f s = let (r, t) = m s in resume r f t

  unfoldable pub ◌>>◌ : Exec S E A → Exec S E B → Exec S E B
  unfolding ◌>>=◌
  m >> n = m >>= λ _. n

-- `map_err`
abbrev pub recast : {E F A : Type 0} → (E → F) → Outcome E A → Outcome F A
recast f (done a) = done a
recast f (fail e) = fail (f e)
recast f (panic p) = panic p

abbrev pub map_err : {S E F A : Type 0} → (E → F) → Exec S E A → Exec S F A
map_err f m s = let (r, t) = m s in (recast f r, t)
