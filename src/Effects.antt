-- ===== src/Effects.antt =====
-- Calls that change a state and may raise: what was written before a raise stays written.
use dalmatian.Errors.{Raised, Result, ok, err}

abbrev pub Action : Type 0 → Type 0 → Type 0
Action S A = S → Result A × S

infixl 5 ◌>>=◌ ◌>>◌
abbrev pub ◌>>=◌ : {S A B : Type 0} → Action S A → (A → Action S B) → Action S B
◌>>=◌ m f s = let (r, s') = m s in elim r [ ok a ↦ f a s' | err e ↦ (err e, s') ]

abbrev pub ◌>>◌ : {S A B : Type 0} → Action S A → Action S B → Action S B
m >> k = m >>= λ _. k

module _ {S A : Type 0} where
  abbrev pub pure : A → Action S A
  pure a s = (ok a, s)

  abbrev pub raise : Raised → Action S A
  raise e s = (err e, s)

  abbrev pub lift : Result A → Action S A
  lift r s = (r, s)

  -- try: m, except Exception as exc: handler(exc)
  abbrev pub catch : Action S A → (Raised → Action S A) → Action S A
  catch m handler s = let (r, s') = m s in elim r [ ok a ↦ (ok a, s') | err e ↦ handler e s' ]

  -- try: m, finally: k. An exception of `k` takes the place of what `m` ended in.
  abbrev pub finally : Action S A → Action S (Unit {0}) → Action S A
  finally m k s =
      let (r, s') = m s in
      let (done, s'') = k s' in elim done [ ok u ↦ (r, s'') | err e ↦ (err e, s'') ]

-- try: m, except Exception: the log. The call's result is not used.
abbrev pub attempt : {S : Type 0} → Action S (Unit {0}) → Action S (Unit {0})
attempt m s = let (r, s') = m s in (ok tt, s')
