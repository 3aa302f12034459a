-- ===== src/Service/Lock.antt =====
-- Asking for the lock of a result (src/dalmatian/service.py): what the log says afterwards.
use dalmatian.Prelude.{◌≡◌, String, Option, none, some, List, ◌∷◌, arith}
use dalmatian.Models.{QueryResult}
use dalmatian.Fingerprint.{Hashing}
use dalmatian.Errors.{Raised, Result, ok, err}
use dalmatian.Effects.{Action, ◌>>=◌}
use dalmatian.Execution.{ExecutionContext}
use dalmatian.Service.Config.{ServiceConfig}
use dalmatian.Service.Environment.{Environment, Event, Run}
use dalmatian.Service.Execute.{note_lock, take_lock}

unfoldable pub lock_log :
    {Row : Type 0} → String → Result (Option String) → List (Event Row) → List (Event Row)
lock_log key (ok (some token)) log = Event.locked key token ∷ log
lock_log key (ok none) log = log
lock_log key (err e) log = log

module _ ⦃H : Hashing⦄ {E Row : Type 0} (env : Environment E Row) (c : ServiceConfig) (key : String)
    (context : ExecutionContext E) where
  take_lock-log :
      (s : Run E Row)
      → (take_lock env c key context s).1.log ≡ lock_log key (take_lock env c key context s).0 s.log
  unfolding take_lock note_lock lock_log
  take_lock-log s = ground arith

  -- What holds of the rest after every answer, and of an exception, holds of the whole.
  pub take_lock_rule :
      (Q : Result (QueryResult Row) × Run E Row → Type 0)
      (f : Option String → Action (Run E Row) (QueryResult Row)) (s : Run E Row)
      → ((o : Option String) (u : Run E Row) → u.log ≡ lock_log key (ok o) s.log → Q (f o u))
      → ((e : Raised) (u : Run E Row) → u.log ≡ s.log → Q (err e, u))
      → Q ((take_lock env c key context >>= f) s)
  unfolding lock_log
  take_lock_rule Q f s answered failed =
      by_reply (take_lock env c key context s).0 (take_lock env c key context s).1 (take_lock-log s)
    where
      by_reply :
          (r : Result (Option String)) (u : Run E Row)
          → u.log ≡ lock_log key r s.log
          → Q (elim r as (λ x. Result (QueryResult Row) × Run E Row) [
            | ok a ↦ f a u
            | err e ↦ (err e, u)
          ])
      by_reply (ok o) u e = answered o u e
      by_reply (err x) u e = failed x u e
