-- ===== src/Service/Streaming.antt =====
-- Streams give their slot back when they have been read (src/dalmatian/service.py).
use dalmatian.Prelude.{
  ℕ, zero, suc, ◌+◌, ◌≡◌, String, ◌==◌, Option, List, [], ◌∷◌, arith, if◌then◌else◌, nat_eq,
  Bool-cases, inl, inr,
}
use dalmatian.Models.{QueryRequest}
use dalmatian.Fingerprint.{Hashing}
use dalmatian.Errors.{Result, ok, err}
use dalmatian.Effects.{Action, ◌>>=◌}
use dalmatian.Execution.{ExecutionContext}
use dalmatian.Service.Config.{ServiceConfig}
use dalmatian.Service.Environment.{Environment, Event, Run}
use dalmatian.Service.Execute.{record_call, update_call, give_slot}
use dalmatian.Service.Stream.{
  Opened, Ending, finished, disconnected, failed, deliver, if_sync, slot_refused, stream_failed,
  open_stream, admit_stream, stream_in, open_in, checked_stream, stream, tell_ending, read_stream,
}
use dalmatian.Service.Balance.{slots_taken, slots_given}

module _ ⦃H : Hashing⦄ {E Row : Type 0} (env : Environment E Row) (c : ServiceConfig) where
  -- A stream that is opened keeps its slot, one that is refused or fails keeps none.
  unfoldable pub Opens : {A : Type 0} → List (Event Row) → Result A → List (Event Row) → Type 0
  Opens before (ok a) after =
      slots_taken after + slots_given before ≡ slots_given after + slots_taken before + 1
  Opens before (err e) after =
      slots_taken after + slots_given before ≡ slots_given after + slots_taken before

  admit_stream-Opens :
      (request : QueryRequest) (sql : String) (context : ExecutionContext E) (s : Run E Row)
      → let r = admit_stream env c request sql context s in Opens s.log r.0 r.1.log
  unfolding admit_stream slot_refused open_stream stream_failed give_slot if_sync update_call Opens
      slots_taken slots_given
  admit_stream-Opens request sql context s = ground arith

  Opens-recorded :
      {A : Type 0} (r : Result A) (query_id : String) (before after : List (Event Row))
      → Opens (Event.recorded query_id "sync" ∷ before) r after
      → Opens before r after
  unfolding Opens slots_taken slots_given
  Opens-recorded (ok a) query_id before after h = h
  Opens-recorded (err e) query_id before after h = h

  stream_in-Opens :
      (request : QueryRequest) (sql : String) (context : ExecutionContext E) (s : Run E Row)
      → let r = stream_in env c request sql context s in Opens s.log r.0 r.1.log
  unfolding stream_in if_sync record_call
  stream_in-Opens request sql context s = elim (Bool-cases (context.kind == "sync")) [
    | inl e ↦
        (let u : Run E Row = record {
          env = (env.record_invocation context.query_id "sync" request s.env).1;
          log = Event.recorded context.query_id "sync" ∷ s.log;
        } in
          let r = admit_stream env c request sql context u in
          rw e (
            Opens-recorded r.0 context.query_id s.log r.1.log
              (admit_stream-Opens request sql context u)))
    | inr e ↦ rw e (admit_stream-Opens request sql context s)
  ]

  open_in-Opens :
      (request : QueryRequest) (sql : String) (context : ExecutionContext E) (s : Run E Row)
      → let r = open_in env c request sql context s in Opens s.log r.0 r.1.log
  unfolding Opens open_in
  open_in-Opens request sql context s = ground (arith, stream_in-Opens request sql context s)

  checked_stream-Opens :
      (request : QueryRequest) (context : Option (ExecutionContext E))
      (query_id attempt_id sql : String) (s : Run E Row)
      → let r = checked_stream env c request context query_id attempt_id sql s in
        Opens s.log r.0 r.1.log
  unfolding checked_stream Opens
  checked_stream-Opens request context query_id attempt_id sql s = grind (arith, open_in-Opens)

  stream-Opens :
      (validate_sql : String → List String → Result String) (request : QueryRequest)
      (context : Option (ExecutionContext E)) (query_id attempt_id : String) (s : Run E Row)
      → let r = stream env c validate_sql request context query_id attempt_id s in
        Opens s.log r.0 r.1.log
  unfolding stream Opens
  stream-Opens validate_sql request context query_id attempt_id s =
      grind (arith, checked_stream-Opens)

  tell_ending-slots :
      (context : ExecutionContext E) (ending : Ending) (s : Run E Row)
      → ((tell_ending env c context ending s).0 ≡ ok tt)
        × (slots_taken (tell_ending env c context ending s).1.log ≡ slots_taken s.log)
        × (slots_given (tell_ending env c context ending s).1.log ≡ slots_given s.log)
  unfolding tell_ending if_sync update_call slots_taken slots_given
  tell_ending-slots context finished s = ground arith
  tell_ending-slots context disconnected s = ground arith
  tell_ending-slots context (failed e) s = ground arith

  -- Reading gives the slot back, once it has begun, unless it raises.
  abbrev returned : ℕ → Result (List String) → ℕ
  returned n (ok chunks) = if nat_eq n 0 then 0 else 1
  returned n (err e) = 0

  read_stream-slots :
      (context : ExecutionContext E) (rows : List (Result String)) (n : ℕ) (s : Run E Row)
      → let r = read_stream env c context rows n s in
        (slots_taken r.1.log ≡ slots_taken s.log)
        × (slots_given r.1.log ≡ slots_given s.log + returned n r.0)
  unfolding read_stream give_slot slots_taken slots_given
  read_stream-slots context rows zero s = ground arith
  read_stream-slots context rows (suc n) s =
      ground (arith, tell_ending-slots context (deliver (suc n) rows).1 s)

  -- The reader of an opened stream asks for `n` chunks.
  unfoldable pub read_opened : ℕ → Opened env c → Action (Run E Row) (List String)
  read_opened n ((media, rows), context) = read_stream env c context rows n

  -- A stream that is opened keeps its slot if it is never read, or if the reading raises.
  unfoldable pub leftover : ℕ → Result (Opened env c) → Result (List String) → ℕ
  leftover n (ok opened) (ok chunks) = if nat_eq n 0 then 1 else 0
  leftover n (ok opened) (err e) = 1
  leftover n (err e) read = 0

  read_opened-slots :
      (n : ℕ) (r : Result (Opened env c)) (before : List (Event Row)) (u : Run E Row)
      → Opens before r u.log
      → let ended = elim r as (λ x. Result (List String) × Run E Row) [
        | ok opened ↦ read_opened n opened u
        | err e ↦ (err e, u)
      ] in
        slots_taken ended.1.log + slots_given before
        ≡ slots_given ended.1.log + slots_taken before + leftover n r ended.0
  unfolding Opens read_opened leftover
  read_opened-slots n (ok ((media, rows), context)) before u h =
      ground (arith, read_stream-slots context rows n u)
  read_opened-slots n (err e) before u h = ground arith

  -- In every environment: a stream that is refused or that fails gives its slot back, and so does one
  -- that is opened once its reader has asked for a chunk, whether the reading finishes, fails or is
  -- abandoned; the slot stays taken if the reader goes away before its first request, or if the
  -- reading's own end raises, as it does where the engine's cancel raises.
  pub stream-slots :
      (validate_sql : String → List String → Result String) (request : QueryRequest)
      (context : Option (ExecutionContext E)) (query_id attempt_id : String) (n : ℕ) (s : Run E Row)
      → s.log ≡ []
      → let opened = stream env c validate_sql request context query_id attempt_id in
        let ended = (opened >>= read_opened n) s in
        slots_taken ended.1.log ≡ slots_given ended.1.log + leftover n (opened s).0 ended.0
  unfolding slots_taken slots_given
  stream-slots validate_sql request context query_id attempt_id n s h =
      let r = stream env c validate_sql request context query_id attempt_id s in
      ground (
        arith,
        read_opened-slots n r.0 s.log r.1
            (stream-Opens validate_sql request context query_id attempt_id s),
      )
