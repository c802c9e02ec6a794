-- ===== src/SendAll.antt =====
-- src/send_all.rs: the future that sends a stream of values to a sink, flushes the sink and gives it
-- back open. The sink is a parameter. A stream is what its polls give, one after the other; it is
-- fused, so that its end is given again and again. The debug assertion is not modelled.
pub mod Conserves
use saltyrtc_client_rs.Prelude.{
  Option, none, some, List, [], ◌∷◌, M, pure, throw, panics, or_panic, ok, err, panic, ◌>>=◌, ◌>>◌,
  gets, modify, Panic, Step,
}

-- `Async` of the crate `futures`
pub data Async (A : Type 0) : Type 0 where
  ready : A → Async A
  not_ready : Async A

-- `AsyncSink` of the crate `futures`, under the constructors' names in lower case
pub data AsyncSink (Item : Type 0) : Type 0 where
  accepted : AsyncSink Item
  refused : Item → AsyncSink Item

pub data Result (A E : Type 0) : Type 0 where
  success : A → Result A E
  failure : E → Result A E

-- The trait `Sink` of the crate `futures`, with what each call does to the sink
pub record Sink (Item E : Type 0) : Type 1 where
  pub State : Type 0
  pub start_send : Item → State → Result (AsyncSink Item) E × State
  pub poll_complete : State → Result (Async (Unit {0})) E × State

-- What one poll of a stream gives, before its end
pub data StreamPoll (Item E : Type 0) : Type 0 where
  next_item : Item → StreamPoll Item E
  pending : StreamPoll Item E
  error : E → StreamPoll Item E

pub record SendAll {Item E : Type 0} (k : Sink Item E) : Type 0 where
  pub sink : Option k.State
  pub stream : Option (List (StreamPoll Item E))
  pub buffered : Option Item

module _ {Item E : Type 0} {k : Sink Item E} where
  unfoldable pub new : k.State → List (StreamPoll Item E) → SendAll k
  new sink stream = record { sink = some sink; stream = some stream; buffered = none }

  -- The answer of a call on the sink, or its error, and the sink after it
  unfoldable pub answered : {A : Type 0} → SendAll k → Result A E × k.State → Step (SendAll k) E A
  answered s (Result.success a, t) = ok a (record s { sink = some t })
  answered s (Result.failure e, t) = err e (record s { sink = some t })

  -- `sink_mut().start_send(item)?`
  unfoldable pub start_send : Item → M (SendAll k) E (AsyncSink Item)
  unfolding answered
  start_send item s = elim s.sink [
    | none ↦ panic Panic.polled_after_completion
    | some sink ↦ answered s (k.start_send item sink)
  ]

  -- `sink_mut().poll_complete()?`
  unfoldable pub poll_complete : M (SendAll k) E (Async (Unit {0}))
  unfolding answered
  poll_complete s = elim s.sink [
    | none ↦ panic Panic.polled_after_completion
    | some sink ↦ answered s (k.poll_complete sink)
  ]

  -- `take_result`
  unfoldable pub take_result : M (SendAll k) E (k.State × List (StreamPoll Item E))
  take_result = do
    sink ← gets (λ s. s.sink)
    modify (λ s. record s { sink = none })
    sink' ← or_panic sink Panic.polled_after_completion
    fuse ← gets (λ s. s.stream)
    modify (λ s. record s { stream = none })
    fuse' ← or_panic fuse Panic.polled_after_completion
    pure (sink', fuse')

  unfoldable pub try_start_send : Item → M (SendAll k) E (Async (Unit {0}))
  unfolding start_send
  try_start_send item = do
    answer ← start_send item
    elim answer [
      | AsyncSink.refused item' ↦ (do
        modify (λ s. record s { buffered = some item' })
        pure Async.not_ready)
      | AsyncSink.accepted ↦ pure (Async.ready tt)
    ]

  -- The loop of `poll`, where the stream's polls give `answers`. `try_ready!` returns early.
  unfoldable pub poll_loop :
      List (StreamPoll Item E) → M (SendAll k) E (Async (k.State × List (StreamPoll Item E)))
  unfolding try_start_send poll_complete take_result
  poll_loop [] = do
    flushed ← poll_complete
    elim flushed [
      | Async.not_ready ↦ pure Async.not_ready
      | Async.ready _ ↦ (do result ← take_result; pure (Async.ready result))
    ]
  poll_loop (StreamPoll.next_item item ∷ answers) = do
    modify (λ s. record s { stream = some answers })
    sent ← try_start_send item
    elim sent [ Async.not_ready ↦ pure Async.not_ready | Async.ready _ ↦ poll_loop answers ]
  poll_loop (StreamPoll.pending ∷ answers) = do
    modify (λ s. record s { stream = some answers })
    flushed ← poll_complete
    pure Async.not_ready
  poll_loop (StreamPoll.error e ∷ answers) = do
    modify (λ s. record s { stream = some answers })
    throw e

  -- `if let Some(item) = self.buffered.take()`
  unfoldable pub send_buffered : Option Item → M (SendAll k) E (Async (Unit {0}))
  unfolding try_start_send
  send_buffered none = pure (Async.ready tt)
  send_buffered (some item) = do modify (λ s. record s { buffered = none }); try_start_send item

  -- `poll`
  unfoldable pub poll : M (SendAll k) E (Async (k.State × List (StreamPoll Item E)))
  unfolding send_buffered
  poll = do
    buffered ← gets (λ s. s.buffered)
    sent ← send_buffered buffered
    elim sent [
      | Async.not_ready ↦ pure Async.not_ready
      | Async.ready _ ↦ (do
        stream ← gets (λ s. s.stream)
        answers ← or_panic stream Panic.polled_after_completion
        poll_loop answers)
    ]
