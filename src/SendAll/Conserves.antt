-- ===== src/SendAll/Conserves.antt =====
-- What `poll` does with the values that are still to be sent.
use saltyrtc_client_rs.Prelude.{
  or_panic, Panic, gets, ◌≡◌, refl, Option, none, some, List, map, [], ◌∷◌, ◌++◌, ok, err, panic, M,
  modify, subst, ap₂, ◌>>=◌, ◌>>◌, pure, Step, sym, ◌∙◌, ap,
}
use mathlib.Core.List.{append_assoc, append-nil}
use saltyrtc_client_rs.Prelude.Outcome.{continue}
use saltyrtc_client_rs.SendAll.{
  answered, Async, AsyncSink, Result, Sink, StreamPoll, SendAll, new, start_send, poll_complete,
  take_result, try_start_send, poll_loop, send_buffered, poll,
}

-- What a sink is documented to do: `sent` is what it has accepted so far.
pub record SinkLaws {Item E : Type 0} (k : Sink Item E) : Type 0 where
  pub sent : k.State → List Item
  pub accepted :
      (x : Item) (s t : k.State)
      → k.start_send x s ≡ (Result.success AsyncSink.accepted, t)
      → sent t ≡ sent s ++ (x ∷ [])
  pub refused :
      (x y : Item) (s t : k.State)
      → k.start_send x s ≡ (Result.success (AsyncSink.refused y), t)
      → (y ≡ x) × (sent t ≡ sent s)
  pub flushed :
      (a : Async (Unit {0})) (s t : k.State)
      → k.poll_complete s ≡ (Result.success a, t)
      → sent t ≡ sent s

-- The values that the polls of a stream give
unfoldable pub items : {Item E : Type 0} → List (StreamPoll Item E) → List Item
items [] = []
items (StreamPoll.next_item x ∷ answers) = x ∷ items answers
items (StreamPoll.pending ∷ answers) = items answers
items (StreamPoll.error e ∷ answers) = items answers

module _ {Item E : Type 0} {k : Sink Item E} (laws : SinkLaws k) where
  abbrev sent_by : Option k.State → List Item
  sent_by none = []
  sent_by (some sink) = laws.sent sink

  abbrev buffered_items : Option Item → List Item
  buffered_items none = []
  buffered_items (some x) = x ∷ []

  abbrev stream_items : Option (List (StreamPoll Item E)) → List Item
  stream_items none = []
  stream_items (some answers) = items answers

  -- All values, in their order: those that the sink has accepted, the one that is held back, and
  -- those that the stream has yet to give
  unfoldable pub all_items : SendAll k → List Item
  unfolding items
  all_items s = sent_by s.sink ++ (buffered_items s.buffered ++ stream_items s.stream)

  -- What a poll ends in, for the values that there are: the sink has all of them in the end, and
  -- until then none is lost, sent twice or overtaken.
  Keeps : List Item → Step (SendAll k) E (Async (k.State × List (StreamPoll Item E))) → Type 0
  Keeps all (ok Async.not_ready t) = all_items t ≡ all
  Keeps all (ok (Async.ready (sink, rest)) t) = laws.sent sink ≡ all
  Keeps all (err e t) = Unit {0}
  Keeps all (panic p) = Unit {0}

  abbrev pub live : k.State → List (StreamPoll Item E) → Option Item → SendAll k
  live sink answers held = record { sink = some sink; stream = some answers; buffered = held }

  -- What follows a call on the sink
  abbrev after_flush :
      Async (Unit {0}) → M (SendAll k) E (Async (k.State × List (StreamPoll Item E)))
  after_flush Async.not_ready = pure Async.not_ready
  after_flush (Async.ready _) = take_result >>= λ result. pure (Async.ready result)

  abbrev after_answer : AsyncSink Item → M (SendAll k) E (Async (Unit {0}))
  after_answer (AsyncSink.refused y) =
      modify (λ s. record s { buffered = some y }) >> pure Async.not_ready
  after_answer AsyncSink.accepted = pure (Async.ready tt)

  abbrev after_sent :
      M (SendAll k) E (Async (k.State × List (StreamPoll Item E)))
      → Async (Unit {0})
      → M (SendAll k) E (Async (k.State × List (StreamPoll Item E)))
  after_sent rest Async.not_ready = pure Async.not_ready
  after_sent rest (Async.ready _) = rest

  flush-Keeps : (sink : k.State) → Keeps (laws.sent sink ++ []) (poll_loop [] (live sink [] none))
  unfolding poll_loop poll_complete answered take_result Keeps all_items items
  flush-Keeps sink = after (k.poll_complete sink) refl
    where
      after :
          (p : Result (Async (Unit {0})) E × k.State)
          → k.poll_complete sink ≡ p
          → Keeps (laws.sent sink ++ []) (continue after_flush (answered (live sink [] none) p))
      after (Result.success Async.not_ready, sink') e =
          ap (λ xs. xs ++ []) (laws.flushed Async.not_ready sink sink' e)
      after (Result.success (Async.ready x), sink') e =
          laws.flushed (Async.ready x) sink sink' e ∙ sym (append-nil (laws.sent sink))
      after (Result.failure x, sink') e = tt

  wait-Keeps :
      (sink : k.State) (answers : List (StreamPoll Item E))
      → Keeps
          (laws.sent sink ++ items answers)
          (continue (λ _. pure Async.not_ready) (poll_complete (live sink answers none)))
  unfolding poll_complete answered Keeps all_items
  wait-Keeps sink answers = after (k.poll_complete sink) refl
    where
      after :
          (p : Result (Async (Unit {0})) E × k.State)
          → k.poll_complete sink ≡ p
          → Keeps
              (laws.sent sink ++ items answers)
              (continue (λ _. pure Async.not_ready) (answered (live sink answers none) p))
      after (Result.success x, sink') e =
          ap (λ xs. xs ++ items answers) (laws.flushed x sink sink' e)
      after (Result.failure x, sink') e = tt

  -- One value is handed to the sink, and the rest goes on if it is accepted.
  send-Keeps :
      (x : Item) (sink : k.State) (answers : List (StreamPoll Item E))
      (rest : M (SendAll k) E (Async (k.State × List (StreamPoll Item E))))
      → ((sink' : k.State)
          → Keeps (laws.sent sink' ++ items answers) (rest (live sink' answers none)))
      → Keeps
          (laws.sent sink ++ (x ∷ items answers))
          (continue (after_sent rest) (try_start_send x (live sink answers none)))
  unfolding try_start_send start_send answered Keeps all_items
  send-Keeps x sink answers rest keep = after (k.start_send x sink) refl
    where
      after :
          (p : Result (AsyncSink Item) E × k.State)
          → k.start_send x sink ≡ p
          → Keeps (laws.sent sink ++ (x ∷ items answers)) (
              continue
                (after_sent rest)
                (continue after_answer (answered (live sink answers none) p)))
      after (Result.success AsyncSink.accepted, sink') e =
          let all =
            ap (λ xs. xs ++ items answers) (laws.accepted x sink sink' e)
            ∙ append_assoc (laws.sent sink) (x ∷ []) (items answers) in
          subst (λ xs. Keeps xs (rest (live sink' answers none))) all (keep sink')
      after (Result.success (AsyncSink.refused y), sink') e =
          let (same, before) = laws.refused x y sink sink' e in
          ap₂ (λ xs z. xs ++ (z ∷ items answers)) before same
      after (Result.failure x, sink') e = tt

  loop-Keeps :
      (answers : List (StreamPoll Item E)) (sink : k.State)
      → Keeps (laws.sent sink ++ items answers) (poll_loop answers (live sink answers none))
  unfolding poll_loop items Keeps
  loop-Keeps [] sink = flush-Keeps sink
  loop-Keeps (StreamPoll.next_item x ∷ answers) sink =
      send-Keeps x sink answers (poll_loop answers) (loop-Keeps answers)
  loop-Keeps (StreamPoll.pending ∷ answers) sink = wait-Keeps sink answers
  loop-Keeps (StreamPoll.error e ∷ answers) sink = tt

  poll-Keeps :
      (sink : k.State) (answers : List (StreamPoll Item E)) (held : Option Item)
      → Keeps (all_items (live sink answers held)) (poll (live sink answers held))
  unfolding poll send_buffered all_items
  poll-Keeps sink answers none = loop-Keeps answers sink
  poll-Keeps sink answers (some x) =
      send-Keeps x sink answers
        (do
          stream ← gets (λ s. s.stream)
          answers ← or_panic stream Panic.polled_after_completion
          poll_loop answers)
        (loop-Keeps answers)

  -- While `poll` answers that it is not ready, no value is lost, sent twice or overtaken: those that
  -- the sink has, the one that is held back and those to come are the same as before. The sink has
  -- to answer truly whether it took a value.
  pub poll-not_ready :
      (sink : k.State) (answers : List (StreamPoll Item E)) (held : Option Item) (t : SendAll k)
      → poll (live sink answers held) ≡ ok Async.not_ready t
      → all_items t ≡ all_items (live sink answers held)
  unfolding Keeps
  poll-not_ready sink answers held t e =
      subst (Keeps (all_items (live sink answers held))) e (poll-Keeps sink answers held)

  -- When `poll` answers that it is done, the sink has got exactly the values that were to be sent, in
  -- their order. The sink has to answer truly whether it took a value.
  pub poll-ready :
      (sink : k.State) (answers : List (StreamPoll Item E)) (held : Option Item) (t : SendAll k)
      (sink' : k.State) (rest : List (StreamPoll Item E))
      → poll (live sink answers held) ≡ ok (Async.ready (sink', rest)) t
      → laws.sent sink' ≡ all_items (live sink answers held)
  unfolding Keeps
  poll-ready sink answers held t sink' rest e =
      subst (Keeps (all_items (live sink answers held))) e (poll-Keeps sink answers held)

  -- A sink that takes every value, and is flushed at once
  pub record IsWilling : Type 0 where
    pub takes :
        (x : Item) (s : k.State)
        → (t : k.State) × (k.start_send x s ≡ (Result.success AsyncSink.accepted, t))
    pub flushes :
        (s : k.State) → (t : k.State) × (k.poll_complete s ≡ (Result.success (Async.ready tt), t))

  -- The polls of `stream::iter_ok(values)`
  abbrev pub iter_ok : List Item → List (StreamPoll Item E)
  iter_ok xs = map StreamPoll.next_item xs

  -- The future completes.
  Completes : Step (SendAll k) E (Async (k.State × List (StreamPoll Item E))) → Type 0
  Completes x = (sink : k.State) × (t : SendAll k) × (x ≡ ok (Async.ready (sink, [])) t)

  loop-Completes :
      (xs : List Item) (sink : k.State)
      → IsWilling
      → Completes (poll_loop (iter_ok xs) (live sink (iter_ok xs) none))
  unfolding poll_loop poll_complete try_start_send start_send answered take_result Completes
  loop-Completes [] sink w =
      let (sink', e) = w.flushes sink in
      (
        sink',
        record { sink = none; stream = none; buffered = none },
        ap (λ p. continue after_flush (answered (live sink [] none) p)) e,
      )
  loop-Completes (x ∷ xs) sink w =
      let (sink', e) = w.takes x sink in
      let (last, t, f) = loop-Completes xs sink' w in
      (
        last,
        t,
        ap
              (λ p.
                continue (after_sent (poll_loop (iter_ok xs)))
                  (continue after_answer (answered (live sink (iter_ok xs) none) p)))
              e
            ∙ f,
      )

  -- If the sink takes every value, then one `poll` sends all that a list of values has, in its order,
  -- and completes.
  pub poll-completes :
      (xs : List Item) (sink : k.State)
      → IsWilling
      → (sink' : k.State) × (t : SendAll k) × (poll (new sink (iter_ok xs))
          ≡ ok (Async.ready (sink', [])) t)
        × (laws.sent sink' ≡ laws.sent sink ++ xs)
  unfolding new poll send_buffered Completes all_items items
  poll-completes xs sink w =
      let (sink', t, e) = loop-Completes xs sink w in
      (
        sink',
        t,
        e,
        poll-ready sink (iter_ok xs) none t sink' [] e
            ∙ ap (λ ys. laws.sent sink ++ ys) (items-iter_ok xs),
      )
    where
      items-iter_ok : (xs : List Item) → items (iter_ok xs) ≡ xs
      items-iter_ok [] = refl
      items-iter_ok (x ∷ xs) = rw (items-iter_ok xs)
