-- ===== src/Runs/Values.antt =====
-- The theorems on sending values, on the builder and on the table of responders, at small inputs.
use saltyrtc_client_rs.Crypto
use saltyrtc_client_rs.Signaling.Encode.{send_drop_responder}
use saltyrtc_client_rs.Signaling.Paths.{
  drop_oldest_inactive_responder, trust, process_new_responder, register_responder, oldest_inactive,
}
use saltyrtc_client_rs.Runs.{HandleAction, listed, connected, first, pair}
use saltyrtc_client_rs.Context.{ResponderContext, PeerContext}
use saltyrtc_client_rs.SendAll.{poll_loop, Async, AsyncSink, Result, Sink, SendAll, new, poll}
use saltyrtc_client_rs.Prelude.{
  zero, suc, ◌+◌, ℕ, ◌≤◌, ◌≡◌, ◌≢◌, refl, true, Option, none, some, List, [], ◌∷◌, ◌++◌, ok, arith,
  length, if◌then◌else◌, ltb,
}
use saltyrtc_client_rs.External.Examples.{toy, toy_sodium-laws, repeat, ToyValue}
use saltyrtc_client_rs.SendAll.Conserves.{
  SinkLaws, IsWilling, all_items, live, iter_ok, poll-not_ready, poll-ready, poll-completes,
}
use saltyrtc_client_rs.Types.{Role, Address}
use saltyrtc_client_rs.Prelude.Dict.{values, Dict}
use saltyrtc_client_rs.Signaling.{AuthProvider, InitiatorSignaling, Signaling, common}
use saltyrtc_client_rs.Signaling.Reach.{IsNew}
use saltyrtc_client_rs.Signaling.New.{new_initiator}
use saltyrtc_client_rs.State.{ResponderHandshakeState, is_responder_new}
use saltyrtc_client_rs.Csn.{CombinedSequence}
use saltyrtc_client_rs.Signaling.Paths.Bound.{Cleaned, replaced, process_new_responder-bounded}
use saltyrtc_client_rs.Client.{new_builder, add_task, build_initiator, encrypt_raw, decrypt_raw}
use saltyrtc_client_rs.Deps.{Value}
use saltyrtc_client_rs.Signaling.Paths.Trusted.{process_new_responder-trusted}
use saltyrtc_client_rs.Client.Built.{Request, build, build-IsNew, decrypt_raw-encrypt_raw}
use saltyrtc_client_rs.Runs.Sending.{
  busy, chosen, known_initiator, other, peer-chosen, chosen-keys, peer-initiator, initiator-keys,
}

-- A sink of numbers that has room for `n` of them, and is flushed at once
abbrev taken : ℕ → ℕ → List ℕ → Result (AsyncSink ℕ) ℕ × List ℕ
taken n x s =
    if ltb (length s) n
    then (Result.success AsyncSink.accepted, s ++ (x ∷ []))
    else (Result.success (AsyncSink.refused x), s)

abbrev roomy : ℕ → Sink ℕ ℕ
roomy n = record {
  State = List ℕ;
  start_send = taken n;
  poll_complete = λ s. (Result.success (Async.ready tt), s);
}

roomy-laws : (n : ℕ) → SinkLaws (roomy n)
roomy-laws n = record {
  sent = λ s. s;
  accepted = λ x s t e. ground (arith, e);
  refused = λ x y s t e. (ground (arith, e), ground (arith, e));
  flushed = λ a s t e. ground (arith, e);
}

-- A sink that takes every number
abbrev endless : Sink ℕ ℕ
endless = record {
  State = List ℕ;
  start_send = λ x s. (Result.success AsyncSink.accepted, s ++ (x ∷ []));
  poll_complete = λ s. (Result.success (Async.ready tt), s);
}

endless-laws : SinkLaws endless
endless-laws = record {
  sent = λ s. s;
  accepted = λ x s t e. ground (arith, e);
  refused = λ x y s t e. absurd (ground (arith, e));
  flushed = λ a s t e. ground (arith, e);
}

endless-IsWilling : IsWilling endless-laws
endless-IsWilling = record { takes = λ x s. (s ++ (x ∷ []), refl); flushes = λ s. (s, refl) }

full-poll :
    poll (live (roomy-laws 1) [] (iter_ok (roomy-laws 1) (5 ∷ 6 ∷ 7 ∷ [])) none)
    ≡ ok Async.not_ready (live (roomy-laws 1) (5 ∷ []) (iter_ok (roomy-laws 1) (7 ∷ [])) (some 6))
unfolding poll poll_loop
full-poll = refl

last-poll :
    poll (live (roomy-laws 9) (5 ∷ []) (iter_ok (roomy-laws 9) (7 ∷ [])) (some 6))
    ≡ ok (Async.ready (5 ∷ 6 ∷ 7 ∷ [], [])) (record { sink = none; stream = none; buffered = none })
unfolding poll poll_loop
last-poll = refl

poll-not_ready_example :
    all_items
      (roomy-laws 1)
      (live (roomy-laws 1) (5 ∷ []) (iter_ok (roomy-laws 1) (7 ∷ [])) (some 6))
    ≡ all_items
        (roomy-laws 1)
        (live (roomy-laws 1) [] (iter_ok (roomy-laws 1) (5 ∷ 6 ∷ 7 ∷ [])) none)
poll-not_ready_example =
    poll-not_ready (roomy-laws 1) [] (iter_ok (roomy-laws 1) (5 ∷ 6 ∷ 7 ∷ [])) none
      (live (roomy-laws 1) (5 ∷ []) (iter_ok (roomy-laws 1) (7 ∷ [])) (some 6)) full-poll

poll-ready_example :
    5 ∷ 6 ∷ 7 ∷ []
    ≡ all_items
        (roomy-laws 9)
        (live (roomy-laws 9) (5 ∷ []) (iter_ok (roomy-laws 9) (7 ∷ [])) (some 6))
unfolding roomy-laws
poll-ready_example =
    poll-ready (roomy-laws 9) (5 ∷ []) (iter_ok (roomy-laws 9) (7 ∷ [])) (some 6)
      (record { sink = none; stream = none; buffered = none }) (5 ∷ 6 ∷ 7 ∷ []) [] last-poll

poll-completes_example :
    (sink' : List ℕ) × (t : SendAll endless) × (poll
        (new (5 ∷ []) (iter_ok endless-laws (6 ∷ 7 ∷ [])))
      ≡ ok (Async.ready (sink', [])) t)
    × (sink' ≡ 5 ∷ 6 ∷ 7 ∷ [])
unfolding endless-laws
poll-completes_example = poll-completes endless-laws (6 ∷ 7 ∷ []) (5 ∷ []) endless-IsWilling

-- One more responder
abbrev third : ResponderContext
third = record listed {
  counter = 1;
  address = 3;
  keypair = record { public_key = repeat 32 7; private_key = repeat 32 7 };
  csn_pair = record { ours = record { overflow = 0; sequence = 134744072 }; theirs = none };
  cookie_pair = record { ours = repeat 16 9; theirs = none };
}

-- A table of `n` responders from the address `a` on, and a full one
abbrev crowd : ℕ → Address → Dict Address ResponderContext
crowd zero a = []
crowd (suc n) a = (a, record listed { address = a; counter = a }) ∷ crowd n (a + 1)

abbrev crowded : InitiatorSignaling toy
crowded = record connected { responders = crowd 252 3; responder_counter = 999 }

-- What is left when the oldest, at the address 3, has been dropped for a new one at the address 2
abbrev newcomer : ResponderContext
newcomer = record third { counter = 999; address = 2 }

abbrev sent_csn : CombinedSequence
sent_csn = record { overflow = 0; sequence = 33686020 }

abbrev cleared : InitiatorSignaling toy
cleared = record crowded {
  common = record (crowded.common) {
    rng = 9;
    server = record (crowded.common.server) {
      csn_pair = record (crowded.common.server.csn_pair) { ours = sent_csn };
    };
  };
  responders = crowd 251 4 ++ ((2, newcomer) ∷ []);
  responder_counter = 1000;
}

abbrev dropped : HandleAction ToyValue
dropped = HandleAction.reply (record {
  bytes = repeat 16 0 ++ (4 ∷ 3 ∷ []);
  nonce = record {
    cookie = repeat 16 3;
    source = 1;
    destination = 0;
    csn = record { overflow = 0; sequence = 33686020 };
  };
})

oldest-dropped : process_new_responder 2 crowded ≡ ok (some dropped) cleared
unfolding process_new_responder register_responder drop_oldest_inactive_responder
    send_drop_responder Crypto.encrypt
oldest-dropped = refl

process_new_responder-bounded_example :
    (length cleared.responders ≤ 252)
    × ((r : ResponderContext) × (r.address ≡ 2)
        × (is_responder_new r.handshake_state ≡ true)
        × Cleaned (replaced 2 r crowded.responders) (some dropped) cleared.responders)
process_new_responder-bounded_example =
    process_new_responder-bounded 2 crowded cleared (some dropped) refl (omega arith) oldest-dropped

-- An initiator that trusts a key, and has no responder yet
abbrev trusting : InitiatorSignaling toy
trusting = record connected {
  common = record (connected.common) {
    auth_provider = some (AuthProvider.trusted_key (repeat 32 5));
  };
  responders = [];
}

abbrev trusting_third : InitiatorSignaling toy
trusting_third = record trusting {
  common = record (trusting.common) { rng = 9 };
  responders = (3, trust (repeat 32 5) third) ∷ [];
  responder_counter = 2;
}

trusted-joins : process_new_responder 3 trusting ≡ ok none trusting_third
unfolding process_new_responder register_responder
trusted-joins = refl

process_new_responder-trusted_example :
    (◌≡◌ {A = Option (HandleAction (Value toy))} none none)
    × ((r : ResponderContext) × (r.address ≡ 3)
        × (r.permanent_key ≡ some (repeat 32 5))
        × (r.handshake_state ≡ ResponderHandshakeState.token_received)
        × (trusting_third.responders ≡ replaced 3 r trusting.responders))
    × (oldest_inactive (values trusting_third.responders) ≡ none)
    × (trusting_third.common.auth_provider ≡ some (AuthProvider.trusted_key (repeat 32 5)))
unfolding oldest_inactive values
process_new_responder-trusted_example =
    process_new_responder-trusted (repeat 32 5) 3 trusting trusting_third none refl refl
      trusted-joins

first-built :
    build (Request.initiator none) (add_task "chat" (new_builder {dep = toy} pair)) 0
    ≡ ok (Signaling.initiator first) 3
unfolding build_initiator add_task new_builder new_initiator
first-built = refl

build-IsNew_example :
    IsNew (Signaling.initiator first)
    × (Role.initiator ≡ Role.initiator)
    × ((common (Signaling.initiator first)).tasks ≡ some ("chat" ∷ []))
    × ((add_task "chat" (new_builder {dep = toy} pair)).tasks ≢ [])
unfolding add_task new_builder
build-IsNew_example =
    build-IsNew (Request.initiator none) (add_task "chat" (new_builder {dep = toy} pair)) 0 3
      (Signaling.initiator first) first-built

raw-sealed :
    encrypt_raw (1 ∷ 2 ∷ []) (repeat 24 0) (Signaling.initiator (busy 7))
    ≡ ok (repeat 16 0 ++ (1 ∷ 2 ∷ [])) (Signaling.initiator (busy 7))
unfolding encrypt_raw
raw-sealed = refl

decrypt_raw-encrypt_raw_example :
    (Signaling.initiator (busy 7) ≡ Signaling.initiator (busy 7))
    × (length (repeat 24 0) ≡ 24)
    × (decrypt_raw (repeat 16 0 ++ (1 ∷ 2 ∷ [])) (repeat 24 0) (Signaling.responder other)
        ≡ ok (1 ∷ 2 ∷ []) (Signaling.responder other))
decrypt_raw-encrypt_raw_example =
    decrypt_raw-encrypt_raw (1 ∷ 2 ∷ []) (repeat 24 0) (repeat 16 0 ++ (1 ∷ 2 ∷ []))
      (Signaling.initiator (busy 7)) (Signaling.initiator (busy 7)) (Signaling.responder other)
      (PeerContext.responder (chosen 7)) (PeerContext.initiator known_initiator) (repeat 32 4)
      (repeat 32 7) toy_sodium-laws peer-chosen chosen-keys refl peer-initiator initiator-keys refl
      raw-sealed
