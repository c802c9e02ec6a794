-- ===== src/Client/Lifetime.antt =====
-- A client from its first state on: `do_handshake`, then the reader of `task_loop`.
use saltyrtc_client_rs.Prelude.{
  ◌≡◌, true, Option, none, some, List, [], ok, err, panic, Panic, Step, arith,
}
use saltyrtc_client_rs.Prelude.Outcome.{holds, keeps, is_foreign}
use saltyrtc_client_rs.Errors.{SaltyError}
use saltyrtc_client_rs.Deps.{Deps, IterOrderLaws}
use saltyrtc_client_rs.Signaling.Reach.{IsNew, new-is_valid}
use saltyrtc_client_rs.Client.{SaltyClient}
use saltyrtc_client_rs.Client.WebSocket.{Session, Incoming, Turn, Loop}
use saltyrtc_client_rs.Client.Handshake.{do_handshake}
use saltyrtc_client_rs.Client.TaskLoop.{TaskSession, Receivers, reader}
use saltyrtc_client_rs.Client.Handshake.Keeps.{in_handshake, do_handshake-keeps}
use saltyrtc_client_rs.Client.TaskLoop.Keeps.{reader-keeps}

-- What a call panics with
abbrev panic_of : {S E A : Type 0} → Step S E A → Option Panic
panic_of (ok _ _) = none
panic_of (err _ _) = none
panic_of (panic p) = some p

module _ {dep : Deps} where
  -- The task loop begins with the client that the handshake has left, and with empty channels.
  abbrev pub task_session : SaltyClient dep → TaskSession dep
  task_session c = record { salty = c; raw_outgoing = []; incoming = []; events = [] }

  -- What an application that runs `do_handshake` and then the reader panics with
  unfoldable pub run_panic : List Turn → Receivers → List Incoming → Session dep → Option Panic
  run_panic turns held items s = elim (do_handshake turns s) [
    | ok Loop.break t ↦ panic_of (reader held items (task_session t.salty))
    | ok Loop.continue t ↦ none
    | err e t ↦ none
    | panic p ↦ some p
  ]

  -- A client that began with `new` never runs into one of its own asserts or unwraps, neither in
  -- `do_handshake` nor, once that is done, in the reader of `task_loop`, whatever the socket brings:
  -- if one of them panics, then because libsodium could not be initialised or gave a cookie of zeros,
  -- the server sealed signed keys of another length, or it sent `drop-responder`. The iteration of a
  -- hash table is assumed to meet its keys and nothing else.
  pub run-is_foreign :
      IterOrderLaws dep
      → (s : Session dep) (turns : List Turn) (held : Receivers) (items : List Incoming) (p : Panic)
      → IsNew s.salty
      → run_panic turns held items s ≡ some p
      → is_foreign p ≡ true
  unfolding run_panic holds
  run-is_foreign laws s turns held items p new e =
      after (do_handshake turns s) (do_handshake-keeps laws turns s (new-is_valid s.salty new)) e
    where
      after :
          (x : Step (Session dep) SaltyError Loop)
          → keeps (in_handshake laws) x ≡ true
          → elim x [
            | ok Loop.break t ↦ panic_of (reader held items (task_session t.salty))
            | ok Loop.continue t ↦ none
            | err e t ↦ none
            | panic p ↦ some p
          ]
            ≡ some p
          → is_foreign p ≡ true
      after (ok Loop.break t) h e =
          ground (arith, e, reader-keeps laws held items (task_session t.salty) h)
      after (ok Loop.continue t) h e = absurd (ground (arith, e))
      after (err x t) h e = absurd (ground (arith, e))
      after (panic q) h e = ground (arith, h, e)
