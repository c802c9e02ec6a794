-- ===== src/Signaling/Reach.antt =====
-- The states that a client reaches from the messages that it is sent, in their order. The client
-- may go on after an error, which keeps the changes made before it.
use saltyrtc_client_rs.Prelude.{
  ℕ, ◌≡◌, ◌≤◌, true, Option, some, List, arith, Panic, ok, err, panic, nat_has_eq,
}
use saltyrtc_client_rs.Prelude.Outcome.{holds, is_foreign}
use saltyrtc_client_rs.Prelude.Dict.{lookup}
use saltyrtc_client_rs.Context.{ResponderContext}
use saltyrtc_client_rs.Signaling.Invariant.Tables.{lookup-keyed}
use saltyrtc_client_rs.External.{PublicKey}
use saltyrtc_client_rs.Boxes.{ByteBox}
use saltyrtc_client_rs.Types.{Address}
use saltyrtc_client_rs.Crypto.{KeyPair, AuthToken}
use saltyrtc_client_rs.Deps.{Deps, BoxedTask, Rng, IterOrderLaws}
use saltyrtc_client_rs.Errors.{SignalingError}
use saltyrtc_client_rs.Signaling.{
  Actions, InitiatorSignaling, ResponderSignaling, Signaling, common,
}
use saltyrtc_client_rs.Signaling.New.{new_initiator, new_responder}
use saltyrtc_client_rs.Signaling.Handle.{handle_message}
use saltyrtc_client_rs.Signaling.Invariant.{
  fits, rank, is_valid_initiator, is_valid_responder, is_valid_common, keyed_by_address,
  chosen_has_address, is_valid,
}
use saltyrtc_client_rs.Signaling.Invariant.Handle.{handle_message-is_valid}

module _ {dep : Deps} where
  -- The states that `s` leads to
  pub data Reaches (s : Signaling dep) : Signaling dep → Type 0 where
    start : Reaches s s
    handled :
        {t u : Signaling dep} (bbox : ByteBox) (actions : Actions dep)
        → Reaches s t
        → handle_message bbox t ≡ ok actions u
        → Reaches s u
    failed :
        {t u : Signaling dep} (bbox : ByteBox) (e : SignalingError)
        → Reaches s t
        → handle_message bbox t ≡ err e u
        → Reaches s u

  -- The state that a client begins with.
  pub data IsNew : Signaling dep → Type 0 where
    initiator :
        (pair : KeyPair) (tasks : List (BoxedTask dep)) (trusted server : Option PublicKey)
        (ping : Option ℕ) (g h : Rng dep) (s : InitiatorSignaling dep)
        → new_initiator {E = SignalingError} pair tasks trusted server ping g ≡ ok s h
        → IsNew (Signaling.initiator s)
    responder :
        (pair : KeyPair) (key : PublicKey) (token : Option AuthToken) (server : Option PublicKey)
        (tasks : List (BoxedTask dep)) (ping : Option ℕ) (g h : Rng dep)
        (s : ResponderSignaling dep)
        → new_responder {E = SignalingError} pair key token server tasks ping g ≡ ok s h
        → IsNew (Signaling.responder s)

  pub new-is_valid : (s : Signaling dep) → IsNew s → is_valid 0 s ≡ true
  unfolding is_valid is_valid_initiator is_valid_responder is_valid_common keyed_by_address
      chosen_has_address new_initiator new_responder
  new-is_valid s (IsNew.initiator pair tasks trusted server ping g h i e) = ground arith
  new-is_valid s (IsNew.responder pair key token server tasks ping g h r e) = ground arith

  is_valid-rank :
      (from : ℕ) (s : Signaling dep)
      → is_valid from s ≡ true
      → from ≤ rank (common s).signaling_state
  unfolding is_valid is_valid_initiator is_valid_responder is_valid_common
  is_valid-rank from (Signaling.initiator s) h = ground arith
  is_valid-rank from (Signaling.responder s) h = ground arith

  is_valid-now :
      (from : ℕ) (s : Signaling dep)
      → is_valid from s ≡ true
      → is_valid (rank (common s).signaling_state) s ≡ true
  unfolding is_valid is_valid_initiator is_valid_responder is_valid_common
  is_valid-now from (Signaling.initiator s) h = ground arith
  is_valid-now from (Signaling.responder s) h = ground arith

  module _ (laws : IterOrderLaws dep) where
    Reaches-is_valid :
        (from : ℕ) (s t : Signaling dep)
        → is_valid from s ≡ true
        → Reaches s t
        → is_valid from t ≡ true
    unfolding holds
    Reaches-is_valid from s t h Reaches.start = h
    Reaches-is_valid from s u h (Reaches.handled {t = t} bbox actions r e) =
        ground (arith, e, handle_message-is_valid from laws bbox t (Reaches-is_valid from s t h r))
    Reaches-is_valid from s u h (Reaches.failed {t = t} bbox er r e) =
        ground (arith, e, handle_message-is_valid from laws bbox t (Reaches-is_valid from s t h r))

    module _ (s : Signaling dep) (new : IsNew s) where
      -- A client that began with `new` never runs into one of its own asserts, whatever it is sent:
      -- if `handle_message` panics, then because libsodium could not be initialised or gave a cookie
      -- of zeros, the server sealed signed keys of another length, or it sent `drop-responder`.
      -- The iteration of a hash table is assumed to meet its keys and nothing else.
      pub handle_message-is_foreign :
          (t : Signaling dep) (bbox : ByteBox) (p : Panic)
          → Reaches s t
          → handle_message bbox t ≡ panic p
          → is_foreign p ≡ true
      unfolding holds
      handle_message-is_foreign t bbox p r e = ground (
        arith,
        e,
        handle_message-is_valid 0 laws bbox t (Reaches-is_valid 0 s t (new-is_valid s new) r),
      )

      -- The identity that a client has at any time after `new` is none, or one that fits its role:
      -- the initiator's, or a responder's with an address of at least 2. The iteration of a hash table
      -- is assumed to meet its keys and nothing else.
      pub Reaches-fits :
          (t : Signaling dep) → Reaches s t → fits (common t).role (common t).identity ≡ true
      unfolding is_valid is_valid_initiator is_valid_responder is_valid_common
      Reaches-fits t r = reached t (Reaches-is_valid 0 s t (new-is_valid s new) r)
        where
          reached :
              (t : Signaling dep)
              → is_valid 0 t ≡ true
              → fits (common t).role (common t).identity ≡ true
          reached (Signaling.initiator t) h = ground arith
          reached (Signaling.responder t) h = ground arith

      -- At any time after `new`, each responder in the table of an initiator is kept under its own
      -- address, and this is the address of a responder: it is at least 2. The iteration of a hash
      -- table is assumed to meet its keys and nothing else.
      pub Reaches-address :
          (t : InitiatorSignaling dep) (a : Address) (r : ResponderContext)
          → Reaches s (Signaling.initiator t)
          → lookup a t.responders ≡ some r
          → (r.address ≡ a) × (2 ≤ a)
      unfolding is_valid is_valid_initiator
      Reaches-address t a r reach e = grind (
        arith,
        lookup-keyed t.responders a r,
        Reaches-is_valid 0 s (Signaling.initiator t) (new-is_valid s new) reach,
      )

      -- From a state reached after `new`, `handle_message` never leads back: the state that it leads
      -- to, at once or later, also after errors, comes no earlier in the order server handshake, peer
      -- handshake, task. The iteration of a hash table is assumed to meet its keys and nothing else.
      pub Reaches-rank :
          (t u : Signaling dep)
          → Reaches s t
          → Reaches t u
          → rank (common t).signaling_state ≤ rank (common u).signaling_state
      Reaches-rank t u r q = is_valid-rank (rank (common t).signaling_state) u (
          Reaches-is_valid (rank (common t).signaling_state) t u
            (is_valid-now 0 t (Reaches-is_valid 0 s t (new-is_valid s new) r)) q)
