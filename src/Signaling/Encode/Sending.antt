-- ===== src/Signaling/Encode/Sending.antt =====
-- The nonces of what is sent, and what the other side makes of a task message.
use saltyrtc_client_rs.Prelude.{◌+◌, ◌≡◌, ◌<◌, Option, none, some, arith, refl, ap, ◌∙◌, ok}
use saltyrtc_client_rs.External.{SodiumLaws, PublicKey, PrivateKey}
use saltyrtc_client_rs.Types.{address_from_client}
use saltyrtc_client_rs.State.{SignalingState}
use saltyrtc_client_rs.Nonce.{Nonce}
use saltyrtc_client_rs.Crypto.{KeyPair, from_private_key}
use saltyrtc_client_rs.Csn.{
  CombinedSequence, CombinedSequenceSnapshot, combined_sequence_number, snapshot_number,
  from_snapshot,
}
use saltyrtc_client_rs.Csn.Increment.{IsCsn}
use saltyrtc_client_rs.Deps.{Deps, Value}
use saltyrtc_client_rs.Boxes.{ByteBox, OpenBox, encrypt_value, decrypt_value}
use saltyrtc_client_rs.Boxes.RoundTrip.{decrypt_value-encrypt_value}
use saltyrtc_client_rs.Context.{PeerContext, csn_pair, keypair, session_key}
use saltyrtc_client_rs.Signaling.{Common, Signaling, common}
use saltyrtc_client_rs.Signaling.Peers.{get_peer}
use saltyrtc_client_rs.Signaling.Encode.{server_nonce, encode_task_message}
use saltyrtc_client_rs.Signaling.Decode.{decode_task_message}

pub from_snapshot-number :
    (c : CombinedSequenceSnapshot) → combined_sequence_number (from_snapshot c) ≡ snapshot_number c
unfolding combined_sequence_number snapshot_number
from_snapshot-number c = refl

module _ {dep : Deps} where
  -- The nonce of a message to the server has our cookie and our address, the destination 0 and a
  -- combined sequence number that is one more than the last, does not wrap and is stored.
  pub server_nonce-number :
      (c d : Common dep) (n : Nonce)
      → IsCsn c.server.csn_pair.ours
      → server_nonce c ≡ ok n d
      → (snapshot_number n.csn ≡ combined_sequence_number c.server.csn_pair.ours + 1)
        × (d.server.csn_pair.ours ≡ from_snapshot n.csn)
        × IsCsn d.server.csn_pair.ours
        × (n.cookie ≡ c.server.cookie_pair.ours)
        × (n.destination ≡ 0)
        × (address_from_client c.identity ≡ some n.source)
  unfolding server_nonce snapshot_number combined_sequence_number
  server_nonce-number c d n v e =
      (ground arith, ground arith, ground arith, ground arith, ground arith, ground arith)

  -- The number of the last message that was sent to the peer
  unfoldable pub own_csn : Signaling dep → Option CombinedSequence
  unfolding get_peer
  own_csn s = elim (get_peer s) [ none ↦ none | some p ↦ some (csn_pair p).ours ]

  -- A task message is encoded only in the task state. Its nonce has a combined sequence number that
  -- is one more than the last one to the peer, does not wrap and is stored.
  pub encode_task_message-number :
      (value : Value dep) (s t : Signaling dep) (b : ByteBox) (c : CombinedSequence)
      → own_csn s ≡ some c
      → IsCsn c
      → encode_task_message value s ≡ ok b t
      → (snapshot_number b.nonce.csn ≡ combined_sequence_number c + 1)
        × (own_csn t ≡ some (from_snapshot b.nonce.csn))
        × IsCsn (from_snapshot b.nonce.csn)
        × ((common s).signaling_state ≡ SignalingState.task)
  unfolding encode_task_message snapshot_number combined_sequence_number own_csn
  encode_task_message-number value (Signaling.initiator s) t b c k v e =
      (ground arith, ground arith, ground arith, ground arith)
  encode_task_message-number value (Signaling.responder s) t b c k v e =
      (ground arith, ground arith, ground arith, ground arith)

  -- Two task messages that are sent one after the other have different nonces: the second has the
  -- greater combined sequence number. The number before the first has to fit its machine types.
  pub encode_task_message-distinct :
      (value value' : Value dep) (s t u : Signaling dep) (b b' : ByteBox) (c : CombinedSequence)
      → own_csn s ≡ some c
      → IsCsn c
      → encode_task_message value s ≡ ok b t
      → encode_task_message value' t ≡ ok b' u
      → snapshot_number b.nonce.csn < snapshot_number b'.nonce.csn
  encode_task_message-distinct value value' s t u b b' c k v e e' =
      let (_, k', v', _) = encode_task_message-number value s t b c k v e in
      let (n, _, _, _) =
        encode_task_message-number value' t u b' (from_snapshot b.nonce.csn) k' v' e' in
      omega (arith, n, from_snapshot-number b.nonce.csn)

  encoded_value :
      (value : Value dep) (s t : Signaling dep) (b : ByteBox) (p : PeerContext) (pair : KeyPair)
      (key : PublicKey)
      → get_peer s ≡ some p
      → keypair p ≡ some pair
      → session_key p ≡ some key
      → encode_task_message value s ≡ ok b t
      → b ≡ encrypt_value dep pair key (record { message = value; nonce = b.nonce })
  unfolding encode_task_message encrypt_value
  encoded_value value (Signaling.initiator s) t b p pair key g k x e = ground arith
  encoded_value value (Signaling.responder s) t b p pair key g k x e = ground arith

  decoded_value :
      (b : ByteBox) (s : Signaling dep) (p : PeerContext) (pair : KeyPair) (key : PublicKey)
      (obox : OpenBox (Value dep))
      → get_peer s ≡ some p
      → keypair p ≡ some pair
      → session_key p ≡ some key
      → decrypt_value dep b pair key ≡ some obox
      → decode_task_message b s ≡ ok obox s
  unfolding decode_task_message
  decoded_value b s p pair key obox g k x e = ground arith

  -- The task message that one client encodes is decoded by the other to the same value, with the
  -- nonce of the box, if each has the other's session key and libsodium and msgpack give back what
  -- they were given.
  pub decode_task_message-encode_task_message :
      (value : Value dep) (s t other : Signaling dep) (b : ByteBox) (p q : PeerContext)
      (ours theirs : PrivateKey)
      → SodiumLaws dep.sodium
      → dep.msgpack.value_from_msgpack (dep.msgpack.value_to_msgpack value) ≡ some value
      → get_peer s ≡ some p
      → keypair p ≡ some (from_private_key dep.sodium ours)
      → session_key p ≡ some (dep.sodium.scalarmult_base theirs)
      → get_peer other ≡ some q
      → keypair q ≡ some (from_private_key dep.sodium theirs)
      → session_key q ≡ some (dep.sodium.scalarmult_base ours)
      → encode_task_message value s ≡ ok b t
      → decode_task_message b other ≡ ok (record { message = value; nonce = b.nonce }) other
  decode_task_message-encode_task_message value s t other b p q ours theirs laws m ps kp sp qs kq sq
        e =
      decoded_value b other q (from_private_key dep.sodium theirs) (dep.sodium.scalarmult_base ours)
        (record { message = value; nonce = b.nonce }) qs kq sq
        (ap
            (λ x.
              decrypt_value dep x (from_private_key dep.sodium theirs)
                (dep.sodium.scalarmult_base ours))
            (encoded_value value s t b p (from_private_key dep.sodium ours)
              (dep.sodium.scalarmult_base theirs) ps kp sp e)
          ∙ decrypt_value-encrypt_value dep laws (record { message = value; nonce = b.nonce }) ours
              theirs m)
