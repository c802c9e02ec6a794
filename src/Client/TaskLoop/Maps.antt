-- ===== src/Client/TaskLoop/Maps.antt =====
-- A message of the task's own, which is a map, from the task of one client to the task of its peer.
use saltyrtc_client_rs.Client.{not, encrypt_task_message}
use saltyrtc_client_rs.Client.TaskLoop.{
  Bool, TaskSession, Next, Item, value_of_entries, transform_message, read_one,
}
use saltyrtc_client_rs.Prelude.{
  ◌<◌, ◌≡◌, true, some, [], ◌∷◌, ◌++◌, ok, arith, length, nat_has_eq, string_has_eq, false, refl,
  map, String, List, Bool, any, ◌==◌, not, ◌&&◌,
}
use saltyrtc_client_rs.External.{SodiumLaws, BigEndianLaws, RmpvLaws, PrivateKey}
use saltyrtc_client_rs.Types.{is_server}
use saltyrtc_client_rs.Nonce.RoundTrip.{IsNonce}
use saltyrtc_client_rs.Crypto.{from_private_key}
use saltyrtc_client_rs.Prelude.Dict.{Dict, lookup, insert, collect, keys, distinct}
use saltyrtc_client_rs.Deps.{Deps, Value, EntryOrderLaws}
use saltyrtc_client_rs.Tasks.{TaskMessage}
use saltyrtc_client_rs.Boxes.{ByteBox, into_bytes}
use saltyrtc_client_rs.Context.{PeerContext, keypair, session_key}
use saltyrtc_client_rs.Signaling.{HandleAction, Signaling, common}
use saltyrtc_client_rs.Signaling.Peers.{get_peer}
use saltyrtc_client_rs.Signaling.Validate.{validate_nonce}
use saltyrtc_client_rs.Signaling.Encode.{encode_task_message}
use saltyrtc_client_rs.Signaling.Encode.Sending.{decode_task_message-encode_task_message}
use saltyrtc_client_rs.Signaling.Handle.{handle_task_value, dispatch_task_message, to_hash_map}
use saltyrtc_client_rs.Signaling.Replies.{in_task}
use saltyrtc_client_rs.Client.WebSocket.{OwnedMessage, Incoming}
use saltyrtc_client_rs.Client.TaskLoop.Reading.{all_held}
use saltyrtc_client_rs.Client.TaskLoop.EndToEnd.{accepted, read_one-delivers}

-- A type that belongs to the task, and that the task supports
abbrev pub is_own_type : String → List String → Bool
is_own_type type' supported =
    not (type' == "application") && not (type' == "close") && any (λ t. t == type') supported

to_hash_map-collect :
    (dep : Deps) (d acc : Dict String (Value dep))
    → RmpvLaws dep.rmpv
    → to_hash_map dep (map (λ (k, v). (dep.rmpv.from_str k, v)) d) acc ≡ some (collect d acc)
unfolding to_hash_map collect
to_hash_map-collect dep [] acc laws = refl
to_hash_map-collect dep ((k, v) ∷ d) acc laws =
    ground (arith, laws.as_str-from_str k, to_hash_map-collect dep d (insert k v acc) laws)

module _ {dep : Deps} where
  -- The value of a map of a type that the task supports is taken as one.
  map-handled :
      (entries : Dict String (Value dep)) (type' : String) (v : Value dep) (supported : List String)
      (t : Signaling dep)
      → RmpvLaws dep.rmpv
      → EntryOrderLaws dep
      → distinct (keys entries) ≡ true
      → lookup "type" entries ≡ some v
      → dep.rmpv.as_str v ≡ some type'
      → (common t).task_supported_types ≡ some supported
      → is_own_type type' supported ≡ true
      → handle_task_value (value_of_entries dep entries) t
        ≡ ok
            (HandleAction.task_message (TaskMessage.value (collect (dep.entry_order entries) []))
              ∷ [])
            t
  unfolding handle_task_value value_of_entries dispatch_task_message
  map-handled entries type' v supported t rmpv order once has text types own = ground (
    arith,
    rmpv.as_map-from_map (map (λ (k, v). (dep.rmpv.from_str k, v)) (dep.entry_order entries)),
    to_hash_map-collect dep (dep.entry_order entries) [] rmpv,
    order.lookup-collect "type" entries once,
    has,
    text,
    types,
    own,
  )

  -- A map that the task of one client sends is encrypted into a frame which, when the other client
  -- reads it in the task state, goes to that client's task as a map with the same entries, and
  -- nothing else happens. The map has each key once, and a type that the other's task supports. The clients have
  -- to have each other's session keys, and the receiver has to accept the nonce, which is well-formed
  -- and not the server's. libsodium, msgpack and byteorder have to read what they wrote, a hash table
  -- has to be the same after its entries are collected again, and sealed data is not empty.
  pub map-delivered :
      (entries : Dict String (Value dep)) (type' : String) (v : Value dep) (supported : List String)
      (a a' : Signaling dep) (b : ByteBox) (s : TaskSession dep) (t : Signaling dep)
      (p q : PeerContext) (ours theirs : PrivateKey)
      → SodiumLaws dep.sodium
      → BigEndianLaws dep.byte_order
      → RmpvLaws dep.rmpv
      → EntryOrderLaws dep
      → dep.msgpack.value_from_msgpack (dep.msgpack.value_to_msgpack (value_of_entries dep entries))
        ≡ some (value_of_entries dep entries)
      → distinct (keys entries) ≡ true
      → lookup "type" entries ≡ some v
      → dep.rmpv.as_str v ≡ some type'
      → is_own_type type' supported ≡ true
      → get_peer a ≡ some p
      → keypair p ≡ some (from_private_key dep.sodium ours)
      → session_key p ≡ some (dep.sodium.scalarmult_base theirs)
      → encode_task_message (value_of_entries dep entries) a ≡ ok b a'
      → IsNonce b.nonce
      → 0 < length b.bytes
      → in_task (common s.salty).signaling_state ≡ true
      → is_server b.nonce.source ≡ false
      → validate_nonce b.nonce s.salty ≡ ok tt t
      → (common t).task_supported_types ≡ some supported
      → get_peer t ≡ some q
      → keypair q ≡ some (from_private_key dep.sodium theirs)
      → session_key q ≡ some (dep.sodium.scalarmult_base ours)
      → (entries' : Dict String (Value dep)) × ((k : String) → lookup k entries' ≡ lookup k entries)
        × (transform_message (TaskMessage.value entries) a
            ≡ ok (Item.message (OwnedMessage.binary (into_bytes dep.byte_order b)) ∷ []) a')
        × (read_one all_held
              (Incoming.message (OwnedMessage.binary (into_bytes dep.byte_order b)))
              s
            ≡ ok Next.next (record s {
              salty = t;
              incoming = s.incoming ++ (TaskMessage.value entries' ∷ []);
            }))
  unfolding transform_message encrypt_task_message
  map-delivered entries type' v supported a a' b s t p q ours theirs sodium big rmpv order m once
        has text own ps kp sp e n k now far ok' types qs kq sq =
      let d =
        decode_task_message-encode_task_message (value_of_entries dep entries) a a' t b p q ours
          theirs sodium m ps kp sp qs kq sq e in
      let entries' = collect (dep.entry_order entries) [] in
      let h =
        accepted (value_of_entries dep entries) (TaskMessage.value entries') b s.salty t now far ok'
          d (map-handled entries type' v supported t rmpv order once has text types own) in
      (
        entries',
        (λ k. order.lookup-collect k entries once),
        ground (arith, e),
        read_one-delivers (TaskMessage.value entries') b s t big n k now refl h,
      )
