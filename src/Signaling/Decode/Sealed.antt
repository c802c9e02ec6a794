-- ===== src/Signaling/Decode/Sealed.antt =====
-- `decode_server_message` after the server's hello.
use saltyrtc_client_rs.Prelude.{◌≡◌, false, Option, none, some, arith, refl, ok}
use saltyrtc_client_rs.State.{is_server_new}
use saltyrtc_client_rs.External.{PublicKey}
use saltyrtc_client_rs.Messages.{Message}
use saltyrtc_client_rs.Boxes.{ByteBox, OpenBox, decrypt}
use saltyrtc_client_rs.Deps.{Deps, Value}
use saltyrtc_client_rs.Signaling.{Common}
use saltyrtc_client_rs.Signaling.Decode.{decode_server_message}

module _ {dep : Deps} where
  -- Once the client has answered the server's hello, `decode_server_message` gives a message only if
  -- the session key of the server is known and opens it with our permanent keys; the state stays.
  pub decode_server_message-sealed :
      (bbox : ByteBox) (c d : Common dep) (obox : OpenBox (Message (Value dep)))
      → is_server_new c.server.handshake_state ≡ false
      → decode_server_message bbox c ≡ ok obox d
      → (d ≡ c)
        × (key : PublicKey) × (c.server.session_key ≡ some key)
        × (decrypt dep bbox c.permanent_keypair key ≡ some obox)
  unfolding decode_server_message
  decode_server_message-sealed bbox c d obox h e = sealed c.server.session_key refl
    where
      sealed :
          (o : Option PublicKey)
          → c.server.session_key ≡ o
          → (d ≡ c)
            × (key : PublicKey) × (c.server.session_key ≡ some key)
            × (decrypt dep bbox c.permanent_keypair key ≡ some obox)
      sealed none q = absurd (ground arith)
      sealed (some key) q = (ground arith, key, q, ground arith)
