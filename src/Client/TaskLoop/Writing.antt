-- ===== src/Client/TaskLoop/Writing.antt =====
-- What the transformer of `task_loop` makes of the messages of the task.
use saltyrtc_client_rs.Prelude.{
  length, ℕ, Option, none, ap, ◌+◌, ◌≡◌, refl, some, List, [], ◌∷◌, ◌++◌, ok, err, panic, Step,
  arith, M, pure, ◌>>=◌, map_err, ◌∙◌,
}
use mathlib.Core.List.{append_assoc, append-nil}
use saltyrtc_client_rs.Prelude.Outcome.{continue, continue-ok}
use saltyrtc_client_rs.Errors.{SaltyError, SignalingError}
use saltyrtc_client_rs.CloseCode.{CloseCode}
use saltyrtc_client_rs.Deps.{Deps, Value}
use saltyrtc_client_rs.Tasks.{TaskMessage}
use saltyrtc_client_rs.Boxes.{ByteBox, into_bytes}
use saltyrtc_client_rs.Csn.{
  CombinedSequence, combined_sequence_number, from_snapshot, snapshot_number,
}
use saltyrtc_client_rs.Csn.Increment.{IsCsn}
use saltyrtc_client_rs.Signaling.Encode.{encode_task_message}
use saltyrtc_client_rs.Signaling.Encode.Sending.{
  own_csn, encode_task_message-number, from_snapshot-number,
}
use saltyrtc_client_rs.Client.{
  SaltyClient, encrypt_task_message, encrypt_close_message, encryption_error,
}
use saltyrtc_client_rs.Client.WebSocket.{OwnedMessage}
use saltyrtc_client_rs.Client.TaskLoop.{
  TaskSession, Receivers, Next, Item, in_task_salty, transform_message, forward_items, transformer,
  value_of_entries, application_value,
}

-- Two calls that go on alike
continue-same :
    {S E A B : Type 0} (f g : A → M S E B) (x : Step S E A)
    → ((a : A) (t : S) → f a t ≡ g a t)
    → continue f x ≡ continue g x
continue-same f g (ok a t) h = h a t
continue-same f g (err e t) h = refl
continue-same f g (panic p) h = refl

-- The value that a message becomes; a close message has its own way.
abbrev pub content_of : (dep : Deps) → TaskMessage (Value dep) → Option (Value dep)
content_of dep (TaskMessage.value entries) = some (value_of_entries dep entries)
content_of dep (TaskMessage.application content) = some (application_value dep content)
content_of dep (TaskMessage.close reason) = none

module _ {dep : Deps} where
  -- What follows the items of a message
  abbrev go_on :
      Receivers → List (TaskMessage (Value dep)) → Next → M (TaskSession dep) SaltyError Next
  go_on held msgs Next.stop = pure Next.stop
  go_on held msgs Next.next = transformer held msgs

  closed-same :
      (held : Receivers) (reason : CloseCode) (rest : List (TaskMessage (Value dep)))
      (s : TaskSession dep)
      → transformer held (TaskMessage.close reason ∷ rest) s
        ≡ transformer held (TaskMessage.close reason ∷ []) s
  unfolding transformer transform_message forward_items encrypt_close_message
  closed-same held reason rest s = ground arith

  -- Once the task has sent a close message, nothing that it sends is encrypted or written any more.
  pub transformer-close :
      (held : Receivers) (msgs : List (TaskMessage (Value dep))) (reason : CloseCode)
      (rest : List (TaskMessage (Value dep))) (s : TaskSession dep)
      → transformer held (msgs ++ (TaskMessage.close reason ∷ rest)) s
        ≡ transformer held (msgs ++ (TaskMessage.close reason ∷ [])) s
  unfolding transformer
  transformer-close held [] reason rest s = closed-same held reason rest s
  transformer-close held (m ∷ msgs) reason rest s =
      continue-same _ _ (in_task_salty (map_err (λ _. SaltyError.crash) (transform_message m)) s)
        (λ items t.
          continue-same (go_on held (msgs ++ (TaskMessage.close reason ∷ rest)))
            (go_on held (msgs ++ (TaskMessage.close reason ∷ []))) (forward_items held items t)
            (λ action u. same action u (transformer-close held msgs reason rest)))
    where
      same :
          (action : Next) (u : TaskSession dep)
          → ((v : TaskSession dep)
              → transformer held (msgs ++ (TaskMessage.close reason ∷ rest)) v
                ≡ transformer held (msgs ++ (TaskMessage.close reason ∷ [])) v)
          → go_on held (msgs ++ (TaskMessage.close reason ∷ rest)) action u
            ≡ go_on held (msgs ++ (TaskMessage.close reason ∷ [])) action u
      same Next.stop u h = refl
      same Next.next u h = h u

  -- The box that was encrypted
  pub encrypt_task_message-box :
      (value : Value dep) (s t : SaltyClient dep) (bytes : List ℕ)
      → encrypt_task_message value s ≡ ok bytes t
      → (b : ByteBox) × (encode_task_message value s ≡ ok b t)
        × (bytes ≡ into_bytes dep.byte_order b)
  unfolding encrypt_task_message
  encrypt_task_message-box value s t bytes e = by_result (encode_task_message value s) refl e
    where
      by_result :
          (x : Step (SaltyClient dep) SignalingError ByteBox)
          → encode_task_message value s ≡ x
          → map_err encryption_error (λ _. continue (λ b. pure (into_bytes dep.byte_order b)) x) s
            ≡ ok bytes t
          → (b : ByteBox) × (encode_task_message value s ≡ ok b t)
            × (bytes ≡ into_bytes dep.byte_order b)
      by_result (ok b u) k e = (b, k ∙ ground (arith, e), ground (arith, e))
      by_result (err x u) k e = absurd (ground (arith, e))
      by_result (panic p) k e = absurd (ground (arith, e))

  -- The next number is taken.
  abbrev pub Numbered : SaltyClient dep → CombinedSequence → ℕ → Type 0
  Numbered s c n =
      (d : CombinedSequence) × (own_csn s ≡ some d)
      × IsCsn d
      × (combined_sequence_number d ≡ combined_sequence_number c + n)

  -- The box is the message's value as the client encodes it, and has the number after `c`.
  abbrev pub Boxed :
      TaskMessage (Value dep)
      → CombinedSequence
      → SaltyClient dep
      → ByteBox
      → SaltyClient dep
      → Type 0
  Boxed m c s b t =
      (value : Value dep) × (content_of dep m ≡ some value)
      × (encode_task_message value s ≡ ok b t)
      × (snapshot_number b.nonce.csn ≡ combined_sequence_number c + 1)
      × (own_csn t ≡ some (from_snapshot b.nonce.csn))
      × IsCsn (from_snapshot b.nonce.csn)

  -- The frames are those of the messages, one for each, in their order, from the client `s` with the
  -- number `c` to the client `t`.
  pub Framed :
      List (TaskMessage (Value dep))
      → CombinedSequence
      → SaltyClient dep
      → List OwnedMessage
      → SaltyClient dep
      → Type 0
  Framed [] c s frames t = (frames ≡ []) × (t ≡ s)
  Framed (m ∷ msgs) c s frames t =
      (b : ByteBox) × (u : SaltyClient dep) × (rest : List OwnedMessage) × Boxed m c s b u
      × (frames ≡ OwnedMessage.binary (into_bytes dep.byte_order b) ∷ rest)
      × Framed msgs (from_snapshot b.nonce.csn) u rest t

  abbrev framed :
      M (SaltyClient dep) SaltyError (List ℕ) → M (TaskSession dep) SaltyError (List Item)
  framed m = in_task_salty (
      map_err (λ _. SaltyError.crash)
        (m >>= λ bytes. pure (Item.message (OwnedMessage.binary bytes) ∷ [])))

  -- A message that is encrypted becomes one frame.
  one_frame :
      (held : Receivers) (value : Value dep) (items : List Item) (s u t : TaskSession dep)
      → framed (encrypt_task_message value) s ≡ ok items u
      → forward_items held items u ≡ ok Next.next t
      → (bytes : List ℕ) × (encrypt_task_message value s.salty ≡ ok bytes t.salty)
        × (t.raw_outgoing ≡ s.raw_outgoing ++ (OwnedMessage.binary bytes ∷ []))
  unfolding forward_items
  one_frame held value items s u t e f = by_result (encrypt_task_message value s.salty) refl e
    where
      by_result :
          (x : Step (SaltyClient dep) SaltyError (List ℕ))
          → encrypt_task_message value s.salty ≡ x
          → framed (λ _. x) s ≡ ok items u
          → (bytes : List ℕ) × (encrypt_task_message value s.salty ≡ ok bytes t.salty)
            × (t.raw_outgoing ≡ s.raw_outgoing ++ (OwnedMessage.binary bytes ∷ []))
      by_result (ok bytes c) k e = (bytes, k ∙ ground (arith, e, f), ground (arith, e, f))
      by_result (err x c) k e = absurd (ground (arith, e))
      by_result (panic p) k e = absurd (ground (arith, e))

  -- What one message adds
  abbrev Added :
      TaskMessage (Value dep) → CombinedSequence → TaskSession dep → TaskSession dep → Type 0
  Added m c s t =
      (b : ByteBox) × Boxed m c s.salty b t.salty
      × (t.raw_outgoing
          ≡ s.raw_outgoing ++ (OwnedMessage.binary (into_bytes dep.byte_order b) ∷ []))

  value-Added :
      (held : Receivers) (m : TaskMessage (Value dep)) (value : Value dep) (items : List Item)
      (s u t : TaskSession dep) (c : CombinedSequence)
      → content_of dep m ≡ some value
      → own_csn s.salty ≡ some c
      → IsCsn c
      → framed (encrypt_task_message value) s ≡ ok items u
      → forward_items held items u ≡ ok Next.next t
      → Added m c s t
  value-Added held m value items s u t c has k v e f =
      let (bytes, now, more) = one_frame held value items s u t e f in
      let (b, g, same) = encrypt_task_message-box value s.salty t.salty bytes now in
      let (n, k', v', _) = encode_task_message-number value s.salty t.salty b c k v g in
      (
        b,
        (value, has, g, n, k', v'),
        more ∙ ap (λ x. s.raw_outgoing ++ (OwnedMessage.binary x ∷ [])) same,
      )

  message-Added :
      (held : Receivers) (m : TaskMessage (Value dep)) (items : List Item) (s u t : TaskSession dep)
      (c : CombinedSequence)
      → own_csn s.salty ≡ some c
      → IsCsn c
      → in_task_salty (map_err (λ _. SaltyError.crash) (transform_message m)) s ≡ ok items u
      → forward_items held items u ≡ ok Next.next t
      → Added m c s t
  unfolding transform_message forward_items
  message-Added held (TaskMessage.value entries) items s u t c k v e f =
      value-Added held (TaskMessage.value entries) (value_of_entries dep entries) items s u t c refl
        k v e f
  message-Added held (TaskMessage.application content) items s u t c k v e f =
      value-Added held (TaskMessage.application content) (application_value dep content) items s u t
        c refl k v e f
  message-Added held (TaskMessage.close reason) items s u t c k v e f =
      absurd (ground (arith, e, f))

  -- What the messages add all together
  abbrev pub Transformed :
      List (TaskMessage (Value dep)) → CombinedSequence → TaskSession dep → TaskSession dep → Type 0
  Transformed msgs c s t =
      (frames : List OwnedMessage) × (t.raw_outgoing ≡ s.raw_outgoing ++ frames)
      × Framed msgs c s.salty frames t.salty
      × Numbered t.salty c (length msgs)

  Added-Transformed :
      (m : TaskMessage (Value dep)) (msgs : List (TaskMessage (Value dep))) (c : CombinedSequence)
      (s u t : TaskSession dep)
      → Added m c s u
      → ((d : CombinedSequence) → own_csn u.salty ≡ some d → IsCsn d → Transformed msgs d u t)
      → Transformed (m ∷ msgs) c s t
  unfolding Framed
  Added-Transformed m msgs c s u t (b, boxed, more) later =
      let (value, has, g, n, k, v) = boxed in
      let frame = OwnedMessage.binary (into_bytes dep.byte_order b) in
      let (rest, more', framed', (d, k', v', n')) = later (from_snapshot b.nonce.csn) k v in
      (
        frame ∷ rest,
        more' ∙ (ap (λ xs. xs ++ rest) more ∙ append_assoc s.raw_outgoing (frame ∷ []) rest),
        (b, u.salty, rest, boxed, refl, framed'),
        (d, k', v', omega (arith, n, n', from_snapshot-number b.nonce.csn)),
      )

  -- While the task does not close the connection, each of its messages becomes one frame for the
  -- socket, in their order: the bytes of the box in which the client encodes the message's own value,
  -- with the next combined sequence number, which does not wrap. Nothing else is queued. The number
  -- before the first has to fit its machine types.
  pub transformer-numbers :
      (held : Receivers) (msgs : List (TaskMessage (Value dep))) (s t : TaskSession dep)
      (c : CombinedSequence)
      → own_csn s.salty ≡ some c
      → IsCsn c
      → transformer held msgs s ≡ ok Next.next t
      → (frames : List OwnedMessage) × (t.raw_outgoing ≡ s.raw_outgoing ++ frames)
        × Framed msgs c s.salty frames t.salty
        × Numbered t.salty c (length msgs)
  unfolding transformer Framed
  transformer-numbers held [] s t c k v e = (
    [],
    ground (arith, e, append-nil s.raw_outgoing),
    (refl, ground (arith, e)),
    (c, ground (arith, e, k), v, omega arith),
  )
  transformer-numbers held (m ∷ msgs) s t c k v e =
      let (items, u, eu, e1) =
        continue-ok (λ items. forward_items held items >>= go_on held msgs)
          (in_task_salty (map_err (λ _. SaltyError.crash) (transform_message m)) s) Next.next t e in
      let (action, w, ew, e2) =
        continue-ok (go_on held msgs) (forward_items held items u) Next.next t e1 in
      after action w items u ew e2 eu (λ d k' v' e2. transformer-numbers held msgs w t d k' v' e2)
    where
      after :
          (action : Next) (w : TaskSession dep) (items : List Item) (u : TaskSession dep)
          → forward_items held items u ≡ ok action w
          → go_on held msgs action w ≡ ok Next.next t
          → in_task_salty (map_err (λ _. SaltyError.crash) (transform_message m)) s ≡ ok items u
          → ((d : CombinedSequence)
              → own_csn w.salty ≡ some d
              → IsCsn d
              → transformer held msgs w ≡ ok Next.next t
              → Transformed msgs d w t)
          → Transformed (m ∷ msgs) c s t
      after Next.stop w items u ew e2 eu later = absurd (ground (arith, e2))
      after Next.next w items u ew e2 eu later =
          Added-Transformed m msgs c s w t (message-Added held m items s u w c k v eu ew)
            (λ d k' v'. later d k' v' e2)
