-- ===== src/Signaling/Invariant/Paths.antt =====
-- The table of responders of an initiator, on a well-formed state.
use saltyrtc_client_rs.Prelude.{
  ℕ, zero, suc, sym, ◌∙◌, ◌≡◌, Bool, true, false, ◌&&◌, List, [], ◌∷◌, arith, refl, leb, elem,
  nat_has_eq, nat_eq,
}
use saltyrtc_client_rs.Prelude.Outcome.{holds, keeps}
use saltyrtc_client_rs.Boxes.{ByteBox}
use saltyrtc_client_rs.Types.{Address, Role}
use saltyrtc_client_rs.Messages.{ServerAuth, NewResponder, Disconnected}
use saltyrtc_client_rs.Deps.{Deps, IterOrderLaws}
use saltyrtc_client_rs.Signaling.{InitiatorSignaling}
use saltyrtc_client_rs.Signaling.Paths.{
  drop_oldest_inactive_responder, register_responder, process_new_responder, process_new_responders,
  to_set, initiator_handle_server_auth, initiator_handle_new_responder,
  initiator_handle_disconnected,
}
use saltyrtc_client_rs.Signaling.Decode.{initiator_decode_peer_message}
use saltyrtc_client_rs.Signaling.Invariant.{is_valid_initiator, is_valid_common}
use saltyrtc_client_rs.Signaling.Invariant.Tables.{insert-keyed, remove-keyed}
use saltyrtc_client_rs.Signaling.Invariant.Server.{send_drop_responder-is_valid}

-- Every address is a responder's.
abbrev all_responders : List Address → Bool
all_responders [] = true
all_responders (a ∷ as') = leb 2 a && all_responders as'

all_responders_of_elem :
    (as' : List Address)
    → ((a : Address) → elem a as' ≡ true → leb 2 a ≡ true)
    → all_responders as' ≡ true
unfolding elem
all_responders_of_elem [] h = refl
all_responders_of_elem (a ∷ as') h =
    ground (arith, h a, all_responders_of_elem as' (λ b e. ground (arith, h b)))

elem-to_set : (a : Address) (as' : List Address) → elem a (to_set as') ≡ elem a as'
unfolding elem to_set
elem-to_set a [] = refl
elem-to_set a (b ∷ bs) = ground (arith, elem-to_set a bs, elem-to_set b bs)

responder_of_elem :
    (as' : List Address) (a : Address)
    → elem 0x00 as' ≡ false
    → elem 0x01 as' ≡ false
    → elem a as' ≡ true
    → leb 2 a ≡ true
responder_of_elem as' zero h k e = cc
responder_of_elem as' (suc zero) h k e = cc
responder_of_elem as' (suc (suc a)) h k e = ground arith

module _ {dep : Deps} (from : ℕ) where
  pub initiator_decode_peer_message-is_valid :
      (bbox : ByteBox) (s : InitiatorSignaling dep)
      → is_valid_initiator from s ≡ true
      → holds
          (λ obox t. nat_eq obox.nonce.source bbox.nonce.source && is_valid_initiator from t)
          (is_valid_initiator from)
          (initiator_decode_peer_message bbox s)
        ≡ true
  unfolding initiator_decode_peer_message holds
  initiator_decode_peer_message-is_valid bbox s h = ground arith

  drop_oldest-is_valid :
      (s : InitiatorSignaling dep)
      → is_valid_initiator from s ≡ true
      → keeps (is_valid_initiator from) (drop_oldest_inactive_responder s) ≡ true
  unfolding drop_oldest_inactive_responder holds is_valid_initiator
  drop_oldest-is_valid s h =
      grind (arith, send_drop_responder-is_valid {dep = dep} Role.initiator from, remove-keyed)

  register_responder-is_valid :
      (a : Address) (s : InitiatorSignaling dep)
      → is_valid_initiator from s ≡ true
      → leb 2 a ≡ true
      → keeps (is_valid_initiator from) (register_responder a s) ≡ true
  unfolding register_responder holds is_valid_initiator is_valid_common
  register_responder-is_valid a s h k = grind (arith, insert-keyed, remove-keyed)

  process_new_responder-is_valid :
      (a : Address) (s : InitiatorSignaling dep)
      → is_valid_initiator from s ≡ true
      → leb 2 a ≡ true
      → keeps (is_valid_initiator from) (process_new_responder a s) ≡ true
  unfolding process_new_responder holds
  process_new_responder-is_valid a s h k =
      grind (arith, register_responder-is_valid a, drop_oldest-is_valid)

  process_new_responders-is_valid :
      (as' : List Address) (s : InitiatorSignaling dep)
      → is_valid_initiator from s ≡ true
      → all_responders as' ≡ true
      → keeps (is_valid_initiator from) (process_new_responders as' s) ≡ true
  unfolding process_new_responders holds
  process_new_responders-is_valid [] s h k = ground arith
  process_new_responders-is_valid (a ∷ as') s h k =
      grind (arith, process_new_responder-is_valid a, process_new_responders-is_valid as')

  pub initiator_handle_new_responder-is_valid :
      (msg : NewResponder) (s : InitiatorSignaling dep)
      → is_valid_initiator from s ≡ true
      → keeps (is_valid_initiator from) (initiator_handle_new_responder msg s) ≡ true
  unfolding initiator_handle_new_responder holds
  initiator_handle_new_responder-is_valid msg s h =
      grind (arith, process_new_responder-is_valid msg.id)

  pub initiator_handle_disconnected-is_valid :
      (msg : Disconnected) (s : InitiatorSignaling dep)
      → is_valid_initiator from s ≡ true
      → keeps (is_valid_initiator from) (initiator_handle_disconnected msg s) ≡ true
  unfolding initiator_handle_disconnected holds
  initiator_handle_disconnected-is_valid msg s h = ground arith

  module _ (laws : IterOrderLaws dep) where
    -- The addresses that `server-auth` lists, in the order in which they are registered.
    listed_responders :
        (as' : List Address)
        → elem 0x00 (to_set as') ≡ false
        → elem 0x01 (to_set as') ≡ false
        → all_responders (dep.iter_order (to_set as')) ≡ true
    listed_responders as' h k = all_responders_of_elem (dep.iter_order (to_set as')) (λ a e.
        responder_of_elem (to_set as') a h k (sym (laws.elem-iter_order a (to_set as')) ∙ e))

    pub initiator_handle_server_auth-is_valid :
        (msg : ServerAuth) (s : InitiatorSignaling dep)
        → is_valid_initiator from s ≡ true
        → keeps (is_valid_initiator from) (initiator_handle_server_auth msg s) ≡ true
    unfolding initiator_handle_server_auth holds
    initiator_handle_server_auth-is_valid msg s h =
        grind (arith, process_new_responders-is_valid, listed_responders)
