-- ===== src/GroupCipher/Once.antt =====
-- A message that was decrypted is not decrypted again.
use rn_signal_protocol_messa.Base.{ℕ, ◌≡◌, ◌∙◌, sym, subst, none, false, ◌+◌, ◌<◌, ◌^◌, length}
use rn_signal_protocol_messa.Status.{ok, err, duplicate_message, ok_injective}
use rn_signal_protocol_messa.Crypto.{Buffer}
use rn_signal_protocol_messa.KeyState.{SenderKeyState}
use rn_signal_protocol_messa.KeyRecord.{
  SenderKeyRecord, set_by_id, sender_key_record_get_sender_key_state_by_id,
}
use rn_signal_protocol_messa.KeyRecord.ById.{
  find_id, find-replace, All-find, All-replace, length-replace,
}
use rn_signal_protocol_messa.KeyRecord.RoundTrip.{IsWellFormed}
use rn_signal_protocol_messa.KeyState.RoundTrip as StateTrip
use rn_signal_protocol_messa.GroupMessage.{SenderKeyMessage, sender_key_message_verify_signature}
use rn_signal_protocol_messa.GroupRatchet.Synced.{IsSynced}
use rn_signal_protocol_messa.GroupRatchet.Replay.{get_sender_key_once}
use rn_signal_protocol_messa.GroupRatchet.WellFormed.{get_sender_key-Follows, Follows}
use rn_signal_protocol_messa.Store.{Context, World, signal_protocol_sender_key_load_key}
use rn_signal_protocol_messa.Store.Laws.{IsContext, load-saved}
use rn_signal_protocol_messa.GroupCipher.{GroupCipher, invalid_message_error, group_cipher_decrypt}
use rn_signal_protocol_messa.GroupCipher.Encrypt.{Loads}
use rn_signal_protocol_messa.GroupCipher.Decrypt.{IsReceived, decrypt_refused, decrypt-IsReceived}

module _ {S : Type 0} (c : Context S) (laws : IsContext c) (cipher : GroupCipher)
    (m : SenderKeyMessage) (r : SenderKeyRecord) (v : World S) (well : IsWellFormed c.provider r)
    (loads : Loads c cipher.sender_key_id r v) where
  -- The record after the message.
  abbrev kept :
      {plaintext : Buffer} {v' : World S} → IsReceived c cipher m r v plaintext v' → SenderKeyRecord
  kept g = set_by_id r m.key_id g.later

  module _ {plaintext : Buffer} {v' : World S} (g : IsReceived c cipher m r v plaintext v') where
    follows : Follows c.provider laws.has_mac g.state g.later
    unfolding sender_key_record_get_sender_key_state_by_id
    follows =
        get_sender_key-Follows c.provider laws.has_mac g.state m.iteration g.key g.later
          (All-find (StateTrip.IsWellFormed c.provider) m.key_id r.states g.state g.found well)
          g.stepped

    pub kept-IsWellFormed : IsWellFormed c.provider (kept g)
    unfolding set_by_id
    kept-IsWellFormed =
        All-replace (StateTrip.IsWellFormed c.provider) m.key_id r.states g.later follows.well well

    pub Loads-kept : Loads c cipher.sender_key_id (kept g) v'
    Loads-kept =
        subst (Loads c cipher.sender_key_id (kept g)) (sym g.left)
          (load-saved c laws cipher.sender_key_id (kept g) v kept-IsWellFormed)

    found_kept : sender_key_record_get_sender_key_state_by_id (kept g) m.key_id ≡ ok g.later
    unfolding sender_key_record_get_sender_key_state_by_id set_by_id
    found_kept =
        find-replace m.key_id r.states g.state g.later g.found
          (follows.id ∙ find_id m.key_id r.states g.state g.found)

  -- For a store, a codec and a MAC that do what is documented of them, and a well-formed record of
  -- the sender in the store: after a successful group_cipher_decrypt without a callback the store
  -- has a well-formed record again, with as many states as before, and loading it changes nothing.
  pub decrypt_keeps :
      (plaintext : Buffer) (v' : World S)
      → group_cipher_decrypt c cipher none m v ≡ (ok plaintext, v')
      → (later : SenderKeyRecord) × (signal_protocol_sender_key_load_key c cipher.sender_key_id v'
          ≡ (ok later, v'))
        × IsWellFormed c.provider later
        × (length later.states ≡ length r.states)
  unfolding set_by_id
  decrypt_keeps plaintext v' e =
      let g = decrypt-IsReceived c cipher m r v laws loads plaintext v' e in
      (kept g, Loads-kept g, kept-IsWellFormed g, length-replace m.key_id r.states g.later)

  -- For a store, a codec and a MAC that do what is documented of them, a well-formed record with a
  -- state that follows the sender's chain, no callback, and an iteration below 2^32 - 1: after a
  -- message was decrypted, decrypting it once more is refused with SG_ERR_DUPLICATE_MESSAGE, and
  -- stores nothing.
  pub decrypt_once :
      (base : ℕ) (first : Buffer) (n : ℕ) (state : SenderKeyState)
      → cipher.inside_callback ≡ false
      → sender_key_record_get_sender_key_state_by_id r m.key_id ≡ ok state
      → IsSynced c.provider base first n state
      → m.iteration + 1 < 2 ^ 32
      → (plaintext : Buffer) (v' : World S)
      → group_cipher_decrypt c cipher none m v ≡ (ok plaintext, v')
      → group_cipher_decrypt c cipher none m v' ≡ (err duplicate_message, v')
  unfolding invalid_message_error
  decrypt_once base first n state free found synced fits plaintext v' e =
      let g = decrypt-IsReceived c cipher m r v laws loads plaintext v' e in
      let same : state ≡ g.state = ok_injective (sym found ∙ g.found) in
      let verified =
        subst (λ k. sender_key_message_verify_signature c.provider m k ≡ ok tt)
          (sym (follows g).public_half) g.verified in
      decrypt_refused c cipher m (kept g) v' laws free (Loads-kept g) g.later duplicate_message
        (found_kept g) verified
        (get_sender_key_once c.provider laws.has_mac base first n m.iteration g.state
          (subst (IsSynced c.provider base first n) same synced) fits g.key g.later g.stepped)
