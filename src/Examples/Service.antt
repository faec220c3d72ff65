-- ===== src/Examples/Service.antt =====
-- A client that has a session for every address, each of them new.
use rn_signal_protocol_messa.Base.{ℕ, suc, ◌≡◌, refl, none, [], ◌∷◌, false}
use rn_signal_protocol_messa.Status.{ok, err, invalid_message}
use rn_signal_protocol_messa.Action.{◌>>=◌}
use rn_signal_protocol_messa.Store.{World}
use rn_signal_protocol_messa.SessionStore.{
  SessionStore, SessionContext, signal_protocol_session_load_session,
  signal_protocol_session_contains_session,
}
use rn_signal_protocol_messa.SessionService.{
  SessionCipher, session_cipher_decrypt_signal_message, session_cipher_decrypt_callback,
}
use rn_signal_protocol_messa.SessionService.Atomic.{IsTransactional, session_cipher_decrypt_atomic}
use rn_signal_protocol_messa.Examples.Exchange.{exchange}
use rn_signal_protocol_messa.Examples.Format.{codec}
use rn_signal_protocol_messa.Examples.SessionFormat.{
  signal_format, session_format, session_record_format, pre_key_message_format,
}
use rn_signal_protocol_messa.Examples.Pairwise.{message}
use rn_signal_protocol_messa.SessionRecord.{session_record_create}
use rn_signal_protocol_messa.Crypto.{pack_checked, Buffer}
use rn_signal_protocol_messa.SessionState.Structure.{session_state_serialize_prepare}
use rn_signal_protocol_messa.Fields.{optional, each}
use rn_signal_protocol_messa.SessionState.{session_state_has_sender_chain}

-- The number of writes.
unfoldable pub counting_store : SessionStore ℕ
counting_store = record {
  load_session = λ address n. (ok (record { code = 0; buffer = none; user_buffer = none }), n);
  store_session = λ address bytes user n. (ok tt, suc n);
  contains_session = λ address n. (ok 1, n);
}

counting_store-IsTransactional : IsTransactional counting_store
unfolding counting_store
counting_store-IsTransactional = record {
  reading = λ address n. refl;
  asking = λ address n. refl;
  refusing = λ address bytes user n e h. cc;
}

unfoldable pub counting : SessionContext ℕ
unfolding counting_store
counting = record {
  provider = exchange;
  state_codec = codec session_format;
  record_codec = codec session_record_format;
  message_codec = codec signal_format;
  pre_key_message_codec = codec pre_key_message_format;
  session_store = counting_store;
}

counting-IsTransactional : IsTransactional counting.session_store
unfolding counting
counting-IsTransactional = counting_store-IsTransactional

abbrev cipher : SessionCipher
cipher = record {
  remote_address = record { name = 1 ∷ []; device_id = 2 };
  inside_callback = false;
}

abbrev pub world : World ℕ
world = record { draws = 5; stored = 12 }

-- The new state has no chain, and the message is refused.
message_refused :
    (session_cipher_decrypt_signal_message counting cipher none message world).0
    ≡ err invalid_message
unfolding session_cipher_decrypt_signal_message counting ◌>>=◌
    signal_protocol_session_contains_session signal_protocol_session_load_session
    session_record_create pack_checked session_state_serialize_prepare optional each
    session_state_has_sender_chain
message_refused = refl

-- Without a callback nothing is called.
quiet :
    (plaintext : Buffer) (w : World ℕ)
    → (session_cipher_decrypt_callback counting cipher none plaintext w).1.stored ≡ w.stored
unfolding session_cipher_decrypt_callback
quiet plaintext w = refl

session_cipher_decrypt_atomic_example :
    (session_cipher_decrypt_signal_message counting cipher none message world).1.stored ≡ 12
session_cipher_decrypt_atomic_example =
    session_cipher_decrypt_atomic counting counting-IsTransactional cipher none quiet message world
      invalid_message message_refused
