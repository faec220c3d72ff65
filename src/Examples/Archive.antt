-- ===== src/Examples/Archive.antt =====
-- The theorems on states, records and the search over them at concrete values.
use rn_signal_protocol_messa.Base.{
  ◌≡◌, refl, true, false, some, none, [], ◌∷◌, ◌++◌, replicate, arith, List,
}
use rn_signal_protocol_messa.Status.{ok, err, invalid_message}
use rn_signal_protocol_messa.Action.{◌>>=◌}
use rn_signal_protocol_messa.Hkdf.Output.{version_three, hkdf_create_three}
use rn_signal_protocol_messa.Ratchet.{RatchetChainKey, RatchetMessageKeys}
use rn_signal_protocol_messa.Ratchet.Keys.{message_keys_of}
use rn_signal_protocol_messa.SessionState.{
  SessionState, ReceiverChain, session_state_has_sender_chain,
}
use rn_signal_protocol_messa.SessionState.Chains.{
  session_state_find_receiver_chain, find_chain, max_message_keys,
}
use rn_signal_protocol_messa.SessionState.Bounded.{latest}
use rn_signal_protocol_messa.SessionState.Ahead.{chain_after}
use rn_signal_protocol_messa.SessionState.Reading.{session_state_copy}
use rn_signal_protocol_messa.SessionState.RoundTrip.{IsWellFormed, session_state_copy_lem}
use rn_signal_protocol_messa.SessionSkip.{session_cipher_get_or_create_message_keys}
use rn_signal_protocol_messa.SessionSkip.Ahead.{get_or_create_message_keys_ahead}
use rn_signal_protocol_messa.SessionRecord.{
  SessionRecord, session_record_create, session_record_copy, session_record_archive_current_state,
}
use rn_signal_protocol_messa.SessionRecord.Archive.{
  done, then_step, archive_current_state, IsBounded, Steps-IsBounded,
}
use rn_signal_protocol_messa.SessionRecord.RoundTrip.{session_record_copy_lem}
use rn_signal_protocol_messa.SessionCipher.{session_cipher_decrypt_from_state_and_signal_message}
use rn_signal_protocol_messa.SessionTrial.{session_cipher_decrypt_from_record_and_signal_message}
use rn_signal_protocol_messa.SessionTrial.Search.{no_more, refused, decrypt_from_record_previous}
use rn_signal_protocol_messa.Examples.Exchange.{exchange, exchange-HasMac}
use rn_signal_protocol_messa.Examples.Format.{codec, codec-IsCodec}
use rn_signal_protocol_messa.Examples.SessionFormat.{session_format, session_record_format}
use rn_signal_protocol_messa.Examples.Pairwise.{
  sending, alice_identity, blank, receiver, text, message, message_read, points,
}
use rn_signal_protocol_messa.Curve.Agreement.{compare_refl}
use rn_signal_protocol_messa.SessionSkip.Loop.{next_keys}

abbrev chain_key : RatchetChainKey
chain_key = record { kdf = version_three; key = replicate 32 6; index = 3 }

-- The keys of a message that was skipped.
abbrev skipped : RatchetMessageKeys
skipped = record {
  cipher_key = replicate 32 1;
  mac_key = replicate 32 2;
  iv = replicate 16 3;
  counter = 1;
}

abbrev chain : ReceiverChain
chain = record {
  sender_ratchet_key = some sending.public_key;
  chain_key = some chain_key;
  message_keys = skipped ∷ [];
}

abbrev listening : SessionState
listening = record receiver {
  receiver_chains = chain ∷ [];
  pending_pre_key =
      some (record { pre_key_id = some 4; signed_pre_key_id = 5; base_key = some alice_identity });
}

listening_finds : session_state_find_receiver_chain listening sending.public_key ≡ some chain
unfolding session_state_find_receiver_chain find_chain
listening_finds = rw (compare_refl sending.public_key) refl

get_or_create_message_keys_ahead_example :
    (state' : SessionState) × (session_cipher_get_or_create_message_keys exchange sending.public_key
        listening chain_key 5
      ≡ ok (message_keys_of exchange (chain_after exchange 2 chain_key), state'))
    × (session_state_find_receiver_chain state' sending.public_key
        ≡ some (record chain {
          chain_key = some (chain_after exchange 3 chain_key);
          message_keys =
              latest max_message_keys (chain.message_keys ++ next_keys exchange 2 chain_key);
        }))
    × (before after : List ReceiverChain) × (listening.receiver_chains ≡ before ++ (chain ∷ after))
    × (state' ≡ record listening {
      receiver_chains =
          before
          ++ (record chain {
            chain_key = some (chain_after exchange 3 chain_key);
            message_keys =
                latest max_message_keys (chain.message_keys ++ next_keys exchange 2 chain_key);
          }
              ∷ after);
    })
get_or_create_message_keys_ahead_example =
    get_or_create_message_keys_ahead exchange exchange-HasMac sending.public_key listening chain
      chain_key 2 listening_finds (omega arith) (omega arith) (omega arith) (omega arith)

receiver-IsWellFormed : IsWellFormed receiver
receiver-IsWellFormed = record {
  local = points (replicate 32 4);
  remote = points (replicate 32 3);
  root = (hkdf_create_three, omega arith);
  sender = record {
    pair = (points (replicate 32 2), refl);
    chain_key = (hkdf_create_three, omega arith);
  };
  receivers = tt;
  exchange = tt;
  pre_key = tt;
  alice_base = tt;
}

listening-IsWellFormed : IsWellFormed listening
listening-IsWellFormed = record {
  local = points (replicate 32 4);
  remote = points (replicate 32 3);
  root = (hkdf_create_three, omega arith);
  sender = record {
    pair = (points (replicate 32 2), refl);
    chain_key = (hkdf_create_three, omega arith);
  };
  receivers = (
    record {
      key = points (replicate 32 1);
      chain_key = (hkdf_create_three, omega arith);
      sized = ((refl, refl, refl), tt);
    },
    tt,
  );
  exchange = tt;
  pre_key = points (replicate 32 3);
  alice_base = tt;
}

session_state_copy_lem_example : session_state_copy (codec session_format) listening ≡ ok listening
session_state_copy_lem_example =
    session_state_copy_lem (codec session_format) listening (codec-IsCodec session_format)
      listening-IsWellFormed

stored : SessionRecord
stored = record {
  state = some listening;
  previous_states = receiver ∷ [];
  is_fresh = true;
  user_record = some (1 ∷ []);
}

session_record_copy_lem_example :
    session_record_copy (codec session_record_format) stored
    ≡ ok (record stored { is_fresh = false })
unfolding stored
session_record_copy_lem_example =
    session_record_copy_lem (codec session_record_format) stored listening
      (codec-IsCodec session_record_format)
      (record {
        is_current = refl;
        well_formed = listening-IsWellFormed;
        previous = (receiver-IsWellFormed, tt);
      })

new_record : SessionRecord
new_record = session_record_create none

new-IsBounded : IsBounded new_record
unfolding new_record session_record_create
new-IsBounded = omega arith

Steps-IsBounded_example : IsBounded (session_record_archive_current_state new_record)
Steps-IsBounded_example =
    Steps-IsBounded (then_step (done new_record) (archive_current_state new_record)) new-IsBounded

-- A state without a chain to send on refuses every message.
blank_refuses :
    session_cipher_decrypt_from_state_and_signal_message exchange blank message 5
    ≡ (err invalid_message, 5)
unfolding session_cipher_decrypt_from_state_and_signal_message session_state_has_sender_chain ◌>>=◌
blank_refuses = refl

blank-IsWellFormed : IsWellFormed blank
blank-IsWellFormed = record {
  local = tt;
  remote = tt;
  root = tt;
  sender = tt;
  receivers = tt;
  exchange = tt;
  pre_key = tt;
  alice_base = tt;
}

abbrev old_record : SessionRecord
old_record = record {
  state = some blank;
  previous_states = blank ∷ receiver ∷ blank ∷ [];
  is_fresh = false;
  user_record = none;
}

decrypt_from_record_previous_example :
    session_cipher_decrypt_from_record_and_signal_message exchange
      (codec session_format)
      message
      old_record
      5
    ≡ (
      ok (
        text,
        record old_record {
          state = some message_read.0;
          previous_states = blank ∷ blank ∷ blank ∷ [];
        },
      ),
      6,
    )
decrypt_from_record_previous_example =
    decrypt_from_record_previous exchange (codec session_format) (codec-IsCodec session_format)
      message 5 5 5 6 (blank ∷ []) (blank ∷ []) receiver message_read.0 blank old_record text refl
      refl blank-IsWellFormed (blank-IsWellFormed, tt) receiver-IsWellFormed blank_refuses
      (refused blank_refuses (no_more 5)) message_read.1
