-- ===== src/Examples/SessionFormat.antt =====
-- The structures of a session in the byte format of the examples.
use rn_signal_protocol_messa.Base.{ℕ, refl, Option}
use rn_signal_protocol_messa.Crypto.{Buffer}
use rn_signal_protocol_messa.SignalMessage.{SignalMessageStructure}
use rn_signal_protocol_messa.PreKeyMessage.{PreKeySignalMessageStructure}
use rn_signal_protocol_messa.SessionState.Structure.{
  ChainKeyStructure, MessageKeyStructure, ChainStructure, PendingKeyExchangeStructure,
  PendingPreKeyStructure, SessionStructure,
}
use rn_signal_protocol_messa.SessionRecord.{RecordStructure}
use rn_signal_protocol_messa.Examples.Format.{Format, number, bytes, option, list, pair, via}

abbrev maybe_number : Format (Option ℕ)
maybe_number = option number

abbrev maybe_bytes : Format (Option Buffer)
maybe_bytes = option bytes

abbrev pub signal_format : Format SignalMessageStructure
signal_format =
    via (pair maybe_bytes (pair maybe_number (pair maybe_number maybe_bytes)))
      (λ s. (s.ratchetkey, (s.counter, (s.previouscounter, s.ciphertext))))
      (λ (a, (b, (c, d))). record {
        ratchetkey = a;
        counter = b;
        previouscounter = c;
        ciphertext = d;
      })
      (λ s. refl)

abbrev pub pre_key_message_format : Format PreKeySignalMessageStructure
pre_key_message_format =
    via
      (pair maybe_number
        (pair maybe_number (pair maybe_number (pair maybe_bytes (pair maybe_bytes maybe_bytes)))))
      (λ s. (
        s.registrationid,
        (s.prekeyid, (s.signedprekeyid, (s.basekey, (s.identitykey, s.message)))),
      ))
      (λ (a, (b, (c, (d, (e, f))))). record {
        registrationid = a;
        prekeyid = b;
        signedprekeyid = c;
        basekey = d;
        identitykey = e;
        message = f;
      })
      (λ s. refl)

abbrev chain_key_format : Format ChainKeyStructure
chain_key_format =
    via (pair maybe_number maybe_bytes) (λ s. (s.index, s.key))
      (λ (a, b). record { index = a; key = b }) (λ s. refl)

abbrev message_key_format : Format MessageKeyStructure
message_key_format =
    via (pair maybe_number (pair maybe_bytes (pair maybe_bytes maybe_bytes)))
      (λ s. (s.index, (s.cipherkey, (s.mackey, s.iv))))
      (λ (a, (b, (c, d))). record { index = a; cipherkey = b; mackey = c; iv = d }) (λ s. refl)

abbrev chain_format : Format ChainStructure
chain_format =
    via
      (pair maybe_bytes
        (pair maybe_bytes (pair (option chain_key_format) (list message_key_format))))
      (λ s. (s.senderratchetkey, (s.senderratchetkeyprivate, (s.chainkey, s.messagekeys))))
      (λ (a, (b, (c, d))). record {
        senderratchetkey = a;
        senderratchetkeyprivate = b;
        chainkey = c;
        messagekeys = d;
      })
      (λ s. refl)

abbrev exchange_format : Format PendingKeyExchangeStructure
exchange_format =
    via
      (pair maybe_number (
        pair (pair maybe_bytes maybe_bytes)
          (pair (pair maybe_bytes maybe_bytes) (pair maybe_bytes maybe_bytes))))
      (λ s. (
        s.sequence,
        (
          (s.localbasekey, s.localbasekeyprivate),
          (
            (s.localratchetkey, s.localratchetkeyprivate),
            (s.localidentitykey, s.localidentitykeyprivate),
          ),
        ),
      ))
      (λ (a, ((b, c), ((d, e), (f, g)))). record {
        sequence = a;
        localbasekey = b;
        localbasekeyprivate = c;
        localratchetkey = d;
        localratchetkeyprivate = e;
        localidentitykey = f;
        localidentitykeyprivate = g;
      })
      (λ s. refl)

abbrev pre_key_format : Format PendingPreKeyStructure
pre_key_format =
    via (pair maybe_number (pair maybe_number maybe_bytes))
      (λ s. (s.prekeyid, (s.signedprekeyid, s.basekey)))
      (λ (a, (b, c)). record { prekeyid = a; signedprekeyid = b; basekey = c }) (λ s. refl)

abbrev pub session_format : Format SessionStructure
session_format =
    via
      (pair (pair maybe_number (pair maybe_bytes (pair maybe_bytes maybe_bytes))) (
        pair (pair maybe_number (pair (option chain_format) (list chain_format))) (
          pair (pair (option exchange_format) (option pre_key_format))
            (pair maybe_number (pair maybe_number (pair maybe_number maybe_bytes))))))
      (λ s. (
        (s.sessionversion, (s.localidentitypublic, (s.remoteidentitypublic, s.rootkey))),
        (
          (s.previouscounter, (s.senderchain, s.receiverchains)),
          (
            (s.pendingkeyexchange, s.pendingprekey),
            (s.remoteregistrationid, (s.localregistrationid, (s.needsrefresh, s.alicebasekey))),
          ),
        ),
      ))
      (λ ((a, (b, (c, d))), ((e, (f, g)), ((h, i), (j, (k, (l, m)))))). record {
        sessionversion = a;
        localidentitypublic = b;
        remoteidentitypublic = c;
        rootkey = d;
        previouscounter = e;
        senderchain = f;
        receiverchains = g;
        pendingkeyexchange = h;
        pendingprekey = i;
        remoteregistrationid = j;
        localregistrationid = k;
        needsrefresh = l;
        alicebasekey = m;
      })
      (λ s. refl)

abbrev pub session_record_format : Format RecordStructure
session_record_format =
    via (pair (option session_format) (list session_format))
      (λ s. (s.currentsession, s.previoussessions))
      (λ (a, b). record { currentsession = a; previoussessions = b }) (λ s. refl)
