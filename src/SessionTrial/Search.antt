-- ===== src/SessionTrial/Search.antt =====
-- Which state of a session's record decrypts a message, and what becomes of the record.
use rn_signal_protocol_messa.Base.{
  ℕ, suc, ◌+◌, ◌≡◌, ◌∙◌, refl, ap, some, List, [], ◌∷◌, ◌++◌, All, length, take, arith,
}
use rn_signal_protocol_messa.Status.{Result, ok, err, invalid_message}
use rn_signal_protocol_messa.Action.{◌>>=◌}
use rn_signal_protocol_messa.Crypto.{Buffer, Provider, Codec, IsCodec}
use rn_signal_protocol_messa.SignalMessage.{SignalMessage}
use rn_signal_protocol_messa.SessionState.{SessionState}
use rn_signal_protocol_messa.SessionState.Structure.{SessionStructure}
use rn_signal_protocol_messa.SessionState.RoundTrip.{IsWellFormed, session_state_copy_lem}
use rn_signal_protocol_messa.SessionRecord.{
  SessionRecord, remove_at, session_record_get_previous_states_remove, archived_states_max_length,
}
use rn_signal_protocol_messa.SessionRecord.Archive.{promote_state_lem}
use rn_signal_protocol_messa.SessionCipher.{session_cipher_decrypt_from_state_and_signal_message}
use rn_signal_protocol_messa.SessionTrial.{
  resolve, try_state, try_previous, session_cipher_decrypt_from_record_and_signal_message,
}

remove_at_lem :
    {A : Type 0} (before after : List A) (x : A)
    → remove_at (length before) (before ++ (x ∷ after)) ≡ before ++ after
unfolding remove_at
remove_at_lem [] after x = refl
remove_at_lem (b ∷ before) after x = ap (λ xs. b ∷ xs) (remove_at_lem before after x)

module _ (p : Provider) (ciphertext : SignalMessage) where
  abbrev decrypts : SessionState → ℕ → Result (Buffer × SessionState) × ℕ
  decrypts state n = session_cipher_decrypt_from_state_and_signal_message p state ciphertext n

  -- Every one of these states refuses the message as invalid, one after the other; the numbers are
  -- the requests to the random source before and after.
  pub data AreRefused : ℕ → List SessionState → ℕ → Type 0 where
    no_more : (n : ℕ) → AreRefused n [] n
    refused :
        {n n' n'' : ℕ} {state : SessionState} {states : List SessionState}
        → session_cipher_decrypt_from_state_and_signal_message p state ciphertext n
          ≡ (err invalid_message, n')
        → AreRefused n' states n''
        → AreRefused n (state ∷ states) n''

module _ (p : Provider) (codec : Codec SessionStructure) (good : IsCodec codec)
    (ciphertext : SignalMessage) where
  try_refused :
      (n n' : ℕ) (found : Buffer × SessionState → ℕ → Result (Buffer × SessionRecord) × ℕ)
      (next : ℕ → Result (Buffer × SessionRecord) × ℕ) (state : SessionState)
      → IsWellFormed state
      → decrypts p ciphertext state n ≡ (err invalid_message, n')
      → try_state p codec ciphertext state found next n ≡ next n'
  unfolding try_state resolve ◌>>=◌
  try_refused n n' found next state w e = rw (session_state_copy_lem codec state good w, e) refl

  try_found :
      (n n' : ℕ) (found : Buffer × SessionState → ℕ → Result (Buffer × SessionRecord) × ℕ)
      (next : ℕ → Result (Buffer × SessionRecord) × ℕ) (state state' : SessionState)
      (plaintext : Buffer)
      → IsWellFormed state
      → decrypts p ciphertext state n ≡ (ok (plaintext, state'), n')
      → try_state p codec ciphertext state found next n ≡ found (plaintext, state') n'
  unfolding try_state resolve ◌>>=◌
  try_found n n' found next state state' plaintext w e =
      rw (session_state_copy_lem codec state good w, e) refl

  -- The search passes over states that refuse the message.
  pass_over :
      {n n' : ℕ} (node : ℕ) (before states : List SessionState) (r : SessionRecord)
      → All IsWellFormed before
      → AreRefused p ciphertext n before n'
      → try_previous p codec ciphertext node (before ++ states) r n
        ≡ try_previous p codec ciphertext (node + length before) states r n'
  unfolding try_previous
  pass_over node [] states r w (no_more n) =
      let here : node + 0 ≡ node = omega arith in rw here refl
  pass_over node (state ∷ before) states r w (refused e rest) =
      let on : node + suc (length before) ≡ suc node + length before = omega arith in
      rw on (try_refused _ _ _ _ state w.0 e ∙ pass_over (suc node) before states r w.1 rest)

  previous_found :
      (n n' n'' : ℕ) (before after : List SessionState) (state state' current : SessionState)
      (r : SessionRecord) (plaintext : Buffer)
      → r.state ≡ some current
      → r.previous_states ≡ before ++ (state ∷ after)
      → All IsWellFormed before
      → IsWellFormed state
      → AreRefused p ciphertext n before n'
      → decrypts p ciphertext state n' ≡ (ok (plaintext, state'), n'')
      → try_previous p codec ciphertext 0 r.previous_states r n ≡ (
        ok (
          plaintext,
          record r {
            state = some state';
            previous_states = take archived_states_max_length (current ∷ (before ++ after));
          },
        ),
        n'',
      )
  unfolding try_previous session_record_get_previous_states_remove
  previous_found n n' n'' before after state state' current r plaintext is_current order wb w
        before_refused e =
      let at : 0 + length before ≡ length before = omega arith in
      ap (λ states. try_previous p codec ciphertext 0 states r n) order
      ∙ pass_over 0 before (state ∷ after) r wb before_refused
      ∙ try_found _ _ _ _ state state' plaintext w e
      ∙ rw
          (
            at,
            order,
            remove_at_lem before after state,
            promote_state_lem (record r { previous_states = before ++ after }) state' current
                is_current,
          )
          refl

  -- Where the current state decrypts the message, it alone changes.
  pub decrypt_from_record_current :
      (n n' : ℕ) (current current' : SessionState) (r : SessionRecord) (plaintext : Buffer)
      → r.state ≡ some current
      → IsWellFormed current
      → decrypts p ciphertext current n ≡ (ok (plaintext, current'), n')
      → session_cipher_decrypt_from_record_and_signal_message p codec ciphertext r n
        ≡ (ok (plaintext, record r { state = some current' }), n')
  unfolding session_cipher_decrypt_from_record_and_signal_message
  decrypt_from_record_current n n' current current' r plaintext is_current w e =
      rw is_current (try_found _ _ _ _ current current' plaintext w e)

  -- With a codec that unpacks what it packs and well-formed states: the current state and the
  -- previous states before one refuse the message as invalid, and this one decrypts it. Then the
  -- plaintext is the result, the state that decrypted it is current, the state that was current is
  -- the first of the previous states, the others follow in their order without it, and the latest
  -- 40 are left.
  pub decrypt_from_record_previous :
      (n n' n'' n''' : ℕ) (before after : List SessionState) (state state' current : SessionState)
      (r : SessionRecord) (plaintext : Buffer)
      → r.state ≡ some current
      → r.previous_states ≡ before ++ (state ∷ after)
      → IsWellFormed current
      → All IsWellFormed before
      → IsWellFormed state
      → decrypts p ciphertext current n ≡ (err invalid_message, n')
      → AreRefused p ciphertext n' before n''
      → decrypts p ciphertext state n'' ≡ (ok (plaintext, state'), n''')
      → session_cipher_decrypt_from_record_and_signal_message p codec ciphertext r n ≡ (
        ok (
          plaintext,
          record r {
            state = some state';
            previous_states = take archived_states_max_length (current ∷ (before ++ after));
          },
        ),
        n''',
      )
  unfolding session_cipher_decrypt_from_record_and_signal_message
  decrypt_from_record_previous n n' n'' n''' before after state state' current r plaintext
        is_current order wc wb w refuses before_refused e =
      ap
        (λ s.
          session_cipher_decrypt_from_record_and_signal_message p codec ciphertext
            (record r { state = s }) n)
        is_current
      ∙ try_refused _ _ _ _ current wc refuses
      ∙ previous_found n' n'' n''' before after state state' current
          (record r { state = some current }) plaintext refl order wb w before_refused e
