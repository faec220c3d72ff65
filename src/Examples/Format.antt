-- ===== src/Examples/Format.antt =====
-- A byte format in which every value tells its own length, as an instance of the protobuf functions.
use rn_signal_protocol_messa.Base.{
  ℕ, zero, suc, ◌≡◌, refl, Option, none, some, List, [], ◌∷◌, length,
}
use rn_signal_protocol_messa.Crypto.{Buffer, Codec, IsCodec}
use rn_signal_protocol_messa.KeyState.Structure.{
  StateStructure, ChainKeyStructure, SigningKeyStructure, MessageKeyStructure,
}
use rn_signal_protocol_messa.GroupMessage.{SenderKeyMessageStructure, DistributionStructure}

-- `write` puts a value in front of the bytes, and `read` takes it off again.
pub record Format (A : Type 0) : Type 0 where
  pub write : A → Buffer → Buffer
  pub read : Buffer → Option (A × Buffer)
  pub read-write : (a : A) (rest : Buffer) → read (write a rest) ≡ some (a, rest)

abbrev pub with_rest : {A B : Type 0} → Option A → (A → Option B) → Option B
with_rest none f = none
with_rest (some a) f = f a

abbrev pub read_number : Buffer → Option (ℕ × Buffer)
read_number [] = none
read_number (n ∷ rest) = some (n, rest)

abbrev pub number : Format ℕ
number = record { write = λ n rest. n ∷ rest; read = read_number; read-write = λ n rest. refl }

module _ {A : Type 0} (f : Format A) where
  abbrev pub write_option : Option A → Buffer → Buffer
  write_option none rest = 0 ∷ rest
  write_option (some a) rest = 1 ∷ f.write a rest

  abbrev pub read_option : Buffer → Option (Option A × Buffer)
  read_option [] = none
  read_option (zero ∷ rest) = some (none, rest)
  read_option (suc _ ∷ rest) = with_rest (f.read rest) λ (a, r). some (some a, r)

  pub read-write_option :
      (o : Option A) (rest : Buffer) → read_option (write_option o rest) ≡ some (o, rest)
  read-write_option none rest = refl
  read-write_option (some a) rest = rw (f.read-write a rest)

  abbrev pub option : Format (Option A)
  option = record { write = write_option; read = read_option; read-write = read-write_option }

  abbrev pub write_all : List A → Buffer → Buffer
  write_all [] rest = rest
  write_all (a ∷ as') rest = f.write a (write_all as' rest)

  abbrev pub read_all : ℕ → Buffer → Option (List A × Buffer)
  read_all zero rest = some ([], rest)
  read_all (suc n) bytes =
      with_rest (f.read bytes) λ (a, r). with_rest (read_all n r) λ (as', r'). some (a ∷ as', r')

  pub read-write_all :
      (as' : List A) (rest : Buffer) → read_all (length as') (write_all as' rest) ≡ some (as', rest)
  read-write_all [] rest = refl
  read-write_all (a ∷ as') rest = rw (f.read-write a (write_all as' rest), read-write_all as' rest)

  abbrev pub list : Format (List A)
  list = record {
    write = λ as' rest. length as' ∷ write_all as' rest;
    read = λ bytes. with_rest (read_number bytes) λ (n, rest). read_all n rest;
    read-write = read-write_all;
  }

module _ {A B : Type 0} where
  abbrev pub pair : Format A → Format B → Format (A × B)
  pair f g = record {
    write = λ (a, b) rest. f.write a (g.write b rest);
    read = λ bytes.
        with_rest (f.read bytes) λ (a, r). with_rest (g.read r) λ (b, r'). some ((a, b), r');
    read-write = λ (a, b) rest. rw (f.read-write a (g.write b rest), g.read-write b rest);
  }

  abbrev pub via : Format A → (to : B → A) (of : A → B) → ((b : B) → of (to b) ≡ b) → Format B
  via f to of back = record {
    write = λ b rest. f.write (to b) rest;
    read = λ bytes. with_rest (f.read bytes) λ (a, r). some (of a, r);
    read-write = λ b rest. rw (f.read-write (to b) rest, back b);
  }

abbrev pub bytes : Format Buffer
bytes = list number

module _ {A : Type 0} (f : Format A) where
  abbrev pub codec : Codec A
  codec = record {
    packed_size = λ a. length (f.write a []);
    pack = λ a. f.write a [];
    unpack = λ buffer. with_rest (f.read buffer) λ (a, _). some a;
  }

  pub codec-IsCodec : IsCodec codec
  codec-IsCodec = record { sized = λ a. refl; unpack-pack = λ a. rw (f.read-write a []) }

abbrev chain_format : Format ChainKeyStructure
chain_format =
    via (pair (option number) (option bytes)) (λ c. (c.iteration, c.seed))
      (λ (i, s). record { iteration = i; seed = s }) (λ c. refl)

abbrev signing_format : Format SigningKeyStructure
signing_format =
    via (pair (option bytes) (option bytes)) (λ k. (k.public_bytes, k.private_bytes))
      (λ (a, b). record { public_bytes = a; private_bytes = b }) (λ k. refl)

abbrev message_key_format : Format MessageKeyStructure
message_key_format =
    via (pair (option number) (option bytes)) (λ c. (c.iteration, c.seed))
      (λ (i, s). record { iteration = i; seed = s }) (λ c. refl)

abbrev pub state_format : Format StateStructure
state_format =
    via
      (pair (option number)
        (pair (option chain_format) (pair (option signing_format) (list message_key_format))))
      (λ s. (s.senderkeyid, (s.senderchainkey, (s.sendersigningkey, s.sendermessagekeys))))
      (λ (i, (c, (k, m))). record {
        senderkeyid = i;
        senderchainkey = c;
        sendersigningkey = k;
        sendermessagekeys = m;
      })
      (λ s. refl)

abbrev pub record_format : Format (List StateStructure)
record_format = list state_format

abbrev pub message_format : Format SenderKeyMessageStructure
message_format =
    via (pair (option number) (pair (option number) (option bytes)))
      (λ s. (s.id, (s.iteration, s.ciphertext)))
      (λ (i, (n, c)). record { id = i; iteration = n; ciphertext = c }) (λ s. refl)

abbrev pub distribution_format : Format DistributionStructure
distribution_format =
    via (pair (option number) (pair (option number) (pair (option bytes) (option bytes))))
      (λ s. (s.id, (s.iteration, (s.chainkey, s.signingkey))))
      (λ (i, (n, (c, k))). record { id = i; iteration = n; chainkey = c; signingkey = k })
      (λ s. refl)
