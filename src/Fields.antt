-- ===== src/Fields.antt =====
-- The optional and the repeated fields of a protobuf structure: the code reads each with a function
-- that may fail, and stops at the first failure.
use rn_signal_protocol_messa.Base.{
  ◌≡◌, refl, Option, none, some, List, [], ◌∷◌, All, ◌<◌, length, arith,
}
use rn_signal_protocol_messa.Status.{Result, ok, ◌>>=◌}
use rn_signal_protocol_messa.Crypto.{Buffer}

module _ {A B : Type 0} where
  -- `if(has_x) { result = …; if(result < 0) goto complete; }`
  unfoldable pub optional : (A → Result B) → Option A → Result (Option B)
  optional read none = ok none
  optional read (some a) = do b ← read a; ok (some b)

  -- `for(i = 0; i < n; i++) { result = …; if(result < 0) goto complete; DL_APPEND(…); }`
  unfoldable pub each : (A → Result B) → List A → Result (List B)
  each read [] = ok []
  each read (a ∷ as') = do b ← read a; bs ← each read as'; ok (b ∷ bs)

  abbrev pub map_option : (B → A) → Option B → Option A
  map_option write none = none
  map_option write (some b) = some (write b)

  abbrev pub map_list : (B → A) → List B → List A
  map_list write [] = []
  map_list write (b ∷ bs) = write b ∷ map_list write bs

abbrev pub IfSome : {B : Type 0} → (B → Type 0) → Option B → Type 0
IfSome P none = Unit
IfSome P (some b) = P b

-- A field that is read back where its values are.
module _ {A B : Type 0} (read : A → Result B) (write : B → A) (P : B → Type 0)
    (back : (b : B) → P b → read (write b) ≡ ok b) where
  pub optional_lem : (o : Option B) → IfSome P o → optional read (map_option write o) ≡ ok o
  unfolding optional
  optional_lem none h = refl
  optional_lem (some b) h = rw (back b h) refl

  pub each_lem : (bs : List B) → All P bs → each read (map_list write bs) ≡ ok bs
  unfolding each
  each_lem [] h = refl
  each_lem (b ∷ bs) h = rw (back b h.0, each_lem bs h.1)

-- The `data` pointer of a bytes field: protobuf-c leaves it null where the field has no bytes.
unfoldable pub bytes_pointer : Buffer → Option Buffer
bytes_pointer [] = none
bytes_pointer (b ∷ bs) = some (b ∷ bs)

pub bytes_pointer_lem : (bytes : Buffer) → 0 < length bytes → bytes_pointer bytes ≡ some bytes
unfolding bytes_pointer
bytes_pointer_lem [] filled = ground arith
bytes_pointer_lem (b ∷ bs) filled = refl
