-- ===== src/Util.antt =====
-- pkg/util/struct.go: conversions of protobuf messages by way of JSON, and into an Any. The encoders
-- and decoders are protobuf's: parameters, with an error type of theirs.
use bent.Shared.{◌≡◌, refl, sym, ◌⊎◌, inl, inr, Option, none, some, arith}

pub data Converted (E : Type 0) (A : Type 0) : Type 0 where
  converted : A → Converted E A
  -- An error of the encoder or the decoder.
  coding_error : E → Converted E A
  -- "nil message" or "nil struct".
  nil_error : Converted E A

pub data Coded (E : Type 0) (A : Type 0) : Type 0 where
  coded : A → Coded E A
  uncoded : E → Coded E A

Coded-cases :
    {E : Type 0} {A : Type 0} (c : Coded E A)
    → ((a : A) × (c ≡ coded a)) ⊎ ((e : E) × (c ≡ uncoded e))
Coded-cases (coded a) = inl (a, refl)
Coded-cases (uncoded e) = inr (e, refl)

-- The second half of `MessageToStruct` and of `StructToMessage`: the decoder reads what the encoder
-- has written.
read_text :
    {E : Type 0} {Text : Type 0} {A : Type 0} → (Text → Coded E A) → Coded E Text → Converted E A
read_text unmarshal (uncoded e) = coding_error e
read_text unmarshal (coded text) = elim (unmarshal text) [
  | uncoded e ↦ coding_error e
  | coded a ↦ converted a
]

module _ {E : Type 0} {Message : Type 0} {Struct : Type 0} {Text : Type 0} where
  unfoldable pub message_to_struct :
      (Message → Coded E Text) → (Text → Coded E Struct) → Option Message → Converted E Struct
  unfolding read_text
  message_to_struct marshal unmarshal none = nil_error
  message_to_struct marshal unmarshal (some msg) = read_text unmarshal (marshal msg)

  -- The result is the message `out`, which the decoder has filled.
  unfoldable pub struct_to_message :
      (Struct → Coded E Text) → (Text → Coded E Message) → Option Struct → Converted E Message
  unfolding read_text
  struct_to_message marshal unmarshal none = nil_error
  struct_to_message marshal unmarshal (some s) = read_text unmarshal (marshal s)

  -- A message that is encoded comes back from its struct, if the decoder reads what the encoder
  -- wrote, and if each text that a struct was read from, and the text that the struct is written
  -- to, are read as the same message.
  pub struct_to_message-message_to_struct :
      (marshal : Message → Coded E Text) (unmarshal : Text → Coded E Message)
      (marshal_struct : Struct → Coded E Text) (unmarshal_struct : Text → Coded E Struct)
      → ((m : Message) (t : Text) → marshal m ≡ coded t → unmarshal t ≡ coded m)
      → ((t : Text) (s : Struct)
          → unmarshal_struct t ≡ coded s
          → (t' : Text) × (marshal_struct s ≡ coded t') × (unmarshal t' ≡ unmarshal t))
      → (m : Message) (s : Struct)
      → message_to_struct marshal unmarshal_struct (some m) ≡ converted s
      → struct_to_message marshal_struct unmarshal (some s) ≡ converted m
  unfolding message_to_struct struct_to_message read_text
  struct_to_message-message_to_struct marshal unmarshal marshal_struct unmarshal_struct reads same m
        s e =
      elim (Coded-cases (marshal m)) [
        | inl (t, wrote) ↦ elim (Coded-cases (unmarshal_struct t)) [
          | inl (s', got) ↦
              let (t', written, agree) = same t s' got in
              let back = reads m t wrote in
              let hit : s' ≡ s = ground (arith, e, wrote, got) in
              ground (arith, sym hit, written, agree, back)
          | inr (err, failed) ↦ absurd (ground (arith, e, wrote, failed))
        ]
        | inr (err, failed) ↦ absurd (ground (arith, e, failed))
      ]

any_of : {E : Type 0} {Any : Type 0} → Coded E Any → Option Any
any_of (coded a) = some a
any_of (uncoded e) = none

-- An error of the encoder is logged, and the result is nil.
unfoldable pub message_to_any :
    {E : Type 0} {Message : Type 0} {Any : Type 0} → (Message → Coded E Any) → Message → Option Any
unfolding any_of
message_to_any marshal_any msg = any_of (marshal_any msg)
