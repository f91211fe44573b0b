-- ===== src/Grpc/Codec.antt =====
-- pkg/plugins/pool/grpc/codec.go: the codec that passes the bytes of a message through. The parent
-- codec, `proto`, is a parameter: the messages that it knows and what it does with them.
use rpc_pigeon.Common.{◌≡◌, refl, Option, none, some, arith}
use rpc_pigeon.Common.Text.{Text}

-- The `grpc.Codec` of protobuf. An error is `none`.
pub record ParentCodec (M : Type 0) : Type 0 where
  pub marshal : M → Option Text
  pub unmarshal : Text → M → Option M

-- What is behind the `interface{}`: a `*frame`, or a message of the parent.
pub data Value (M : Type 0) : Type 0 where
  frame : (payload : Text) → Value M
  message : M → Value M

module _ {M : Type 0} where
  -- `rawCodec.Marshal`
  unfoldable pub marshal : ParentCodec M → Value M → Option Text
  marshal parent (message m) = parent.marshal m
  marshal parent (frame payload) = some payload

  abbrev wrapped : Option M → Option (Value M)
  wrapped none = none
  wrapped (some m) = some (message m)

  -- `rawCodec.Unmarshal`: the value pointed to afterwards.
  unfoldable pub unmarshal : ParentCodec M → Text → Value M → Option (Value M)
  unmarshal parent bytes (message m) = wrapped (parent.unmarshal bytes m)
  unmarshal parent bytes (frame payload) = some (frame bytes)

  -- The kinds that the two values have: both frames, or both messages of the parent.
  abbrev pub SameKind : Value M → Value M → Type 0
  SameKind (frame x) (frame y) = Unit
  SameKind (message m) (message n) = Unit
  SameKind (frame x) (message n) = ⊥
  SameKind (message m) (frame y) = ⊥

  -- The parent reads back what it wrote, whatever the message that it reads into holds.
  abbrev pub Lawful : ParentCodec M → Type 0
  Lawful parent =
      (m old : M) (bytes : Text)
      → parent.marshal m ≡ some bytes
      → parent.unmarshal bytes old ≡ some m

  -- Over a parent that reads back what it wrote, the codec reads back what it wrote: the bytes of a
  -- frame or of a message, read into a value of the same kind, give that frame or message.
  unmarshal-marshal :
      (parent : ParentCodec M) (v target : Value M) (bytes : Text)
      → Lawful parent
      → SameKind v target
      → marshal parent v ≡ some bytes
      → unmarshal parent bytes target ≡ some v
  unfolding marshal unmarshal
  unmarshal-marshal parent (frame x) (frame y) bytes lawful same e = ground arith
  unmarshal-marshal parent (message m) (message n) bytes lawful same e =
      rw (lawful m n bytes e) refl
  unmarshal-marshal parent (frame x) (message n) bytes lawful same e = absurd same
  unmarshal-marshal parent (message m) (frame y) bytes lawful same e = absurd same
