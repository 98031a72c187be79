-- ===== src/Wallet/Extra/Sending.antt =====
-- monero-oxide/wallet/src/extra.rs: the extra that a sender makes with `new` and `push_nonce`, as a
-- receiver reads it.
use monero_oxide.Common.{
  ◌^◌, ◌<◌, ◌≤◌, ◌≡◌, refl, subst, arith, Option, none, some, List, [], ◌∷◌, append-nil, ok, length,
  All, map,
}
use monero_oxide.Common.Bytes.{IsBytes}
use monero_oxide.Ed25519.{CompressedPoint}
use monero_oxide.Ed25519.Laws.{IsPoint}
use monero_oxide.Wallet.PaymentId
use monero_oxide.Wallet.PaymentId.{PaymentId, unencrypted, encrypted}
use monero_oxide.Wallet.PaymentId.Laws as IdLaws
use monero_oxide.Wallet.Extra.Field.{public_key, nonce, public_keys, max_tx_extra_nonce_size}
use monero_oxide.Wallet.Extra.{
  read, write, payment_id, payment_id_of, first_payment_id, keys, collect_keys, new, push_nonce,
  point,
}
use monero_oxide.Wallet.Extra.Laws.{read-write_extra}

serialize-IsBytes : (id : PaymentId) → IdLaws.IsValid id → IsBytes (PaymentId.serialize id)
unfolding PaymentId.write
serialize-IsBytes (unencrypted id) (len, good) = (omega arith, good)
serialize-IsBytes (encrypted id) (len, good) = (omega arith, good)

length-serialize :
    (id : PaymentId) → IdLaws.IsValid id → length (PaymentId.serialize id) ≤ max_tx_extra_nonce_size
unfolding PaymentId.write
length-serialize (unencrypted id) (len, good) = omega arith
length-serialize (encrypted id) (len, good) = omega arith

payment_id_of_lem :
    (id : PaymentId) → IdLaws.IsValid id → payment_id_of (PaymentId.serialize id) ≡ some id
unfolding payment_id_of
payment_id_of_lem id h =
    let whole : PaymentId.read (PaymentId.write id) ≡ ok (id, []) =
      subst (λ t. PaymentId.read t ≡ ok (id, [])) (append-nil (PaymentId.write id))
        ((IdLaws.read-Parses id h).run []) in
    rw (whole, payment_id_of) refl

-- The keys that a sender gives, as points.
abbrev pub given {ℓ} :
    {Point : Type ℓ} → (CompressedPoint → Point) → List CompressedPoint → Option (List Point)
given f [] = none
given f (key ∷ more) = some (map f (key ∷ more))

-- Of the extra that a sender makes of a key, of additional keys or none, and of a payment ID, a
-- receiver reads this payment ID, and the points of these keys, with the identity for a key that does
-- not decompress.
pub read-write_sent {ℓ} :
    {Point : Type ℓ} (decompress : CompressedPoint → Option Point) (identity : Point)
    (key : CompressedPoint) (additional : List CompressedPoint) (id : PaymentId)
    → IsPoint key
    → length additional < 2 ^ 64
    → All IsPoint additional
    → IdLaws.IsValid id
    → (payment_id (read (write (push_nonce (PaymentId.serialize id) (new key additional))))
        ≡ some id)
      × (keys decompress identity
            (read (write (push_nonce (PaymentId.serialize id) (new key additional))))
          ≡ some (point decompress identity key ∷ [], given (point decompress identity) additional))
unfolding payment_id first_payment_id keys collect_keys new push_nonce
read-write_sent decompress identity key [] id hk few ha h =
    let fields = public_key key ∷ nonce (PaymentId.serialize id) ∷ [] in
    let (back, _) =
      read-write_extra fields (hk, ((length-serialize id h, serialize-IsBytes id h), tt))
        (omega arith) in
    rw back (payment_id_of_lem id h, refl)
read-write_sent decompress identity key (k ∷ additional) id hk few ha h =
    let fields =
      public_key key ∷ public_keys (k ∷ additional) ∷ nonce (PaymentId.serialize id) ∷ [] in
    let (back, _) =
      read-write_extra fields
        (hk, ((few, ha), ((length-serialize id h, serialize-IsBytes id h), tt))) (omega arith) in
    rw back (payment_id_of_lem id h, refl)
