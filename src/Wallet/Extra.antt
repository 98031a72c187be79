-- ===== src/Wallet/Extra.antt =====
-- monero-oxide/wallet/src/extra.rs: the fields of a transaction's extra, and the extra, which is a
-- list of fields. `decompress` stands for `CompressedPoint::decompress`, of curve arithmetic, and
-- `identity` for the identity point.
pub mod Field
pub mod Sending
pub mod Laws
pub mod Sorting
use monero_oxide.Common.{
  ℕ, zero, suc, ◌-◌, min, ◌==◌, Bool, true, false, Option, none, some, List, [], ◌∷◌, ◌++◌, Result,
  ok, err, length, take, map, if◌then◌else◌,
}
use monero_oxide.Io.Reader.{Reader}
use monero_oxide.Ed25519.{CompressedPoint}
use monero_oxide.Wallet.PaymentId
use monero_oxide.Wallet.PaymentId.{PaymentId}
use monero_oxide.Wallet.Extra.Field.{
  ExtraField, padding, public_key, nonce, merge_mining, public_keys, mysterious_minergate,
  is_padding,
}

abbrev pub arbitrary_data_marker : ℕ
arbitrary_data_marker = 127

abbrev pub max_extra_size_by_relay_rule : ℕ
max_extra_size_by_relay_rule = 1060

pub record Extra : Type 0 where
  pub fields : List ExtraField

-- `option.unwrap_or(default)` and `option.or(other)`
abbrev pub unwrap_or {ℓ} : {A : Type ℓ} → Option A → A → A
unwrap_or none d = d
unwrap_or (some a) d = a

abbrev pub or_else {ℓ} : {A : Type ℓ} → Option A → Option A → Option A
or_else none other = other
or_else (some a) other = some a

module _ {ℓ} {Point : Type ℓ} (decompress : CompressedPoint → Option Point) (identity : Point) where
  abbrev pub point : CompressedPoint → Point
  point key = unwrap_or (decompress key) identity

  -- The loop of `keys`, on the keys and the additional keys found so far.
  unfoldable pub collect_keys :
      List ExtraField → List Point → Option (List Point) → List Point × Option (List Point)
  collect_keys [] keys additional = (keys, additional)
  collect_keys (public_key key ∷ fields) keys additional =
      collect_keys fields (keys ++ (point key ∷ [])) additional
  collect_keys (public_keys more ∷ fields) keys additional =
      collect_keys fields keys (or_else additional (some (map point more)))
  collect_keys (_ ∷ fields) keys additional = collect_keys fields keys additional

  abbrev pub unless_empty :
      List Point × Option (List Point) → Option (List Point × Option (List Point))
  unless_empty ([], additional) = none
  unless_empty (key ∷ keys, additional) = some (key ∷ keys, additional)

  unfoldable pub keys : Extra → Option (List Point × Option (List Point))
  unfolding collect_keys
  keys self = unless_empty (collect_keys self.fields [] none)

-- `PaymentId::read(&mut reader).ok()`, refused where the reader has bytes left.
unfoldable pub payment_id_of : List ℕ → Option PaymentId
unfolding PaymentId.read
payment_id_of blob = elim (PaymentId.read blob) [
  | ok (id, []) ↦ some id
  | ok (id, b ∷ rest) ↦ none
  | err e ↦ none
]

unfoldable pub first_payment_id : List ExtraField → Option PaymentId
unfolding payment_id_of
first_payment_id [] = none
first_payment_id (nonce blob ∷ fields) = payment_id_of blob
first_payment_id (_ ∷ fields) = first_payment_id fields

unfoldable pub payment_id : Extra → Option PaymentId
unfolding first_payment_id
payment_id self = first_payment_id self.fields

unfoldable pub new : CompressedPoint → List CompressedPoint → Extra
new key [] = record { fields = public_key key ∷ [] }
new key (k ∷ additional) = record { fields = public_key key ∷ public_keys (k ∷ additional) ∷ [] }

unfoldable pub push_nonce : List ℕ → Extra → Extra
push_nonce blob self = record { fields = self.fields ++ (nonce blob ∷ []) }

-- The closures of `SORT_ORDER`.
abbrev pub is_public_key : ExtraField → Bool
is_public_key (public_key key) = true
is_public_key _ = false

abbrev pub is_public_keys : ExtraField → Bool
is_public_keys (public_keys keys) = true
is_public_keys _ = false

abbrev pub is_nonce : ExtraField → Bool
is_nonce (nonce blob) = true
is_nonce _ = false

abbrev pub is_merge_mining : ExtraField → Bool
is_merge_mining (merge_mining depth merkle_root) = true
is_merge_mining _ = false

abbrev pub is_mysterious_minergate : ExtraField → Bool
is_mysterious_minergate (mysterious_minergate blob) = true
is_mysterious_minergate _ = false

abbrev pub sort_order : List (ExtraField → Bool)
sort_order =
    is_public_key ∷ is_public_keys ∷ is_nonce ∷ is_merge_mining ∷ is_mysterious_minergate
    ∷ is_padding ∷ []

-- The inner loop of `write`, over the fields that a selection picks, and the outer loop.
unfoldable pub write_selected : (ExtraField → Bool) → List ExtraField → List ℕ
unfolding Field.write
write_selected selection [] = []
write_selected selection (field ∷ fields) =
    (if selection field then Field.write field else []) ++ write_selected selection fields

unfoldable pub write_order : List (ExtraField → Bool) → List ExtraField → List ℕ
unfolding write_selected
write_order [] fields = []
write_order (selection ∷ order) fields = write_selected selection fields ++ write_order order fields

unfoldable pub write : Extra → List ℕ
unfolding write_order
write self = write_order sort_order self.fields

abbrev pub serialize : Extra → List ℕ
serialize self = write self

-- The loop of `read` on fuel. A field that is read takes a byte, so as much fuel as there are bytes
-- is enough.
unfoldable pub read_fields : ℕ → List ℕ → List ExtraField
unfolding Field.read
read_fields zero src = []
read_fields (suc fuel) [] = []
read_fields (suc fuel) (b ∷ src) = elim (Field.read (b ∷ src)) [
  | ok (field, rest) ↦ field ∷ read_fields fuel rest
  | err e ↦ []
]

-- `read` does not fail on a slice.
unfoldable pub read : List ℕ → Extra
unfolding read_fields
read src = record { fields = read_fields (length src) src }

-- The data of the nonces that start with the marker.
unfoldable pub marked_data : List ExtraField → List (List ℕ)
marked_data [] = []
marked_data (nonce (b ∷ blob) ∷ fields) =
    if b == arbitrary_data_marker then blob ∷ marked_data fields else marked_data fields
marked_data (_ ∷ fields) = marked_data fields

unfoldable pub arbitrary_data : Extra → List (List ℕ)
unfolding write read marked_data
arbitrary_data self =
    let serialized = serialize self in
    marked_data
      (read (take (min (length serialized) max_extra_size_by_relay_rule) serialized)).fields
