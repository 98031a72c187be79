-- ===== src/Io/Vec.antt =====
-- monero-oxide/io/src/lib.rs: sequences, with and without a length in front.
pub mod Laws
use monero_oxide.Common.{
  ℕ, zero, suc, ◌<◌, Bool, false, String, Option, none, some, List, [], ◌∷◌, ◌++◌, length, ltb,
}
use monero_oxide.Io.Reader.{Reader, pure, ◌>>=◌, ◌>>◌, fail_if}
use monero_oxide.Io.VarInt

-- `Some(bound)` is exceeded.
abbrev pub exceeds : ℕ → Option ℕ → Bool
exceeds n none = false
exceeds n (some bound) = ltb bound n

module _ {ℓ} {A : Type ℓ} where
  unfoldable pub write_raw_vec : (A → List ℕ) → List A → List ℕ
  write_raw_vec f [] = []
  write_raw_vec f (x ∷ values) = f x ++ write_raw_vec f values

  unfoldable pub write_vec : (A → List ℕ) → List A → List ℕ
  write_vec f values = VarInt.write (length values) ++ write_raw_vec f values

  -- `for _ in 0 .. len { res.push(f(r)?); }`
  unfoldable pub read_raw_vec : Reader A → ℕ → Reader (List A)
  read_raw_vec f zero = pure []
  read_raw_vec f (suc n) = do x ← f; res ← read_raw_vec f n; pure (x ∷ res)

  -- The conversion into an array of `n` elements succeeds: `length-read_raw_vec`.
  unfoldable pub read_array : Reader A → ℕ → Reader (List A)
  read_array f n = read_raw_vec f n

  unfoldable pub read_vec : Reader A → Option ℕ → Reader (List A)
  read_vec f length_bound = do
    declared_length ← VarInt.read_varint_usize
    fail_if (exceeds declared_length length_bound) "vector exceeds bound on length"
    read_raw_vec f declared_length
