-- ===== src/Ringct/Bulletproof.antt =====
-- monero-oxide/ringct/bulletproofs/src/lib.rs: the wire format of a Bulletproof(+), and the weight
-- that a transaction pays for one. The scalars are those of `curve25519_dalek`, which keep the
-- bytes that they were read from.
pub mod Laws
pub mod Clawback
pub mod Size
use monero_oxide.Common.{
  ℕ, zero, suc, ◌+◌, ◌-◌, ◌*◌, ◌/◌, ◌^◌, Bool, true, false, Option, none, some, List, ◌++◌, ltb,
  min, if◌then◌else◌,
}
use monero_oxide.Io.Reader.{Reader, pure, ◌>>=◌}
use monero_oxide.Io.Vec.{read_vec, write_vec, write_raw_vec}
use monero_oxide.Ed25519.{
  CompressedPoint, Scalar, read_scalar, write_scalar, read_point, write_point,
}

abbrev pub max_commitments : ℕ
max_commitments = 16

abbrev pub commitment_bits : ℕ
commitment_bits = 64

-- `COMMITMENT_BITS.ilog2()`
abbrev pub log_commitment_bits : ℕ
log_commitment_bits = 6

-- `MAX_COMMITMENTS.ilog2() + LOG_COMMITMENT_BITS`
abbrev pub max_lr : ℕ
max_lr = 4 + log_commitment_bits

pub record IpProof : Type 0 where
  pub l : List CompressedPoint
  pub r : List CompressedPoint
  pub a : Scalar
  pub b : Scalar

pub record OriginalProof : Type 0 where
  pub a : CompressedPoint
  pub s : CompressedPoint
  pub t1 : CompressedPoint
  pub t2 : CompressedPoint
  pub tau_x : Scalar
  pub mu : Scalar
  pub t_hat : Scalar
  pub ip : IpProof

pub record WipProof : Type 0 where
  pub l : List CompressedPoint
  pub r : List CompressedPoint
  pub a : CompressedPoint
  pub b : CompressedPoint
  pub r_answer : Scalar
  pub s_answer : Scalar
  pub delta_answer : Scalar

pub record PlusProof : Type 0 where
  pub a : CompressedPoint
  pub wip : WipProof

pub data Bulletproof : Type 0 where
  original : OriginalProof → Bulletproof
  plus : PlusProof → Bulletproof

abbrev pub bp_fields : Bool → ℕ
bp_fields is_plus = if is_plus then 6 else 9

-- `while n_padded_outputs < n_outputs.min(MAX_COMMITMENTS) { LR_len += 1; n_padded_outputs = 1 << LR_len; }`
unfoldable pub pad_outputs : ℕ → ℕ → ℕ → ℕ → ℕ × ℕ
pad_outputs zero n lr_len n_padded = (lr_len, n_padded)
pad_outputs (suc rounds) n lr_len n_padded =
    let next = pad_outputs rounds n (lr_len + 1) (2 ^ (lr_len + 1)) in
    if ltb n_padded n then next else (lr_len, n_padded)

-- A subtraction of `usize`s, which panics where it would be negative.
abbrev pub checked_sub : ℕ → ℕ → Option ℕ
checked_sub a b = if ltb a b then none else some (a - b)

abbrev pub scaled : Option ℕ → Option ℕ
scaled none = none
scaled (some saved) = some (saved * 4 / 5)

abbrev pub with_len : ℕ → Option ℕ → Option (ℕ × ℕ)
with_len lr_len none = none
with_len lr_len (some clawback) = some (clawback, lr_len)

-- The loop takes as many rounds as `MAX_COMMITMENTS` has bits at most. `none` is a panic.
unfoldable pub calculate_clawback : Bool → ℕ → Option (ℕ × ℕ)
unfolding pad_outputs
calculate_clawback is_plus n_outputs =
    let (log_padded, n_padded_outputs) = pad_outputs 5 (min n_outputs max_commitments) 0 1 in
    let lr_len = log_padded + log_commitment_bits in
    let fields = bp_fields is_plus in
    let base = (fields + 2 * (log_commitment_bits + 1)) * 32 / 2 in
    let size = (fields + 2 * lr_len) * 32 in
    with_len lr_len (
      if ltb 2 n_padded_outputs
      then scaled (checked_sub (base * n_padded_outputs) size)
      else some 0)

unfoldable pub write_core : Bulletproof → (List CompressedPoint → List ℕ) → List ℕ
write_core (original bp) specific_write_vec =
    write_point bp.a
    ++ (write_point bp.s
        ++ (write_point bp.t1
            ++ (write_point bp.t2
                ++ (write_scalar bp.tau_x
                    ++ (write_scalar bp.mu
                        ++ (specific_write_vec bp.ip.l
                            ++ (specific_write_vec bp.ip.r
                                ++ (write_scalar bp.ip.a
                                    ++ (write_scalar bp.ip.b ++ write_scalar bp.t_hat)))))))))
write_core (plus bp) specific_write_vec =
    write_point bp.a
    ++ (write_point bp.wip.a
        ++ (write_point bp.wip.b
            ++ (write_scalar bp.wip.r_answer
                ++ (write_scalar bp.wip.s_answer
                    ++ (write_scalar bp.wip.delta_answer
                        ++ (specific_write_vec bp.wip.l ++ specific_write_vec bp.wip.r))))))

unfoldable pub signature_write : Bulletproof → List ℕ
unfolding write_core
signature_write bp = write_core bp (write_raw_vec write_point)

unfoldable pub write : Bulletproof → List ℕ
unfolding write_core
write bp = write_core bp (write_vec write_point)

module _ (reduced : List ℕ → Bool) where
  unfoldable pub read : Reader Bulletproof
  read = do
    a ← read_point
    s ← read_point
    t1 ← read_point
    t2 ← read_point
    tau_x ← read_scalar reduced
    mu ← read_scalar reduced
    l ← read_vec read_point (some max_lr)
    r ← read_vec read_point (some max_lr)
    ip_a ← read_scalar reduced
    ip_b ← read_scalar reduced
    t_hat ← read_scalar reduced
    pure (
        original (record {
          a = a;
          s = s;
          t1 = t1;
          t2 = t2;
          tau_x = tau_x;
          mu = mu;
          t_hat = t_hat;
          ip = record { l = l; r = r; a = ip_a; b = ip_b };
        }))

  unfoldable pub read_plus : Reader Bulletproof
  read_plus = do
    a ← read_point
    wip_a ← read_point
    b ← read_point
    r_answer ← read_scalar reduced
    s_answer ← read_scalar reduced
    delta_answer ← read_scalar reduced
    l ← read_vec read_point (some max_lr)
    r ← read_vec read_point (some max_lr)
    pure (
        plus (record {
          a = a;
          wip = record {
            l = l;
            r = r;
            a = wip_a;
            b = b;
            r_answer = r_answer;
            s_answer = s_answer;
            delta_answer = delta_answer;
          };
        }))
