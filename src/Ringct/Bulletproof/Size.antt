-- ===== src/Ringct/Bulletproof/Size.antt =====
-- monero-oxide/ringct/bulletproofs/src/lib.rs: the sizes that `calculate_clawback` counts with are
-- those of what `signature_write` writes.
use monero_oxide.Common.{
  ℕ, ◌+◌, ◌*◌, ◌≡◌, Bool, true, false, List, [], ◌∷◌, ◌++◌, append-nil, length, length-append, All,
  arith,
}
use monero_oxide.Io.Vec.{write_raw_vec}
use monero_oxide.Ed25519.{CompressedPoint, write_point}
use monero_oxide.Ed25519.Laws.{IsPoint}
use monero_oxide.Ringct.Bulletproof.{
  OriginalProof, PlusProof, original, plus, write_core, signature_write,
}
use monero_oxide.Ringct.Bulletproof.Laws.{IsOriginal, IsPlus}
use monero_oxide.Ringct.Bulletproof.Clawback.{size_of_rounds}

length-points :
    (points : List CompressedPoint)
    → All IsPoint points
    → length (write_raw_vec write_point points) ≡ 32 * length points
unfolding write_raw_vec
length-points [] h = omega arith
length-points (point ∷ points) ((len, _), h) =
    omega
      (arith, len, length-append point (write_raw_vec write_point points), length-points points h)

-- A field of 32 bytes before the rest.
length-field :
    (n : ℕ) (field rest : List ℕ)
    → IsPoint field
    → length rest ≡ 32 * n
    → length (field ++ rest) ≡ 32 * (n + 1)
length-field n field rest (len, _) h = omega (arith, len, h, length-append field rest)

length-lr :
    (l r : List CompressedPoint) (rest : List ℕ) (n rounds : ℕ)
    → All IsPoint l
    → All IsPoint r
    → length l ≡ rounds
    → length r ≡ rounds
    → length rest ≡ 32 * n
    → length (write_raw_vec write_point l ++ (write_raw_vec write_point r ++ rest))
      ≡ 32 * (n + 2 * rounds)
length-lr l r rest n rounds hl hr len len' h = omega (
  arith,
  len,
  len',
  h,
  length-points l hl,
  length-points r hr,
  length-append (write_raw_vec write_point r) rest,
  length-append (write_raw_vec write_point l) (write_raw_vec write_point r ++ rest),
)

module _ (reduced : List ℕ → Bool) (rounds : ℕ) where
  length-original :
      (bp : OriginalProof)
      → IsOriginal reduced bp
      → length bp.ip.l ≡ rounds
      → length bp.ip.r ≡ rounds
      → length (signature_write (original bp)) ≡ size_of_rounds false rounds
  unfolding signature_write write_core
  length-original bp v len len' =
      let last =
        length-field 2 bp.ip.a _ v.ip_a.0
          (length-field 1 bp.ip.b bp.t_hat v.ip_b.0 (omega (arith, v.t_hat.0.0))) in
      let lr = length-lr bp.ip.l bp.ip.r _ 3 rounds v.l.1 v.r.1 len len' last in
      omega (
        arith,
        length-field _ bp.a _ v.a (
            length-field _ bp.s _ v.s (
              length-field _ bp.t1 _ v.t1 (
                length-field _ bp.t2 _ v.t2
                  (length-field _ bp.tau_x _ v.tau_x.0 (length-field _ bp.mu _ v.mu.0 lr))))),
      )

  length-plus :
      (bp : PlusProof)
      → IsPlus reduced bp
      → length bp.wip.l ≡ rounds
      → length bp.wip.r ≡ rounds
      → length (signature_write (plus bp)) ≡ size_of_rounds true rounds
  unfolding signature_write write_core
  length-plus bp v len len' =
      let lr = length-lr bp.wip.l bp.wip.r [] 0 rounds v.l.1 v.r.1 len len' (omega arith) in
      omega (
        arith,
        length-field _ bp.a _ v.a (
            length-field _ bp.wip.a _ v.wip_a (
              length-field _ bp.wip.b _ v.b (
                length-field _ bp.wip.r_answer _ v.r_answer.0 (
                  length-field _ bp.wip.s_answer _ v.s_answer.0 (
                    length-field _ bp.wip.delta_answer _ v.delta_answer.0
                      (rw (append-nil (write_raw_vec write_point bp.wip.r)) at lr)))))),
      )
