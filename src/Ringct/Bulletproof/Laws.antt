-- ===== src/Ringct/Bulletproof/Laws.antt =====
-- monero-oxide/ringct/bulletproofs/src/lib.rs: the readers of `Bulletproof` against its writer.
use monero_oxide.Common.{
  ℕ, ◌≤◌, refl, Bool, List, append_assoc, length, All, All-map, arith, le→ltb, ltb→le, some,
}
use monero_oxide.Io.Parses.{
  Parses, IsCanonical, Parses-bind, Parses-map, Accepts-bind, Accepts-last, Accepts-pure,
}
use monero_oxide.Io.Vec.{read_vec, write_vec}
use monero_oxide.Io.Vec.Laws.{read_vec-Parses, read_vec-IsCanonical}
use monero_oxide.Ed25519.{CompressedPoint, write_point, read_point}
use monero_oxide.Ed25519.Laws.{
  IsScalar, IsPoint, read_scalar-Parses, read_scalar-IsCanonical, read_point-Parses,
  read_point-IsCanonical,
}
use monero_oxide.Ringct.Bulletproof.{
  Bulletproof, OriginalProof, PlusProof, original, plus, max_lr, write, read, read_plus,
}

-- A list of points, `max_lr` of them at most.
abbrev IsLr : List CompressedPoint → Type 0
IsLr points = (length points ≤ max_lr) × All IsPoint points

lr-Parses :
    (points : List CompressedPoint)
    → IsLr points
    → Parses (read_vec read_point (some max_lr)) (write_vec write_point points) points
lr-Parses points (few, h) =
    read_vec-Parses _ write_point (some max_lr) points (omega arith) (le→ltb _ _ few)
      (All-map read_point-Parses points h)

IsLr-IsCanonical : IsCanonical IsLr (read_vec read_point (some max_lr)) (write_vec write_point)
IsLr-IsCanonical =
    Accepts-last (read_vec-IsCanonical _ _ read_point-IsCanonical (some max_lr))
      λ points (_, few, h). (refl, (ltb→le _ _ few, h))

module _ (reduced : List ℕ → Bool) where
  pub record IsOriginal (bp : OriginalProof) : Type 0 where
    pub a : IsPoint bp.a
    pub s : IsPoint bp.s
    pub t1 : IsPoint bp.t1
    pub t2 : IsPoint bp.t2
    pub tau_x : IsScalar reduced bp.tau_x
    pub mu : IsScalar reduced bp.mu
    pub l : IsLr bp.ip.l
    pub r : IsLr bp.ip.r
    pub ip_a : IsScalar reduced bp.ip.a
    pub ip_b : IsScalar reduced bp.ip.b
    pub t_hat : IsScalar reduced bp.t_hat

  pub record IsPlus (bp : PlusProof) : Type 0 where
    pub a : IsPoint bp.a
    pub wip_a : IsPoint bp.wip.a
    pub b : IsPoint bp.wip.b
    pub r_answer : IsScalar reduced bp.wip.r_answer
    pub s_answer : IsScalar reduced bp.wip.s_answer
    pub delta_answer : IsScalar reduced bp.wip.delta_answer
    pub l : IsLr bp.wip.l
    pub r : IsLr bp.wip.r

  -- What `read` returns, and what `read_plus` returns.
  abbrev pub IsValid : Bulletproof → Type 0
  IsValid (original bp) = IsOriginal bp
  IsValid (plus bp) = ⊥

  abbrev pub IsValidPlus : Bulletproof → Type 0
  IsValidPlus (original bp) = ⊥
  IsValidPlus (plus bp) = IsPlus bp

  pub read-Parses : (bp : Bulletproof) → IsValid bp → Parses (read reduced) (write bp) bp
  unfolding read write
  read-Parses (plus bp) v = absurd v
  read-Parses (original bp) v = Parses-bind _ (read_point-Parses bp.a v.a) (
      Parses-bind _ (read_point-Parses bp.s v.s) (
        Parses-bind _ (read_point-Parses bp.t1 v.t1) (
          Parses-bind _ (read_point-Parses bp.t2 v.t2) (
            Parses-bind _ (read_scalar-Parses reduced bp.tau_x v.tau_x) (
              Parses-bind _ (read_scalar-Parses reduced bp.mu v.mu) (
                Parses-bind _ (lr-Parses bp.ip.l v.l) (
                  Parses-bind _ (lr-Parses bp.ip.r v.r) (
                    Parses-bind _ (read_scalar-Parses reduced bp.ip.a v.ip_a) (
                      Parses-bind _ (read_scalar-Parses reduced bp.ip.b v.ip_b)
                        (Parses-map _ (read_scalar-Parses reduced bp.t_hat v.t_hat)))))))))))

  pub read_plus-Parses :
      (bp : Bulletproof) → IsValidPlus bp → Parses (read_plus reduced) (write bp) bp
  unfolding read_plus write
  read_plus-Parses (original bp) v = absurd v
  read_plus-Parses (plus bp) v = Parses-bind _ (read_point-Parses bp.a v.a) (
      Parses-bind _ (read_point-Parses bp.wip.a v.wip_a) (
        Parses-bind _ (read_point-Parses bp.wip.b v.b) (
          Parses-bind _ (read_scalar-Parses reduced bp.wip.r_answer v.r_answer) (
            Parses-bind _ (read_scalar-Parses reduced bp.wip.s_answer v.s_answer) (
              Parses-bind _ (read_scalar-Parses reduced bp.wip.delta_answer v.delta_answer) (
                Parses-bind _ (lr-Parses bp.wip.l v.l) (Parses-map _ (lr-Parses bp.wip.r v.r))))))))

  pub read-IsCanonical : IsCanonical IsValid (read reduced) write
  unfolding read write
  read-IsCanonical = Accepts-bind _ read_point-IsCanonical λ a ha.
      Accepts-bind _ read_point-IsCanonical λ s hs. Accepts-bind _ read_point-IsCanonical λ t1 ht1.
        Accepts-bind _ read_point-IsCanonical λ t2 ht2.
          Accepts-bind _ (read_scalar-IsCanonical reduced) λ tau_x htau.
            Accepts-bind _ (read_scalar-IsCanonical reduced) λ mu hmu.
              Accepts-bind _ IsLr-IsCanonical λ l hl. Accepts-bind _ IsLr-IsCanonical λ r hr.
                Accepts-bind _ (read_scalar-IsCanonical reduced) λ ip_a hia.
                  Accepts-bind _ (read_scalar-IsCanonical reduced) λ ip_b hib.
                    Accepts-bind _ (read_scalar-IsCanonical reduced) λ t_hat hth.
                      Accepts-pure
                        {a = original (record {
                          a = a;
                          s = s;
                          t1 = t1;
                          t2 = t2;
                          tau_x = tau_x;
                          mu = mu;
                          t_hat = t_hat;
                          ip = record { l = l; r = r; a = ip_a; b = ip_b };
                        })}
                        (simp append_assoc)
                        (record {
                          a = ha;
                          s = hs;
                          t1 = ht1;
                          t2 = ht2;
                          tau_x = htau;
                          mu = hmu;
                          l = hl;
                          r = hr;
                          ip_a = hia;
                          ip_b = hib;
                          t_hat = hth;
                        })

  pub read_plus-IsCanonical : IsCanonical IsValidPlus (read_plus reduced) write
  unfolding read_plus write
  read_plus-IsCanonical = Accepts-bind _ read_point-IsCanonical λ a ha.
      Accepts-bind _ read_point-IsCanonical λ wip_a hwa.
        Accepts-bind _ read_point-IsCanonical λ b hb.
          Accepts-bind _ (read_scalar-IsCanonical reduced) λ r_answer hra.
            Accepts-bind _ (read_scalar-IsCanonical reduced) λ s_answer hsa.
              Accepts-bind _ (read_scalar-IsCanonical reduced) λ delta_answer hda.
                Accepts-bind _ IsLr-IsCanonical λ l hl. Accepts-bind _ IsLr-IsCanonical λ r hr.
                  Accepts-pure
                    {a = plus (record {
                      a = a;
                      wip = record {
                        l = l;
                        r = r;
                        a = wip_a;
                        b = b;
                        r_answer = r_answer;
                        s_answer = s_answer;
                        delta_answer = delta_answer;
                      };
                    })}
                    (simp append_assoc)
                    (record {
                      a = ha;
                      wip_a = hwa;
                      b = hb;
                      r_answer = hra;
                      s_answer = hsa;
                      delta_answer = hda;
                      l = hl;
                      r = hr;
                    })
