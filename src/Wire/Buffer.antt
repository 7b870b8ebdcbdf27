-- ===== src/Wire/Buffer.antt =====
-- A cast never reads past a buffer that has room for the struct.
use qaoed.Base.{
  ℕ, zero, suc, ◌+◌, ◌≤◌, ◌<◌, ◌≡◌, refl, sym, subst, List, [], ◌∷◌, Outcome, done, ◌>>=◌, arith,
  length, All,
}
use qaoed.Wire.{ByteOrder, AoeHdr, AtaFrame, CfgFrame}
use qaoed.Wire.Layout.{load_bytes, load8, load16, load32, load_eth, load_aoe, load_ata, load_cfg}

-- The numbers in a buffer are bytes.
abbrev pub IsBytes : List ℕ → Type 0
IsBytes buf = All (λ b. b < 256) buf

-- A call gives a result that satisfies Q.
abbrev Gives : {A : Type 0} → (A → Type 0) → Outcome A → Type 0
Gives {A} Q r = (a : A) × (r ≡ done a) × Q a

bind-Gives :
    {A B : Type 0} {P : A → Type 0} {Q : B → Type 0} (m : Outcome A) (f : A → Outcome B)
    → Gives P m
    → ((a : A) → m ≡ done a → P a → Gives Q (f a))
    → Gives Q (m >>= f)
bind-Gives {Q} m f (a, e, p) k = subst (λ r. Gives Q (r >>= f)) (sym e) (k a e p)

-- The rest of a buffer behind n bytes.
record IsRest (n : ℕ) (buf rest : List ℕ) : Type 0 where
  left : length rest + n ≡ length buf
  bytes : IsBytes rest

abbrev Loaded : {A : Type 0} → (A → Type 0) → ℕ → List ℕ → A × List ℕ → Type 0
Loaded P n buf r = P r.0 × IsRest n buf r.1

abbrev Any : {A : Type 0} → A → Type 0
Any a = Unit

load_bytes-Loaded :
    (n : ℕ) (buf : List ℕ)
    → IsBytes buf
    → n ≤ length buf
    → Gives (Loaded Any n buf) (load_bytes n buf)
unfolding load_bytes
load_bytes-Loaded zero buf v h = (([], buf), refl, (tt, record { left = omega arith; bytes = v }))
load_bytes-Loaded (suc n) [] v h = absurd (omega arith)
load_bytes-Loaded (suc n) (b ∷ buf) v h =
    bind-Gives (load_bytes n buf) _ (load_bytes-Loaded n buf v.1 (omega arith))
      (λ a e p. (_, refl, (tt, record { left = omega (arith, p.1.left); bytes = p.1.bytes })))

load8-Loaded :
    (buf : List ℕ) → IsBytes buf → 1 ≤ length buf → Gives (Loaded (λ b. b < 256) 1 buf) (load8 buf)
unfolding load8
load8-Loaded [] v h = absurd (omega arith)
load8-Loaded (b ∷ buf) v h = ((b, buf), refl, (v.0, record { left = omega arith; bytes = v.1 }))

load16-Loaded :
    (o : ByteOrder) (buf : List ℕ)
    → IsBytes buf
    → 2 ≤ length buf
    → Gives (Loaded Any 2 buf) (load16 o buf)
unfolding load16
load16-Loaded o buf v h = bind-Gives (load8 buf) _ (load8-Loaded buf v (omega arith)) (λ a0 e0 p0.
    bind-Gives (load8 a0.1) _ (load8-Loaded a0.1 p0.1.bytes (omega (arith, p0.1.left))) (λ a1 e1 p1.
      (_, refl, (tt, record { left = omega (arith, p0.1.left, p1.1.left); bytes = p1.1.bytes }))))

load32-Loaded :
    (o : ByteOrder) (buf : List ℕ)
    → IsBytes buf
    → 4 ≤ length buf
    → Gives (Loaded Any 4 buf) (load32 o buf)
unfolding load32
load32-Loaded o buf v h =
    bind-Gives (load16 o buf) _ (load16-Loaded o buf v (omega arith)) (λ a0 e0 p0.
      bind-Gives (load16 o a0.1) _ (load16-Loaded o a0.1 p0.1.bytes (omega (arith, p0.1.left)))
        (λ a1 e1 p1. (
          _,
          refl,
          (tt, record { left = omega (arith, p0.1.left, p1.1.left); bytes = p1.1.bytes }),
        )))

load_eth-Loaded :
    (o : ByteOrder) (buf : List ℕ)
    → IsBytes buf
    → 14 ≤ length buf
    → Gives (Loaded Any 14 buf) (load_eth o buf)
unfolding load_eth
load_eth-Loaded o buf v h =
    bind-Gives (load_bytes 6 buf) _ (load_bytes-Loaded 6 buf v (omega arith)) (λ a0 e0 p0.
      bind-Gives (load_bytes 6 a0.1) _
        (load_bytes-Loaded 6 a0.1 p0.1.bytes (omega (arith, p0.1.left)))
        (λ a1 e1 p1.
          bind-Gives (load16 o a1.1) _
            (load16-Loaded o a1.1 p1.1.bytes (omega (arith, p0.1.left, p1.1.left)))
            (λ a2 e2 p2. (
              _,
              refl,
              (
                tt,
                record {
                  left = omega (arith, p0.1.left, p1.1.left, p2.1.left);
                  bytes = p2.1.bytes;
                },
              ),
            ))))

load_aoe-Loaded :
    (o : ByteOrder) (buf : List ℕ)
    → IsBytes buf
    → 24 ≤ length buf
    → Gives (Loaded (λ h. h.ver_flags < 256) 24 buf) (load_aoe o buf)
unfolding load_aoe
load_aoe-Loaded o buf v h =
    bind-Gives (load_eth o buf) _ (load_eth-Loaded o buf v (omega arith)) (λ a0 e0 p0.
      bind-Gives (load8 a0.1) _ (load8-Loaded a0.1 p0.1.bytes (omega (arith, p0.1.left)))
        (λ a1 e1 p1.
          bind-Gives (load8 a1.1) _
            (load8-Loaded a1.1 p1.1.bytes (omega (arith, p0.1.left, p1.1.left)))
            (λ a2 e2 p2.
              bind-Gives (load16 o a2.1) _
                (load16-Loaded o a2.1 p2.1.bytes (omega (arith, p0.1.left, p1.1.left, p2.1.left)))
                (λ a3 e3 p3.
                  bind-Gives (load8 a3.1) _
                    (load8-Loaded a3.1 p3.1.bytes
                      (omega (arith, p0.1.left, p1.1.left, p2.1.left, p3.1.left)))
                    (λ a4 e4 p4.
                      bind-Gives (load8 a4.1) _
                        (load8-Loaded a4.1 p4.1.bytes
                          (omega (arith, p0.1.left, p1.1.left, p2.1.left, p3.1.left, p4.1.left)))
                        (λ a5 e5 p5.
                          bind-Gives (load32 o a5.1) _
                            (load32-Loaded o a5.1 p5.1.bytes (
                              omega (
                                arith, p0.1.left, p1.1.left, p2.1.left, p3.1.left, p4.1.left,
                                p5.1.left,
                              )))
                            (λ a6 e6 p6. (
                              _,
                              refl,
                              (
                                p1.0,
                                record {
                                  left = omega (
                                    arith, p0.1.left, p1.1.left, p2.1.left, p3.1.left, p4.1.left,
                                    p5.1.left, p6.1.left,
                                  );
                                  bytes = p6.1.bytes;
                                },
                              ),
                            ))))))))

-- The header that a cast reads from the buffer.
pub record HasHeader (o : ByteOrder) (buf : List ℕ) (h : AoeHdr) : Type 0 where
  pub rest : List ℕ
  pub reads : load_aoe o buf ≡ done (h, rest)
  pub byte : h.ver_flags < 256

-- A buffer of 36 bytes or more reads as an ATA frame.
pub load_ata-enough :
    (o : ByteOrder) (buf : List ℕ)
    → IsBytes buf
    → 36 ≤ length buf
    → (f : AtaFrame) × (load_ata o buf ≡ done f) × HasHeader o buf f.aoehdr
unfolding load_ata
load_ata-enough o buf v h =
    bind-Gives (load_aoe o buf) _ (load_aoe-Loaded o buf v (omega arith)) (λ a0 e0 p0.
      bind-Gives (load8 a0.1) _ (load8-Loaded a0.1 p0.1.bytes (omega (arith, p0.1.left)))
        (λ a1 e1 p1.
          bind-Gives (load8 a1.1) _
            (load8-Loaded a1.1 p1.1.bytes (omega (arith, p0.1.left, p1.1.left)))
            (λ a2 e2 p2.
              bind-Gives (load8 a2.1) _
                (load8-Loaded a2.1 p2.1.bytes (omega (arith, p0.1.left, p1.1.left, p2.1.left)))
                (λ a3 e3 p3.
                  bind-Gives (load8 a3.1) _
                    (load8-Loaded a3.1 p3.1.bytes
                      (omega (arith, p0.1.left, p1.1.left, p2.1.left, p3.1.left)))
                    (λ a4 e4 p4.
                      bind-Gives (load_bytes 6 a4.1) _
                        (load_bytes-Loaded 6 a4.1 p4.1.bytes
                          (omega (arith, p0.1.left, p1.1.left, p2.1.left, p3.1.left, p4.1.left)))
                        (λ a5 e5 p5.
                          bind-Gives (load_bytes 2 a5.1) _
                            (load_bytes-Loaded 2 a5.1 p5.1.bytes (
                              omega (
                                arith, p0.1.left, p1.1.left, p2.1.left, p3.1.left, p4.1.left,
                                p5.1.left,
                              )))
                            (λ a6 e6 p6.
                              (_, refl, record { rest = a0.1; reads = e0; byte = p0.0 }))))))))

-- A buffer of 32 bytes or more reads as a CFG frame, and the string is all that is left.
pub load_cfg-enough :
    (o : ByteOrder) (buf : List ℕ)
    → IsBytes buf
    → 32 ≤ length buf
    → (f : CfgFrame) × (load_cfg o buf ≡ done f)
      × (HasHeader o buf f.aoehdr × (length f.cfg + 32 ≡ length buf))
unfolding load_cfg
load_cfg-enough o buf v h =
    bind-Gives (load_aoe o buf) _ (load_aoe-Loaded o buf v (omega arith)) (λ a0 e0 p0.
      bind-Gives (load16 o a0.1) _ (load16-Loaded o a0.1 p0.1.bytes (omega (arith, p0.1.left)))
        (λ a1 e1 p1.
          bind-Gives (load16 o a1.1) _
            (load16-Loaded o a1.1 p1.1.bytes (omega (arith, p0.1.left, p1.1.left)))
            (λ a2 e2 p2.
              bind-Gives (load8 a2.1) _
                (load8-Loaded a2.1 p2.1.bytes (omega (arith, p0.1.left, p1.1.left, p2.1.left)))
                (λ a3 e3 p3.
                  bind-Gives (load8 a3.1) _
                    (load8-Loaded a3.1 p3.1.bytes
                      (omega (arith, p0.1.left, p1.1.left, p2.1.left, p3.1.left)))
                    (λ a4 e4 p4.
                      bind-Gives (load16 o a4.1) _
                        (load16-Loaded o a4.1 p4.1.bytes
                          (omega (arith, p0.1.left, p1.1.left, p2.1.left, p3.1.left, p4.1.left)))
                        (λ a5 e5 p5. (
                          _,
                          refl,
                          (
                            record { rest = a0.1; reads = e0; byte = p0.0 },
                            omega (
                              arith, p0.1.left, p1.1.left, p2.1.left, p3.1.left, p4.1.left,
                              p5.1.left,
                            ),
                          ),
                        )))))))
