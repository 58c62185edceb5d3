-- ===== src/Testkit/Link/Converges.antt =====
-- The loop of `deployer` of src/tooling/evm-testkit/src/link.rs ends.
use rustevm.Base.{
  ℕ, zero, suc, ◌-◌, ◌^◌, ◌≤◌, ◌<◌, ◌≡◌, ◌≢◌, refl, sym, ap, ◌∙◌, inl, inr, false, some, List, ◌++◌,
  ◌==◌, ==_iff, length, ok, Bool-cases, arith,
}
use mathlib.Core.Path.{subst}
use rustevm.Base.Bytes.{be_value, pow_256}
use rustevm.Isa.{Fork}
use rustevm.Asm.Immediate.{width, from_int}
use rustevm.Asm.Immediate.Width.{width_bounds, from_int-IsWord, be_value-from_int}
use rustevm.Testkit.Link.{assemble_prologue, deployer_from, deployer}
use rustevm.Testkit.Link.Prologue.{
  push_size, push_size_bounds, prologue_size, assemble_prologue-size,
}

power_positive : (k : ℕ) → 1 ≤ 256 ^ k
power_positive zero = omega arith
power_positive (suc k) = omega (arith, pow_256 k, power_positive k)

-- A number of one byte, not zero, has a width of one.
one_byte : (w v : ℕ) → 0 < v → v < 256 → v < 256 ^ w → (w ≢ 0 → 256 ^ (w - 1) ≤ v) → w ≡ 1
one_byte zero v positive small below above = absurd (omega arith)
one_byte (suc zero) v positive small below above = refl
one_byte (suc (suc k)) v positive small below above =
    let high : 256 ^ (suc (suc k) - 1) ≤ v = above (λ e. absurd (omega arith)) in
    let much : 256 ^ suc k ≤ v = subst (λ n. 256 ^ n ≤ v) (omega arith) high in
    absurd (omega (arith, pow_256 k, power_positive k))

narrow_width : (o : ℕ) → 0 < o → o < 256 → width (from_int 8 o) ≡ 1
narrow_width o positive small =
    let value : be_value (from_int 8 o) ≡ o = be_value-from_int 8 o (omega arith) in
    let (_, below, above) = width_bounds (from_int 8 o) (from_int-IsWord 8 o (omega arith)) in
    one_byte (width (from_int 8 o)) o positive small (rw value at below) (rw value at above)

size_bounds :
    (fork : Fork) (len offset : ℕ)
    → (0 < prologue_size fork len offset) × (prologue_size fork len offset < 256)
unfolding prologue_size
size_bounds fork len offset =
    let (_, b1) = push_size_bounds fork (width (from_int 8 len)) in
    let (_, b2) = push_size_bounds fork (width (from_int 8 offset)) in
    let (_, b3) = push_size_bounds fork 0 in
    let (w1, _, _) = width_bounds (from_int 8 len) (from_int-IsWord 8 len (omega arith)) in
    let (w2, _, _) = width_bounds (from_int 8 offset) (from_int-IsWord 8 offset (omega arith)) in
    (omega arith, omega arith)

-- Two offsets of one byte make prologues of one length.
same_size :
    (fork : Fork) (len o o' : ℕ)
    → (0 < o) × (o < 256)
    → (0 < o') × (o' < 256)
    → prologue_size fork len o ≡ prologue_size fork len o'
unfolding prologue_size
same_size fork len o o' (lo, hi) (lo', hi') =
    omega (arith, ap (push_size fork) (narrow_width o lo hi ∙ sym (narrow_width o' lo' hi')))

module _ (fuel : ℕ) (runtime : List ℕ) (fork : Fork) (offset : ℕ) (code : List ℕ)
    (assembled : assemble_prologue (length runtime) offset fork ≡ some (ok code)) where
  round_ends :
      length code ≡ offset
      → deployer_from (suc fuel) runtime fork offset ≡ some (ok (code ++ runtime))
  unfolding deployer_from
  round_ends done = rw assembled (ground arith)

  round_again :
      (length code == offset) ≡ false
      → deployer_from (suc fuel) runtime fork offset ≡ deployer_from fuel runtime fork (length code)
  unfolding deployer_from
  round_again more = rw assembled (ground arith)

-- For every runtime code and every fork, three rounds of the loop are enough: it returns a prologue
-- followed by the runtime code, and that prologue is what assembles with the runtime's length and
-- the prologue's own length, which is where the runtime code starts.
pub deployer-assemble_prologue :
    (fuel : ℕ) (runtime : List ℕ) (fork : Fork)
    → (prologue : List ℕ) × (deployer (suc (suc (suc fuel))) runtime fork
        ≡ some (ok (prologue ++ runtime)))
      × (assemble_prologue (length runtime) (length prologue) fork ≡ some (ok prologue))
unfolding deployer
deployer-assemble_prologue fuel runtime fork =
    let len = length runtime in
    let (c0, e0, s0) = assemble_prologue-size len 0 fork in
    let (c1, e1, s1) = assemble_prologue-size len (length c0) fork in
    let (c2, e2, s2) = assemble_prologue-size len (length c1) fork in
    let in0 : (0 < length c0) × (length c0 < 256) = rw s0 (size_bounds fork len 0) in
    let first : (length c0 == 0) ≡ false = ground arith in
    let in1 : (0 < length c1) × (length c1 < 256) = rw s1 (size_bounds fork len (length c0)) in
    let settled : length c2 ≡ length c1 =
      s2 ∙ same_size fork len (length c1) (length c0) in1 in0 ∙ sym s1 in
    elim (Bool-cases (length c1 == length c0)) [
      | inl done ↦
          let fixed : length c1 ≡ length c0 = (==_iff (length c1) (length c0)).0 done in
          (
            c1,
            round_again (suc (suc fuel)) runtime fork 0 c0 e0 first
                ∙ round_ends (suc fuel) runtime fork (length c0) c1 e1 fixed,
            subst (λ o. assemble_prologue len o fork ≡ some (ok c1)) (sym fixed) e1,
          )
      | inr more ↦ (
        c2,
        round_again (suc (suc fuel)) runtime fork 0 c0 e0 first
            ∙ round_again (suc fuel) runtime fork (length c0) c1 e1 more
            ∙ round_ends fuel runtime fork (length c1) c2 e2 settled,
        subst (λ o. assemble_prologue len o fork ≡ some (ok c2)) (sym settled) e2,
      )
    ]
