-- ===== src/Asm/Assembler/Replace.antt =====
-- Overwriting one immediate of the code, as `finish` of asm.rs does for a label reference.
use rustevm.Base.{
  ℕ, suc, ◌+◌, ◌≡◌, refl, sym, ap, ◌∙◌, ◌≢◌, inl, inr, List, [], ◌∷◌, ◌++◌, arith, length,
  length-append, set, All,
}
use rustevm.Isa.{Fork}
use rustevm.Asm.Assembler.{copy_at}
use rustevm.Asm.Assembler.Chunks.{Chunk, flatten, Whole, At}
use rustevm.Asm.Assembler.Built.{Allowed}

copy_at-cons :
    (x : ℕ) (xs : List ℕ) (n : ℕ) (bs : List ℕ) → copy_at (x ∷ xs) (suc n) bs ≡ x ∷ copy_at xs n bs
unfolding copy_at
copy_at-cons x xs n [] = refl
copy_at-cons x xs n (b ∷ bs) =
    let e : suc n + 1 ≡ suc (n + 1) = omega arith in rw e (copy_at-cons x (set xs n b) (n + 1) bs)

copy_at-append :
    (xs ys : List ℕ) (n : ℕ) (bs : List ℕ)
    → copy_at (xs ++ ys) (length xs + n) bs ≡ xs ++ copy_at ys n bs
copy_at-append [] ys n bs = let e : 0 + n ≡ n = omega arith in rw e
copy_at-append (x ∷ xs) ys n bs =
    let e : suc (length xs) + n ≡ suc (length xs + n) = omega arith in
    rw e
      (copy_at-cons x (xs ++ ys) (length xs + n) bs ∙ ap (λ r. x ∷ r) (copy_at-append xs ys n bs))

copy_at-start :
    (old rest bs : List ℕ) → length old ≡ length bs → copy_at (old ++ rest) 0 bs ≡ bs ++ rest
unfolding copy_at
copy_at-start [] rest [] e = refl
copy_at-start [] rest (b ∷ bs) e = absurd (omega arith)
copy_at-start (x ∷ old) rest [] e = absurd (omega arith)
copy_at-start (x ∷ old) rest (b ∷ bs) e =
    copy_at-cons b (old ++ rest) 0 bs ∙ ap (λ r. b ∷ r) (copy_at-start old rest bs (omega arith))

-- The chunks with the immediate at the place exchanged.
pub replace : (P : Chunk → Type 0) (o : ℕ) (cs : List Chunk) → At P o cs → List ℕ → List Chunk
replace P o [] m bs = absurd m
replace P o (c ∷ cs) (inl m) bs = record c { immediate = bs } ∷ cs
replace P o (c ∷ cs) (inr (k, e, m)) bs = c ∷ replace P k cs m bs

module _ (P : Chunk → Type 0) (bs : List ℕ)
    (sized : (c : Chunk) → Whole c → P c → length c.immediate ≡ length bs) where
  pub flatten-replace :
      (o : ℕ) (cs : List Chunk) (m : At P o cs)
      → All Whole cs
      → copy_at (flatten cs) (suc o) bs ≡ flatten (replace P o cs m bs)
  unfolding flatten replace
  flatten-replace o [] m h = absurd m
  flatten-replace o (c ∷ cs) (inl (e, p)) (h, hs) = rw e (
      copy_at-cons c.opcode (c.immediate ++ flatten cs) 0 bs
      ∙ ap (λ r. c.opcode ∷ r) (copy_at-start c.immediate (flatten cs) bs (sized c h p)))
  flatten-replace o (c ∷ cs) (inr (k, e, m)) (h, hs) =
      let place : suc o ≡ suc (length c.immediate + suc k) = omega arith in
      rw place (
        copy_at-cons c.opcode (c.immediate ++ flatten cs) (length c.immediate + suc k) bs
        ∙ ap (λ r. c.opcode ∷ r)
            (copy_at-append c.immediate (flatten cs) (suc k) bs
              ∙ ap (λ r. c.immediate ++ r) (flatten-replace k cs m hs)))

  pub replace-Whole :
      (o : ℕ) (cs : List Chunk) (m : At P o cs) → All Whole cs → All Whole (replace P o cs m bs)
  unfolding replace
  replace-Whole o [] m h = absurd m
  replace-Whole o (c ∷ cs) (inl (e, p)) (h, hs) = (sym (sized c h p) ∙ h, hs)
  replace-Whole o (c ∷ cs) (inr (k, e, m)) (h, hs) = (h, replace-Whole k cs m hs)

  pub replace-Allowed :
      (fork : Fork) (o : ℕ) (cs : List Chunk) (m : At P o cs)
      → All (Allowed fork) cs
      → All (Allowed fork) (replace P o cs m bs)
  unfolding replace
  replace-Allowed fork o [] m h = absurd m
  replace-Allowed fork o (c ∷ cs) (inl (e, p)) (h, hs) = (h, hs)
  replace-Allowed fork o (c ∷ cs) (inr (k, e, m)) (h, hs) = (h, replace-Allowed fork k cs m hs)

  -- At another place nothing changes.
  pub length-replace :
      (o : ℕ) (cs : List Chunk) (m : At P o cs)
      → All Whole cs
      → length (flatten (replace P o cs m bs)) ≡ length (flatten cs)
  unfolding flatten replace
  length-replace o [] m h = absurd m
  length-replace o (c ∷ cs) (inl (e, p)) (h, hs) =
      omega
        (arith, sized c h p, length-append bs (flatten cs), length-append c.immediate (flatten cs))
  length-replace o (c ∷ cs) (inr (k, e, m)) (h, hs) = omega (
    arith,
    length-replace k cs m hs,
    length-append c.immediate (flatten (replace P k cs m bs)),
    length-append c.immediate (flatten cs),
  )

  pub replace-ne :
      (Q : Chunk → Type 0) (o o' : ℕ) (cs : List Chunk) (m : At P o cs)
      → All Whole cs
      → o ≢ o'
      → At Q o' cs
      → At Q o' (replace P o cs m bs)
  unfolding replace
  replace-ne Q o o' [] m h ne q = absurd m
  replace-ne Q o o' (c ∷ cs) (inl (e, p)) h ne (inl (e', q)) = absurd (ne (e ∙ sym e'))
  replace-ne Q o o' (c ∷ cs) (inl (e, p)) (h, hs) ne (inr (k', e', q)) =
      inr (k', e' ∙ ap (λ n. suc n + k') (sized c h p), q)
  replace-ne Q o o' (c ∷ cs) (inr (k, e, m)) h ne (inl q) = inl q
  replace-ne Q o o' (c ∷ cs) (inr (k, e, m)) (h, hs) ne (inr (k', e', q)) =
      inr (k', e', replace-ne Q k k' cs m hs (λ s. ne (omega arith)) q)

  -- Opcodes stay where they are.
  pub replace-opcode :
      (b o o' : ℕ) (cs : List Chunk) (m : At P o cs)
      → All Whole cs
      → At (λ (c : Chunk). c.opcode ≡ b) o' cs
      → At (λ (c : Chunk). c.opcode ≡ b) o' (replace P o cs m bs)
  unfolding replace
  replace-opcode b o o' [] m h q = absurd m
  replace-opcode b o o' (c ∷ cs) (inl (e, p)) h (inl q) = inl q
  replace-opcode b o o' (c ∷ cs) (inl (e, p)) (h, hs) (inr (k', e', q)) =
      inr (k', e' ∙ ap (λ n. suc n + k') (sized c h p), q)
  replace-opcode b o o' (c ∷ cs) (inr (k, e, m)) h (inl q) = inl q
  replace-opcode b o o' (c ∷ cs) (inr (k, e, m)) (h, hs) (inr (k', e', q)) =
      inr (k', e', replace-opcode b k k' cs m hs q)

  -- The place holds what was written.
  pub replace_self :
      (o : ℕ) (cs : List Chunk) (m : At P o cs)
      → ((c : Chunk) → P c → P (record c { immediate = bs }))
      → At (λ (c : Chunk). P c × (c.immediate ≡ bs)) o (replace P o cs m bs)
  unfolding replace
  replace_self o [] m keep = absurd m
  replace_self o (c ∷ cs) (inl (e, p)) keep = inl (e, (keep c p, refl))
  replace_self o (c ∷ cs) (inr (k, e, m)) keep = inr (k, e, replace_self k cs m keep)
