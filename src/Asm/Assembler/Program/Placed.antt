-- ===== src/Asm/Assembler/Program/Placed.antt =====
-- Where an instruction of the code of asm.rs stands among the chunks.
use rustevm.Base.{
  ℕ, ◌+◌, ◌≡◌, refl, sym, ap, ◌∙◌, inl, inr, List, [], ◌∷◌, ◌++◌, arith, length, length-append,
  take, take-length_eq, drop, drop-length_eq, All,
}
use mathlib.Core.List.{append_assoc}
use mathlib.Core.Path.{subst}
use rustevm.Isa.{by_byte}
use rustevm.Asm.Disasm.{wanted}
use rustevm.Asm.Assembler.Chunks.{Chunk, span, flatten, Whole, At}

same_chunk : (c d : Chunk) → c.opcode ≡ d.opcode → c.immediate ≡ d.immediate → c ≡ d
same_chunk c d o m = λ i. record { opcode = o i; immediate = m i }

cons_head : (x y : ℕ) (xs ys : List ℕ) → x ∷ xs ≡ y ∷ ys → x ≡ y
cons_head x y xs ys e = cc

cons_tail : (x y : ℕ) (xs ys : List ℕ) → x ∷ xs ≡ y ∷ ys → xs ≡ ys
cons_tail x y xs ys e = cc

-- The first instruction of the code is the first chunk, and the others follow it.
first_chunk :
    (c d : Chunk) (xs ys : List ℕ)
    → Whole c
    → Whole d
    → c.opcode ∷ (c.immediate ++ xs) ≡ d.opcode ∷ (d.immediate ++ ys)
    → (c ≡ d) × (xs ≡ ys)
first_chunk c d xs ys hc hd e =
    let opcode = cons_head c.opcode d.opcode _ _ e in
    let behind = cons_tail c.opcode d.opcode _ _ e in
    let sized : length c.immediate ≡ length d.immediate =
      hc ∙ ap (λ b. wanted (by_byte b)) opcode ∙ sym hd in
    let n = length d.immediate in
    (
      same_chunk c d opcode (
          sym (take-length_eq n c.immediate xs sized)
          ∙ ap (take n) behind
          ∙ take-length_eq n d.immediate ys refl),
      sym (drop-length_eq n c.immediate xs sized)
          ∙ ap (drop n) behind
          ∙ drop-length_eq n d.immediate ys refl,
    )

-- The code of whole instructions is the code of these chunks, one more, and some rest: then that one
-- stands behind them.
pub At-prefix :
    (cs ds : List Chunk) (c : Chunk) (rest : List ℕ)
    → All Whole cs
    → All Whole ds
    → Whole c
    → flatten cs ≡ flatten ds ++ ((c.opcode ∷ c.immediate) ++ rest)
    → At (λ d. d ≡ c) (length (flatten ds)) cs
unfolding flatten
At-prefix [] [] c rest hs ks h e = cc
At-prefix [] (d ∷ ds) c rest hs ks h e = cc
At-prefix (b ∷ cs) [] c rest (hb, hs) ks h e =
    inl (refl, (first_chunk b c (flatten cs) rest hb h e).0)
At-prefix (b ∷ cs) (d ∷ ds) c rest (hb, hs) (hd, ks) h e =
    let behind = flatten ds ++ ((c.opcode ∷ c.immediate) ++ rest) in
    let (same, more) =
      first_chunk b d (flatten cs) behind hb hd
        (e ∙ ap (λ r. d.opcode ∷ r) (append_assoc d.immediate (flatten ds) _)) in
    inr (
      length (flatten ds),
      omega (
        arith,
        length-append d.immediate (flatten ds),
        ap (λ (x : Chunk). length x.immediate) same,
      ),
      At-prefix cs ds c rest hs ks h more,
    )

-- The chunks from an offset on.
pub record From (o : ℕ) (cs rest : List Chunk) : Type 0 where
  pub front : List Chunk
  pub split : cs ≡ front ++ rest
  pub sized : length (flatten front) ≡ o

pub From-start : (cs : List Chunk) → From 0 cs cs
unfolding flatten
From-start cs = record { front = []; split = refl; sized = refl }

behind_front :
    (P : Chunk → Type 0) (front rest : List Chunk)
    → At P (length (flatten front)) (front ++ rest)
    → At P 0 rest
unfolding flatten
behind_front P [] rest m = m
behind_front P (c ∷ front) rest (inl (e, p)) = absurd (omega arith)
behind_front P (c ∷ front) rest (inr (k, e, m)) =
    let same : k ≡ length (flatten front) =
      omega (arith, length-append c.immediate (flatten front)) in
    behind_front P front rest (subst (λ n. At P n (front ++ rest)) same m)

length-flatten_snoc :
    (front : List Chunk) (c : Chunk)
    → length (flatten (front ++ (c ∷ []))) ≡ length (flatten front) + span c
unfolding flatten
length-flatten_snoc [] c = omega (arith, length-append c.immediate [])
length-flatten_snoc (d ∷ front) c = omega (
  arith,
  length-append d.immediate (flatten (front ++ (c ∷ []))),
  length-append d.immediate (flatten front),
  length-flatten_snoc front c,
)

at_start :
    (P : Chunk → Type 0) (rest : List Chunk)
    → At P 0 rest
    → (c : Chunk) × (tail : List Chunk) × (rest ≡ c ∷ tail) × P c
at_start P [] m = absurd m
at_start P (c ∷ tail) (inl (e, p)) = (c, tail, refl, p)
at_start P (c ∷ tail) (inr (k, e, m)) = absurd (omega arith)

-- The chunk that stands at the offset is the first of those from there on.
pub From-At :
    (P : Chunk → Type 0) (o : ℕ) (cs rest : List Chunk)
    → From o cs rest
    → At P o cs
    → (c : Chunk) × (tail : List Chunk) × (rest ≡ c ∷ tail) × P c × From (o + span c) cs tail
From-At P o cs rest f m =
    let here =
      behind_front P f.front rest
        (subst (λ n. At P n (f.front ++ rest)) (sym f.sized) (subst (λ l. At P o l) f.split m)) in
    let (c, tail, same, p) = at_start P rest here in
    (
      c,
      tail,
      same,
      p,
      record {
        front = f.front ++ (c ∷ []);
        split = f.split ∙ ap (λ r. f.front ++ r) same ∙ sym (append_assoc f.front (c ∷ []) tail);
        sized = length-flatten_snoc f.front c ∙ ap (λ n. n + span c) f.sized;
      },
    )

length-flatten_append :
    (xs ys : List Chunk) → length (flatten (xs ++ ys)) ≡ length (flatten xs) + length (flatten ys)
unfolding flatten
length-flatten_append [] ys = omega arith
length-flatten_append (c ∷ xs) ys = omega (
  arith,
  length-flatten_append xs ys,
  length-append c.immediate (flatten (xs ++ ys)),
  length-append c.immediate (flatten xs),
)

no_code : (rest : List Chunk) → length (flatten rest) ≡ 0 → rest ≡ []
unfolding flatten
no_code [] e = refl
no_code (c ∷ rest) e = absurd (omega arith)

-- Nothing stands behind the end.
pub From-end : (o : ℕ) (cs rest : List Chunk) → From o cs rest → length (flatten cs) ≡ o → rest ≡ []
From-end o cs rest f e = no_code rest (
    omega
      (arith, e, f.sized, length-flatten_append f.front rest, ap (λ l. length (flatten l)) f.split))
