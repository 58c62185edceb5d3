-- ===== src/Asm/Assembler/Program/Grows.antt =====
-- Over the calls of asm.rs, code and label references grow at their ends, and addresses stay.
use rustevm.Base.{
  ℕ, suc, ◌≤◌, ◌<◌, ◌≡◌, refl, sym, ap, ◌∙◌, inl, inr, some, none, List, [], ◌∷◌, ◌++◌, arith,
  length, length-append, All, All-append, All-map, Bool-cases, Option-cases, >>=-eq-some, ◌==◌,
  ==_iff,
}
use mathlib.Core.List.{append_assoc, append-nil}
use rustevm.Asm.Assembler.{Asm, AsmError, Label, Fixup, get}
use rustevm.Asm.Assembler.Run.{Call, step, run}
use rustevm.Asm.Assembler.Program.{Emits, step-Emits}
use rustevm.Asm.Assembler.Sticky.{run-keeps_error}
use rustevm.Asm.Assembler.Finished.{Admissible}

-- What a later state keeps of an earlier one. New references lie behind the earlier code.
pub record Extends (a z : Asm) : Type 0 where
  pub rest : List ℕ
  pub code : z.code ≡ a.code ++ rest
  pub added : List Fixup
  pub fixups : z.fixups ≡ a.fixups ++ added
  pub behind : All (λ (f : Fixup). length a.code < f.at) added
  pub addresses : (l : Label) (o : ℕ) → get l a.labels ≡ some o → get l z.labels ≡ some o

Extends-refl : (a : Asm) → Extends a a
Extends-refl a = record {
  rest = [];
  code = sym (append-nil a.code);
  added = [];
  fixups = sym (append-nil a.fixups);
  behind = tt;
  addresses = λ l o h. h;
}

Extends-trans : (a b z : Asm) → Extends a b → Extends b z → Extends a z
Extends-trans a b z x y =
    let longer : length a.code ≤ length b.code =
      omega (arith, ap length x.code, length-append a.code x.rest) in
    record {
      rest = x.rest ++ y.rest;
      code = y.code ∙ ap (λ c. c ++ y.rest) x.code ∙ append_assoc a.code x.rest y.rest;
      added = x.added ++ y.added;
      fixups = y.fixups ∙ ap (λ c. c ++ y.added) x.fixups ∙ append_assoc a.fixups x.added y.added;
      behind =
          All-append (λ (f : Fixup). length a.code < f.at) x.added y.added x.behind
            (All-map (λ (f : Fixup). length b.code < f.at) (λ (f : Fixup). length a.code < f.at)
              (λ f lt. omega arith) y.added y.behind);
      addresses = λ l o h. y.addresses l o (x.addresses l o h);
    }

-- The code alone grew.
code-Extends : (a : Asm) (bs : List ℕ) → Extends a (record a { code = a.code ++ bs })
code-Extends a bs = record {
  rest = bs;
  code = refl;
  added = [];
  fixups = sym (append-nil a.fixups);
  behind = tt;
  addresses = λ l o h. h;
}

get-cons :
    (l k : Label) (m : List (Label × ℕ)) (o p : ℕ)
    → get k m ≡ none
    → get l m ≡ some o
    → get l ((k, p) ∷ m) ≡ some o
unfolding get
get-cons l k m o p free h = elim (Bool-cases (k == l)) [
  | inl same ↦ let e = (==_iff k l).0 same in absurd (clash o (sym free ∙ ap (λ n. get n m) e ∙ h))
  | inr other ↦ rw other h
]
  where
    clash : (o : ℕ) → none ≡ some o → ⊥
    clash o e = cc

pub Emits-Extends : (call : Call) (a z : Asm) → Emits call a z → Extends a z
unfolding Emits
Emits-Extends (Call.op m) a z (spec, e, same) = rw same (code-Extends a _)
Emits-Extends (Call.push imm) a z (bs, short, value, same) = rw same (code-Extends a _)
Emits-Extends (Call.dup n) a z (lo, hi, same) = rw same (code-Extends a _)
Emits-Extends (Call.swap n) a z (lo, hi, same) = rw same (code-Extends a _)
Emits-Extends Call.label a z (n, same) = rw same (record {
  rest = [];
  code = sym (append-nil a.code);
  added = [];
  fixups = sym (append-nil a.fixups);
  behind = tt;
  addresses = λ l o h. h;
})
Emits-Extends (Call.bind k) a z (free, same) = rw same (record {
  rest = 0x5b ∷ [];
  code = refl;
  added = [];
  fixups = sym (append-nil a.fixups);
  behind = tt;
  addresses = λ l o h. get-cons l k a.labels o (length a.code) free h;
})
Emits-Extends (Call.push_label l) a z same = rw same (record {
  rest = 0x61 ∷ 0 ∷ 0 ∷ [];
  code = refl;
  added = record { label = l; at = suc (length a.code) } ∷ [];
  fixups = refl;
  behind = (omega arith, tt);
  addresses = λ l o h. h;
})

-- A run that ends without an error was without one before.
run-fine : (calls : List Call) (a z : Asm) → run calls a ≡ some z → z.error ≡ none → a.error ≡ none
run-fine calls a z r fine = elim (Option-cases a.error) [
  | inl ok_before ↦ ok_before
  | inr (e, failed) ↦ absurd (clash e (sym fine ∙ run-keeps_error calls a z e failed r))
]
  where
    clash : (e : AsmError) → none ≡ some e → ⊥
    clash e h = cc

-- The first call of a run that ends without an error, and the run behind it.
pub run-cons :
    (call : Call) (calls : List Call) (a z : Asm)
    → Admissible call
    → run (call ∷ calls) a ≡ some z
    → z.error ≡ none
    → (b : Asm) × (step call a ≡ some b) × Emits call a b × (run calls b ≡ some z) × Extends a b
unfolding run
run-cons call calls a z k r fine =
    let (b, e, rest) = >>=-eq-some (step call a) (run calls) r in
    let emits =
      step-Emits call a b k (unfold run in run-fine (call ∷ calls) a z r fine) e
        (run-fine calls b z rest fine) in
    (b, e, emits, rest, Emits-Extends call a b emits)

pub run-Extends :
    (calls : List Call) (a z : Asm)
    → All Admissible calls
    → run calls a ≡ some z
    → z.error ≡ none
    → Extends a z
unfolding run
run-Extends [] a z k r fine = rw (← same a z r) (Extends-refl a)
  where
    same : (x y : Asm) → some x ≡ some y → x ≡ y
    same x y e = cc
run-Extends (call ∷ calls) a z (k, ks) r fine =
    let (b, _, _, rest, grown) = run-cons call calls a z k (unfold run in r) fine in
    Extends-trans a b z grown (run-Extends calls b z ks rest fine)
