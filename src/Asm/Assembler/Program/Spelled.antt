-- ===== src/Asm/Assembler/Program/Spelled.antt =====
-- The calls of asm.rs and the listing of the bytecode that `finish` returns.
use rustevm.Base.{
  Pairs, ℕ, ◌≤◌, ◌≡◌, refl, sym, ap, ◌∙◌, inl, inr, some, none, List, [], ◌∷◌, length, All, Any,
  Option, Result, Option-cases, ok, err,
}
use mathlib.Core.Path.{subst}
use rustevm.Isa.{Fork}
use rustevm.Asm.Disasm.{disassemble}
use rustevm.Asm.Assembler.{Asm, AsmError, Fixup, new, max_label_offset, finish}
use rustevm.Asm.Assembler.NextLabel.{step-Room}
use rustevm.Asm.Assembler.Run.{Call, run}
use rustevm.Asm.Assembler.Chunks.{Chunk, flatten, listing_of, disassemble-flatten}
use rustevm.Asm.Assembler.Built.{Built, IsBuilt, new-IsBuilt}
use rustevm.Asm.Assembler.Finish.{Patched}
use rustevm.Asm.Assembler.Finished.{Admissible, step-Keeps, finish-failed}
use rustevm.Asm.Assembler.Legal.{finished-Done, Done-small}
use rustevm.Asm.Assembler.Program.{Emits}
use rustevm.Asm.Assembler.Program.Grows.{Extends, run-cons, run-Extends}
use rustevm.Asm.Assembler.Program.Placed.{From, From-start, From-end}
use rustevm.Asm.Assembler.Program.Asks.{AsksFor, emitting}
use rustevm.Asm.Assembler.Program.OneCall.{Spelt, spelt}

-- The end of a program: `z` is its last state, `cs` its chunks, and `done` those of the bytecode.
module _ (z : Asm) (cs done : List Chunk) (built : Built z cs)
    (p : Patched z.labels z.fixups cs done)
    (small : (f : Fixup) → Any (λ g. g ≡ f) z.fixups → length z.code ≤ max_label_offset) where
  -- One instruction, then those of the calls that follow.
  Spelt-cons :
      (call : Call) (calls : List Call) (a b : Asm) (rest : List Chunk)
      → Spelt z cs done built p small call a b rest
      → ((tail : List Chunk)
          → From (length b.code) done tail
          → Pairs (AsksFor z.labels) calls (listing_of (length b.code) tail))
      → Pairs (AsksFor z.labels) (call ∷ calls) (listing_of (length a.code) rest)
  unfolding listing_of
  Spelt-cons call calls a b rest (c, tail, split, asks, behind, grown) later =
      subst (λ r. Pairs (AsksFor z.labels) (call ∷ calls) (listing_of (length a.code) r))
        (sym split)
        (
          asks,
          subst (λ n. Pairs (AsksFor z.labels) calls (listing_of n tail)) (sym grown)
              (later tail behind),
        )

  same_code : (a b : Asm) → Emits Call.label a b → a.code ≡ b.code
  unfolding Emits
  same_code a b (n, same) = sym (ap (λ (s : Asm). s.code) same)

  -- The instructions of the calls from `call` on, given those of the calls behind it.
  spelled_call :
      (call : Call) (calls : List Call) (a b : Asm) (ds rest : List Chunk)
      → Emits call a b
      → Built a ds
      → Extends b z
      → From (length a.code) done rest
      → ((tail : List Chunk)
          → From (length b.code) done tail
          → Pairs (AsksFor z.labels) (emitting calls) (listing_of (length b.code) tail))
      → Pairs (AsksFor z.labels) (emitting (call ∷ calls)) (listing_of (length a.code) rest)
  spelled_call Call.label calls a b ds rest e before after from later =
      subst (λ code. Pairs (AsksFor z.labels) (emitting calls) (listing_of (length code) rest))
        (sym (same_code a b e))
        (later rest
          (subst (λ (code : List ℕ). From (length code) done rest) (same_code a b e) from))
  spelled_call (Call.op m) calls a b ds rest e before after from later =
      Spelt-cons (Call.op m) (emitting calls) a b rest
        (spelt z cs done built p small a b ds before after rest from (Call.op m) (λ h. cc) e) later
  spelled_call (Call.push imm) calls a b ds rest e before after from later =
      Spelt-cons (Call.push imm) (emitting calls) a b rest
        (spelt z cs done built p small a b ds before after rest from (Call.push imm) (λ h. cc) e)
        later
  spelled_call (Call.dup n) calls a b ds rest e before after from later =
      Spelt-cons (Call.dup n) (emitting calls) a b rest
        (spelt z cs done built p small a b ds before after rest from (Call.dup n) (λ h. cc) e) later
  spelled_call (Call.swap n) calls a b ds rest e before after from later =
      Spelt-cons (Call.swap n) (emitting calls) a b rest
        (spelt z cs done built p small a b ds before after rest from (Call.swap n) (λ h. cc) e)
        later
  spelled_call (Call.bind l) calls a b ds rest e before after from later =
      Spelt-cons (Call.bind l) (emitting calls) a b rest
        (spelt z cs done built p small a b ds before after rest from (Call.bind l) (λ h. cc) e)
        later
  spelled_call (Call.push_label l) calls a b ds rest e before after from later =
      Spelt-cons (Call.push_label l) (emitting calls) a b rest
        (spelt z cs done built p small a b ds before after rest from (Call.push_label l) (λ h. cc)
          e)
        later

  spelled-From :
      (calls : List Call) (a : Asm) (rest : List Chunk)
      → All Admissible calls
      → run calls a ≡ some z
      → z.error ≡ none
      → IsBuilt a
      → From (length a.code) done rest
      → Pairs (AsksFor z.labels) (emitting calls) (listing_of (length a.code) rest)
  spelled-From [] a rest k r fine b from =
      let last : length done_code ≡ length a.code =
        p.sized ∙ ap length (sym built.spelled) ∙ ended in
      subst (λ l. Pairs (AsksFor z.labels) [] (listing_of (length a.code) l))
        (sym (From-end (length a.code) done rest from last)) (unfold listing_of in tt)
    where
      done_code : List ℕ
      done_code = flatten done

      ended : length z.code ≡ length a.code
      ended = unfold run in cc
  spelled-From (call ∷ calls) a rest (k, ks) r fine (ds, before) from =
      let (b, stepped, emits, more, grown) = run-cons call calls a z k r fine in
      let (b', stepped', after) = step-Keeps call a k (step-Room call a b stepped) (ds, before) in
      let next : IsBuilt b = subst IsBuilt (same b' b (sym stepped' ∙ stepped)) after in
      spelled_call call calls a b ds rest emits before (run-Extends calls b z ks more fine) from
        (λ tail behind. spelled-From calls b tail ks more fine next behind)
    where
      same : (x y : Asm) → some x ≡ some y → x ≡ y
      same x y e = cc

-- Bytecode comes from a state without an error.
finish-fine : (a : Asm) (code : List ℕ) → finish a ≡ some (ok code) → a.error ≡ none
finish-fine a code f = elim (Option-cases a.error) [
  | inl fine ↦ fine
  | inr (e, failed) ↦ absurd (clash e code (sym (finish-failed a e failed) ∙ f))
]
  where
    clash :
        (e : AsmError) (code : List ℕ)
        → ◌≡◌ {A = Option (Result AsmError (List ℕ))} (some (err e)) (some (ok code))
        → ⊥
    clash e code h = cc

listed :
    (fs : List Fixup) (f : Fixup)
    → Any (λ g. g ≡ f) fs
    → (g : Fixup) × (gs : List Fixup) × (fs ≡ g ∷ gs)
listed [] f m = absurd m
listed (g ∷ gs) f m = (g, gs, refl)

-- After any calls, with words of 32 bytes for immediates, that `finish` turns into bytecode, the
-- disassembler reads the program back: its instructions are those of the calls that emit one, in
-- order and nothing else, each with the opcode and the operand that the call asks for. A bound label
-- is a JUMPDEST at the label's address, and a label reference a PUSH2 of that address.
pub finish-AsksFor :
    (fork : Fork) (calls : List Call) (a : Asm) (code : List ℕ)
    → All Admissible calls
    → run calls (new fork) ≡ some a
    → finish a ≡ some (ok code)
    → Pairs (AsksFor a.labels) (emitting calls) (disassemble code)
finish-AsksFor fork calls a code k r f =
    let d = finished-Done fork calls a code k r f in
    let small : (f : Fixup) → Any (λ g. g ≡ f) a.fixups → length a.code ≤ max_label_offset =
      λ g m. let (h, hs, e) = listed a.fixups g m in Done-small fork a code d h hs e in
    subst (λ c. Pairs (AsksFor a.labels) (emitting calls) (disassemble c)) d.spelled
      (subst (Pairs (AsksFor a.labels) (emitting calls))
        (sym (disassemble-flatten d.patched d.patches.whole))
        (unfold new in
          spelled-From a d.chunks d.patched d.built d.patches small calls (new fork) d.patched k r
            (finish-fine a code f) (new-IsBuilt fork) (From-start d.patched)))
