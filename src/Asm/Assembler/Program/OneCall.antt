-- ===== src/Asm/Assembler/Program/OneCall.antt =====
-- The instruction of one call of asm.rs in the bytecode that `finish` returns.
use rustevm.Base.{
  ℕ, suc, ◌+◌, ◌%◌, ◌^◌, ◌≤◌, ◌<◌, ◌≡◌, ◌≢◌, refl, sym, ap, ◌∙◌, inl, inr, true, some, List, [],
  ◌∷◌, ◌++◌, arith, length, length-append, All, All-append, All-map, All-Any, Any, ◌==◌, ==_iff,
}
use mathlib.Core.List.{append_assoc}
use mathlib.Core.Path.{subst}
use rustevm.Base.Bytes.{be_value, be_value-to_be_bytes, length-to_be_bytes}
use rustevm.Isa.{by_byte, by_byte_sound}
use rustevm.Isa.Lookup.Distinct.{lookup-row}
use rustevm.Isa.Lookup.Family.{family_row, op_form-push}
use rustevm.Asm.Assembler.Calls.{wanted-simple, wanted-push, wanted-family}
use rustevm.Asm.Assembler.Calls.Labels.{jumpdest-Allowed}
use rustevm.Asm.Disasm.{wanted}
use rustevm.Asm.Assembler.{Asm, Label, Labels, Fixup, get, max_label_offset}
use rustevm.Asm.Assembler.Run.{Call}
use rustevm.Asm.Assembler.Chunks.{Chunk, span, flatten, Whole, At, At-lt, instruction_at}
use rustevm.Asm.Assembler.Built.{IsJumpdest, IsPush2, Referenced, Built}
use rustevm.Asm.Assembler.Finish.{Pushes, Resolved, Patched}
use rustevm.Asm.Assembler.Legal.{get-Bound}
use rustevm.Asm.Assembler.Program.{Emits}
use rustevm.Asm.Assembler.Program.Grows.{Extends}
use rustevm.Asm.Assembler.Program.Placed.{At-prefix, From, From-At}
use rustevm.Asm.Assembler.Program.Asks.{AsksFor}

get-own : (l : Label) (o : ℕ) (m : Labels) → get l ((l, o) ∷ m) ≡ some o
unfolding get
get-own l o m = let same : (l == l) ≡ true = (==_iff l l).1 refl in rw same refl

-- The end of a program: `z` is its last state, `cs` its chunks, and `done` those of the bytecode.
module _ (z : Asm) (cs done : List Chunk) (built : Built z cs)
    (p : Patched z.labels z.fixups cs done)
    (small : (f : Fixup) → Any (λ g. g ≡ f) z.fixups → length z.code ≤ max_label_offset) where
  -- The instruction of a call, which takes the code from `a` to `b`.
  abbrev pub Spelt : Call → Asm → Asm → List Chunk → Type 0
  Spelt call a b rest =
      (c : Chunk) × (tail : List Chunk) × (rest ≡ c ∷ tail)
      × AsksFor z.labels call (instruction_at (length a.code) c)
      × From (length b.code) done tail
      × (length a.code + span c ≡ length b.code)

  module _ (a b : Asm) (ds : List Chunk) (before : Built a ds) (after : Extends b z)
      (rest : List Chunk) (from : From (length a.code) done rest) where
    -- No label reference is at an instruction that grew the code alone.
    unreferenced :
        (length a.code < length b.code)
        → b.fixups ≡ a.fixups
        → All (λ (f : Fixup). f.at ≢ suc (length a.code)) z.fixups
    unreferenced longer same =
        subst (All (λ (f : Fixup). f.at ≢ suc (length a.code)))
          (sym (after.fixups ∙ ap (λ fs. fs ++ after.added) same))
          (All-append (λ (f : Fixup). f.at ≢ suc (length a.code)) a.fixups after.added
            (All-map (Referenced ds) (λ (f : Fixup). f.at ≢ suc (length a.code))
              (λ f r e.
                let inside = At-lt IsPush2 r.0 ds r.2 in
                let place = r.1 in absurd (omega (arith, ap length before.spelled)))
              a.fixups before.referenced)
            (All-map (λ (f : Fixup). length b.code < f.at)
              (λ (f : Fixup). f.at ≢ suc (length a.code)) (λ f lt e. absurd (omega arith))
              after.added after.behind))

    -- A chunk that the call appended, and nothing else.
    reads_alone :
        (call : Call) (c : Chunk)
        → Whole c
        → b.code ≡ a.code ++ (c.opcode ∷ c.immediate)
        → b.fixups ≡ a.fixups
        → AsksFor z.labels call (instruction_at (length a.code) c)
        → Spelt call a b rest
    reads_alone call c whole code fixups asks =
        let grown : length a.code + span c ≡ length b.code =
          omega (arith, ap length code, length-append a.code (c.opcode ∷ c.immediate)) in
        let spelled : flatten cs ≡ flatten ds ++ ((c.opcode ∷ c.immediate) ++ after.rest) =
          sym built.spelled
          ∙ after.code
          ∙ ap (λ r. r ++ after.rest)
              (code ∙ ap (λ r. r ++ (c.opcode ∷ c.immediate)) before.spelled)
          ∙ append_assoc (flatten ds) (c.opcode ∷ c.immediate) after.rest in
        let there =
          subst (λ n. At (λ d. d ≡ c) n cs) (sym (ap length before.spelled))
            (At-prefix cs ds c after.rest built.whole before.whole whole spelled) in
        let kept = p.kept c (length a.code) (unreferenced (omega arith) fixups) there in
        let (d, tail, same, is_c, behind) =
          From-At (λ d. d ≡ c) (length a.code) done rest from kept in
        (
          c,
          tail,
          same ∙ ap (λ x. x ∷ tail) is_c,
          asks,
          subst (λ n. From n done tail) (ap (λ x. length a.code + span x) is_c ∙ grown) behind,
          grown,
        )

    -- The PUSH2 of a label reference.
    reads_reference :
        (l : Label) → Emits (Call.push_label l) a b → Spelt (Call.push_label l) a b rest
    unfolding Emits
    reads_reference l same =
        let f : Fixup = record { label = l; at = suc (length a.code) } in
        let listed : Any (λ g. g ≡ f) z.fixups =
          subst (Any (λ g. g ≡ f))
            (sym (after.fixups ∙ ap (λ (s : Asm). s.fixups ++ after.added) same))
            (among a.fixups after.added f) in
        let fits = small f listed in
        let (g, (target, found, (o, at, m)), is_f) =
          All-Any (Resolved z.labels done) (λ g. g ≡ f) z.fixups p.resolved listed in
        let known : get l z.labels ≡ some target =
          sym (ap (λ (x : Fixup). get x.label z.labels) is_f) ∙ found in
        let bound = get-Bound cs l z.labels target built.bound known in
        let inside = At-lt IsJumpdest target cs bound in
        let low : target % 2 ^ 16 ≡ target = omega (arith, ap length built.spelled) in
        let place : o ≡ length a.code = omega (arith, at, ap (λ (x : Fixup). x.at) is_f) in
        let (c, tail, split, (opcode, immediate), behind) =
          From-At (Pushes target) (length a.code) done rest from
            (subst (λ n. At (Pushes target) n done) place m) in
        let value : be_value c.immediate ≡ target =
          ap be_value immediate ∙ be_value-to_be_bytes 2 (target % 2 ^ 16) (omega arith) ∙ low in
        let sized : length c.immediate ≡ 2 =
          ap length immediate ∙ length-to_be_bytes 2 (target % 2 ^ 16) in
        let grown : length a.code + span c ≡ length b.code = omega (
          arith,
          ap (λ (s : Asm). length s.code) same,
          length-append a.code (0x61 ∷ 0 ∷ 0 ∷ []),
          sized,
        ) in
        (
          c,
          tail,
          split,
          (known ∙ ap some (sym value), opcode, sized),
          subst (λ n. From n done tail) grown behind,
          grown,
        )
      where
        among : (xs ys : List Fixup) (f : Fixup) → Any (λ g. g ≡ f) ((xs ++ (f ∷ [])) ++ ys)
        among [] ys f = inl refl
        among (x ∷ xs) ys f = inr (among xs ys f)

    push_family-Whole :
        (bs : List ℕ) → length bs ≤ 32 → length bs ≡ wanted (by_byte (0x5f + length bs))
    push_family-Whole bs short =
        let (spec, row) = family_row (length bs) (omega arith) in
        let same = (by_byte_sound (0x5f + length bs) spec row).0 in
        sym
          (ap wanted row ∙ wanted-push spec (length bs) (op_form-push spec (length bs) short same))

    family-Whole : (n b : ℕ) → 0x5f + n ≡ b → 33 ≤ n → n ≤ 64 → 0 ≡ wanted (by_byte b)
    family-Whole n b place lo hi =
        let (spec, row) = family_row n hi in
        let same = (by_byte_sound (0x5f + n) spec row).0 in
        sym (
          ap (λ x. wanted (by_byte x)) (sym place)
          ∙ ap wanted row
          ∙ wanted-family spec (omega arith) (omega arith))

    pub spelt : (call : Call) → (call ≡ Call.label → ⊥) → Emits call a b → Spelt call a b rest
    unfolding Emits
    spelt (Call.op m) h (spec, (there, name, form, since), same) =
        reads_alone (Call.op m) (record { opcode = spec.byte; immediate = [] })
          (sym (ap wanted (lookup-row spec there).0 ∙ wanted-simple spec form))
          (ap (λ (s : Asm). s.code) same) (ap (λ (s : Asm). s.fixups) same)
          ((spec, there, name, refl), refl)
    spelt (Call.push imm) h (bs, short, value, same) =
        reads_alone (Call.push imm) (record { opcode = 0x5f + length bs; immediate = bs })
          (push_family-Whole bs short) (ap (λ (s : Asm). s.code) same)
          (ap (λ (s : Asm). s.fixups) same) (refl, value)
    spelt (Call.dup n) h (lo, hi, same) =
        reads_alone (Call.dup n) (record { opcode = 0x7f + n; immediate = [] })
          (family-Whole (n + 32) (0x7f + n) (omega arith) (omega arith) (omega arith))
          (ap (λ (s : Asm). s.code) same) (ap (λ (s : Asm). s.fixups) same) (refl, refl)
    spelt (Call.swap n) h (lo, hi, same) =
        reads_alone (Call.swap n) (record { opcode = 0x8f + n; immediate = [] })
          (family-Whole (n + 48) (0x8f + n) (omega arith) (omega arith) (omega arith))
          (ap (λ (s : Asm). s.code) same) (ap (λ (s : Asm). s.fixups) same) (refl, refl)
    spelt Call.label h e = absurd (h refl)
    spelt (Call.bind l) h (free, same) =
        reads_alone (Call.bind l) (record { opcode = 0x5b; immediate = [] })
          (jumpdest-Allowed a.fork).0 (ap (λ (s : Asm). s.code) same)
          (ap (λ (s : Asm). s.fixups) same)
          (
            after.addresses l (length a.code)
                (ap (λ (s : Asm). get l s.labels) same ∙ get-own l (length a.code) a.labels),
            refl,
            refl,
          )
    spelt (Call.push_label l) h same = reads_reference l (unfold Emits in same)
