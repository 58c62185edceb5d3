-- ===== src/Asm/Assembler/Calls/Labels.antt =====
-- `bind` and `push_label` of asm.rs and the invariant of the state.
use rustevm.Base.{
  ℕ, suc, ◌<◌, ◌≡◌, refl, sym, ap, ◌∙◌, List, [], ◌∷◌, ◌++◌, arith, length, length-append, All,
  All-append, All-map,
}
use mathlib.Core.Path.{subst}
use mathlib.Core.List.{append_assoc}
use rustevm.Isa.{
  Str, bytes, Fork, frontier, chronology, OpSpec, OpForm, op_form, by_byte, by_byte_sound,
}
use rustevm.Isa.Lookup.Family.{op_form-push, push2_row, jumpdest_row}
use rustevm.Asm.Disasm.{wanted}
use rustevm.Asm.Assembler.{failed, contains_key, Label, Fixup, Asm, emit_byte, bind, push_label}
use rustevm.Asm.Assembler.Chunks.{Chunk, flatten, Whole, At, At-end, At-lt}
use rustevm.Asm.Assembler.Built.{
  Allowed, IsJumpdest, IsPush2, Built, IsBuilt, fail-IsBuilt, Built-snoc, Apart, Referenced,
}
use rustevm.Asm.Assembler.Calls.{both, wanted-simple, wanted-push}

emit_byte-frontier :
    (a : Asm) (byte : ℕ) (mnemonic : Str)
    → emit_byte a byte mnemonic frontier ≡ record a { code = a.code ++ (byte ∷ []) }
unfolding emit_byte chronology
emit_byte-frontier a byte mnemonic = ground arith

abbrev pub jumpdest : Chunk
jumpdest = record { opcode = 0x5b; immediate = [] }

op_form-jumpdest : (spec : OpSpec) → spec.byte ≡ 0x5b → op_form spec ≡ OpForm.simple
unfolding op_form
op_form-jumpdest spec e = ground arith

pub jumpdest-Allowed : (fork : Fork) → Whole jumpdest × Allowed fork jumpdest
unfolding chronology
jumpdest-Allowed fork =
    let (spec, row, since, _) = jumpdest_row in
    let same = (by_byte_sound 0x5b spec row).0 in
    (
      sym (ap wanted row ∙ wanted-simple spec (op_form-jumpdest spec same)),
      (spec, row, rw since (omega arith)),
    )

-- The label's address is the end of the code, where the JUMPDEST goes.
placed-Built :
    (a : Asm) (cs : List Chunk) (l : Label)
    → Built a cs
    → Built
        (record a { labels = (l, length a.code) ∷ a.labels; code = a.code ++ (0x5b ∷ []) })
        (cs ++ (jumpdest ∷ []))
placed-Built a cs l b =
    let (whole, allowed) = jumpdest-Allowed a.fork in
    let grown = Built-snoc a cs jumpdest b whole allowed in
    record {
      spelled = grown.spelled;
      whole = grown.whole;
      allowed = grown.allowed;
      bound = (
        subst (λ (code : List ℕ). At IsJumpdest (length code) (cs ++ (jumpdest ∷ [])))
            (sym b.spelled) (At-end IsJumpdest cs jumpdest refl),
        grown.bound,
      );
      referenced = grown.referenced;
      apart = grown.apart;
    }

pub bind-IsBuilt : (a : Asm) (l : Label) → IsBuilt a → IsBuilt (bind a l)
unfolding bind
bind-IsBuilt a l (cs, b) =
    both IsBuilt (failed a) (λ _. (cs, b))
      λ _.
        both IsBuilt (contains_key l a.labels) (λ _. fail-IsBuilt a _ (cs, b))
          λ _.
            subst IsBuilt (sym (emit_byte-frontier _ 0x5b (bytes "JUMPDEST")))
              (cs ++ (jumpdest ∷ []), placed-Built a cs l b)

push2 : Chunk
push2 = record { opcode = 0x61; immediate = 0 ∷ 0 ∷ [] }

-- A PUSH2 carries two bytes.
pub push2-wanted : wanted (by_byte 0x61) ≡ 2
push2-wanted =
    let (spec, row, _) = push2_row in
    let same = (by_byte_sound 0x61 spec row).0 in
    ap wanted row ∙ wanted-push spec 2 (op_form-push spec 2 (omega arith) same)

push2-Allowed : (fork : Fork) → Whole push2 × Allowed fork push2
unfolding push2 chronology
push2-Allowed fork =
    let (spec, row, since) = push2_row in (sym push2-wanted, (spec, row, rw since (omega arith)))

Apart-snoc :
    (fs : List Fixup) (g : Fixup)
    → Apart fs
    → All (λ (f : Fixup). f.at < g.at) fs
    → Apart (fs ++ (g ∷ []))
Apart-snoc [] g h k = (tt, tt)
Apart-snoc (f ∷ fs) g (h, hs) (k, ks) =
    (All-append (λ (e : Fixup). f.at < e.at) fs (g ∷ []) h (k, tt), Apart-snoc fs g hs ks)

-- A reference lies inside the code.
Referenced-lt :
    (cs : List Chunk) (n : ℕ) (fs : List Fixup)
    → length (flatten cs) < n
    → All (Referenced cs) fs
    → All (λ (f : Fixup). f.at < n) fs
Referenced-lt cs n fs lt =
    All-map (Referenced cs) (λ (f : Fixup). f.at < n)
      (λ f r. let inside = At-lt IsPush2 r.0 cs r.2 in let e = r.1 in omega arith) fs

referred-Built :
    (a : Asm) (cs : List Chunk) (f : Fixup)
    → f.at ≡ suc (length a.code)
    → Built a cs
    → Built
        (record a { code = a.code ++ (0x61 ∷ 0 ∷ 0 ∷ []); fixups = a.fixups ++ (f ∷ []) })
        (cs ++ (push2 ∷ []))
unfolding push2
referred-Built a cs f at b =
    let (whole, allowed) = push2-Allowed a.fork in
    let grown = Built-snoc a cs push2 b whole allowed in
    let sized = ap length b.spelled in
    record {
      spelled = grown.spelled;
      whole = grown.whole;
      allowed = grown.allowed;
      bound = grown.bound;
      referenced =
          All-append (Referenced (cs ++ (push2 ∷ []))) a.fixups (f ∷ []) grown.referenced
            ((length (flatten cs), at ∙ ap suc sized, At-end IsPush2 cs push2 refl), tt);
      apart =
          Apart-snoc a.fixups f b.apart (Referenced-lt cs f.at a.fixups (omega arith) b.referenced);
    }

pub push_label-IsBuilt : (a : Asm) (l : Label) → IsBuilt a → IsBuilt (push_label a l)
unfolding push_label
push_label-IsBuilt a l (cs, b) =
    both IsBuilt (failed a) (λ _. (cs, b))
      λ _.
        let f : Fixup = record { label = l; at = length (a.code ++ (0x61 ∷ [])) } in
        (
          cs ++ (push2 ∷ []),
          rw (append_assoc a.code (0x61 ∷ []) (0 ∷ 0 ∷ []))
              (referred-Built a cs f (omega (arith, length-append a.code (0x61 ∷ []))) b),
        )
