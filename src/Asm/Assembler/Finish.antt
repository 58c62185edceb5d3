-- ===== src/Asm/Assembler/Finish.antt =====
-- The outcome of `finish` of asm.rs on a state with the invariant.
use rustevm.Base.{
  ℕ, suc, ◌+◌, ◌%◌, ◌^◌, ◌≤◌, ◌<◌, ◌≡◌, refl, sym, ap, ◌∙◌, ◌≢◌, ◌⊎◌, inl, inr, some, none, List,
  [], ◌∷◌, arith, length, All, All-map, Any, Option-cases, ok, err, leb, le→leb, true,
  length-append,
}
use rustevm.Base.Bytes.{to_be_bytes, length-to_be_bytes}
use rustevm.Isa.{Fork, by_byte}
use rustevm.Asm.Disasm.{wanted}
use rustevm.Asm.Assembler.{Label, Labels, get, Fixup, AsmError, patch}
use rustevm.Asm.Assembler.Chunks.{Chunk, flatten, Whole, At}
use rustevm.Asm.Assembler.Built.{Allowed, IsPush2, Referenced, Apart}
use rustevm.Asm.Assembler.Calls.Labels.{push2-wanted}
use rustevm.Asm.Assembler.Replace.{
  replace, flatten-replace, replace-Whole, replace-Allowed, replace-ne, replace-opcode,
  replace_self, length-replace,
}

-- A PUSH2 of the address.
abbrev pub Pushes : ℕ → Chunk → Type 0
Pushes target c = IsPush2 c × (c.immediate ≡ to_be_bytes 2 (target % 2 ^ 16))

-- The reference is a PUSH2 of its label's address.
abbrev pub Resolved : Labels → List Chunk → Fixup → Type 0
Resolved labels cs f =
    (target : ℕ) × (get f.label labels ≡ some target)
    × ((o : ℕ) × (f.at ≡ suc o) × At (Pushes target) o cs)

-- What the loop over the references leaves of the code it was given.
pub record Patched (labels : Labels) (fs : List Fixup) (cs cs' : List Chunk) : Type 0 where
  pub whole : All Whole cs'
  pub allowed : (fork : Fork) → All (Allowed fork) cs → All (Allowed fork) cs'
  pub opcodes :
      (b o : ℕ) → At (λ (c : Chunk). c.opcode ≡ b) o cs → At (λ (c : Chunk). c.opcode ≡ b) o cs'
  pub others :
      (target o : ℕ)
      → All (λ (f : Fixup). suc o < f.at) fs
      → At (Pushes target) o cs
      → At (Pushes target) o cs'
  pub kept :
      (c : Chunk) (o : ℕ)
      → All (λ (f : Fixup). f.at ≢ suc o) fs
      → At (λ d. d ≡ c) o cs
      → At (λ d. d ≡ c) o cs'
  pub sized : length (flatten cs') ≡ length (flatten cs)
  pub resolved : All (Resolved labels cs') fs

two_wide :
    (target : ℕ) (c : Chunk)
    → Whole c
    → IsPush2 c
    → length c.immediate ≡ length (to_be_bytes 2 (target % 2 ^ 16))
two_wide target c h e =
    h ∙ ap (λ b. wanted (by_byte b)) e ∙ push2-wanted ∙ sym (length-to_be_bytes 2 (target % 2 ^ 16))

-- The whole PUSH2 lies inside the code.
At-room : (o : ℕ) (cs : List Chunk) → All Whole cs → At IsPush2 o cs → o + 3 ≤ length (flatten cs)
unfolding flatten
At-room o [] h m = absurd m
At-room o (c ∷ cs) (h, hs) (inl (e, p)) =
    omega (arith, two_wide 0 c h p, length-to_be_bytes 2 0, length-append c.immediate (flatten cs))
At-room o (c ∷ cs) (h, hs) (inr (k, e, m)) =
    omega (arith, At-room k cs hs m, length-append c.immediate (flatten cs))

-- The code after one reference is patched.
patched_once : (o target : ℕ) (cs : List Chunk) → At IsPush2 o cs → List Chunk
patched_once o target cs m = replace IsPush2 o cs m (to_be_bytes 2 (target % 2 ^ 16))

module _ (labels : Labels) (f : Fixup) (fs : List Fixup) where
  patch-lost :
      (code : List ℕ)
      → get f.label labels ≡ none
      → patch labels (f ∷ fs) code ≡ some (err (AsmError.unbound_label f.label))
  unfolding patch
  patch-lost code lost = rw (patch, lost) refl

  module _ (cs : List Chunk) (o target : ℕ) (m : At IsPush2 o cs) (at : f.at ≡ suc o)
      (found : get f.label labels ≡ some target) (h : All Whole cs) where
    patch-found :
        patch labels (f ∷ fs) (flatten cs) ≡ patch labels fs (flatten (patched_once o target cs m))
    unfolding patch patched_once
    patch-found =
        let bs = to_be_bytes 2 (target % 2 ^ 16) in
        let room : leb (suc o + 2) (length (flatten cs)) ≡ true =
          le→leb (suc o + 2) (length (flatten cs)) (omega (arith, At-room o cs h m)) in
        rw (patch, found, at, room)
          (ap (patch labels fs) (flatten-replace IsPush2 bs (two_wide target) o cs m h))

    later : All (λ (g : Fixup). f.at < g.at) fs → All (λ (g : Fixup). suc o < g.at) fs
    later =
        All-map (λ (g : Fixup). f.at < g.at) (λ (g : Fixup). suc o < g.at) (λ g lt. omega arith) fs

    elsewhere : (o' : ℕ) → suc o' < f.at → o ≢ o'
    elsewhere o' lt e = omega arith

    still : All (Referenced cs) fs → All (Referenced (patched_once o target cs m)) fs
    unfolding patched_once
    still =
        All-map (Referenced cs) (Referenced (patched_once o target cs m))
          (λ g r. (r.0, r.1, replace-opcode IsPush2 _ (two_wide target) 0x61 o r.0 cs m h r.2)) fs

    once-Whole : All Whole (patched_once o target cs m)
    unfolding patched_once
    once-Whole = replace-Whole IsPush2 _ (two_wide target) o cs m h

    Patched-cons :
        (cs' : List Chunk)
        → All (λ (g : Fixup). f.at < g.at) fs
        → Patched labels fs (patched_once o target cs m) cs'
        → Patched labels (f ∷ fs) cs cs'
    unfolding patched_once
    Patched-cons cs' behind p =
        let bs = to_be_bytes 2 (target % 2 ^ 16) in
        let wide = two_wide target in
        record {
          whole = p.whole;
          allowed = λ fork k. p.allowed fork (replace-Allowed IsPush2 bs wide fork o cs m k);
          opcodes = λ b o' q. p.opcodes b o' (replace-opcode IsPush2 bs wide b o o' cs m h q);
          others = λ t o' far q.
              p.others t o' far.1
                (replace-ne IsPush2 bs wide (Pushes t) o o' cs m h (elsewhere o' far.0) q);
          kept = λ c o' far q.
              p.kept c o' far.1 (
                replace-ne IsPush2 bs wide (λ d. d ≡ c) o o' cs m h (λ e. far.0 (at ∙ ap suc e)) q);
          sized = p.sized ∙ length-replace IsPush2 bs wide o cs m h;
          resolved = (
            (
              target,
              found,
              (
                o,
                at,
                p.others target o (later behind) (replace_self IsPush2 bs wide o cs m (λ c e. e)),
              ),
            ),
            p.resolved,
          );
        }

-- Either some reference's label has no address, or all are patched.
abbrev pub Outcome : Labels → List Fixup → List Chunk → Type 0
Outcome labels fs cs =
    ((l : Label) × (patch labels fs (flatten cs) ≡ some (err (AsmError.unbound_label l)))
      × (get l labels ≡ none)
      × Any (λ (f : Fixup). f.label ≡ l) fs)
    ⊎ ((cs' : List Chunk) × (patch labels fs (flatten cs) ≡ some (ok (flatten cs')))
        × Patched labels fs cs cs')

prepend :
    (labels : Labels) (f : Fixup) (fs : List Fixup) (cs : List Chunk) (o target : ℕ)
    (m : At IsPush2 o cs)
    → f.at ≡ suc o
    → get f.label labels ≡ some target
    → All Whole cs
    → All (λ (g : Fixup). f.at < g.at) fs
    → Outcome labels fs (patched_once o target cs m)
    → Outcome labels (f ∷ fs) cs
prepend labels f fs cs o target m at found h behind (inl (l, e, lost, any)) =
    inl (l, patch-found labels f fs cs o target m at found h ∙ e, lost, inr any)
prepend labels f fs cs o target m at found h behind (inr (cs', e, p)) = inr (
  cs',
  patch-found labels f fs cs o target m at found h ∙ e,
  Patched-cons labels f fs cs o target m at found h cs' behind p,
)

pub patch-Outcome :
    (labels : Labels) (fs : List Fixup) (cs : List Chunk)
    → All Whole cs
    → All (Referenced cs) fs
    → Apart fs
    → Outcome labels fs cs
patch-Outcome labels [] cs h r a =
    unfold patch in
    inr (
      cs,
      refl,
      record {
        whole = h;
        allowed = λ fork k. k;
        opcodes = λ b o m. m;
        others = λ target o far m. m;
        kept = λ c o far m. m;
        sized = refl;
        resolved = tt;
      },
    )
patch-Outcome labels (f ∷ fs) cs h ((o, at, m), rs) (behind, a) =
    elim (Option-cases (get f.label labels)) [
      | inl lost ↦ inl (f.label, patch-lost labels f fs (flatten cs) lost, lost, inl refl)
      | inr (target, found) ↦ prepend labels f fs cs o target m at found h behind (
          patch-Outcome labels fs (patched_once o target cs m)
            (once-Whole labels f fs cs o target m at found h)
            (still labels f fs cs o target m at found h rs) a)
    ]
