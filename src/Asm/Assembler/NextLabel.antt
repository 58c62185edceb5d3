-- ===== src/Asm/Assembler/NextLabel.antt =====
-- The number of labels over the calls of asm.rs.
use rustevm.Base.{
  ℕ, ◌+◌, ◌-◌, ◌^◌, ◌<◌, drop, ◌≡◌, refl, sym, none, some, some_eq, Bool-cases, ltb, true, inl, inr,
  List, [], ◌∷◌, arith,
}
use rustevm.Asm.Immediate.{Immediate, width}
use rustevm.Isa.{Str, bytes, shanghai, Fork}
use rustevm.Asm.Assembler.{
  Asm, fail, emit_byte, emit_family_byte, extend, push_bytes, emit_simple, op, push, dup, swap,
  label, bind, push_label,
}
use rustevm.Asm.Assembler.Run.{Call, step}

-- How many labels the calls reserve.
abbrev pub reserves : Call → ℕ
reserves Call.label = 1
reserves (Call.op m) = 0
reserves (Call.push imm) = 0
reserves (Call.dup n) = 0
reserves (Call.swap n) = 0
reserves (Call.bind l) = 0
reserves (Call.push_label l) = 0

abbrev pub reserved_by : List Call → ℕ
reserved_by [] = 0
reserved_by (call ∷ calls) = reserves call + reserved_by calls

emit_byte-next_label :
    (a : Asm) (b : ℕ) (m : Str) (f : Fork) → (emit_byte a b m f).next_label ≡ a.next_label
unfolding emit_byte fail
emit_byte-next_label a b m f = ground arith

emit_family_byte-next_label :
    (a a' : Asm) (b : ℕ) → emit_family_byte a b ≡ some a' → a'.next_label ≡ a.next_label
unfolding emit_family_byte emit_byte fail
emit_family_byte-next_label a a' b h = ground arith

push_bytes-next_label :
    (a a' : Asm) (bs : List ℕ) → push_bytes a bs ≡ some a' → a'.next_label ≡ a.next_label
unfolding push_bytes extend emit_byte fail
push_bytes-next_label a a' bs h = ground arith

op-next_label : (a : Asm) (m : Str) → (op a m).next_label ≡ a.next_label
unfolding op emit_simple emit_byte fail
op-next_label a m = ground arith

push-next_label :
    (a a' : Asm) (imm : Immediate) → push a imm ≡ some a' → a'.next_label ≡ a.next_label
unfolding push
push-next_label a a' imm h = ground (
  arith,
  push_bytes-next_label a a' (0 ∷ []),
  push_bytes-next_label a a' (drop (32 - width imm) imm),
  emit_byte-next_label a 0x5f (bytes "PUSH0") shanghai,
)

pub step-next_label :
    (call : Call) (a a' : Asm)
    → step call a ≡ some a'
    → a'.next_label ≡ a.next_label + reserves call
unfolding step fail dup swap label bind push_label
step-next_label (Call.op m) a a' h = ground (arith, op-next_label a m)
step-next_label (Call.push imm) a a' h = omega (arith, push-next_label a a' imm h)
step-next_label (Call.dup n) a a' h = grind (arith, emit_family_byte-next_label)
step-next_label (Call.swap n) a a' h = grind (arith, emit_family_byte-next_label)
step-next_label Call.label a a' h = ground arith
step-next_label (Call.bind l) a a' h = grind (arith, emit_byte-next_label)
step-next_label (Call.push_label l) a a' h = ground arith

-- There is room for the labels that a call reserves.
abbrev pub Room : Call → Asm → Type 0
Room (Call.label) a = a.next_label + 1 < 2 ^ 32
Room (Call.op m) a = Unit
Room (Call.push imm) a = Unit
Room (Call.dup n) a = Unit
Room (Call.swap n) a = Unit
Room (Call.bind l) a = Unit
Room (Call.push_label l) a = Unit

abbrev pub one_more : Asm → Asm
one_more a = record a { next_label = a.next_label + 1 }

-- A `label` that has room returns, and one that returns had room.
pub label-Room : (a : Asm) → Room Call.label a → step Call.label a ≡ some (one_more a)
unfolding step label
label-Room a h = let fits : ltb (a.next_label + 1) (2 ^ 32) ≡ true = ground arith in rw fits refl

pub label_lem : (a z : Asm) → step Call.label a ≡ some z → Room Call.label a × (z ≡ one_more a)
unfolding step label
label_lem a z h = elim (Bool-cases (ltb (a.next_label + 1) (2 ^ 32))) [
  | inl fits ↦ (ground arith, sym (some_eq (rw fits at h)))
  | inr full ↦ absurd (clash (rw full at h))
]
  where
    clash : {z : Asm} → none ≡ some z → ⊥
    clash e = cc

pub step-Room : (call : Call) (a z : Asm) → step call a ≡ some z → Room call a
step-Room Call.label a z h = (label_lem a z h).0
step-Room (Call.op m) a z h = tt
step-Room (Call.push imm) a z h = tt
step-Room (Call.dup n) a z h = tt
step-Room (Call.swap n) a z h = tt
step-Room (Call.bind l) a z h = tt
step-Room (Call.push_label l) a z h = tt

-- Room for all of the calls is room for the first.
pub first-Room :
    (call : Call) (calls : List Call) (a : Asm)
    → a.next_label + reserved_by (call ∷ calls) < 2 ^ 32
    → Room call a
first-Room Call.label calls a h = omega arith
first-Room (Call.op m) calls a h = tt
first-Room (Call.push imm) calls a h = tt
first-Room (Call.dup n) calls a h = tt
first-Room (Call.swap n) calls a h = tt
first-Room (Call.bind l) calls a h = tt
first-Room (Call.push_label l) calls a h = tt

-- And what is left is room for the others.
pub rest_room :
    (call : Call) (calls : List Call) (a z : Asm)
    → step call a ≡ some z
    → a.next_label + reserved_by (call ∷ calls) < 2 ^ 32
    → z.next_label + reserved_by calls < 2 ^ 32
rest_room call calls a z e h = omega (arith, step-next_label call a z e)
