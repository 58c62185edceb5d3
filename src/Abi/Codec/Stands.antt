-- ===== src/Abi/Codec/Stands.antt =====
-- A byte string that stands at a position of an input, and its slice.
use rustevm.Base.{
  sym, take-append-drop, length-take, ℕ, ◌+◌, ◌≤◌, ◌≡◌, List, ◌++◌, length, take, drop,
  length-append, take-length_append, drop-length_append, arith,
}
use mathlib.Core.List.{append_assoc}

pub record Stands (input : List ℕ) (offset : ℕ) (bytes : List ℕ) : Type 0 where
  pub before : List ℕ
  pub after : List ℕ
  pub split : input ≡ before ++ (bytes ++ after)
  pub starts : length before ≡ offset

module _ {input : List ℕ} {offset : ℕ} where
  pub Stands-le :
      (bytes : List ℕ) → Stands input offset bytes → offset + length bytes ≤ length input
  Stands-le bytes s = rw s.split (
      omega
        (arith, s.starts, length-append s.before (bytes ++ s.after), length-append bytes s.after))

  pub slice-Stands :
      (bytes : List ℕ) → Stands input offset bytes → take (length bytes) (drop offset input) ≡ bytes
  slice-Stands bytes s =
      rw (s.split, ← s.starts, drop-length_append s.before (bytes ++ s.after))
        (take-length_append bytes s.after)

  pub Stands-left :
      (left right : List ℕ) → Stands input offset (left ++ right) → Stands input offset left
  Stands-left left right s = record {
    before = s.before;
    after = right ++ s.after;
    split = rw (← append_assoc left right s.after) s.split;
    starts = s.starts;
  }

  pub Stands-right :
      (left right : List ℕ)
      → Stands input offset (left ++ right)
      → Stands input (offset + length left) right
  Stands-right left right s = record {
    before = s.before ++ left;
    after = s.after;
    split =
        rw (append_assoc s.before left (right ++ s.after), ← append_assoc left right s.after)
          s.split;
    starts = omega (arith, s.starts, length-append s.before left);
  }

pub Stands-slice :
    (input : List ℕ) (start count : ℕ)
    → start + count ≤ length input
    → Stands input start (take count (drop start input))
Stands-slice input start count fits = record {
  before = take start input;
  after = drop count (drop start input);
  split = rw (take-append-drop count (drop start input)) (sym (take-append-drop start input));
  starts = omega (arith, length-take start input);
}
