-- ===== src/Std/Lock/Exclusion.antt =====
-- The reentrancy lock as a state machine: `ReentrancyLock` of
-- src/target/std-evm/src/storage/transient.rs.
use rustevm.Base.{
  ℕ, suc, ◌≡◌, refl, sym, ap, ◌∙◌, ◌⊎◌, inl, inr, Bool, true, false, List, none, some, arith,
  Bool-cases, some_eq,
}
use mathlib.Core.Path.{subst}
use rustevm.Abi.Word.{Word}
use rustevm.Std.Machine.{Machine, IsLawful}
use rustevm.Std.Value.{bool, write_to_transient}
use rustevm.Std.Value.Stored.{read_from_transient-write_to_transient, read_from_transient_same}
use rustevm.Std.Lock.{lock_slot, is_locked, acquire, release}

none_some : {A : Type 0} {a : A} → none ≡ some a → ⊥
none_some h = cc

not_both : false ≡ true → ⊥
not_both h = cc

same_flag :
    (b b' : Bool) (n : ℕ)
    → b ≡ b'
    → ((n ≡ 0) × (b' ≡ false)) ⊎ ((n ≡ 1) × (b' ≡ true))
    → ((n ≡ 0) × (b ≡ false)) ⊎ ((n ≡ 1) × (b ≡ true))
same_flag b b' n e (inl (k, h)) = inl (k, e ∙ h)
same_flag b b' n e (inr (k, h)) = inr (k, e ∙ h)

module _ (M : Machine) where
  -- The machine within one transaction, with the number of live `ReentrancyLock` values.
  pub record Config : Type 0 where
    pub state : M.State
    pub guards : ℕ

  abbrev pub config : M.State → ℕ → Config
  config s held = record { state = s; guards = held }

  -- A lock is taken, a live guard is dropped, or other code runs that leaves the lock's slot alone.
  pub data Step : Config → Config → Type 0 where
    take_lock :
        (s s' : M.State) (held : ℕ)
        → acquire M s ≡ some s'
        → Step (config s held) (config s' (suc held))
    drop_lock : (s : M.State) (held : ℕ) → Step (config s (suc held)) (config (release M s) held)
    other :
        (s s' : M.State) (held : ℕ)
        → M.tload s' lock_slot ≡ M.tload s lock_slot
        → Step (config s held) (config s' held)

  pub data Reach (c : Config) : Config → Type 0 where
    here : Reach c c
    next : {d e : Config} → Reach c d → Step d e → Reach c e

  -- The flag is set while a guard lives, and there is at most one.
  abbrev pub Exclusive : Config → Type 0
  Exclusive c =
      ((c.guards ≡ 0) × (is_locked M c.state ≡ false))
      ⊎ ((c.guards ≡ 1) × (is_locked M c.state ≡ true))

  module _ (hash : List ℕ → Word) (lawful : IsLawful M hash) where
    locked_after :
        (s : M.State) (b : Bool) → is_locked M (write_to_transient M bool s lock_slot b) ≡ b
    unfolding is_locked
    locked_after s b = read_from_transient-write_to_transient M hash lawful s bool lock_slot b

    acquire_free :
        (s : M.State)
        → is_locked M s ≡ false
        → (s' : M.State) × (acquire M s ≡ some s') × (is_locked M s' ≡ true)
    unfolding acquire
    acquire_free s free = (write_to_transient M bool s lock_slot true, rw free, locked_after s true)

    acquire_taken : (s : M.State) → is_locked M s ≡ true → acquire M s ≡ none
    unfolding acquire
    acquire_taken s taken = rw taken

    release_free : (s : M.State) → is_locked M (release M s) ≡ false
    unfolding release
    release_free s = locked_after s false

    acquired :
        (s s' : M.State) → acquire M s ≡ some s' → (is_locked M s ≡ false) × (is_locked M s' ≡ true)
    acquired s s' h = elim (Bool-cases (is_locked M s)) [
      | inl taken ↦ absurd (none_some (sym (acquire_taken s taken) ∙ h))
      | inr free ↦
          let (s1, got, set) = acquire_free s free in
          (free, ap (is_locked M) (some_eq (sym h ∙ got)) ∙ set)
    ]

    kept :
        (s s' : M.State)
        → M.tload s' lock_slot ≡ M.tload s lock_slot
        → is_locked M s' ≡ is_locked M s
    unfolding is_locked
    kept s s' h = read_from_transient_same M s' s bool lock_slot h

    drop_one : (s : M.State) (held : ℕ) → held ≡ 1 → Step (config s held) (config (release M s) 0)
    drop_one s held one =
        subst (λ n. Step (config s n) (config (release M s) 0)) (sym one) (drop_lock s 0)

    Step-Exclusive : {c d : Config} → Step c d → Exclusive c → Exclusive d
    Step-Exclusive (take_lock s s' held h) (inl (none_live, free)) =
        inr (omega arith, (acquired s s' h).1)
    Step-Exclusive (take_lock s s' held h) (inr (live, taken)) =
        absurd (not_both (sym (acquired s s' h).0 ∙ taken))
    Step-Exclusive (drop_lock s held) (inl (none_live, free)) = absurd (omega arith)
    Step-Exclusive (drop_lock s held) (inr (live, taken)) = inl (omega arith, release_free s)
    Step-Exclusive (other s s' held h) e =
        same_flag (is_locked M s') (is_locked M s) held (kept s s' h) e

    Reach-Exclusive : {c d : Config} → Exclusive c → Reach c d → Exclusive d
    Reach-Exclusive h here = h
    Reach-Exclusive h (next r st) = Step-Exclusive st (Reach-Exclusive h r)

    -- In every configuration that a transaction reaches on a lawful machine, from one with the
    -- lock's flag clear and no guard, by taking the lock, dropping a live guard and running code that
    -- leaves the flag alone: either no guard lives and the lock is granted, or exactly one lives and
    -- the lock is refused.
    pub acquire_exclusive :
        (s : M.State) (d : Config)
        → is_locked M s ≡ false
        → Reach (config s 0) d
        → ((d.guards ≡ 0) × (s' : M.State) × (acquire M d.state ≡ some s'))
          ⊎ ((d.guards ≡ 1) × (acquire M d.state ≡ none))
    acquire_exclusive s d free r = elim (Reach-Exclusive (inl (refl, free)) r) [
      | inl (none_live, vacant) ↦
          let (s', got, _) = acquire_free d.state vacant in inl (none_live, s', got)
      | inr (live, taken) ↦ inr (live, acquire_taken d.state taken)
    ]

    -- The lock is never lost: from every configuration that is reached so, another in which the
    -- lock is granted can be reached, at once or by dropping the live guard.
    pub acquire_again :
        (s : M.State) (d : Config)
        → is_locked M s ≡ false
        → Reach (config s 0) d
        → (e : Config) × (s' : M.State) × Reach d e × (acquire M e.state ≡ some s')
    acquire_again s d free r = elim (Reach-Exclusive (inl (refl, free)) r) [
      | inl (none_live, vacant) ↦
          let (s', got, _) = acquire_free d.state vacant in (d, s', here, got)
      | inr (live, taken) ↦
          let (s', got, _) = acquire_free (release M d.state) (release_free d.state) in
          (config (release M d.state) 0, s', next here (drop_one d.state d.guards live), got)
    ]
