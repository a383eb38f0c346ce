-- ===== src/RwLockable/Exclusion.antt =====
-- Mutual exclusion of the lock of src/common/util/RWLockable.inl.
use credb.Prelude.{
  ℕ, zero, suc, ◌+◌, ◌-◌, ◌≡◌, ◌<◌, ◌≤◌, ◌^◌, ◌⊎◌, inl, refl, List, [], ◌∷◌, some, length-replicate,
  some-injective, subst, get_elem?, set, ℤ, pos, negsuc, replicate, length, arith, All, ap, ◌∙◌,
  sym,
}
use credb.RwLockable.{
  spins, swaps, try_read_lock, read_lock, read_to_write_lock, write_to_read_lock, try_write_lock,
  write_lock, read_unlock, write_unlock, increment, decrement,
}
use credb.RwLockable.Threads.{
  Call, reads, tries_read, writes, tries_write, upgrades, downgrades, Hold, nothing, shared,
  exclusive, Phase, rests, swapping, attempt, needs, gains, State, Step, load, exchange,
  exchange_fails, unlock_read, unlock_write, initial, Reach, here, next,
}

-- What a thread holds in each phase.
abbrev pub held : Phase → Hold
held (rests h) = h
held (swapping c val new) = needs c

abbrev shared_one : Hold → ℕ
shared_one shared = 1
shared_one nothing = 0
shared_one exclusive = 0

abbrev exclusive_one : Hold → ℕ
exclusive_one exclusive = 1
exclusive_one nothing = 0
exclusive_one shared = 0

-- How many threads hold the lock shared, and how many hold it exclusively.
abbrev pub readers : List Phase → ℕ
readers [] = 0
readers (p ∷ ps) = shared_one (held p) + readers ps

abbrev pub writers : List Phase → ℕ
writers [] = 0
writers (p ∷ ps) = exclusive_one (held p) + writers ps

-- A thread that is about to exchange holds what its call computed from the value loaded.
abbrev IsSound : Phase → Type 0
IsSound (rests h) = Unit {0}
IsSound (swapping c val new) = attempt c val ≡ swaps new

-- The counter counts the readers, or is -1 while there is a writer.
abbrev pub Counts : ℤ → ℕ → ℕ → Type 0
Counts count r w = ((w ≡ 0) × (count ≡ pos r)) ⊎ ((w ≡ 1) × (r ≡ 0) × (count ≡ negsuc 0))

pub record Inv (s : State) : Type 0 where
  pub counts : Counts s.count (readers s.threads) (writers s.threads)
  pub sound : All IsSound s.threads
  pub few : length s.threads < 2 ^ 31 - 1

readers-set :
    (ps : List Phase) (i : ℕ) (p p' : Phase)
    → get_elem? ps i ≡ some p
    → readers (set ps i p') + shared_one (held p) ≡ readers ps + shared_one (held p')
readers-set [] i p p' h = cc
readers-set (q ∷ ps) zero p p' h =
    omega (arith, ap (λ t. shared_one (held t)) (some-injective q p h))
readers-set (q ∷ ps) (suc i) p p' h = omega (arith, readers-set ps i p p' h)

writers-set :
    (ps : List Phase) (i : ℕ) (p p' : Phase)
    → get_elem? ps i ≡ some p
    → writers (set ps i p') + exclusive_one (held p) ≡ writers ps + exclusive_one (held p')
writers-set [] i p p' h = cc
writers-set (q ∷ ps) zero p p' h =
    omega (arith, ap (λ t. exclusive_one (held t)) (some-injective q p h))
writers-set (q ∷ ps) (suc i) p p' h = omega (arith, writers-set ps i p p' h)

shared_one-le : (h : Hold) → shared_one h ≤ 1
shared_one-le nothing = omega arith
shared_one-le shared = omega arith
shared_one-le exclusive = omega arith

readers-le-length : (ps : List Phase) → readers ps ≤ length ps
readers-le-length [] = omega arith
readers-le-length (p ∷ ps) = omega (arith, readers-le-length ps, shared_one-le (held p))

All-set :
    (ps : List Phase) (i : ℕ) (p' : Phase) → All IsSound ps → IsSound p' → All IsSound (set ps i p')
All-set [] i p' a h = tt
All-set (q ∷ ps) zero p' a h = (h, a.1)
All-set (q ∷ ps) (suc i) p' a h = (a.0, All-set ps i p' a.1 h)

All-get :
    (ps : List Phase) (i : ℕ) (p : Phase) → All IsSound ps → get_elem? ps i ≡ some p → IsSound p
All-get [] i p a h = cc
All-get (q ∷ ps) zero p a h = subst IsSound (some-injective q p h) a.0
All-get (q ∷ ps) (suc i) p a h = All-get ps i p a.1 h

-- An exchange of the value that the counter still has keeps the count.
swap-Counts :
    (c : Call) (count new : ℤ) (r w r' w' : ℕ)
    → Counts count r w
    → attempt c count ≡ swaps new
    → r' + shared_one (needs c) ≡ r + shared_one (gains c)
    → w' + exclusive_one (needs c) ≡ w + exclusive_one (gains c)
    → r < 2 ^ 31 - 1
    → Counts new r' w'
unfolding try_read_lock read_lock read_to_write_lock write_to_read_lock try_write_lock write_lock
    increment
swap-Counts reads count new r w r' w' k e p q f = ground arith
swap-Counts tries_read count new r w r' w' k e p q f = ground arith
swap-Counts writes count new r w r' w' k e p q f = ground arith
swap-Counts tries_write count new r w r' w' k e p q f = ground arith
swap-Counts upgrades count new r w r' w' k e p q f = ground arith
swap-Counts downgrades count new r w r' w' k e p q f = ground arith

length-set : (ps : List Phase) (i : ℕ) (p : Phase) → length (set ps i p) ≡ length ps
length-set [] i p = refl
length-set (q ∷ ps) zero p = refl
length-set (q ∷ ps) (suc i) p = ap suc (length-set ps i p)

-- Each step keeps the invariant.
Step-Inv : {s t : State} → Step s t → Inv s → Inv t
unfolding read_unlock write_unlock decrement
Step-Inv {s} (load i c new at e) v = record {
  counts = ground (
    arith,
    v.counts,
    readers-set s.threads i (rests (needs c)) (swapping c s.count new) at,
    writers-set s.threads i (rests (needs c)) (swapping c s.count new) at,
  );
  sound = All-set s.threads i (swapping c s.count new) v.sound e;
  few = omega (arith, v.few, length-set s.threads i (swapping c s.count new));
}
Step-Inv {s} (exchange i c val new at same) v = record {
  counts =
      swap-Counts c s.count new (readers s.threads) (writers s.threads) _ _ v.counts
        (ap (attempt c) same ∙ All-get s.threads i (swapping c val new) v.sound at)
        (readers-set s.threads i (swapping c val new) (rests (gains c)) at)
        (writers-set s.threads i (swapping c val new) (rests (gains c)) at)
        (omega (arith, v.few, readers-le-length s.threads));
  sound = All-set s.threads i (rests (gains c)) v.sound tt;
  few = omega (arith, v.few, length-set s.threads i (rests (gains c)));
}
Step-Inv {s} (exchange_fails i c val new at) v = record {
  counts = ground (
    arith,
    v.counts,
    readers-set s.threads i (swapping c val new) (rests (needs c)) at,
    writers-set s.threads i (swapping c val new) (rests (needs c)) at,
  );
  sound = All-set s.threads i (rests (needs c)) v.sound tt;
  few = omega (arith, v.few, length-set s.threads i (rests (needs c)));
}
Step-Inv {s} (unlock_read i at) v = record {
  counts = ground (
    arith,
    v.counts,
    readers-set s.threads i (rests shared) (rests nothing) at,
    writers-set s.threads i (rests shared) (rests nothing) at,
  );
  sound = All-set s.threads i (rests nothing) v.sound tt;
  few = omega (arith, v.few, length-set s.threads i (rests nothing));
}
Step-Inv {s} (unlock_write i at) v = record {
  counts = ground (
    arith,
    v.counts,
    readers-set s.threads i (rests exclusive) (rests nothing) at,
    writers-set s.threads i (rests exclusive) (rests nothing) at,
  );
  sound = All-set s.threads i (rests nothing) v.sound tt;
  few = omega (arith, v.few, length-set s.threads i (rests nothing));
}

initial-Inv : (n : ℕ) → n < 2 ^ 31 - 1 → Inv (initial n)
unfolding initial
initial-Inv n h = record {
  counts = inl (no_writers n, ap pos (sym (no_readers n)));
  sound = all_sound n;
  few = omega (arith, h, length-replicate n (rests nothing));
}
  where
    no_readers : (k : ℕ) → readers (replicate k (rests nothing)) ≡ 0
    no_readers zero = refl
    no_readers (suc k) = omega (arith, no_readers k)

    no_writers : (k : ℕ) → writers (replicate k (rests nothing)) ≡ 0
    no_writers zero = refl
    no_writers (suc k) = omega (arith, no_writers k)

    all_sound : (k : ℕ) → All IsSound (replicate k (rests nothing))
    all_sound zero = tt
    all_sound (suc k) = (tt, all_sound k)

Reach-Inv : {s t : State} → Inv s → Reach s t → Inv t
Reach-Inv v here = v
Reach-Inv v (next r st) = Step-Inv st (Reach-Inv v r)

-- After any interleaving of the steps of fewer than 2^31 - 1 threads, either there is one writer, no
-- reader, and the counter is -1, or there is no writer and the counter is the number of readers.
pub mutual_exclusion :
    (n : ℕ) (s : State)
    → n < 2 ^ 31 - 1
    → Reach (initial n) s
    → Counts s.count (readers s.threads) (writers s.threads)
mutual_exclusion n s h r = (Reach-Inv (initial-Inv n h) r).counts

-- After any interleaving of the steps of fewer than 2^31 - 1 threads, for a thread that holds the
-- lock shared: either it is the only reader, and `read_to_write_lock` attempts to exchange the
-- counter for -1, or there is another reader, and the call spins.
upgrade_waits :
    (n i : ℕ) (s : State)
    → n < 2 ^ 31 - 1
    → Reach (initial n) s
    → get_elem? s.threads i ≡ some (rests shared)
    → ((readers s.threads ≡ 1) × (read_to_write_lock s.count ≡ swaps (negsuc 0)))
      ⊎ ((1 < readers s.threads) × (read_to_write_lock s.count ≡ spins))
unfolding read_to_write_lock
upgrade_waits n i s h r at = ground (
  arith,
  mutual_exclusion n s h r,
  readers-set s.threads i (rests shared) (rests nothing) at,
  writers-set s.threads i (rests shared) (rests nothing) at,
)
