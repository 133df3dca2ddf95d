-- ===== src/Recmutex/Nesting.antt =====
-- Nested locks exclude the other threads until the last unlock.
use move.Base.{ℕ, zero, suc, ◌+◌, ◌-◌, ◌<◌, ◌≡◌, ◌≢◌, refl, ℤ, pos, negsuc, arith, ap, ◌∙◌}
use move.Value.{Recmutex}
use move.Recmutex.{recmutex_lock, recmutex_unlock}

-- `n` calls of recmutex_lock by the thread `self`, and `n` of recmutex_unlock.
abbrev pub lock_times : ℕ → ℕ → Recmutex → Recmutex
lock_times zero self m = m
lock_times (suc n) self m = lock_times n self (recmutex_lock self m).1

abbrev pub unlock_times : ℕ → Recmutex → Recmutex
unlock_times zero m = m
unlock_times (suc n) m = unlock_times n (recmutex_unlock m).1

abbrev pub held_by : ℕ → ℕ → Recmutex
held_by self n = record { counter = n; owner_threadnum = self }

lock-again : (self n : ℕ) → recmutex_lock self (held_by self n) ≡ (pos 0, held_by self (n + 1))
unfolding recmutex_lock
lock-again self n = ground arith

lock_times-held_by : (k self n : ℕ) → lock_times k self (held_by self n) ≡ held_by self (n + k)
lock_times-held_by zero self n = ap (held_by self) (omega arith)
lock_times-held_by (suc k) self n =
    rw (lock-again self n) (lock_times-held_by k self (n + 1) ∙ ap (held_by self) (omega arith))

unlock-held_by :
    (self n : ℕ) → 0 < n → recmutex_unlock (held_by self (suc n)) ≡ (pos 0, held_by self n)
unfolding recmutex_unlock
unlock-held_by self n positive = ground arith

unlock_times-held_by :
    (j self n : ℕ) → j < n → unlock_times j (held_by self n) ≡ held_by self (n - j)
unlock_times-held_by zero self n less = ap (held_by self) (omega arith)
unlock_times-held_by (suc j) self zero less = absurd (omega arith)
unlock_times-held_by (suc j) self (suc n) less =
    rw (unlock-held_by self n (omega arith))
      (unlock_times-held_by j self n (omega arith) ∙ ap (held_by self) (omega arith))

lock-free : (self old : ℕ) → recmutex_lock self (held_by old 0) ≡ (pos 0, held_by self 1)
unfolding recmutex_lock
lock-free self old = ground arith

lock_times-free : (n self old : ℕ) → 0 < n → lock_times n self (held_by old 0) ≡ held_by self n
lock_times-free zero self old positive = absurd (omega arith)
lock_times-free (suc n) self old positive =
    rw (lock-free self old) (lock_times-held_by n self 1 ∙ ap (held_by self) (omega arith))

lock-other :
    (self other n : ℕ)
    → 0 < n
    → other ≢ self
    → recmutex_lock other (held_by self n) ≡ (negsuc 0, held_by self n)
unfolding recmutex_lock
lock-other self other n positive ne = ground arith

unlock-last : (self : ℕ) → recmutex_unlock (held_by self 1) ≡ (pos 0, held_by 0 0)
unfolding recmutex_unlock
unlock-last self = refl

unlock_times-all : (n self : ℕ) → 0 < n → unlock_times n (held_by self n) ≡ held_by 0 0
unlock_times-all zero self positive = absurd (omega arith)
unlock_times-all (suc zero) self positive = ap (λ (x : ℤ × Recmutex). x.1) (unlock-last self)
unlock_times-all (suc (suc n)) self positive =
    rw (unlock-held_by self (suc n) (omega arith)) (unlock_times-all (suc n) self (omega arith))

-- A thread locks a free mutex `n` times, at least once. While it has unlocked it `j` times, fewer
-- than `n`, it can lock it again, and a lock by any other thread returns -1 and leaves the mutex as
-- it is. After `n` unlocks a lock by any thread succeeds.
pub nested_lock :
    (n j self other old_owner : ℕ)
    → j < n
    → other ≢ self
    → let held = lock_times n self (held_by old_owner 0) in
      let m = unlock_times j held in
      ((recmutex_lock self m).0 ≡ pos 0)
      × (recmutex_lock other m ≡ (negsuc 0, m))
      × (recmutex_lock other (unlock_times n held) ≡ (pos 0, held_by other 1))
nested_lock n j self other old_owner less ne =
    rw
      (
        lock_times-free n self old_owner (omega arith),
        unlock_times-held_by j self n less,
        unlock_times-all n self (omega arith),
      )
      (
        ap (λ (x : ℤ × Recmutex). x.0) (lock-again self (n - j)),
        lock-other self other (n - j) (omega arith) ne,
        lock-free other 0,
      )
