-- ===== src/Recmutex.antt =====
-- The locks of objects: move/recmutex.c. `self` is the number of the current thread, 0 without one.
pub mod Nesting
use move.Base.{ℕ, ◌+◌, ◌-◌, not, ◌==◌, ◌&&◌, leb, if◌then◌else◌, ℤ, pos, negsuc}
use move.Value.{Recmutex}

unfoldable pub recmutex_init : ℕ → Recmutex
recmutex_init self = record { counter = 0; owner_threadnum = self }

unfoldable pub recmutex_lock : ℕ → Recmutex → ℤ × Recmutex
recmutex_lock self mutex =
    if not (mutex.counter == 0) && not (mutex.owner_threadnum == self)
    then (negsuc 0, mutex)
    else (pos 0, record { counter = mutex.counter + 1; owner_threadnum = self })

-- The counter is decremented first; 0 and less free the mutex.
unfoldable pub recmutex_unlock : Recmutex → ℤ × Recmutex
recmutex_unlock mutex =
    if leb mutex.counter 1
    then (pos 0, record { counter = 0; owner_threadnum = 0 })
    else (pos 0, record mutex { counter = mutex.counter - 1 })
