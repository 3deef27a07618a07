-- ===== src/Node/Stopping.antt =====
-- QSPAuditNode.stop and __check_all_threads (audit/audit.py). That a thread has ended is what `join`
-- waits for.
use qsp_protocol_node.Prelude.{
  ◌≡◌, refl, ◌↔◌, Bool, true, false, not, Option, none, some, List, [], ◌∷◌, All, arith,
  if◌then◌else◌, Result, ok, raise, other, Bool-cases, inl, inr,
}
use qsp_protocol_node.Pool.Manager.{Pool, close}

-- The flag `exec` of a thread, and whether it is alive.
pub record Thread : Type 0 where
  pub exec : Bool
  pub is_alive : Bool

pub record Running : Type 0 where
  pub exec : Bool
  pub is_initialized : Bool
  pub internal_threads : List Thread
  pub pool : Pool

-- The loop to the first thread that is not alive.
unfoldable pub thread_lost : List Thread → Option Thread
thread_lost [] = none
thread_lost (thread ∷ threads) = if not thread.is_alive then some thread else thread_lost threads

unfoldable pub check_all_threads : Running → Result (Unit {0})
unfolding thread_lost
check_all_threads node = if not node.exec then ok tt else elim (thread_lost node.internal_threads) [
  | none ↦ ok tt
  | some thread ↦
      raise (other "Cannot proceed execution. At least one internal thread is not alive")
]

-- A thread that was started is told to stop and joined; the others are skipped.
unfoldable pub stop_thread : Thread → Thread
stop_thread thread = if thread.exec then record { exec = false; is_alive = false } else thread

unfoldable pub stop_threads : List Thread → List Thread
unfolding stop_thread
stop_threads [] = []
stop_threads (thread ∷ threads) = stop_thread thread ∷ stop_threads threads

unfoldable pub stop_node : Running → Running
unfolding stop_threads
stop_node node = record {
  exec = false;
  is_initialized = false;
  internal_threads = stop_threads node.internal_threads;
  pool = close node.pool;
}

lost_iff :
    (threads : List Thread)
    → (thread_lost threads ≡ none) ↔ All (λ thread. thread.is_alive ≡ true) threads
unfolding thread_lost
lost_iff [] = (λ h. tt, λ h. refl)
lost_iff (thread ∷ threads) = elim (Bool-cases thread.is_alive) [
  | inl e ↦ (λ h. (e, (lost_iff threads).0 (rw e at h)), λ all. rw e ((lost_iff threads).1 all.1))
  | inr e ↦ (λ h. absurd (let k = rw e at h in cc), λ all. absurd (let a = all.0 in cc))
]

stop_threads-All :
    (threads : List Thread) → All (λ thread. thread.exec ≡ false) (stop_threads threads)
unfolding stop_threads stop_thread
stop_threads-All [] = tt
stop_threads-All (thread ∷ threads) = (ground arith, stop_threads-All threads)

-- After a stop no thread is to go on and the database takes nothing, and the health check that may
-- still come finds nothing to say.
pub stop_node-stopped :
    (node : Running)
    → All (λ thread. thread.exec ≡ false) (stop_node node).internal_threads
      × ((stop_node node).pool.closed ≡ true)
      × (check_all_threads (stop_node node) ≡ ok tt)
unfolding stop_node check_all_threads close
stop_node-stopped node = (stop_threads-All node.internal_threads, refl, refl)
