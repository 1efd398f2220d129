-- ===== src/Lock.antt =====
-- src/utils/SWMRLock.cpp and .h: the lock for one writer or several readers, with priority access.
-- Each function is a critical section of `m_lock`. A thread that waits on the condition is asleep
-- until it is notified, and then woken until it has the mutex again.
pub mod Exclusion
pub mod Stranded
mod Tests
use medialibrary.Common.{
  ℕ, suc, ◌+◌, ◌-◌, ◌≤◌, ◌<◌, ◌==◌, ltb, ◌≡◌, if◌then◌else◌, Bool, true, false, not, ◌&&◌, ◌||◌,
  List, [], ◌∷◌, ◌++◌,
}

pub data Mode : Type 0 where
  reading writing_mode : Mode

pub record Waiter : Type 0 where
  pub tid : ℕ
  pub mode : Mode

pub record Lock : Type 0 where
  pub nb_reader : ℕ
  pub nb_reader_waiting : ℕ
  pub writing : Bool
  pub nb_writer_waiting : ℕ
  pub priority_owners : List ℕ
  pub asleep : List Waiter
  pub woken : List Waiter

abbrev pub init : Lock
init = record {
  nb_reader = 0;
  nb_reader_waiting = 0;
  writing = false;
  nb_writer_waiting = 0;
  priority_owners = [];
  asleep = [];
  woken = [];
}

-- `std::find` on the owners of the priority.
unfoldable pub is_owner : ℕ → List ℕ → Bool
is_owner tid [] = false
is_owner tid (t ∷ ts) = t == tid || is_owner tid ts

abbrev is_empty : List ℕ → Bool
is_empty [] = true
is_empty (t ∷ ts) = false

abbrev pub has_priority : Lock → ℕ → Bool
has_priority l tid = is_owner tid l.priority_owners

unfoldable pub must_give_way : Lock → ℕ → Bool
must_give_way l tid = not (is_empty l.priority_owners) && not (has_priority l tid)

-- The predicates of the two waits.
unfoldable pub may_enter : Mode → Lock → ℕ → Bool
may_enter reading l tid = if must_give_way l tid then false else not l.writing
may_enter writing_mode l tid =
    if must_give_way l tid then false else not l.writing && l.nb_reader == 0

-- What the functions do before and behind their wait.
abbrev pub queue : Mode → Lock → Lock
queue reading l = record l { nb_reader_waiting = l.nb_reader_waiting + 1 }
queue writing_mode l = record l { nb_writer_waiting = l.nb_writer_waiting + 1 }

abbrev pub grant : Mode → Lock → Lock
grant reading l = record l {
  nb_reader_waiting = l.nb_reader_waiting - 1;
  nb_reader = l.nb_reader + 1;
}
grant writing_mode l = record l { nb_writer_waiting = l.nb_writer_waiting - 1; writing = true }

-- The test of the predicate: the lock is taken, or the thread falls asleep.
unfoldable pub try_enter : Mode → ℕ → Lock → Lock
try_enter mode tid l =
    if may_enter mode l tid
    then grant mode l
    else record l { asleep = record { tid = tid; mode = mode } ∷ l.asleep }

-- `lock_read` and `lock_write`, up to the first test.
unfoldable pub lock : Mode → ℕ → Lock → Lock
lock mode tid l = try_enter mode tid (queue mode l)

-- `notify_all`.
abbrev pub notify_all : Lock → Lock
notify_all l = record l { asleep = []; woken = l.asleep ++ l.woken }

-- `unlock_read`, which notifies one thread if there is need; the flag says so.
unfoldable pub unlock_read : Lock → Lock × Bool
unlock_read l =
    let left = record l { nb_reader = l.nb_reader - 1 } in
    (left, left.nb_reader == 0 && ltb 0 left.nb_writer_waiting)

unfoldable pub unlock_write : Lock → Lock
unlock_write l =
    let left = record l { writing = false } in
    if ltb 0 left.nb_reader_waiting || ltb 0 left.nb_writer_waiting then notify_all left else left

unfoldable pub acquire_priority_access : ℕ → Lock → Lock
acquire_priority_access tid l = record l { priority_owners = l.priority_owners ++ tid ∷ [] }

-- `std::remove` and `erase`.
unfoldable pub erase_owner : ℕ → List ℕ → List ℕ
erase_owner tid [] = []
erase_owner tid (t ∷ ts) = if t == tid then erase_owner tid ts else t ∷ erase_owner tid ts

unfoldable pub release_priority_access : ℕ → Lock → Lock
release_priority_access tid l =
    let left = record l { priority_owners = erase_owner tid l.priority_owners } in
    if is_empty left.priority_owners then notify_all left else left

-- One waiter out of a list, and the others.
pub data Picks (w : Waiter) : List Waiter → List Waiter → Type 0 where
  first : {ws : List Waiter} → Picks w (w ∷ ws) ws
  later : {x : Waiter} {ws rest : List Waiter} → Picks w ws rest → Picks w (x ∷ ws) (x ∷ rest)

-- The steps of all threads. A reader and the writer unlock only what they hold, and the priority is
-- not recursive, as the source asserts. `notify_one` picks any sleeping thread, or finds none.
pub data Step (l l' : Lock) : Type 0 where
  locks : (mode : Mode) (tid : ℕ) → l' ≡ lock mode tid l → Step l l'
  retries :
      (w : Waiter) (rest : List Waiter)
      → Picks w l.woken rest
      → l' ≡ try_enter w.mode w.tid (record l { woken = rest })
      → Step l l'
  unlocks_read : 0 < l.nb_reader → (unlock_read l) ≡ (l', false) → Step l l'
  unlocks_read_notifying :
      (left : Lock) (w : Waiter) (rest : List Waiter)
      → 0 < l.nb_reader
      → unlock_read l ≡ (left, true)
      → Picks w l.asleep rest
      → l' ≡ record left { asleep = rest; woken = w ∷ left.woken }
      → Step l l'
  unlocks_read_unheard : 0 < l.nb_reader → unlock_read l ≡ (l', true) → l.asleep ≡ [] → Step l l'
  unlocks_write : l.writing ≡ true → l' ≡ unlock_write l → Step l l'
  acquires : (tid : ℕ) → has_priority l tid ≡ false → l' ≡ acquire_priority_access tid l → Step l l'
  releases : (tid : ℕ) → has_priority l tid ≡ true → l' ≡ release_priority_access tid l → Step l l'
  wakes_spuriously :
      (w : Waiter) (rest : List Waiter)
      → Picks w l.asleep rest
      → l' ≡ record l { asleep = rest; woken = w ∷ l.woken }
      → Step l l'

pub data Reach (s : Lock) : Lock → Type 0 where
  here : Reach s s
  next : {l l' : Lock} → Reach s l → Step l l' → Reach s l'
