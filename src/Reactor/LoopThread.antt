-- ===== src/Reactor/LoopThread.antt =====
-- src/Reactor/EventLoopThread.h and EventLoopThread.cpp: startLoop and the destructor in one thread,
-- threadFunc in the other. What runs under `m_mutex` is one step; the wait of the condition gives the
-- lock up in the step that goes to sleep. Nothing but the destructor quits the loop here.
pub mod Handshake
mod Tests
use talib.Prelude.{Bool, true, false}

-- Where the owner of the object is. A sleeper knows whether it was notified; `returned` has what
-- startLoop gives, true for a loop.
pub data Owner : Type 0 where
  idle checking leaving quitting joining gone aborted : Owner
  sleeping returned : Bool → Owner

pub data LoopThread : Type 0 where
  unstarted initialising published looping ended : LoopThread

-- `p_loop` is whether the pointer is set, `quit` whether the loop was told to quit.
pub record World : Type 0 where
  pub owner : Owner
  pub thread : LoopThread
  pub p_loop : Bool
  pub quit : Bool

abbrev pub init : World
init = record { owner = idle; thread = unstarted; p_loop = false; quit = false }

-- A notification reaches an owner that sleeps.
abbrev pub notified : Owner → Owner
notified (sleeping b) = sleeping true
notified idle = idle
notified checking = checking
notified leaving = leaving
notified quitting = quitting
notified joining = joining
notified gone = gone
notified aborted = aborted
notified (returned b) = returned b

-- A loop that has not begun fails the assertion of its `quit`, and its `loop` clears the flag.
-- The steps, with whether the step is a wake-up without a notification.
pub data Step : Bool → World → World → Type 0 where
  starts :
      {p q : Bool}
      → Step false
          (record { owner = idle; thread = unstarted; p_loop = p; quit = q })
          (record { owner = checking; thread = initialising; p_loop = p; quit = q })
  sleeps :
      {t : LoopThread} {q : Bool}
      → Step false
          (record { owner = checking; thread = t; p_loop = false; quit = q })
          (record { owner = sleeping false; thread = t; p_loop = false; quit = q })
  sees :
      {t : LoopThread} {q : Bool}
      → Step false
          (record { owner = checking; thread = t; p_loop = true; quit = q })
          (record { owner = leaving; thread = t; p_loop = true; quit = q })
  wakes :
      {t : LoopThread} {p q : Bool}
      → Step false
          (record { owner = sleeping true; thread = t; p_loop = p; quit = q })
          (record { owner = checking; thread = t; p_loop = p; quit = q })
  wakes_by_itself :
      {t : LoopThread} {p q : Bool}
      → Step true
          (record { owner = sleeping false; thread = t; p_loop = p; quit = q })
          (record { owner = checking; thread = t; p_loop = p; quit = q })
  returns :
      {t : LoopThread} {p q : Bool}
      → Step false
          (record { owner = leaving; thread = t; p_loop = p; quit = q })
          (record { owner = returned p; thread = t; p_loop = p; quit = q })
  publishes :
      {o : Owner} {p q : Bool}
      → Step false
          (record { owner = o; thread = initialising; p_loop = p; quit = q })
          (record { owner = notified o; thread = published; p_loop = true; quit = q })
  enters :
      {o : Owner} {p q : Bool}
      → Step false
          (record { owner = o; thread = published; p_loop = p; quit = q })
          (record { owner = o; thread = looping; p_loop = p; quit = false })
  ends :
      {o : Owner} {p : Bool}
      → Step false
          (record { owner = o; thread = looping; p_loop = p; quit = true })
          (record { owner = o; thread = ended; p_loop = false; quit = true })
  destroys :
      {t : LoopThread} {b q : Bool}
      → Step false
          (record { owner = returned b; thread = t; p_loop = true; quit = q })
          (record { owner = quitting; thread = t; p_loop = true; quit = q })
  destroys_without :
      {t : LoopThread} {b q : Bool}
      → Step false
          (record { owner = returned b; thread = t; p_loop = false; quit = q })
          (record { owner = gone; thread = t; p_loop = false; quit = q })
  quits :
      {p q : Bool}
      → Step false
          (record { owner = quitting; thread = looping; p_loop = p; quit = q })
          (record { owner = joining; thread = looping; p_loop = p; quit = true })
  aborts :
      {p q : Bool}
      → Step false
          (record { owner = quitting; thread = published; p_loop = p; quit = q })
          (record { owner = aborted; thread = published; p_loop = p; quit = q })
  joins :
      {p q : Bool}
      → Step false
          (record { owner = joining; thread = ended; p_loop = p; quit = q })
          (record { owner = gone; thread = ended; p_loop = p; quit = q })

pub data Reach : World → Type 0 where
  start : Reach init
  later : {k : Bool} {v w : World} → Reach v → Step k v w → Reach w
