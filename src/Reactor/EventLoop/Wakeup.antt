-- ===== src/Reactor/EventLoop/Wakeup.antt =====
-- The loop's thread with the threads that leave functors to it: no functor waits for a poller that
-- nothing wakes.
use talib.Prelude.{
  ℕ, ◌+◌, ◌<◌, ◌≡◌, refl, sym, ap, ◌∙◌, subst, Bool, true, false, List, [], ◌∷◌, ◌++◌, append-nil,
  append_assoc, arith, if◌then◌else◌, length,
}
use talib.Reactor.EventLoop.{
  EventLoop, wakeup, handle_read, push_back, queue_in_loop, queue_all, call,
}

-- Where the loop's thread is: in the poller, with the active channels, or with the functors that it
-- has taken.
pub data Phase : Type 0 where
  polling : Phase
  handling : Phase
  calling : List ℕ → Phase

-- `asked` are all functors left to the loop, the oldest first, and `in_flight` the threads between
-- the two parts of queueInLoop.
pub record World : Type 0 where
  pub l : EventLoop
  pub phase : Phase
  pub in_flight : ℕ
  pub asked : List ℕ

abbrev taken : EventLoop → EventLoop
taken l = record l { calling_pending_functors = true; pending_functors = [] }

abbrev called : EventLoop → EventLoop
called l = record l { calling_pending_functors = false }

-- The steps that may come next, those of other threads first. A poller returns for whatever
-- reason; a channel's callback drains the event descriptor or leaves functors.
pub data Step (body : ℕ → List ℕ) : World → World → Type 0 where
  pushes :
      {l : EventLoop} {p : Phase} {n : ℕ} {fs : List ℕ} (f : ℕ)
      → Step body
          (record { l = l; phase = p; in_flight = n; asked = fs })
          (record { l = push_back f l; phase = p; in_flight = n + 1; asked = fs ++ f ∷ [] })
  wakes :
      {l : EventLoop} {p : Phase} {n : ℕ} {fs : List ℕ}
      → Step body
          (record { l = l; phase = p; in_flight = n + 1; asked = fs })
          (record { l = wakeup l; phase = p; in_flight = n; asked = fs })
  returns :
      {l : EventLoop} {n : ℕ} {fs : List ℕ}
      → Step body
          (record { l = l; phase = polling; in_flight = n; asked = fs })
          (record { l = l; phase = handling; in_flight = n; asked = fs })
  drains :
      {l : EventLoop} {n : ℕ} {fs : List ℕ}
      → Step body
          (record { l = l; phase = handling; in_flight = n; asked = fs })
          (record { l = handle_read l; phase = handling; in_flight = n; asked = fs })
  leaves :
      {l : EventLoop} {n : ℕ} {fs : List ℕ} (gs : List ℕ)
      → Step body
          (record { l = l; phase = handling; in_flight = n; asked = fs })
          (record { l = queue_all gs l; phase = handling; in_flight = n; asked = fs ++ gs })
  takes :
      {l : EventLoop} {n : ℕ} {fs : List ℕ}
      → Step body
          (record { l = l; phase = handling; in_flight = n; asked = fs })
          (record { l = taken l; phase = calling l.pending_functors; in_flight = n; asked = fs })
  calls :
      {l : EventLoop} {n : ℕ} {fs gs : List ℕ} {f : ℕ}
      → Step body
          (record { l = l; phase = calling (f ∷ gs); in_flight = n; asked = fs })
          (record { l = call body f l; phase = calling gs; in_flight = n; asked = fs ++ body f })
  ends :
      {l : EventLoop} {n : ℕ} {fs : List ℕ}
      → Step body
          (record { l = l; phase = calling []; in_flight = n; asked = fs })
          (record { l = called l; phase = polling; in_flight = n; asked = fs })

pub data Steps (body : ℕ → List ℕ) : World → World → Type 0 where
  done : {w : World} → Steps body w w
  next : {u v w : World} → Step body u v → Steps body v w → Steps body u w

-- The functors that the loop's thread has taken and not yet run.
abbrev pub taken_by : Phase → List ℕ
taken_by polling = []
taken_by handling = []
taken_by (calling fs) = fs

abbrev flag_of : Phase → Bool
flag_of polling = false
flag_of handling = false
flag_of (calling fs) = true

abbrev is_handling : Phase → Bool
is_handling polling = false
is_handling handling = true
is_handling (calling fs) = false

-- Every functor asked for has run, is about to, or is pending, in order. Outside of the handling of
-- the channels, a pending functor has the descriptor written, or a thread about to write it.
pub record IsAwake (w : World) : Type 0 where
  pub flag : w.l.calling_pending_functors ≡ flag_of w.phase
  pub in_order : w.asked ≡ w.l.ran ++ (taken_by w.phase ++ w.l.pending_functors)
  pub woken :
      is_handling w.phase ≡ false → 0 < length w.l.pending_functors → 0 < w.l.wakeups + w.in_flight

-- A functor left by the loop's own thread, with a wake-up only while it calls functors; and several.
abbrev Left : List ℕ → EventLoop → EventLoop → Type 0
Left gs l l' =
    (l'.calling_pending_functors ≡ l.calling_pending_functors)
    × (l'.ran ≡ l.ran)
    × (l'.pending_functors ≡ l.pending_functors ++ gs)
    × (l'.wakeups ≡ (if l.calling_pending_functors then l.wakeups + length gs else l.wakeups))

queue_in_loop-Left : (g : ℕ) (l : EventLoop) → Left (g ∷ []) l (queue_in_loop true g l)
unfolding queue_in_loop push_back wakeup
queue_in_loop-Left g l = (ground arith, ground arith, ground arith, ground arith)

queue_all-Left : (gs : List ℕ) (l : EventLoop) → Left gs l (queue_all gs l)
unfolding queue_all
queue_all-Left [] l = (refl, refl, sym (append-nil l.pending_functors), ground arith)
queue_all-Left (g ∷ gs) l =
    let (a, b, c, d) = queue_in_loop-Left g l in
    let (a', b', c', d') = queue_all-Left gs (queue_in_loop true g l) in
    (
      a' ∙ a,
      b' ∙ b,
      c' ∙ ap (λ z. z ++ gs) c ∙ append_assoc l.pending_functors (g ∷ []) gs,
      d' ∙ ground (arith, a, d),
    )

more_woken :
    (ps gs : List ℕ) (w n w' : ℕ)
    → (0 < length ps → 0 < w + n)
    → w' ≡ w + length gs
    → 0 < length (ps ++ gs)
    → 0 < w' + n
more_woken [] gs w n w' h e k = omega arith
more_woken (p ∷ ps) gs w n w' h e k = let old = h (omega arith) in omega arith

step-IsAwake : (body : ℕ → List ℕ) {u v : World} → Step body u v → IsAwake u → IsAwake v
unfolding push_back wakeup handle_read call
step-IsAwake body (pushes {p = p} f) a = record {
  flag = a.flag;
  in_order = rw a.in_order (simp append_assoc);
  woken = λ h k. omega arith;
}
step-IsAwake body wakes a = record {
  flag = a.flag;
  in_order = a.in_order;
  woken = λ h k. omega arith;
}
step-IsAwake body returns a = record { flag = a.flag; in_order = a.in_order; woken = λ h k. cc }
step-IsAwake body drains a = record { flag = a.flag; in_order = a.in_order; woken = λ h k. cc }
step-IsAwake body (leaves {l = l} gs) a =
    let (x, y, z, _) = queue_all-Left gs l in
    record {
      flag = x ∙ a.flag;
      in_order = rw (a.in_order, y, z) (append_assoc l.ran l.pending_functors gs);
      woken = λ h k. cc;
    }
step-IsAwake body (takes {l = l}) a = record {
  flag = refl;
  in_order = a.in_order ∙ ap (λ z. l.ran ++ z) (sym (append-nil l.pending_functors));
  woken = λ h k. omega arith;
}
step-IsAwake body (calls {l = l} {n = n} {gs = gs} {f = f}) a =
    let l' : EventLoop = record l { ran = l.ran ++ f ∷ [] } in
    let (x, y, z, t) = queue_all-Left (body f) l' in
    record {
      flag = x ∙ a.flag;
      in_order = rw (a.in_order, y, z) (simp append_assoc);
      woken = λ h k.
          more_woken l.pending_functors (body f) l.wakeups n (queue_all (body f) l').wakeups
            (λ j. a.woken refl j) (t ∙ rw a.flag refl) (subst (λ r. 0 < length r) z k);
    }
step-IsAwake body ends a = record {
  flag = refl;
  in_order = a.in_order;
  woken = λ h k. a.woken refl k;
}

-- From a world in which this holds, as it does where the loop polls and no functor is pending, and
-- however the threads interleave: every functor left to the loop has run, is being run or is pending,
-- in the order in which they were left and each once; and while the loop polls or calls functors, a
-- functor is pending only if the event descriptor is written, or a thread is about to write it. (A
-- loop that begins with a functor already pending is not such a world.)
pub Steps-IsAwake : (body : ℕ → List ℕ) {u v : World} → Steps body u v → IsAwake u → IsAwake v
Steps-IsAwake body done a = a
Steps-IsAwake body (next s ss) a = Steps-IsAwake body ss (step-IsAwake body s a)
