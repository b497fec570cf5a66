-- ===== src/Reactor/EventLoop/Pending.antt =====
-- What one call of doPendingFunctors runs.
use talib.Prelude.{
  ℕ, ◌+◌, ◌≡◌, refl, sym, ap, ◌∙◌, true, false, List, [], ◌∷◌, ◌++◌, append-nil, append_assoc,
  arith, length, length-append,
}
use talib.Reactor.EventLoop.{
  EventLoop, wakeup, push_back, queue_in_loop, queue_all, call, call_all, do_pending_functors,
}

-- The functors that these leave to their loop.
abbrev pub left_by : (ℕ → List ℕ) → List ℕ → List ℕ
left_by body [] = []
left_by body (f ∷ fs) = body f ++ left_by body fs

abbrev busy : EventLoop → List ℕ → ℕ → List ℕ → EventLoop
busy l pending wakeups ran = record l {
  calling_pending_functors = true;
  pending_functors = pending;
  wakeups = wakeups;
  ran = ran;
}

busy_same :
    (l : EventLoop) {ps ps' : List ℕ} {w w' : ℕ} {rs rs' : List ℕ}
    → ps ≡ ps'
    → w ≡ w'
    → rs ≡ rs'
    → busy l ps w rs ≡ busy l ps' w' rs'
busy_same l e f g = rw (e, f, g) refl

queue_all-busy :
    (fs : List ℕ) (l : EventLoop) (ps : List ℕ) (w : ℕ) (rs : List ℕ)
    → queue_all fs (busy l ps w rs) ≡ busy l (ps ++ fs) (w + length fs) rs
unfolding queue_all queue_in_loop push_back wakeup
queue_all-busy [] l ps w rs = busy_same l (sym (append-nil ps)) (omega arith) refl
queue_all-busy (f ∷ fs) l ps w rs =
    queue_all-busy fs l (ps ++ f ∷ []) (w + 1) rs
    ∙ busy_same l (append_assoc ps (f ∷ []) fs) (omega arith) refl

call_all-busy :
    (body : ℕ → List ℕ) (fs : List ℕ) (l : EventLoop) (ps : List ℕ) (w : ℕ) (rs : List ℕ)
    → call_all body fs (busy l ps w rs)
      ≡ busy l (ps ++ left_by body fs) (w + length (left_by body fs)) (rs ++ fs)
unfolding call_all call
call_all-busy body [] l ps w rs =
    busy_same l (sym (append-nil ps)) (omega arith) (sym (append-nil rs))
call_all-busy body (f ∷ fs) l ps w rs =
    ap (call_all body fs) (queue_all-busy (body f) l ps w (rs ++ f ∷ []))
    ∙ call_all-busy body fs l (ps ++ body f) (w + length (body f)) (rs ++ f ∷ [])
    ∙ busy_same l (append_assoc ps (body f) (left_by body fs))
        (omega (arith, length-append (body f) (left_by body fs))) (append_assoc rs (f ∷ []) fs)

-- One call of doPendingFunctors runs the functors that were pending, each once and in order. What
-- they leave to the loop is pending behind it, and the poller is woken once for each of those.
pub do_pending_functors_lem :
    (body : ℕ → List ℕ) (l : EventLoop)
    → do_pending_functors body l ≡ record l {
      calling_pending_functors = false;
      pending_functors = left_by body l.pending_functors;
      wakeups = l.wakeups + length (left_by body l.pending_functors);
      ran = l.ran ++ l.pending_functors;
    }
unfolding do_pending_functors
do_pending_functors_lem body l =
    ap {A = EventLoop} {B = EventLoop} (λ z. record z { calling_pending_functors = false })
      (call_all-busy body l.pending_functors l [] l.wakeups l.ran)
