-- ===== src/Buffer/Queue.antt =====
-- The buffer as a queue of bytes: what a run of its calls does to the readable bytes, by a
-- description that knows no index and no vector.
use talib.Prelude.{
  ℕ, ◌+◌, ◌≡◌, Option, none, some, List, [], ◌∷◌, ◌++◌, leb, if◌then◌else◌, ◌>>=◌, length, drop,
  ◌<◌, arith, ◌^◌, length-replicate, refl, Bool-cases, inl, ap, inr,
}
use talib.Buffer.{
  Buffer, IsValid, content, readable_bytes, append, retrieve, retrieve_all, new_buffer,
}
use talib.Buffer.Space.{length-content}
use talib.Buffer.Content.{retrieve_lem, retrieve_too_many, retrieve_all-Retrieves}
use talib.Buffer.Input.{append_lem}

-- The calls by which a connection uses its buffers.
pub data Call : Type 0 where
  appends : List ℕ → Call
  retrieves : ℕ → Call
  clears : Call

pub step : Call → Buffer → Option Buffer
step (appends bytes) b = append bytes b
step (retrieves n) b = retrieve n b
step clears b = some (retrieve_all b)

-- The same calls on a queue; a retrieve of more bytes than there are stops the process.
unfoldable pub queue_step : Call → List ℕ → Option (List ℕ)
queue_step (appends bytes) q = some (q ++ bytes)
queue_step (retrieves n) q = if leb n (length q) then some (drop n q) else none
queue_step clears q = some []

pub run : List Call → Buffer → Option Buffer
run [] b = some b
run (c ∷ cs) b = do b' ← step c b; run cs b'

unfoldable pub queue_run : List Call → List ℕ → Option (List ℕ)
queue_run [] q = some q
queue_run (c ∷ cs) q = do q' ← queue_step c q; queue_run cs q'

abbrev pub call_size : Call → ℕ
call_size (appends bytes) = length bytes
call_size _ = 0

abbrev pub total : List Call → ℕ
total [] = 0
total (c ∷ cs) = call_size c + total cs

-- Both stop the process, or both go on, with the queue's bytes in a valid buffer.
abbrev pub Agrees : Option Buffer → Option (List ℕ) → Type 0
Agrees none none = Unit
Agrees (some b) (some q) = IsValid b × (content b ≡ q)
Agrees _ _ = ⊥

cleared : (b : Buffer) → IsValid b → content (retrieve_all b) ≡ []
unfolding retrieve_all
cleared b v = refl

-- A run of calls on a valid buffer does to the readable bytes what the same run does to a queue:
-- it stops the process exactly where the queue has too few bytes to retrieve, and otherwise ends in
-- a valid buffer with the queue's bytes. The vector and all bytes appended are below 2^31 together.
pub run-Agrees :
    (cs : List Call) (b : Buffer)
    → IsValid b
    → length b.buffer + total cs < 2 ^ 31
    → Agrees (run cs b) (queue_run cs (content b))
unfolding run queue_run step queue_step
run-Agrees [] b v h = (v, refl)
run-Agrees (appends bytes ∷ cs) b v h =
    let (b', e, a) =
      append_lem bytes b (record { valid = v; narrow = omega arith; small = omega arith }) in
    rw (e, ← a.bytes_behind) (run-Agrees cs b' a.valid (omega (arith, a.grows)))
run-Agrees (retrieves n ∷ cs) b v h = elim (Bool-cases (leb n (readable_bytes b))) [
  | inl enough ↦
      let (b', e, r) = retrieve_lem n b v (ground arith) in
      rw (length-content b v, enough, e, ← r.bytes_left)
        (run-Agrees cs b' r.valid (omega (arith, ap length r.same_vector)))
  | inr few ↦ rw (length-content b v, few, retrieve_too_many n b (ground arith)) tt
]
run-Agrees (clears ∷ cs) b v h =
    let r = retrieve_all-Retrieves (readable_bytes b) b v (omega arith) in
    rw (← cleared b v)
      (run-Agrees cs (retrieve_all b) r.valid (omega (arith, ap length r.same_vector)))

pub new_buffer-IsValid : (size : ℕ) → IsValid (new_buffer size) × (content (new_buffer size) ≡ [])
unfolding new_buffer
new_buffer-IsValid size = (omega (arith, length-replicate {A = ℕ} (8 + size) 0), refl)

pub length-new_buffer : (size : ℕ) → length (new_buffer size).buffer ≡ 8 + size
unfolding new_buffer
length-new_buffer size = length-replicate {A = ℕ} (8 + size) 0
