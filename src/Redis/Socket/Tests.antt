-- ===== src/Redis/Socket/Tests.antt =====
-- Two bytes in two steps, and a peer that is too slow.
use talib.Prelude.{
  ℕ, zero, suc, ◌≡◌, refl, true, some, List, [], ◌∷◌, arith, replicate, All, length-replicate,
}
use talib.Redis.Socket.{Answer, moved, closed, waits, completed, timeout, netclose, write, read}
use talib.Redis.Socket.Moves.{Ends, is_some, write-Ends}

abbrev patient : List Answer
patient = waits ∷ moved 1 ∷ moved 1 ∷ replicate 300 waits

all_wait : (n : ℕ) → All (λ a. is_some a ≡ true) (replicate n waits)
all_wait zero = tt
all_wait (suc n) = (refl, all_wait n)

patient-some : All (λ a. is_some a ≡ true) patient
patient-some = (refl, (refl, (refl, all_wait 300)))

write-Ends_example : Ends (write 0 patient (7 ∷ 8 ∷ []) []) (7 ∷ 8 ∷ [])
write-Ends_example =
    write-Ends patient 0 (7 ∷ 8 ∷ []) [] patient-some (omega arith)
      (omega (arith, length-replicate 300 waits))

written : write 0 patient (7 ∷ 8 ∷ []) [] ≡ some (completed, 7 ∷ 8 ∷ [])
unfolding write
written = refl

too_late : write 99 (waits ∷ moved 1 ∷ []) (7 ∷ 8 ∷ []) [] ≡ some (timeout, 7 ∷ [])
unfolding write
too_late = refl

half_read : read 0 (moved 2 ∷ closed ∷ []) 3 (1 ∷ 2 ∷ []) [] ≡ some (netclose, 1 ∷ 2 ∷ [])
unfolding read
half_read = refl
