-- ===== src/Reactor/Poll/Active.antt =====
-- What the poller reports, and an entry that is ignored.
use talib.Prelude.{
  ℕ, zero, suc, ◌<◌, ◌≡◌, refl, ap, ◌∙◌, subst, inl, inr, Bool, true, false, not, ◌||◌, Option,
  none, some, List, [], ◌∷◌, arith, ◌==◌, if◌then◌else◌, Bool-cases, length, get_elem?,
  get_elem?-set_self, find, insert, find-insert, ℤ, pos, negsuc,
}
use talib.Prelude.{set}
use talib.Reactor.Channel.{Mask, Channel, any_bit, none_event, set_revents, is_none_event}
use talib.Reactor.Poll.{
  PollFd, Poll, ignored, same_fd, update_channel, find_fd, fill_active_channels,
}

-- The entries with an event, in order.
abbrev pub ready : List PollFd → List (ℤ × Mask)
ready [] = []
ready (pfd ∷ pollfds) =
    if any_bit pfd.revents then (pfd.fd, pfd.revents) ∷ ready pollfds else ready pollfds

abbrev pub reported : List Channel → List (ℤ × Mask)
reported [] = []
reported (c ∷ active) = (pos c.fd, c.revents) ∷ reported active

-- The channel of an entry stands in the map.
abbrev pub is_own : ℤ → Option Channel → Bool
is_own fd none = false
is_own fd (some c) = same_fd (pos c.fd) fd

abbrev pub IsListed : List (ℕ × Channel) → List PollFd → Type 0
IsListed channels [] = Unit
IsListed channels (pfd ∷ pollfds) =
    ((not (any_bit pfd.revents) || is_own pfd.fd (find_fd pfd.fd channels)) ≡ true)
    × IsListed channels pollfds

own-insert :
    (fd : ℤ) (c : Channel) (m : Mask) (channels : List (ℕ × Channel))
    → is_own fd (find_fd fd channels) ≡ true
    → is_own fd (find_fd fd (insert c.fd (set_revents m c) channels)) ≡ true
unfolding find_fd
own-insert (pos d) c m channels h = elim (Bool-cases (c.fd == d)) [
  | inl same ↦ rw (find-insert c.fd d (set_revents m c) channels, same) same
  | inr other ↦ rw (find-insert c.fd d (set_revents m c) channels, other) h
]
own-insert (negsuc n) c m channels h = h

insert-IsListed :
    (c : Channel) (m : Mask) (channels : List (ℕ × Channel)) (pollfds : List PollFd)
    → IsListed channels pollfds
    → IsListed (insert c.fd (set_revents m c) channels) pollfds
insert-IsListed c m channels [] l = tt
insert-IsListed c m channels (pfd ∷ pollfds) l = (
  elim (Bool-cases (any_bit pfd.revents)) [
    | inl e ↦ rw e (
        own-insert pfd.fd c m channels
          (subst (λ b. (not b || is_own pfd.fd (find_fd pfd.fd channels)) ≡ true) e l.0))
    | inr e ↦ rw e refl
  ],
  insert-IsListed c m channels pollfds l.1,
)

same_fd_lem : (a b : ℤ) → same_fd a b ≡ true → a ≡ b
same_fd_lem (pos a) (pos b) h = let e : a ≡ b = ground arith in ap (λ n. pos n) e
same_fd_lem (negsuc a) (negsuc b) h = let e : a ≡ b = ground arith in ap (λ n. negsuc n) e
same_fd_lem (pos a) (negsuc b) h = absurd (cc h)
same_fd_lem (negsuc a) (pos b) h = absurd (cc h)

owner :
    (fd : ℤ) (o : Option Channel)
    → is_own fd o ≡ true
    → (c : Channel) × (o ≡ some c) × (same_fd (pos c.fd) fd ≡ true)
owner fd none h = absurd (cc h)
owner fd (some c) h = (c, refl, h)

no_entries : (es : List (ℤ × Mask)) → 0 ≡ length es → [] ≡ es
no_entries [] h = refl
no_entries (e ∷ es) h = absurd (omega arith)

filled :
    (pfd : PollFd) (pollfds : List PollFd) (channels channels' : List (ℕ × Channel))
    (num_events : ℕ) (c : Channel) (active : List Channel)
    → any_bit pfd.revents ≡ true
    → find_fd pfd.fd channels ≡ some c
    → same_fd (pos c.fd) pfd.fd ≡ true
    → fill_active_channels num_events pollfds (insert c.fd (set_revents pfd.revents c) channels)
      ≡ some (active, channels')
    → reported active ≡ ready pollfds
    → (all : List Channel) × (channels2 : List (ℕ × Channel)) × (fill_active_channels
          (suc num_events)
          (pfd ∷ pollfds)
          channels
        ≡ some (all, channels2))
      × (reported all ≡ ready (pfd ∷ pollfds))
unfolding fill_active_channels
filled pfd pollfds channels channels' num_events c active e g s f r = (
  set_revents pfd.revents c ∷ active,
  channels',
  rw (e, g, s, f) refl,
  rw e (
      ap (λ fd. (fd, pfd.revents) ∷ reported active) (same_fd_lem (pos c.fd) pfd.fd s)
      ∙ ap (λ es. (pfd.fd, pfd.revents) ∷ es) r),
)

-- When each entry with an event has its own channel in the map, and `poll` has counted these entries,
-- no assertion fails, and the active channels are those of these entries, in their order, each with
-- the events of its entry.
pub fill_active_channels_lem :
    (pollfds : List PollFd) (channels : List (ℕ × Channel)) (num_events : ℕ)
    → IsListed channels pollfds
    → num_events ≡ length (ready pollfds)
    → (active : List Channel) × (channels' : List (ℕ × Channel)) × (fill_active_channels num_events
          pollfds channels
        ≡ some (active, channels'))
      × (reported active ≡ ready pollfds)
unfolding fill_active_channels
fill_active_channels_lem [] channels num_events l h = ([], channels, refl, refl)
fill_active_channels_lem (pfd ∷ pollfds) channels zero l h =
    ([], channels, refl, no_entries (ready (pfd ∷ pollfds)) h)
fill_active_channels_lem (pfd ∷ pollfds) channels (suc num_events) l h =
    elim (Bool-cases (any_bit pfd.revents)) [
      | inr e ↦
          let h' : suc num_events ≡ length (ready pollfds) = h ∙ rw e refl in
          let (active, channels', f, r) =
            fill_active_channels_lem pollfds channels (suc num_events) l.1 h' in
          (active, channels', rw (e, f) refl, rw e r)
      | inl e ↦
          let own : is_own pfd.fd (find_fd pfd.fd channels) ≡ true =
            subst (λ b. (not b || is_own pfd.fd (find_fd pfd.fd channels)) ≡ true) e l.0 in
          let (c, g, s) = owner pfd.fd (find_fd pfd.fd channels) own in
          let count : suc num_events ≡ suc (length (ready pollfds)) = h ∙ rw e refl in
          let h' : num_events ≡ length (ready pollfds) = omega arith in
          let (active, channels', f, r) =
            fill_active_channels_lem pollfds (insert c.fd (set_revents pfd.revents c) channels)
              num_events (insert-IsListed c pfd.revents channels pollfds l.1) h' in
          filled pfd pollfds channels channels' num_events c active e g s f r
    ]

index_below :
    (pollfds : List PollFd) (idx : ℕ) (pfd : PollFd)
    → get_elem? pollfds idx ≡ some pfd
    → idx < length pollfds
index_below [] idx pfd h = absurd (cc h)
index_below (x ∷ pollfds) zero pfd h = omega arith
index_below (x ∷ pollfds) (suc idx) pfd h = omega (arith, index_below pollfds idx pfd h)

-- Once a channel has waited for nothing, its entry is ignored for good: an update of it succeeds,
-- whatever it waits for now, and leaves the entry ignored.
pub ignored_stays :
    (c d : Channel) (idx : ℕ) (pfd : PollFd) (p : Poll)
    → c.index ≡ some idx
    → find c.fd p.channels ≡ some d
    → get_elem? p.pollfds idx ≡ some pfd
    → pfd.fd ≡ ignored
    → (p' : Poll) × (q : PollFd) × (update_channel c p ≡ some (c, p'))
      × (get_elem? p'.pollfds idx ≡ some q)
      × (q.fd ≡ ignored)
unfolding update_channel is_none_event insert
ignored_stays c d idx pfd p i m g f =
    let q : PollFd = record { fd = ignored; events = c.events; revents = none_event } in
    (
      record { pollfds = set p.pollfds idx q; channels = insert c.fd c p.channels },
      q,
      elim (Bool-cases (is_none_event c)) [
        | inl e ↦ rw (i, m, g, f, e) refl
        | inr e ↦ rw (i, m, g, f, e) refl
      ],
      get_elem?-set_self p.pollfds idx q (index_below p.pollfds idx pfd g),
      refl,
    )
