-- ===== src/Reactor/Epoll/Kernel.antt =====
-- What the kernel watches after the calls of the poller, and the agreement with its map.
use talib.Prelude.{
  ℕ, ◌+◌, ◌-◌, ◌≡◌, refl, ◌∙◌, subst, inl, inr, true, false, Option, none, some, List, [], ◌∷◌,
  arith, Bool-cases, Option-cases, ◌>>=◌, find, insert, erase, find-insert, find-erase,
}
use talib.Reactor.Channel.{Mask, Channel, set_index}
use talib.Reactor.Epoll.{
  Epoll, Ctl, add, modify, delete, new_epoll, grow, is_absent, update_channel, remove_channel,
}

-- The documented effect of `epoll_ctl`: none if the call is refused, as for a descriptor added
-- twice, or changed or deleted while it is not watched.
pub watched : List Ctl → Option (List (ℕ × Mask))
watched [] = some []
watched (add fd m ∷ cs) = do
  w ← watched cs
  elim (find fd w) [ none ↦ some (insert fd m w) | some _ ↦ none ]
watched (modify fd m ∷ cs) = do
  w ← watched cs
  elim (find fd w) [ none ↦ none | some _ ↦ some (insert fd m w) ]
watched (delete fd ∷ cs) = do
  w ← watched cs
  elim (find fd w) [ none ↦ none | some _ ↦ some (erase fd w) ]

abbrev events_of : Option Channel → Option Mask
events_of none = none
events_of (some c) = some c.events

-- No call was refused, and the kernel watches the descriptors of the map for what the channels
-- last asked for.
pub record IsSynced (e : Epoll) (w : List (ℕ × Mask)) : Type 0 where
  pub accepted : watched e.calls ≡ some w
  pub same : (fd : ℕ) → find fd w ≡ events_of (find fd e.channels)

channels-grow : (e : Epoll) → ((grow e).channels ≡ e.channels) × ((grow e).calls ≡ e.calls)
unfolding grow
channels-grow e = ground arith

events-insert :
    (fd : ℕ) (c : Channel) (w : List (ℕ × Mask)) (m : List (ℕ × Channel))
    → ((j : ℕ) → find j w ≡ events_of (find j m))
    → (j : ℕ) → find j (insert fd c.events w) ≡ events_of (find j (insert fd c m))
events-insert fd c w m h j = ground (arith, find-insert fd j c.events w, find-insert fd j c m, h j)

events-erase :
    (fd : ℕ) (w : List (ℕ × Mask)) (m : List (ℕ × Channel))
    → ((j : ℕ) → find j w ≡ events_of (find j m))
    → (j : ℕ) → find j (erase fd w) ≡ events_of (find j (erase fd m))
events-erase fd w m h j = ground (arith, find-erase fd j w, find-erase fd j m, h j)

events_absent : (o : Option Channel) → is_absent o ≡ true → events_of o ≡ none
events_absent none h = refl
events_absent (some c) h = cc

events_present : (o : Option Channel) → is_absent o ≡ false → (m : Mask) × (events_of o ≡ some m)
events_present none h = cc
events_present (some c) h = (c.events, refl)

module _ (cs : List Ctl) (w : List (ℕ × Mask)) (fd : ℕ) (m : Mask) (h : watched cs ≡ some w) where
  watched-add : find fd w ≡ none → watched (add fd m ∷ cs) ≡ some (insert fd m w)
  unfolding watched
  watched-add a = ground arith

  watched-modify :
      (old : Mask) → find fd w ≡ some old → watched (modify fd m ∷ cs) ≡ some (insert fd m w)
  unfolding watched
  watched-modify old a = ground arith

  watched-delete :
      (old : Mask) → find fd w ≡ some old → watched (delete fd ∷ cs) ≡ some (erase fd w)
  unfolding watched
  watched-delete old a = ground arith

abbrev added : Channel → Epoll → Epoll
added c e = record e {
  max_events_size = e.max_events_size + 1;
  channels = insert c.fd (set_index (e.max_events_size + 1) c) e.channels;
  calls = add c.fd c.events ∷ e.calls;
}

abbrev modified : Channel → Epoll → Epoll
modified c e = record e {
  channels = insert c.fd c e.channels;
  calls = modify c.fd c.events ∷ e.calls;
}

abbrev removed : Channel → Epoll → Epoll
removed c e = record e {
  max_events_size = e.max_events_size - 1;
  channels = erase c.fd e.channels;
  calls = delete c.fd ∷ e.calls;
}

grow-IsSynced : (e : Epoll) (w : List (ℕ × Mask)) → IsSynced e w → IsSynced (grow e) w
grow-IsSynced e w s = record {
  accepted = rw (channels-grow e).1 s.accepted;
  same = λ fd. rw (channels-grow e).0 (s.same fd);
}

-- The call that an update makes.
abbrev pub asked : Channel → Ctl
asked c = elim c.index [ none ↦ add c.fd c.events | some i ↦ modify c.fd c.events ]

update_new :
    (c : Channel) (e : Epoll)
    → c.index ≡ none
    → is_absent (find c.fd e.channels) ≡ true
    → update_channel c e ≡ some (set_index (e.max_events_size + 1) c, grow (added c e))
unfolding update_channel
update_new c e n a = ground arith

update_new_present :
    (c : Channel) (e : Epoll)
    → c.index ≡ none
    → is_absent (find c.fd e.channels) ≡ false
    → update_channel c e ≡ none
unfolding update_channel
update_new_present c e n a = ground arith

update_old_absent :
    (c : Channel) (e : Epoll) (i : ℕ)
    → c.index ≡ some i
    → is_absent (find c.fd e.channels) ≡ true
    → update_channel c e ≡ none
unfolding update_channel
update_old_absent c e i n a = ground arith

update_old :
    (c : Channel) (e : Epoll) (i : ℕ)
    → c.index ≡ some i
    → is_absent (find c.fd e.channels) ≡ false
    → update_channel c e ≡ some (c, grow (modified c e))
unfolding update_channel
update_old c e i n a = ground arith

-- When the kernel watches what the map of the poller has, an update that passes its assertions makes
-- one call of `epoll_ctl`, an addition for a channel without an index and a change for any other; the
-- kernel accepts it, and afterwards watches the channel's descriptor for the channel's events and every
-- other descriptor as before, which is again what the map has.
pub update_channel-IsSynced :
    (c : Channel) (e : Epoll) (w : List (ℕ × Mask)) (r : Channel × Epoll)
    → IsSynced e w
    → update_channel c e ≡ some r
    → (r.1.calls ≡ asked c ∷ e.calls) × IsSynced r.1 (insert c.fd c.events w)
update_channel-IsSynced c e w r s h = elim (Option-cases c.index) [
  | inl new ↦ elim (Bool-cases (is_absent (find c.fd e.channels))) [
    | inl absent ↦
        subst (λ z. (z.calls ≡ asked c ∷ e.calls) × IsSynced z (insert c.fd c.events w))
          (cc (h, update_new c e new absent))
          (
            (channels-grow (added c e)).1 ∙ rw new refl,
            grow-IsSynced (added c e) _ (record {
              accepted =
                  watched-add e.calls w c.fd c.events s.accepted
                    (s.same c.fd ∙ events_absent _ absent);
              same = events-insert c.fd (set_index (e.max_events_size + 1) c) w e.channels s.same;
            }),
          )
    | inr present ↦ absurd (cc (h, update_new_present c e new present))
  ]
  | inr (i, old) ↦ elim (Bool-cases (is_absent (find c.fd e.channels))) [
    | inl absent ↦ absurd (cc (h, update_old_absent c e i old absent))
    | inr present ↦
        let (m, was) = events_present _ present in
        subst (λ z. (z.calls ≡ asked c ∷ e.calls) × IsSynced z (insert c.fd c.events w))
          (cc (h, update_old c e i old present))
          (
            (channels-grow (modified c e)).1 ∙ rw old refl,
            grow-IsSynced (modified c e) _ (record {
              accepted = watched-modify e.calls w c.fd c.events s.accepted m (s.same c.fd ∙ was);
              same = events-insert c.fd c w e.channels s.same;
            }),
          )
  ]
]

-- When the kernel watches what the map of the poller has, a removal that passes its assertions makes
-- one call of `epoll_ctl`, a deletion; the kernel accepts it, and afterwards watches every other
-- descriptor as before and the channel's no more, which is again what the map has.
pub remove_channel-IsSynced :
    (c : Channel) (e e' : Epoll) (w : List (ℕ × Mask))
    → IsSynced e w
    → remove_channel c e ≡ some e'
    → (e'.calls ≡ delete c.fd ∷ e.calls) × IsSynced e' (erase c.fd w)
unfolding remove_channel
remove_channel-IsSynced c e e' w s h = elim (Bool-cases (is_absent (find c.fd e.channels))) [
  | inl absent ↦ absurd (ground (arith, h, absent))
  | inr present ↦
      let (m, was) = events_present _ present in
      let k : e' ≡ removed c e = ground (arith, h, present) in
      (
        rw k refl,
        rw k (record {
          accepted = watched-delete e.calls w c.fd m s.accepted m (s.same c.fd ∙ was);
          same = events-erase c.fd w e.channels s.same;
        }),
      )
]

-- A removed channel keeps its index, so its next update takes it for a known one and fails the
-- assertion that the map has it.
pub update-remove_aborts :
    (c c' : Channel) (e e' : Epoll) (i : ℕ)
    → c.index ≡ some i
    → remove_channel c e ≡ some e'
    → c'.fd ≡ c.fd
    → c'.index ≡ c.index
    → update_channel c' e' ≡ none
unfolding remove_channel update_channel
update-remove_aborts c c' e e' i x h f j = ground (arith, find-erase c.fd c.fd e.channels)

pub new_epoll-IsSynced : IsSynced new_epoll []
unfolding new_epoll watched find
new_epoll-IsSynced = record { accepted = refl; same = λ fd. refl }
