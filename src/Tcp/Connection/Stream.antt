-- ===== src/Tcp/Connection/Stream.antt =====
-- The outgoing bytes of a connection: what the socket took, followed by what waits in the output
-- buffer, is what was sent, in order.
use talib.Prelude.{
  bytes, ℕ, ◌-◌, ◌≤◌, ◌<◌, ◌≡◌, refl, sym, ap, ◌∙◌, inl, inr, Bool, true, false, not, ◌&&◌, some,
  List, [], ◌∷◌, ◌++◌, append-nil, append_assoc, arith, ◌==◌, if◌then◌else◌, Bool-cases, length,
  take, drop, length-drop, take-append-drop, take_all,
}
use talib.Buffer.{Buffer, IsValid, content, readable_bytes, retrieve}
use talib.Buffer.Space.{Fits}
use talib.Buffer.Content.{retrieve_lem}
use talib.Buffer.Input.{append_lem}
use talib.Reactor.Channel.{Mask, is_writing, enable_writing, disable_writing}
use talib.Tcp.Connection.{
  Connection, Effect, writes, updates, removes, shuts_write, connection_call, message_call,
  close_call, queues, Written, taken, is_fault, is_disconnected, keep_rest, send_in_loop, update,
  emit, handle_write,
}

-- The bytes that the socket took.
abbrev pub sent : List Effect → List ℕ
sent [] = []
sent (writes bytes ∷ es) = bytes ++ sent es
sent (e ∷ es) = sent es

abbrev pub stream : Connection → List ℕ
stream c = sent c.effects ++ content c.output

pub sent-append : (es fs : List Effect) → sent (es ++ fs) ≡ sent es ++ sent fs
sent-append [] fs = refl
sent-append (writes bytes ∷ es) fs = rw (sent-append es fs, append_assoc)
sent-append (updates m ∷ es) fs = sent-append es fs
sent-append (removes ∷ es) fs = sent-append es fs
sent-append (shuts_write ∷ es) fs = sent-append es fs
sent-append (connection_call ∷ es) fs = sent-append es fs
sent-append (message_call ∷ es) fs = sent-append es fs
sent-append (close_call ∷ es) fs = sent-append es fs
sent-append (queues t ∷ es) fs = sent-append es fs

sent_updates : (es : List Effect) (m : Mask) → sent (es ++ updates m ∷ []) ≡ sent es
sent_updates es m = sent-append es (updates m ∷ []) ∙ append-nil (sent es)

sent_writes :
    (es : List Effect) (bytes : List ℕ) → sent (es ++ writes bytes ∷ []) ≡ sent es ++ bytes
sent_writes es bytes =
    sent-append es (writes bytes ∷ []) ∙ ap (λ z. sent es ++ z) (append-nil bytes)

-- What a step does to the stream.
pub record Adds (bytes : List ℕ) (c c' : Connection) : Type 0 where
  pub valid : IsValid c'.output
  pub in_order : stream c' ≡ stream c ++ bytes
  pub same_state : c'.state ≡ c.state
  pub same_input : c'.input ≡ c.input

keep_rest-Adds :
    (bytes : List ℕ) (c : Connection)
    → Fits (length bytes) c.output
    → (c' : Connection) × (keep_rest bytes c ≡ some c') × Adds bytes c c'
unfolding keep_rest
keep_rest-Adds bytes c f =
    let (out, e, a) = append_lem bytes c.output f in
    let order : sent c.effects ++ content out ≡ stream c ++ bytes =
      ap (λ z. sent c.effects ++ z) a.bytes_behind
      ∙ sym (append_assoc (sent c.effects) (content c.output) bytes) in
    elim (Bool-cases (is_writing c.channel).0) [
      | inl w ↦ (
        record c { output = out; channel = (is_writing c.channel).1 },
        rw (e, keep_rest) (rw w),
        record { valid = a.valid; in_order = order; same_state = refl; same_input = refl },
      )
      | inr w ↦ (
        update (enable_writing (is_writing c.channel).1)
            (record c { output = out; channel = (is_writing c.channel).1 }),
        rw (e, keep_rest) (rw w),
        record {
          valid = a.valid;
          in_order = ap (λ z. z ++ content out) (sent_updates c.effects _) ∙ order;
          same_state = refl;
          same_input = refl;
        },
      )
    ]

abbrev pub tested : Connection → Connection
tested c = record c { channel = (is_writing c.channel).1 }

abbrev pub wrote : Written → List ℕ → Connection → Connection
wrote w bytes c = emit (writes (take (taken w) bytes)) (tested c)

abbrev pub is_direct : Connection → Bool
is_direct c = not (is_writing c.channel).0 && readable_bytes c.output == 0

module _ (w : Written) (bytes : List ℕ) (c : Connection)
    (open_ : is_disconnected c.state ≡ false) where
  send_direct_whole :
      is_direct c ≡ true
      → length bytes - taken w ≡ 0
      → send_in_loop w bytes c ≡ some (wrote w bytes c)
  unfolding send_in_loop
  send_direct_whole d r = rw (open_, send_in_loop) (rw (d) (rw r (ground arith)))

  pub send_direct_part :
      is_direct c ≡ true
      → is_fault w ≡ false
      → 0 < length bytes - taken w
      → send_in_loop w bytes c ≡ keep_rest (drop (taken w) bytes) (wrote w bytes c)
  unfolding send_in_loop
  send_direct_part d f r = rw (open_, send_in_loop) (rw d (rw f (ground arith)))

  send_queued :
      is_direct c ≡ false → 0 < length bytes → send_in_loop w bytes c ≡ keep_rest bytes (tested c)
  unfolding send_in_loop
  send_queued d r = rw (open_, send_in_loop) (rw d (ground arith))

  send_nothing : is_direct c ≡ false → length bytes ≡ 0 → send_in_loop w bytes c ≡ some (tested c)
  unfolding send_in_loop
  send_nothing d r = rw (open_, send_in_loop) (rw d (ground arith))

content_empty : (b : Buffer) → IsValid b → (readable_bytes b == 0) ≡ true → content b ≡ []
content_empty b v h = let e : b.writer_index - b.reader_index ≡ 0 = ground arith in rw e

wrote_order :
    (w : Written) (bytes : List ℕ) (c : Connection)
    → IsValid c.output
    → is_direct c ≡ true
    → stream (wrote w bytes c) ≡ stream c ++ take (taken w) bytes
wrote_order w bytes c v d =
    let e : content c.output ≡ [] = content_empty c.output v (ground arith) in
    rw (sent_writes c.effects (take (taken w) bytes), e) (simp append-nil)

wrote_part :
    (w : Written) (bytes : List ℕ) (c c' : Connection)
    → IsValid c.output
    → is_direct c ≡ true
    → Adds (drop (taken w) bytes) (wrote w bytes c) c'
    → Adds bytes c c'
wrote_part w bytes c c' v d a = record {
  valid = a.valid;
  in_order =
      a.in_order
      ∙ ap (λ z. z ++ drop (taken w) bytes) (wrote_order w bytes c v d)
      ∙ append_assoc (stream c) (take (taken w) bytes) (drop (taken w) bytes)
      ∙ ap (λ z. stream c ++ z) (take-append-drop (taken w) bytes);
  same_state = a.same_state;
  same_input = a.same_input;
}

nothing_left : (bytes : List ℕ) → length bytes ≡ 0 → bytes ≡ []
nothing_left [] h = refl
nothing_left (b ∷ bytes) h = absurd (omega arith)

-- In a connection that is not disconnected, a send whose write meets no broken pipe or reset
-- succeeds, and its bytes go behind the outgoing ones: what the socket has taken and what waits in
-- the output buffer are together the old outgoing bytes followed by the new, whatever part of them
-- the socket took. The output buffer is valid, and the bytes sent are below 2^31.
pub send_in_loop-Adds :
    (w : Written) (bytes : List ℕ) (c : Connection)
    → is_disconnected c.state ≡ false
    → is_fault w ≡ false
    → Fits (length bytes) c.output
    → (c' : Connection) × (send_in_loop w bytes c ≡ some c') × Adds bytes c c'
send_in_loop-Adds w bytes c o f fits = elim (Bool-cases (is_direct c)) [
  | inl d ↦ elim (Bool-cases (length bytes - taken w == 0)) [
    | inl all ↦ (
      wrote w bytes c,
      send_direct_whole w bytes c o d (ground arith),
      record {
        valid = fits.valid;
        in_order =
            wrote_order w bytes c fits.valid d
            ∙ ap (λ z. stream c ++ z) (take_all (taken w) bytes (ground arith));
        same_state = refl;
        same_input = refl;
      },
    )
    | inr part ↦
        let (c', e, a) = keep_rest-Adds (drop (taken w) bytes) (wrote w bytes c) (record {
          valid = fits.valid;
          narrow = omega (arith, fits.narrow, length-drop (taken w) bytes);
          small = fits.small;
        }) in
        (
          c',
          send_direct_part w bytes c o d f (ground arith) ∙ e,
          wrote_part w bytes c c' fits.valid d a,
        )
  ]
  | inr q ↦ elim (Bool-cases (length bytes == 0)) [
    | inl empty ↦ (
      tested c,
      send_nothing w bytes c o q (ground arith),
      record {
        valid = fits.valid;
        in_order = rw (nothing_left bytes (ground arith)) (sym (append-nil (stream c)));
        same_state = refl;
        same_input = refl;
      },
    )
    | inr some_bytes ↦
        let (c', e, a) = keep_rest-Adds bytes (tested c) fits in
        (
          c',
          send_queued w bytes c o q (ground arith) ∙ e,
          record {
            valid = a.valid;
            in_order = a.in_order;
            same_state = a.same_state;
            same_input = a.same_input;
          },
        )
  ]
]

-- The write handler on what the socket took.
flushed : Written → Connection → Connection
flushed w c = emit (writes (take (taken w) (content c.output))) (tested c)

handle_write_idle :
    (w : Written) (c : Connection)
    → (is_writing c.channel).0 ≡ false
    → handle_write w c ≡ some (tested c)
unfolding handle_write
handle_write_idle w c h = rw (h, handle_write)

handle_write_none :
    (w : Written) (c : Connection)
    → (is_writing c.channel).0 ≡ true
    → taken w ≡ 0
    → handle_write w c ≡ some (flushed w c)
unfolding handle_write flushed
handle_write_none w c h z = rw (h, handle_write) (ground arith)

after_flush : Buffer → Connection → Connection
after_flush out c =
    if readable_bytes out == 0
    then update (disable_writing c.channel) (record c { output = out })
    else record c { output = out }

handle_write-some :
    (w : Written) (c : Connection) (out : Buffer)
    → (is_writing c.channel).0 ≡ true
    → 0 < taken w
    → retrieve (taken w) c.output ≡ some out
    → handle_write w c ≡ some (after_flush out (flushed w c))
unfolding handle_write flushed after_flush
handle_write-some w c out h z e = rw (h, handle_write) (ground (arith, e))

sent-after_flush :
    (out : Buffer) (c : Connection)
    → (sent (after_flush out c).effects ≡ sent c.effects)
      × ((after_flush out c).output ≡ out)
      × ((after_flush out c).state ≡ c.state)
      × ((after_flush out c).input ≡ c.input)
unfolding after_flush update
sent-after_flush out c = elim (Bool-cases (readable_bytes out == 0)) [
  | inl z ↦ rw z (sent_updates c.effects _, refl, refl, refl)
  | inr z ↦ rw z (refl, refl, refl, refl)
]

flushed_order :
    (w : Written) (c : Connection) (out : Buffer)
    → content out ≡ drop (taken w) (content c.output)
    → sent (flushed w c).effects ++ content out ≡ stream c
unfolding flushed
flushed_order w c out h =
    rw (sent_writes c.effects (take (taken w) (content c.output)), h)
      (append_assoc (sent c.effects) (take (taken w) (content c.output))
          (drop (taken w) (content c.output))
        ∙ ap (λ z. sent c.effects ++ z) (take-append-drop (taken w) (content c.output)))

-- What the write handler passes to the socket.
abbrev pub moved : Written → Connection → List ℕ
moved w c = if (is_writing c.channel).0 then take (taken w) (content c.output) else []

-- When the output buffer is valid and the socket takes no more than waits in it, the write handler
-- moves exactly the bytes that the socket takes from the front of the buffer to the socket, if the
-- channel waits for writing, and none otherwise: what has been sent grows by these bytes, and what has
-- been sent and what waits are together the same bytes in order as before.
pub handle_write-Adds :
    (w : Written) (c : Connection)
    → IsValid c.output
    → taken w ≤ readable_bytes c.output
    → (c' : Connection) × (handle_write w c ≡ some c')
      × Adds [] c c'
      × (sent c'.effects ≡ sent c.effects ++ moved w c)
unfolding flushed
handle_write-Adds w c v t = elim (Bool-cases (is_writing c.channel).0) [
  | inr idle ↦ (
    tested c,
    handle_write_idle w c idle,
    record {
      valid = v;
      in_order = sym (append-nil (stream c));
      same_state = refl;
      same_input = refl;
    },
    rw idle (sym (append-nil (sent c.effects))),
  )
  | inl writing ↦ elim (Bool-cases (taken w == 0)) [
    | inl z ↦
        let z' : taken w ≡ 0 = ground arith in
        (
          flushed w c,
          handle_write_none w c writing z',
          record {
            valid = v;
            in_order =
                rw (sent_writes c.effects (take (taken w) (content c.output)), z')
                  (simp append-nil);
            same_state = refl;
            same_input = refl;
          },
          rw writing (sent_writes c.effects (take (taken w) (content c.output))),
        )
    | inr z ↦
        let (out, e, r) = retrieve_lem (taken w) c.output v t in
        let (s, o, st, i) = sent-after_flush out (flushed w c) in
        (
          after_flush out (flushed w c),
          handle_write-some w c out writing (ground arith) e,
          record {
            valid = rw o r.valid;
            in_order = rw (s, o) (flushed_order w c out r.bytes_left ∙ sym (append-nil (stream c)));
            same_state = st ∙ (unfold flushed in refl);
            same_input = i ∙ (unfold flushed in refl);
          },
          s ∙ rw writing (sent_writes c.effects (take (taken w) (content c.output))),
        )
  ]
]
