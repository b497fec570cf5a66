-- ===== src/Tcp/Server/Accepts.antt =====
-- A server with threads hands its connections to the loops in turn.
use talib.Prelude.{
  decimal, bytes, ℕ, suc, ◌+◌, ◌%◌, ◌<◌, ◌≡◌, refl, sym, ap, ◌∙◌, inl, inr, Option, some, List, [],
  ◌∷◌, ◌++◌, append-nil, append_assoc, arith, leb, Bool-cases, ◌>>=◌, length, insert, ltb, true,
}
use native.Mathlib.Nat.{suc-mod, mod_self, mod-eq_of_lt}
use talib.Reactor.ThreadPool.RoundRobin.{at_turn, after, next_turn}
use talib.Tcp.Server.{
  int_max, Connection, Effect, establishes, TcpServer, accepted, emit, connection_name,
  new_connection, handle_read,
}

-- The connections that the acceptor takes one after the other, each an address and a descriptor.
pub accept_all : List (ℕ × ℕ) → TcpServer → Option TcpServer
accept_all [] s = some s
accept_all ((conn, fd) ∷ cs) s = do s' ← handle_read conn (accepted fd) s; accept_all cs s'

-- The name of connection number i, from 0, and what the loops are asked to establish.
pub name_of : List ℕ → ℕ → List ℕ
name_of name i = name ++ (bytes "#" ++ decimal (i + 1))

abbrev pub established_all : (ℕ → ℕ) → ℕ → ℕ → List (ℕ × ℕ) → List Effect
established_all f n i [] = []
established_all f n i ((conn, fd) ∷ cs) =
    establishes (f (i % suc n)) conn ∷ established_all f n (i + 1) cs

abbrev pub registered_all :
    List ℕ → (ℕ → ℕ) → ℕ → ℕ → List (ℕ × ℕ) → List (ℕ × Connection) → List (ℕ × Connection)
registered_all name f n i [] m = m
registered_all name f n i ((conn, fd) ∷ cs) m =
    registered_all name f n (i + 1) cs
      (insert conn (record { name = name_of name i; sockfd = fd; loop = f (i % suc n) }) m)

-- A server of `n + 1` threads that has accepted i connections.
abbrev pub serving : TcpServer → (ℕ → ℕ) → ℕ → ℕ → List (ℕ × Connection) → List Effect → TcpServer
serving s f n i connections effects = record s {
  thread_pool = at_turn s.loop f n (i % suc n);
  next_conn_id = i + 1;
  connections = connections;
  effects = effects;
}

wraps : (n r : ℕ) → r < suc n → after n r ≡ suc r % suc n
wraps n r h = elim (Bool-cases (leb (suc n) (r + 1))) [
  | inl e ↦ let last : suc r ≡ suc n = ground arith in rw (e, last) (sym (mod_self (suc n)))
  | inr e ↦
      let small : suc r < suc n = ground arith in rw e (omega arith ∙ sym (mod-eq_of_lt small))
]

after_mod : (n i : ℕ) → after n (i % suc n) ≡ (i + 1) % suc n
after_mod n i =
    let plus_one : i + 1 ≡ suc i = omega arith in
    let below : i % suc n < suc n = omega arith in
    wraps n (i % suc n) below ∙ sym (suc-mod i (suc n)) ∙ ap (λ z. z % suc n) (sym plus_one)

serving_same :
    (s : TcpServer) (f : ℕ → ℕ) (n : ℕ) {i j : ℕ} (m : List (ℕ × Connection)) {es es' : List Effect}
    → i ≡ j
    → es ≡ es'
    → some (serving s f n i m es) ≡ some (serving s f n j m es')
serving_same s f n m e g = rw (e, g) refl

-- As long as `accept` gives a descriptor each time and the number of the next connection stays an
-- `int`, every connection is taken: they are numbered from where the server was, and go to the loops
-- in turn.
pub accept_all_lem :
    (s : TcpServer) (f : ℕ → ℕ) (n i : ℕ) (m : List (ℕ × Connection)) (es : List Effect)
    (cs : List (ℕ × ℕ))
    → i + length cs < 2147483647
    → accept_all cs (serving s f n i m es)
      ≡ some (
          serving s f n
            (i + length cs)
            (registered_all s.name f n i cs m)
            (es ++ established_all f n i cs))
unfolding accept_all handle_read new_connection emit connection_name name_of
accept_all_lem s f n i m es [] b = serving_same s f n m (omega arith) (sym (append-nil es))
accept_all_lem s f n i m es ((conn, fd) ∷ cs) b =
    let in_range : ltb (i + 1) int_max ≡ true = ground arith in
    rw (in_range, next_turn s.loop f n (i % suc n) (omega arith), after_mod n i)
      (accept_all_lem s f n (i + 1)
          (insert conn (record { name = name_of s.name i; sockfd = fd; loop = f (i % suc n) }) m)
          (es ++ establishes (f (i % suc n)) conn ∷ []) cs (omega arith)
        ∙ serving_same s f n
            (registered_all s.name f n (i + 1) cs (
              insert conn (record { name = name_of s.name i; sockfd = fd; loop = f (i % suc n) })
                m))
            (omega arith)
            (append_assoc es (establishes (f (i % suc n)) conn ∷ [])
              (established_all f n (i + 1) cs)))
