-- ===== src/Redis/Command.antt =====
-- src/Redis/RedisConnect.h, class Command: a request in the Redis protocol, and the parser of its
-- reply. A pointer into the reply is the text that starts there; the reply is followed by a zero
-- byte, which `getResult` writes behind what has been read, and the bytes behind that one are taken
-- to hold no CRLF. The lengths, counts and numbers of a reply, and the lengths of what is sent, are
-- taken to fit the `int` that the source has for them.
pub mod Reply
pub mod Partial
pub mod Whole
mod Tests
use talib.Prelude.{
  Bool, true, false, decimal, read_digits, ℕ, zero, suc, ◌+◌, ◌-◌, ◌*◌, ◌&&◌, Option, none, some,
  List, [], ◌∷◌, ◌++◌, ltb, ◌==◌, if◌then◌else◌, length, take, drop, ℤ, negsuc, pos,
}

-- The result codes of RedisConnect, and a count of elements.
pub data Code : Type 0 where
  ok fail neterr timeout dataerr paramerr notfound netclose : Code
  counted : ℕ → Code

abbrev pub is_timeout : Code → Bool
is_timeout timeout = true
is_timeout ok = false
is_timeout fail = false
is_timeout neterr = false
is_timeout dataerr = false
is_timeout paramerr = false
is_timeout notfound = false
is_timeout netclose = false
is_timeout (counted n) = false

abbrev keep : ℕ → Option (List ℕ × List ℕ) → Option (List ℕ × List ℕ)
keep c none = none
keep c (some (before, behind)) = some (c ∷ before, behind)

-- `strstr(s, "\r\n")`: what stands before the first match, and behind it; a zero byte ends the text.
unfoldable pub line_end : List ℕ → Option (List ℕ × List ℕ)
line_end [] = none
line_end (c ∷ []) = none
line_end (c ∷ d ∷ s) =
    let later = keep c (line_end (d ∷ s)) in
    if c == 0 then none else if c == 13 && d == 10 then some ([], s) else later

-- `atoi` of a text without spaces or plus sign in front: a minus sign and digits.
unfoldable pub atoi : List ℕ → ℤ
atoi [] = pos 0
atoi (c ∷ s) =
    if c == b'-'
    then (let n = read_digits 0 s in if n == 0 then pos 0 else negsuc (n - 1))
    else pos (read_digits 0 (c ∷ s))

-- What `parseNode` returns: the same pointer, a pointer `n` bytes in front of it, or the text behind
-- the node, with the node's bytes.
pub data Node : Type 0 where
  again : Node
  before : ℕ → Node
  behind : List ℕ → List ℕ → Node

-- `*msg` is the byte at the pointer; the text that follows it is read.
unfoldable pub parse_node : List ℕ → Node
unfolding line_end atoi
parse_node [] = again
parse_node (c ∷ str) = elim (line_end str) [
  | none ↦ again
  | some (number, rest) ↦ elim (atoi number) [
    | negsuc n ↦ before (suc n)
    | pos sz ↦
        if ltb (length rest) (sz + 2) then again else behind (take sz rest) (drop (sz + 2) rest)
  ]
]

-- The fields of a command: the status and message of the reply, and the elements found.
pub record Command : Type 0 where
  pub status : ℤ
  pub msg : List ℕ
  pub res : List (List ℕ)
  pub vec : List (List ℕ)

pub new_command : Command
new_command = record { status = pos 0; msg = []; res = []; vec = [] }

pub add : List ℕ → Command → Command
add val c = record c { vec = c.vec ++ val ∷ [] }

push_res : List ℕ → Command → Command
push_res val c = record c { res = c.res ++ val ∷ [] }

-- The loop over the elements of an array; the pointer moves to the end of each. An element that is
-- an array itself, or nil, is not modelled: the loop then stops with none.
pub parse_elements : ℕ → List ℕ → Command → Option (Code × Command)
unfolding push_res
parse_elements zero str c = some (counted (length c.res), c)
parse_elements (suc cnt) [] c = some (timeout, c)
parse_elements (suc cnt) (d ∷ str) c =
    let node = parse_node (d ∷ str) in
    if d == b'*' then none else elim node [
      | again ↦ some (timeout, c)
      | before n ↦ none
      | behind val rest ↦ parse_elements cnt rest (push_res val c)
    ]

-- A negative count makes no round.
abbrev pub rounds : ℤ → ℕ
rounds (pos n) = n
rounds (negsuc n) = 0

unfoldable pub parse : List ℕ → Command → Option (Code × Command)
unfolding push_res
parse [] c = some (timeout, c)
parse (d ∷ str) c =
    if d == b'$'
    then elim (parse_node (d ∷ str)) [
      | again ↦ some (timeout, c)
      | before n ↦ some (if n == 1 then notfound else ok, c)
      | behind val rest ↦ some (ok, push_res val c)
    ]
    else elim (line_end str) [
      | none ↦ some (timeout, c)
      | some (line, rest) ↦
          if d == b'+'
          then some (ok, record c { status = pos 1; msg = line })
          else if d == b'-'
          then some (fail, record c { status = pos 1; msg = line })
          else if d == b':'
          then some (ok, record c { status = atoi str; msg = line })
          else if d == b'*'
          then parse_elements (rounds (atoi str)) rest (record c { vec = [] })
          else some (dataerr, c)
    ]

-- `toString`: the request.
abbrev crlf : List ℕ
crlf = 13 ∷ 10 ∷ []

unfoldable pub elements_text : List (List ℕ) → List ℕ
elements_text [] = []
elements_text (item ∷ vec) =
    b'$' ∷ (decimal (length item) ++ 13 ∷ 10 ∷ (item ++ 13 ∷ 10 ∷ elements_text vec))

unfoldable pub to_string : Command → List ℕ
to_string c = b'*' ∷ (decimal (length c.vec) ++ 13 ∷ 10 ∷ elements_text c.vec)
