-- ===== src/Logger/LogStream/Text.antt =====
-- What the operators write: a whole text or nothing, inside the array.
use talib.Prelude.{
  bytes, ℕ, ◌^◌, ◌≤◌, ◌<◌, ◌≡◌, refl, ◌∙◌, inl, inr, Bool, true, Option, none, some, List, [], ◌∷◌,
  ◌++◌, arith, ltb, leb, if◌then◌else◌, Bool-cases, length, All, length-append, magnitude, reverse,
}
use talib.Logger.LogBuffer.{
  LogBuffer, IsOpen, avail, append, append-IsOpen, size-append, write_current,
}
use talib.Logger.Convert.Decimals.{signed_decimal, convert_lem, length-signed_decimal}
use talib.Logger.Convert.Hex.{low_value, convert_hex_lem}
use talib.Logger.LogStream.{
  Item, boolean, integer, pointer, double, char, c_str, text, put, put_all, max_numeric_size,
}

-- The values that the operators take: of 64 bits at most, and a text of `snprintf` that its 32 bytes
-- hold.
abbrev pub IsItem : Item → Type 0
IsItem (integer v) = magnitude v < 2 ^ 64
IsItem (pointer v) = v < 2 ^ 64
IsItem (double s) = length s < 32
IsItem _ = Unit

abbrev pub or_null : List ℕ → List ℕ
or_null [] = bytes "(NULL)"
or_null (c ∷ s) = c ∷ s

abbrev pub c_text : Option (List ℕ) → List ℕ
c_text none = bytes "(NULL)"
c_text (some s) = s

-- The text of a value.
abbrev pub IsText : Item → List ℕ → Type 0
IsText (boolean v) t = t ≡ (if v then bytes "1" else bytes "0")
IsText (integer v) t = t ≡ signed_decimal v
IsText (pointer v) t =
    (ds : List ℕ) × (t ≡ bytes "0x" ++ ds) × (length ds ≤ 16) × (low_value (reverse ds) ≡ v)
IsText (double s) t = t ≡ s
IsText (char v) t = t ≡ v ∷ []
IsText (c_str s) t = t ≡ c_text s
IsText (text s) t = t ≡ or_null s

-- Whether there is room: for a number, room for the longest one.
abbrev pub has_room : Item → List ℕ → LogBuffer → Bool
has_room (integer v) t b = leb 32 (avail b)
has_room (pointer v) t b = leb 32 (avail b)
has_room (double s) t b = leb 32 (avail b)
has_room _ t b = ltb (length t) (avail b)

pub record Puts (i : Item) (t : List ℕ) (b b' : LogBuffer) : Type 0 where
  pub is_text : IsText i t
  pub open_ : IsOpen b'
  pub same_size : b'.size ≡ b.size
  pub whole_or_nothing : b'.text ≡ (if has_room i t b then b.text ++ t else b.text)

text-append :
    (t : List ℕ) (b : LogBuffer)
    → (append t b).text ≡ (if ltb (length t) (avail b) then b.text ++ t else b.text)
unfolding append
text-append t b = ground arith

written : List ℕ → LogBuffer → LogBuffer
written t b = record b { text = b.text ++ t }

write_current_lem :
    (t : List ℕ) (b : LogBuffer)
    → leb 32 (avail b) ≡ true
    → length t < 32
    → (write_current t b ≡ some (written t b)) × IsOpen (written t b)
unfolding write_current written
write_current_lem t b r l =
    let e : ltb (length t) (avail b) ≡ true = ground arith in
    (rw e refl, ground (arith, length-append b.text t))

-- A number that is written through `current`, if there is room for 32 bytes.
numeric :
    (i : Item) (t : List ℕ) (b : LogBuffer)
    → ((b0 : LogBuffer) → has_room i t b0 ≡ leb 32 (avail b0))
    → IsText i t
    → length t < 32
    → IsOpen b
    → (put i b ≡ (if leb 32 (avail b) then write_current t b else some b))
    → (t' : List ℕ) × (b' : LogBuffer) × (put i b ≡ some b') × Puts i t' b b'
unfolding written
numeric i t b k d l o p = elim (Bool-cases (leb 32 (avail b))) [
  | inl room ↦
      let (e, f) = write_current_lem t b room l in
      (
        t,
        written t b,
        p ∙ rw (room, e) refl,
        record { is_text = d; open_ = f; same_size = refl; whole_or_nothing = rw (k b, room) refl },
      )
  | inr full ↦ (
    t,
    b,
    p ∙ rw full refl,
    record { is_text = d; open_ = o; same_size = refl; whole_or_nothing = rw (k b, full) refl },
  )
]

-- A text that is appended.
plain :
    (i : Item) (t : List ℕ) (b : LogBuffer)
    → ((b0 : LogBuffer) → has_room i t b0 ≡ ltb (length t) (avail b0))
    → IsText i t
    → IsOpen b
    → put i b ≡ some (append t b)
    → (t' : List ℕ) × (b' : LogBuffer) × (put i b ≡ some b') × Puts i t' b b'
plain i t b k d o p = (
  t,
  append t b,
  p,
  record {
    is_text = d;
    open_ = append-IsOpen t b o;
    same_size = size-append t b;
    whole_or_nothing = rw (k b) (text-append t b);
  },
)

-- Each operator, on a buffer with room for one more byte, writes the text of its value whole or
-- leaves the buffer as it is, and never writes outside the array: a number wants 32 bytes of room,
-- any other text more than its length.
pub put_lem :
    (i : Item) (b : LogBuffer)
    → IsItem i
    → IsOpen b
    → (t : List ℕ) × (b' : LogBuffer) × (put i b ≡ some b') × Puts i t b b'
unfolding put
put_lem (boolean v) b h o =
    plain (boolean v) (if v then bytes "1" else bytes "0") b (λ b0. refl) refl o refl
put_lem (integer v) b h o =
    numeric (integer v) (signed_decimal v) b (λ b0. refl) refl
      (omega (arith, length-signed_decimal v h)) o (rw (convert_lem v h, put) refl)
put_lem (pointer v) b h o =
    let (ds, e, l, d) = convert_hex_lem v h in
    numeric (pointer v) (bytes "0x" ++ ds) b (λ b0. refl) (ds, refl, l, d) (omega arith) o
      (rw (e, put) refl)
put_lem (double s) b h o =
    let e : ltb (length s) max_numeric_size ≡ true = ground arith in
    numeric (double s) s b (λ b0. refl) refl h o (rw (e, put) refl)
put_lem (char v) b h o = plain (char v) (v ∷ []) b (λ b0. refl) refl o refl
put_lem (c_str none) b h o = plain (c_str none) (c_text none) b (λ b0. refl) refl o refl
put_lem (c_str (some s)) b h o = plain (c_str (some s)) s b (λ b0. refl) refl o refl
put_lem (text []) b h o = plain (text []) (or_null []) b (λ b0. refl) refl o refl
put_lem (text (c ∷ s)) b h o = plain (text (c ∷ s)) (c ∷ s) b (λ b0. refl) refl o refl

-- A log line of any values: no operator fails, and the bytes stay below the size of the array.
pub put_all-IsOpen :
    (items : List Item) (b : LogBuffer)
    → All IsItem items
    → IsOpen b
    → (b' : LogBuffer) × (put_all items b ≡ some b') × (length b'.text < b.size)
unfolding put_all
put_all-IsOpen [] b h o = (b, refl, o)
put_all-IsOpen (i ∷ items) b h o =
    let (t, b1, e, p) = put_lem i b h.0 o in
    let (b2, f, l) = put_all-IsOpen items b1 h.1 p.open_ in
    (b2, rw (e, put_all) f, omega (arith, p.same_size))
