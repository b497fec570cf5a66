-- ===== src/Logger/Line/Body.antt =====
-- A line in the buffer of its stream: whole where there is room, and never past the array.
use talib.Prelude.{
  ℕ, ◌+◌, ◌≤◌, ◌<◌, ◌≡◌, refl, sym, ap, ◌∙◌, inl, inr, true, false, some, List, [], ◌∷◌, ◌++◌,
  append-nil, append_assoc, arith, Option-cases, ◌>>=◌, length, All, length-append,
}
use talib.Logger.LogBuffer.{LogBuffer, IsOpen, avail}
use talib.Logger.LogStream.{
  Item, boolean, integer, pointer, double, char, c_str, text, put, put_all,
}
use talib.Logger.LogStream.Text.{IsItem, IsText, has_room, or_null, c_text, put_lem}
use talib.Logger.Convert.Decimals.{length-signed_decimal}

-- The room that an operator wants.
abbrev pub room_of : Item → ℕ
room_of (boolean v) = 1
room_of (integer v) = 32
room_of (pointer v) = 32
room_of (double s) = 32
room_of (char v) = 1
room_of (c_str s) = length (c_text s)
room_of (text s) = length (or_null s)

abbrev pub room_all : List Item → ℕ
room_all [] = 0
room_all (i ∷ items) = room_of i + room_all items

-- The texts of the values, one behind the other.
abbrev pub Texts : List Item → List ℕ → Type 0
Texts [] t = t ≡ []
Texts (i ∷ items) t = (t1 : List ℕ) × (t2 : List ℕ) × IsText i t1 × Texts items t2 × (t ≡ t1 ++ t2)

text_room : (i : Item) (t : List ℕ) → IsItem i → IsText i t → length t ≤ room_of i
text_room (boolean true) t h e = omega (arith, ap length e)
text_room (boolean false) t h e = omega (arith, ap length e)
text_room (integer v) t h e = omega (arith, ap length e, length-signed_decimal v h)
text_room (pointer v) t h (ds, e, l, d) = omega (arith, ap length e, l)
text_room (double s) t h e = omega (arith, ap length e)
text_room (char v) t h e = omega (arith, ap length e)
text_room (c_str s) t h e = omega (arith, ap length e)
text_room (text s) t h e = omega (arith, ap length e)

room-has_room :
    (i : Item) (t : List ℕ) (b : LogBuffer)
    → length t ≤ room_of i
    → room_of i < avail b
    → has_room i t b ≡ true
room-has_room (boolean v) t b l r = ground arith
room-has_room (integer v) t b l r = ground arith
room-has_room (pointer v) t b l r = ground arith
room-has_room (double s) t b l r = ground arith
room-has_room (char v) t b l r = ground arith
room-has_room (c_str s) t b l r = ground arith
room-has_room (text s) t b l r = ground arith

-- Values with less room in all than is left are written whole, one behind the other.
pub put_all_whole :
    (items : List Item) (b : LogBuffer)
    → All IsItem items
    → IsOpen b
    → room_all items < avail b
    → (t : List ℕ) × (b' : LogBuffer) × (put_all items b ≡ some b')
      × Texts items t
      × (b'.text ≡ b.text ++ t)
unfolding put_all
put_all_whole [] b h o r = ([], b, refl, refl, sym (append-nil b.text))
put_all_whole (i ∷ items) b h o r =
    let (t1, b1, e, p) = put_lem i b h.0 o in
    let l = text_room i t1 h.0 p.is_text in
    let room : has_room i t1 b ≡ true = room-has_room i t1 b l (omega arith) in
    let w : b1.text ≡ b.text ++ t1 = p.whole_or_nothing ∙ rw room refl in
    let left : room_all items < avail b1 =
      omega (arith, p.same_size, ap length w, length-append b.text t1) in
    let (t2, b2, f, d, w2) = put_all_whole items b1 h.1 p.open_ left in
    (
      t1 ++ t2,
      b2,
      rw (e, put_all) f,
      (t1, t2, p.is_text, d, refl),
      w2 ∙ (ap (λ z. z ++ t2) w ∙ append_assoc b.text t1 t2),
    )

pub put_all-append :
    (xs ys : List Item) (b : LogBuffer)
    → put_all (xs ++ ys) b ≡ (do b' ← put_all xs b; put_all ys b')
unfolding put_all
put_all-append [] ys b = refl
put_all-append (i ∷ xs) ys b = elim (Option-cases (put i b)) [
  | inl e ↦ rw (e, put_all) refl
  | inr (b1, e) ↦ rw (e, put_all) (put_all-append xs ys b1)
]
