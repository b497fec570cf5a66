-- ===== src/Logger/Line/Head.antt =====
-- The text at the head of a line, and the name of a file without its directories.
use talib.Prelude.{
  bytes, ℕ, ◌≤◌, ◌≡◌, refl, sym, ap, ◌∙◌, ◌⊎◌, inl, inr, Bool, true, false, not, ◌&&◌, ◌||◌, List,
  [], ◌∷◌, ◌++◌, map, append_assoc, arith, ltb, ◌==◌, if◌then◌else◌, Bool-cases, length,
  length-append,
}
use talib.Logger.LogStream.{Item, boolean, integer, pointer, double, char, c_str, text}
use talib.Logger.LogStream.Text.{IsText, or_null, c_text}
use talib.Logger.Convert.Decimals.{signed_decimal}
use talib.Logger.Line.{LogLevel, Place, level_color, level_name, escape, filename_cut}
use talib.Logger.Line.Body.{Texts}

abbrev pub join : List (List ℕ) → List ℕ
join [] = []
join (s ∷ ss) = s ++ join ss

-- The level in its color, the process, the thread, the file, the line and the function.
abbrev pub head_text : LogLevel → Place → List ℕ → List (List ℕ)
head_text level p base =
    level_color level
    ∷ level_name level
    ∷ escape (bytes "0;39")
    ∷ bytes " "
    ∷ bytes " [pid:"
    ∷ signed_decimal p.pid
    ∷ bytes "] [tid:"
    ∷ signed_decimal p.tid
    ∷ bytes "] "
    ∷ bytes "["
    ∷ base
    ∷ bytes ":"
    ∷ signed_decimal p.line
    ∷ bytes "] ["
    ∷ p.func
    ∷ bytes "] "
    ∷ level_color level
    ∷ bytes "|"
    ∷ escape (bytes "0;39")
    ∷ []

-- No slash stands in a name.
abbrev pub no_slash : List ℕ → Bool
no_slash [] = true
no_slash (c ∷ s) = not (c == b'/') && no_slash s

-- The name of a file: all of it, or what stands behind a slash, and no slash in it.
abbrev pub IsBase : List ℕ → List ℕ → Type 0
IsBase filename base =
    (no_slash base ≡ true)
    × ((filename ≡ base) ⊎ ((dir : List ℕ) × (filename ≡ dir ++ b'/' ∷ base)))

base_shorter :
    (s base : List ℕ)
    → (s ≡ base) ⊎ ((dir : List ℕ) × (s ≡ dir ++ b'/' ∷ base))
    → length base ≤ length s
base_shorter s base (inl e) = omega (arith, ap length e)
base_shorter s base (inr (dir, e)) = omega (arith, ap length e, length-append dir (b'/' ∷ base))

pub filename_cut-IsBase : (s : List ℕ) → IsBase s (filename_cut s)
unfolding filename_cut
filename_cut-IsBase [] = (refl, inl refl)
filename_cut-IsBase (c ∷ s) = cut (filename_cut-IsBase s).0 (filename_cut-IsBase s).1
  where
    behind :
        (s ≡ filename_cut s) ⊎ ((dir : List ℕ) × (s ≡ dir ++ b'/' ∷ filename_cut s))
        → (c == b'/' || ltb (length (filename_cut s)) (length s)) ≡ true
        → (dir : List ℕ) × (c ∷ s ≡ dir ++ b'/' ∷ filename_cut s)
    behind (inl e) h =
        let slash : c ≡ b'/' = ground (arith, ap length e) in
        ([], ap (λ x. x ∷ s) slash ∙ ap (λ z. b'/' ∷ z) e)
    behind (inr (dir, e)) h = (c ∷ dir, ap (λ z. c ∷ z) e)

    whole :
        (s ≡ filename_cut s) ⊎ ((dir : List ℕ) × (s ≡ dir ++ b'/' ∷ filename_cut s))
        → (c == b'/' || ltb (length (filename_cut s)) (length s)) ≡ false
        → s ≡ filename_cut s
    whole (inl e) h = e
    whole (inr (dir, e)) h =
        absurd (ground (arith, ap length e, length-append dir (b'/' ∷ filename_cut s)))

    cut :
        no_slash (filename_cut s) ≡ true
        → (s ≡ filename_cut s) ⊎ ((dir : List ℕ) × (s ≡ dir ++ b'/' ∷ filename_cut s))
        → IsBase (c ∷ s) (filename_cut (c ∷ s))
    cut n b = elim (Bool-cases (c == b'/' || ltb (length (filename_cut s)) (length s))) [
      | inl h ↦ rw h (n, inr (behind b h))
      | inr h ↦
          let e = whole b h in
          let d : (c == b'/') ≡ false = ground arith in
          let m : no_slash s ≡ true = ap no_slash e ∙ n in rw h (rw (d, m) refl, inl refl)
    ]

pub length-filename_cut : (s : List ℕ) → length (filename_cut s) ≤ length s
length-filename_cut s = base_shorter s (filename_cut s) (filename_cut-IsBase s).1

-- The text of a value that is no pointer.
abbrev pub text_of : Item → List ℕ
text_of (boolean v) = if v then bytes "1" else bytes "0"
text_of (integer v) = signed_decimal v
text_of (pointer v) = []
text_of (double s) = s
text_of (char v) = v ∷ []
text_of (c_str s) = c_text s
text_of (text s) = or_null s

abbrev pub is_plain : Item → Bool
is_plain (pointer v) = false
is_plain _ = true

abbrev pub all_plain : List Item → Bool
all_plain [] = true
all_plain (i ∷ items) = is_plain i && all_plain items

plain_text : (i : Item) (t : List ℕ) → is_plain i ≡ true → IsText i t → t ≡ text_of i
plain_text (boolean v) t h e = e
plain_text (integer v) t h e = e
plain_text (pointer v) t h e = absurd (cc h)
plain_text (double s) t h e = e
plain_text (char v) t h e = e
plain_text (c_str s) t h e = e
plain_text (text s) t h e = e

pub plain-Texts :
    (items : List Item) (t : List ℕ)
    → all_plain items ≡ true
    → Texts items t
    → t ≡ join (map text_of items)
plain-Texts [] t h e = e
plain-Texts (i ∷ items) t h (t1, t2, a, b, e) =
    e ∙ rw (plain_text i t1 (ground arith) a, plain-Texts items t2 (ground arith) b) refl

pub Texts-append :
    (xs ys : List Item) (t : List ℕ)
    → Texts (xs ++ ys) t
    → (t1 : List ℕ) × (t2 : List ℕ) × Texts xs t1 × Texts ys t2 × (t ≡ t1 ++ t2)
Texts-append [] ys t h = ([], t, refl, h, refl)
Texts-append (x ∷ xs) ys t (a, b, d, h, e) =
    let (t1, t2, h1, h2, k) = Texts-append xs ys b h in
    (a ++ t1, t2, (a, t1, d, h1, refl), h2, e ∙ ap (λ z. a ++ z) k ∙ sym (append_assoc a t1 t2))
