-- ===== src/Http/Mimetype.antt =====
-- src/Http/Mimetype.h and Mimetype.cpp: the content type of a file by its suffix.
use talib.Prelude.{bytes, lookup, ℕ, none, some, List, [], ◌∷◌}

-- The entries that `init` makes, once.
abbrev pub mime : List (List ℕ × List ℕ)
mime =
    (bytes ".html", bytes "text/html")
    ∷ (bytes ".css", bytes "text/css")
    ∷ (bytes ".avi", bytes "video/x-msvideo")
    ∷ (bytes ".bmp", bytes "image/bmp")
    ∷ (bytes ".c", bytes "text/plain")
    ∷ (bytes ".doc", bytes "application/msword")
    ∷ (bytes ".gif", bytes "image/gif")
    ∷ (bytes ".gz", bytes "application/x-gzip")
    ∷ (bytes ".htm", bytes "text/html")
    ∷ (bytes ".ico", bytes "image/x-icon")
    ∷ (bytes ".jpg", bytes "image/jpeg")
    ∷ (bytes ".png", bytes "image/png")
    ∷ (bytes ".txt", bytes "text/plain")
    ∷ (bytes ".mp3", bytes "audio/mp3")
    ∷ (bytes "default", bytes "text/html")
    ∷ []

unfoldable pub get_mime : List ℕ → List ℕ
get_mime suffix = elim (lookup suffix mime) [ none ↦ bytes "text/html" | some m ↦ m ]
