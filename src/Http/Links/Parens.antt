-- ===== src/Http/Links/Parens.antt =====
-- lib/httpapi/links.go: the loop of `trimURL`.
use agentapi_plusplus.Http.Links.{
  is_trailing_punct, count, close_parens, trim_url, keep_url, trim_urls, extract_urls, rejoin,
  line_urls, screen_urls, extract_urls_from_screen, is_blank_end, find_all_urls,
}
use agentapi_plusplus.Prelude.{
  ℕ, zero, suc, ◌+◌, ◌≤◌, ◌≡◌, inl, inr, false, List, [], ◌∷◌, ◌++◌, ◌==◌, ltb, Bool-cases, is_nil,
  arith, Text,
}
use agentapi_plusplus.Strings.{trim_right, split_lines}

-- A URL closes as many parentheses as it opens, or more.
abbrev pub IsClosed : Text → Type 0
IsClosed url = count b'(' url ≤ count b')' url

abbrev pub AreClosed : List Text → Type 0
AreClosed [] = Unit
AreClosed (u ∷ us) = IsClosed u × AreClosed us

AreClosed-append : (us vs : List Text) → AreClosed us → AreClosed vs → AreClosed (us ++ vs)
AreClosed-append [] vs h k = k
AreClosed-append (u ∷ us) vs h k = (h.0, AreClosed-append us vs h.1 k)

count-append : (d : ℕ) (s t : Text) → count d (s ++ t) ≡ count d s + count d t
count-append d [] t = omega arith
count-append d (c ∷ s) t = elim (Bool-cases (c == d)) [
  | inl e ↦ rw e (omega (arith, count-append d s t))
  | inr e ↦ rw e (count-append d s t)
]

-- Enough fuel is the number of parentheses that are open.
close_parens-IsClosed :
    (fuel : ℕ) (url : Text)
    → count b'(' url ≤ fuel + count b')' url
    → IsClosed (close_parens fuel url)
unfolding close_parens
close_parens-IsClosed zero url h = omega arith
close_parens-IsClosed (suc fuel) url h = elim (Bool-cases (ltb (count b')' url) (count b'(' url))) [
  | inl e ↦ rw e (
      close_parens-IsClosed fuel (url ++ b')' ∷ [])
        (omega (arith, count-append b'(' url (b')' ∷ []), count-append b')' url (b')' ∷ []))))
  | inr e ↦ rw e (ltb_false→le (count b')' url) (count b'(' url) e)
]
  where
    ltb_false→le : (a b : ℕ) → ltb a b ≡ false → b ≤ a
    ltb_false→le a b h = ground arith

trim_url-IsClosed : (url : Text) → IsClosed (trim_url url)
unfolding trim_url
trim_url-IsClosed url =
    close_parens-IsClosed (count b'(' (trim_right is_trailing_punct url))
      (trim_right is_trailing_punct url) (omega arith)

keep_url-AreClosed :
    (url : Text) (urls : List Text) → AreClosed urls → AreClosed (keep_url (trim_url url) urls)
keep_url-AreClosed url urls h = elim (Bool-cases (is_nil (trim_url url))) [
  | inl e ↦ rw e h
  | inr e ↦ rw e (trim_url-IsClosed url, h)
]

pub extract_urls-AreClosed : (text : Text) → AreClosed (extract_urls text)
unfolding extract_urls
extract_urls-AreClosed text = trim_urls-AreClosed (find_all_urls 0 text)
  where
    trim_urls-AreClosed : (ms : List Text) → AreClosed (trim_urls ms)
    trim_urls-AreClosed [] = tt
    trim_urls-AreClosed (m ∷ ms) = keep_url-AreClosed m (trim_urls ms) (trim_urls-AreClosed ms)

pub extract_urls_from_screen-AreClosed : (text : Text) → AreClosed (extract_urls_from_screen text)
unfolding extract_urls_from_screen
extract_urls_from_screen-AreClosed text = screen_urls-AreClosed (split_lines text)
  where
    line_urls-AreClosed : (line : Text) (lines ms : List Text) → AreClosed (line_urls line lines ms)
    line_urls-AreClosed line lines [] = tt
    line_urls-AreClosed line lines (m ∷ ms) =
        keep_url-AreClosed (rejoin m m (trim_right is_blank_end line) lines)
          (line_urls line lines ms) (line_urls-AreClosed line lines ms)

    screen_urls-AreClosed : (lines : List Text) → AreClosed (screen_urls lines)
    screen_urls-AreClosed [] = tt
    screen_urls-AreClosed (line ∷ lines) =
        AreClosed-append (line_urls line lines (find_all_urls 0 line)) (screen_urls lines)
          (line_urls-AreClosed line lines (find_all_urls 0 line)) (screen_urls-AreClosed lines)
