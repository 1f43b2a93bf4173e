-- ===== src/Http/Headers/Quality.antt =====
-- parse_quality_header reads what is printed as a list with qualities.
mod Tests
use tube.Common.{
  ℕ, zero, suc, ◌+◌, ◌-◌, ◌≤◌, ◌<◌, Bytes, codes, bytes_eq, Bool, true, false, List, [], ◌∷◌, ◌++◌,
  Option, none, some, ltb, lt→ltb, if◌then◌else◌, length, length-append, take, drop, take_front,
  drop_front, length-drop, drop-append_add, drop-drop, take_all, append_assoc, append-nil,
  is_prefix, find, find-separator, elem, ◌≡◌, refl, ap, sym, ◌∙◌, subst, arith, Bool-cases, inl,
  inr, All,
}
use mathlib.Core.Option
use tube.Http.Headers.{
  HttpHeaderItem, find_header_values, HttpHeaderQualityValue, http_quality_indicator, find_from,
  parse_quality_value, quality_loop, parse_quality_header, concat_qualities,
  find_header_quality_values,
}

-- A value with its quality, as a client writes it.
abbrev pub print_quality : Bytes → Option Bytes → Bytes
print_quality value none = value
print_quality value (some quality) = value ++ (codes ";q=" ++ quality)

abbrev pub print_item : HttpHeaderQualityValue → Bytes
print_item v = print_quality v.value v.quality

abbrev pub print_items : List HttpHeaderQualityValue → Bytes
print_items [] = []
print_items (v ∷ []) = print_item v
print_items (v ∷ w ∷ vs) = print_item v ++ (codes ", " ++ print_items (w ∷ vs))

-- The text of an item is not empty and has no separator in it, nor its value a quality.
pub record IsItem (v : HttpHeaderQualityValue) : Type 0 where
  pub some_text : 0 < length (print_item v)
  pub no_comma : find (codes ", ") (print_item v) ≡ none
  pub no_quality : find (codes ";q=") v.value ≡ none

parse_quality_value-print :
    (value : Bytes) (quality : Option Bytes)
    → find (codes ";q=") value ≡ none
    → parse_quality_value (print_quality value quality)
      ≡ record { value = value; quality = quality }
unfolding parse_quality_value
parse_quality_value-print value none h = rw h refl
parse_quality_value-print value (some quality) h =
    rw (find-separator b';' (codes "q=") value quality refl h) (
      rw
        (
          take_front value (b';' ∷ (codes "q=" ++ quality)),
          drop-append_add (length value) 3 value (b';' ∷ (codes "q=" ++ quality)) refl,
        )
        refl)

print-IsItem : (v : HttpHeaderQualityValue) → IsItem v → parse_quality_value (print_item v) ≡ v
print-IsItem v ok = parse_quality_value-print v.value v.quality ok.no_quality

not_reached : (str rest : Bytes) (pos : ℕ) → drop pos str ≡ rest → length str - pos ≡ length rest
not_reached str rest pos e = sym (length-drop pos str) ∙ ap length e

find_from-rest :
    (pat str rest : Bytes) (pos : ℕ) {o : Option ℕ}
    → drop pos str ≡ rest
    → find pat rest ≡ o
    → find_from pat str pos ≡ Option.map (λ i. pos + i) o
unfolding find_from
find_from-rest pat str rest pos e h = rw e (rw h refl)

none_in_nothing : find (codes ", ") [] ≡ none
unfolding find is_prefix
none_in_nothing = refl

quality_loop-print :
    (vs : List HttpHeaderQualityValue) (fuel : ℕ) (str : Bytes) (pos : ℕ)
    → All IsItem vs
    → drop pos str ≡ print_items vs
    → length (print_items vs) < fuel
    → quality_loop fuel str pos ≡ vs
unfolding quality_loop
quality_loop-print vs zero str pos ok e lt = absurd (omega arith)
quality_loop-print [] (suc fuel) str pos ok e lt =
    rw (find_from-rest (codes ", ") str [] pos e none_in_nothing, quality_loop)
      (rw (not_reached str [] pos e) refl)
quality_loop-print (v ∷ []) (suc fuel) str pos ok e lt =
    rw (find_from-rest (codes ", ") str (print_item v) pos e ok.0.no_comma, quality_loop)
      (rw (not_reached str (print_item v) pos e, lt→ltb _ _ ok.0.some_text)
        (rw e (rw (print-IsItem v ok.0) refl)))
quality_loop-print (v ∷ w ∷ vs) (suc fuel) str pos ok e lt =
    rw (find_from-rest (codes ", ") str (print_items (v ∷ w ∷ vs)) pos e found, quality_loop)
      (rw (lt→ltb pos (pos + length (print_item v)) (omega (arith, ok.0.some_text)), room)
        (rw e (
          rw (take_front (print_item v) (codes ", " ++ print_items (w ∷ vs)), print-IsItem v ok.0)
            (ap (λ t. v ∷ t)
              (quality_loop-print (w ∷ vs) fuel str (pos + length (print_item v) + 2) ok.1 behind (
                omega (
                  arith,
                  lt,
                  length-append (print_item v) (codes ", " ++ print_items (w ∷ vs)),
                )))))))
  where
    found : find (codes ", ") (print_items (v ∷ w ∷ vs)) ≡ some (length (print_item v))
    found = find-separator b',' (codes " ") (print_item v) (print_items (w ∷ vs)) refl ok.0.no_comma

    room : pos + length (print_item v) - pos ≡ length (print_item v)
    room = omega arith

    behind : drop (pos + length (print_item v) + 2) str ≡ print_items (w ∷ vs)
    behind =
        ap (λ k. drop k str) (omega arith)
        ∙ sym (drop-drop (length (print_item v) + 2) pos str)
        ∙ ap (drop (length (print_item v) + 2)) e
        ∙ drop-append_add (length (print_item v)) 2 (print_item v)
            (codes ", " ++ print_items (w ∷ vs)) refl

parse_quality_header-print :
    (vs : List HttpHeaderQualityValue) → All IsItem vs → parse_quality_header (print_items vs) ≡ vs
unfolding parse_quality_header
parse_quality_header-print vs ok =
    quality_loop-print vs (suc (length (print_items vs))) (print_items vs) 0 ok refl (omega arith)

-- Headers whose values are printed lists of items.
abbrev pub print_headers : List (Bytes × List HttpHeaderQualityValue) → List HttpHeaderItem
print_headers [] = []
print_headers ((key, vs) ∷ hs) = record { key = key; value = print_items vs } ∷ print_headers hs

-- All items of the headers with a key, in order.
abbrev pub items_of :
    Bytes → List (Bytes × List HttpHeaderQualityValue) → List HttpHeaderQualityValue
items_of key [] = []
items_of key ((k, vs) ∷ hs) = if bytes_eq k key then vs ++ items_of key hs else items_of key hs

-- From headers that print lists of items, each not empty, without a comma and a blank and without a
-- quality mark in its value, find_header_quality_values reads back the values and the texts of their
-- qualities of all headers with the key, in order.
pub find_header_quality_values-print :
    (key : Bytes) (hs : List (Bytes × List HttpHeaderQualityValue))
    → All (λ h. All IsItem h.1) hs
    → find_header_quality_values key (print_headers hs) ≡ items_of key hs
unfolding find_header_quality_values find_header_values concat_qualities
find_header_quality_values-print key [] ok = refl
find_header_quality_values-print key ((k, vs) ∷ hs) ok = elim (Bool-cases (bytes_eq k key)) [
  | inl same ↦ rw same (
      rw (parse_quality_header-print vs ok.0)
        (ap (λ t. vs ++ t) (find_header_quality_values-print key hs ok.1)))
  | inr other ↦ rw other (find_header_quality_values-print key hs ok.1)
]
