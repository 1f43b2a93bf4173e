-- ===== src/Http/Headers/Quality/Tests.antt =====
-- Two Accept headers with qualities.
use tube.Common.{
  Bytes, bytes_eq, codes, is_prefix, find, none, some, [], ◌∷◌, List, ◌≡◌, refl, arith,
}
use tube.Http.Headers.{HttpHeaderQualityValue, find_header_quality_values}
use tube.Http.Headers.Quality.{IsItem, print_headers, find_header_quality_values-print}

abbrev html : HttpHeaderQualityValue
html = record { value = codes "text/html"; quality = none }

abbrev xml : HttpHeaderQualityValue
xml = record { value = codes "text/xml"; quality = some (codes "0.8") }

html-IsItem : IsItem html
unfolding find is_prefix
html-IsItem = record { some_text = omega arith; no_comma = refl; no_quality = refl }

xml-IsItem : IsItem xml
unfolding find is_prefix
xml-IsItem = record { some_text = omega arith; no_comma = refl; no_quality = refl }

abbrev two_headers : List (Bytes × List HttpHeaderQualityValue)
two_headers =
    (codes "Accept", html ∷ xml ∷ []) ∷ (codes "Host", []) ∷ (codes "Accept", xml ∷ []) ∷ []

find_header_quality_values-print_example :
    find_header_quality_values (codes "Accept") (print_headers two_headers) ≡ html ∷ xml ∷ xml ∷ []
unfolding bytes_eq
find_header_quality_values-print_example =
    find_header_quality_values-print (codes "Accept") two_headers
      ((html-IsItem, (xml-IsItem, tt)), (tt, ((xml-IsItem, tt), tt)))
