-- ===== src/Transport/Bytes/Texts.antt =====
-- Lists of texts, and lists of byte strings, as messages carry them.
use kobako.Common.{ℕ, ◌<◌, ◌^◌, ◌≡◌, List, [], ◌∷◌, ◌++◌, length, All}
use kobako.Transport.Bytes.{
  Writer, read_text, read_bytes, read_text_list, read_bytes_list, list, into_bytes,
}
use kobako.Transport.Bytes.Parses.{Reads}
use kobako.Transport.Bytes.Fields.{IsText, block, listing, Reads-text, Reads-bytes, Reads-list}
use kobako.Transport.Bytes.Writes.{AllFit, into_bytes-list}

pub record IsTexts (xs : List (List ℕ)) : Type 0 where
  pub count : length xs < 2 ^ 32
  pub texts : All IsText xs

AllFit-texts : (xs : List (List ℕ)) → All IsText xs → AllFit xs
AllFit-texts [] h = tt
AllFit-texts (x ∷ xs) (hx, hxs) = (hx.fits, AllFit-texts xs hxs)

Reads-each_text : (xs : List (List ℕ)) → All IsText xs → All (λ x. Reads read_text (block x) x) xs
Reads-each_text [] h = tt
Reads-each_text (x ∷ xs) (hx, hxs) = (Reads-text x hx, Reads-each_text xs hxs)

pub Reads-text_list : (xs : List (List ℕ)) → IsTexts xs → Reads read_text_list (listing xs) xs
unfolding read_text_list
Reads-text_list xs h = Reads-list read_text xs h.count (Reads-each_text xs h.texts)

pub into_bytes-texts :
    (w : Writer) (xs : List (List ℕ))
    → IsTexts xs
    → into_bytes (list xs w) ≡ into_bytes w ++ listing xs
into_bytes-texts w xs h = into_bytes-list w xs h.count (AllFit-texts xs h.texts)

pub record AreFitting (xs : List (List ℕ)) : Type 0 where
  pub count : length xs < 2 ^ 32
  pub items : AllFit xs

Reads-each_bytes : (xs : List (List ℕ)) → AllFit xs → All (λ x. Reads read_bytes (block x) x) xs
Reads-each_bytes [] h = tt
Reads-each_bytes (x ∷ xs) (hx, hxs) = (Reads-bytes x hx, Reads-each_bytes xs hxs)

pub Reads-bytes_list : (xs : List (List ℕ)) → AreFitting xs → Reads read_bytes_list (listing xs) xs
unfolding read_bytes_list
Reads-bytes_list xs h = Reads-list read_bytes xs h.count (Reads-each_bytes xs h.items)
