-- ===== src/Driver/Paging/Tokens.antt =====
-- `getPagingValues` and the tokens that pages end with.
use brickstor_csi_driver.Base.{
  ℕ, ◌^◌, ◌≡◌, refl, List, [], ◌∷◌, ◌++◌, Text, some, ok, Lacks, split-append, split-Lacks, ℤ,
  arith, is_empty, false,
}
use brickstor_csi_driver.Strconv.{format_int}
use brickstor_csi_driver.Strconv.RoundTrip.{Fits, parse_int-format_int, format_int-Lacks}
use brickstor_csi_driver.Driver.Paging.{index_of, position_of, get_paging_values, token}

pub append-nonempty : (p q : Text) (c : ℕ) → is_empty (p ++ c ∷ q) ≡ false
append-nonempty [] q c = refl
append-nonempty (x ∷ p) q c = refl

index_of-nonempty :
    (name : Text) (nodes : List Text) {i : ℕ}
    → index_of name nodes ≡ some i
    → is_empty nodes ≡ false
unfolding index_of
index_of-nonempty name [] h = cc
index_of-nonempty name (n ∷ ns) h = refl

-- The token for a configured node and any 32-bit offset is accepted, and read as this offset and
-- the node's index; the node's name must hold no colon.
pub get_paging_values-token :
    (nodes : List Text) (name : Text) (offset : ℤ) (i : ℕ)
    → Lacks b':' name
    → Fits (2 ^ 31) offset
    → index_of name nodes ≡ some i
    → get_paging_values (token name offset) nodes ≡ ok (record { offset = offset; node_index = i })
unfolding get_paging_values
get_paging_values-token nodes name offset i hn fits known =
    rw
      (
        index_of-nonempty name nodes known,
        append-nonempty name (format_int offset) b':',
        split-append b':' name (format_int offset) hn,
        split-Lacks b':' (format_int offset) (format_int-Lacks b':' offset (refl) (omega arith)),
      )
      (rw (parse_int-format_int (2 ^ 31) offset fits, position_of) (rw (known, position_of) refl))
