-- ===== src/DnsUpdate/Catalog/Words.antt =====
-- What `parseTXTHostnames` reads from the strings that `writeChunk` writes.
use Prim.Native.String.{◌++◌ as append}
use text.Mathlib.TextLemmas.{nil-append, cons-append}
use dnsweaver.Base.{String, ◌≡◌, refl, ap, false, not, List, [], ◌∷◌, All, ◌==◌, select}
use dnsweaver.Base.Blanks.{is_blank}
use package.dnsweaver.DnsUpdate.Record.{join_words}
use package.dnsweaver.DnsUpdate.Catalog.{cut_blanks, parse_txt_hostnames}

-- The text has no blank.
abbrev pub IsSolid : String → Type 0
IsSolid String.[] = Unit
IsSolid (String.◌∷◌ c s) = (is_blank c ≡ false) × IsSolid s

abbrev pub IsWord : String → Type 0
IsWord s = ((s == "") ≡ false) × IsSolid s

cut_blanks-append :
    (p s : String) → IsSolid p → cut_blanks (append p (String.◌∷◌ " " s)) ≡ p ∷ cut_blanks s
unfolding cut_blanks
cut_blanks-append String.[] s h = rw nil-append refl
cut_blanks-append (String.◌∷◌ c p) s (solid, h) =
    rw (cons-append, cut_blanks-append p s h, solid) refl

cut_blanks_of_word : (p : String) → IsSolid p → cut_blanks p ≡ p ∷ []
unfolding cut_blanks
cut_blanks_of_word String.[] h = refl
cut_blanks_of_word (String.◌∷◌ c p) (solid, h) = rw (cut_blanks_of_word p h, solid) refl

cut_blanks-join_words :
    (w : String) (ws : List String)
    → All IsWord (w ∷ ws)
    → cut_blanks (join_words (w ∷ ws)) ≡ w ∷ ws
unfolding join_words
cut_blanks-join_words w [] ((_, solid), _) = cut_blanks_of_word w solid
cut_blanks-join_words w (v ∷ ws) ((_, solid), words) =
    rw (cons-append, nil-append, cut_blanks-append w (join_words (v ∷ ws)) solid)
      (ap (λ rest. w ∷ rest) (cut_blanks-join_words v ws words))

select-words : (ws : List String) → All IsWord ws → select (λ w. not (w == "")) ws ≡ ws
select-words [] h = refl
select-words (w ∷ ws) ((full, _), h) = rw full (ap (λ rest. w ∷ rest) (select-words ws h))

-- What `parseTXTHostnames` reads from the strings of a TXT record, which `RecordFromRR` joins with
-- blanks, is these strings, if none is empty or has a blank in it.
pub parse_txt_hostnames-join_words :
    (hostnames : List String)
    → All IsWord hostnames
    → parse_txt_hostnames (join_words hostnames) ≡ hostnames
unfolding parse_txt_hostnames cut_blanks join_words
parse_txt_hostnames-join_words [] words = refl
parse_txt_hostnames-join_words (w ∷ ws) words =
    rw (parse_txt_hostnames, cut_blanks-join_words w ws words) (select-words (w ∷ ws) words)
