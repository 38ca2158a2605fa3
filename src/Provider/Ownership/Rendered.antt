-- ===== src/Provider/Ownership/Rendered.antt =====
-- The comma-separated pairs of an ownership value, written and read.
use Prim.Native.String.{◌++◌ as append}
use text.Mathlib.TextLemmas.{nil-append, cons-append, append-nil, append_assoc}
use dnsweaver.Base.{
  String, ◌≡◌, refl, sym, ap, ◌∙◌, false, some, List, [], ◌∷◌, map, arith, ◌==◌, eq_iff, All,
  Bool-cases, inl, inr,
}
use dnsweaver.Provider.Ownership.{Ownership, legacy, read_part, read_parts, read_rest}
use dnsweaver.Provider.Ownership.Parts.{
  split, split_pair, Lacks, strip_prefix-append, split-append, split_of_Lacks, split_pair-append,
  Lacks-append,
}

-- A pair that the comma-separated form can carry.
abbrev pub IsWritable : String × String → Type 0
IsWritable (k, v) = Lacks b',' k × Lacks b'=' k × Lacks b',' v

unfoldable pub render : List (String × String) → String
render [] = ""
render ((k, v) ∷ ps) = append "," (append k (append "=" (append v (render ps))))

entry : String × String → String
entry (k, v) = append k (append "=" v)

unfoldable pub read_pairs : Ownership → List (String × String) → Ownership
read_pairs o [] = o
read_pairs o (p ∷ ps) = read_pairs (read_part o (some p)) ps

entry-Lacks : (k v : String) → Lacks b',' k → Lacks b',' v → Lacks b',' (entry (k, v))
unfolding entry
entry-Lacks k v hk hv = Lacks-append b',' k _ hk (Lacks-append b',' "=" v (omega arith) hv)

comma-append : (t : String) → append "," t ≡ String.◌∷◌ "," t
comma-append t = cons-append "," "" t ∙ ap (λ u. String.◌∷◌ "," u) (nil-append t)

cons-ne-empty : (t : String) → (String.◌∷◌ "," t == "") ≡ false
cons-ne-empty t = elim (Bool-cases (String.◌∷◌ "," t == "")) [
  | inl e ↦ cc ((eq_iff _ _).0 e)
  | inr e ↦ e
]

split-render :
    (k v : String) (ps : List (String × String))
    → All IsWritable ((k, v) ∷ ps)
    → split (append k (append "=" (append v (render ps)))) ≡ entry (k, v) ∷ map entry ps
unfolding render entry
split-render k v [] ((hk, he, hv), _) =
    rw append-nil (split_of_Lacks (entry (k, v)) (entry-Lacks k v hk hv))
split-render k v ((j, w) ∷ ps) ((hk, he, hv), h) =
    ap split whole
    ∙ split-append (entry (k, v)) (append j (append "=" (append w (render ps))))
        (entry-Lacks k v hk hv)
    ∙ ap (λ ws. entry (k, v) ∷ ws) (split-render j w ps h)
  where
    rest : String
    rest = append j (append "=" (append w (render ps)))

    whole :
        append k (append "=" (append v (append "," rest)))
        ≡ append (entry (k, v)) (String.◌∷◌ "," rest)
    whole = rw (comma-append rest) (simp (append_assoc))

read_entries :
    (o : Ownership) (ps : List (String × String))
    → All IsWritable ps
    → read_parts o (map entry ps) ≡ read_pairs o ps
unfolding read_parts read_pairs entry
read_entries o [] h = refl
read_entries o ((k, v) ∷ ps) ((hk, he, hv), h) =
    ap (λ q. read_parts (read_part o q) (map entry ps))
      (ap (λ t. split_pair (append k t))
          (cons-append "=" "" v ∙ ap (λ u. String.◌∷◌ "=" u) (nil-append v))
        ∙ split_pair-append k v he)
    ∙ read_entries (read_part o (some (k, v))) ps h

pub read_rest-render :
    (ps : List (String × String)) → All IsWritable ps → read_rest (render ps) ≡ read_pairs legacy ps
unfolding read_rest render read_pairs
read_rest-render [] h = refl
read_rest-render ((k, v) ∷ ps) h =
    let body = append k (append "=" (append v (render ps))) in
    rw
      (
        comma-append body,
        cons-ne-empty body,
        sym (comma-append body),
        strip_prefix-append "," body,
        split-render k v ps h,
      )
      (read_entries legacy ((k, v) ∷ ps) h)
