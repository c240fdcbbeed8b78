-- ===== src/Email/Tags/Print.antt =====
-- Tag lists of checks/email/internal/tags/tags.go as text.
use seta.Prelude.{
  ℕ, ◌≡◌, ◌≢◌, refl, sym, ap, ◌∙◌, Bool, true, false, List, [], ◌∷◌, ◌++◌, map, arith,
  if◌then◌else◌, Bytes, is_upper, is_lower, is_digit, is_space, lower_ascii, trim_space, trim_left,
  trim_right, is_empty, all, ok, All, All-imp, append-nil, All-append, Solid, trim_left-Solid,
  trim_right-Solid, trim_right-append, cut-append, join, split_on-join,
}
use seta.Email.Tags.{Tag, is_alpha, is_name_byte, is_valid_name, parse_tag, parse_parts, parse_tags}
use seta.Email.Tags.Read.{IsTag, IsUnseen, AreTags}

abbrev pub print_tag : Tag → Bytes
print_tag t = t.name ++ (b'=' ∷ t.value)

abbrev pub print_tags : Tag → List Tag → Bytes
print_tags t ts = join b';' (print_tag t) (map print_tag ts)

-- A value that holds no semicolon and no space at its ends.
abbrev pub IsPlain : Tag → Type 0
IsPlain t =
    All (λ c. c ≢ b';') t.value × (trim_left t.value ≡ t.value) × (trim_right t.value ≡ t.value)

-- A byte of a name is no space and no separator.
abbrev IsInner : ℕ → Type 0
IsInner c = Solid c × (c ≢ b'=') × (c ≢ b';')

name_byte-IsInner : (c : ℕ) → is_name_byte c ≡ true → IsInner c
unfolding is_name_byte is_alpha is_lower is_upper is_digit is_space
name_byte-IsInner c h = ((ground arith, ground arith), (ground arith), (ground arith))

name_bytes-IsInner : (s : Bytes) → all is_name_byte s ≡ true → All IsInner s
name_bytes-IsInner [] h = tt
name_bytes-IsInner (c ∷ s) h =
    (name_byte-IsInner c (ground (arith, h)), name_bytes-IsInner s (ground (arith, h)))

name-IsInner : (s : Bytes) → is_valid_name s ≡ true → All IsInner s
unfolding is_valid_name is_name_byte
name-IsInner [] h = tt
name-IsInner (c ∷ s) h =
    (name_byte-IsInner c (ground (arith, h)), name_bytes-IsInner s (ground (arith, h)))

-- Text that begins with a byte of a name and ends like a trimmed one is not trimmed.
trim_space-name :
    (s t : Bytes)
    → is_valid_name s ≡ true
    → All Solid s
    → trim_right t ≡ t
    → trim_space (s ++ t) ≡ s ++ t
unfolding trim_space is_valid_name
trim_space-name [] t v h r = absurd (cc v)
trim_space-name (c ∷ s) t v h r =
    ap trim_right (trim_left-Solid c (s ++ t) h.0)
    ∙ trim_right-append (c ∷ s) t h
    ∙ ap (λ u. (c ∷ s) ++ u) r

is_empty-append : (s : Bytes) (c : ℕ) (t : Bytes) → is_empty (s ++ (c ∷ t)) ≡ false
unfolding is_empty
is_empty-append [] c t = refl
is_empty-append (d ∷ s) c t = refl

equals-Solid : Solid b'='
unfolding is_space
equals-Solid = (omega arith, refl)

module _ (fold : Bool) where
  parse_tag-print :
      (seen : List Bytes) (t : Tag)
      → IsTag fold t
      → IsUnseen seen t.name
      → IsPlain t
      → parse_tag fold seen (print_tag t) ≡ ok t
  unfolding parse_tag
  parse_tag-print seen t h u p =
      let inner = name-IsInner t.name h.0 in
      let solid = All-imp IsInner Solid (λ c i. i.0) t.name inner in
      let split =
        cut-append b'=' t.name t.value
          (All-imp IsInner (λ c. c ≢ b'=') (λ c i. i.1) t.name inner) in
      let trimmed : trim_space t.name ≡ t.name =
        ap trim_space (sym (append-nil t.name))
        ∙ trim_space-name t.name [] h.0 solid trim_nil
        ∙ append-nil t.name in
      let value : trim_space t.value ≡ t.value = trim_space-plain t p in
      let name : (if fold then lower_ascii t.name else t.name) ≡ t.name = folded t h in
      simp (split, trimmed, value, h.0, name, u)
    where
      trim_nil : trim_right [] ≡ []
      trim_nil = unfold trim_right in refl

      trim_space-plain : (t : Tag) → IsPlain t → trim_space t.value ≡ t.value
      trim_space-plain t p = unfold trim_space in ap trim_right p.1 ∙ p.2

      folded : (t : Tag) → IsTag fold t → (if fold then lower_ascii t.name else t.name) ≡ t.name
      folded t h = ground (arith, h.1)

  print_tag-IsKept :
      (t : Tag)
      → IsTag fold t
      → IsPlain t
      → (trim_space (print_tag t) ≡ print_tag t) × (is_empty (print_tag t) ≡ false)
  print_tag-IsKept t h p =
      let solid = All-imp IsInner Solid (λ c i. i.0) t.name (name-IsInner t.name h.0) in
      (
        trim_space-name t.name (b'=' ∷ t.value) h.0 solid
            (trim_right-Solid b'=' t.value equals-Solid ∙ ap (λ v. b'=' ∷ v) p.2),
        is_empty-append t.name b'=' t.value,
      )

  parse_parts-print :
      (seen : List Bytes) (ts : List Tag)
      → AreTags fold seen ts
      → All IsPlain ts
      → parse_parts fold seen (map print_tag ts) ≡ ok ts
  unfolding parse_parts
  parse_parts-print seen [] h p = refl
  parse_parts-print seen (t ∷ ts) h p =
      let kept = print_tag-IsKept t h.0 p.0 in
      let first = parse_tag-print seen t h.0 h.1 p.0 in
      let rest = parse_parts-print (t.name ∷ seen) ts h.2 p.1 in simp (kept.0, kept.1, first, rest)

  tag-HasNoSemicolon : (t : Tag) → IsTag fold t → IsPlain t → All (λ c. c ≢ b';') (print_tag t)
  tag-HasNoSemicolon t h p =
      All-append (λ c. c ≢ b';') t.name (b'=' ∷ t.value)
        (All-imp IsInner (λ c. c ≢ b';') (λ c i. i.2) t.name (name-IsInner t.name h.0))
        (omega arith, p.0)

  tags-HaveNoSemicolon :
      (seen : List Bytes) (ts : List Tag)
      → AreTags fold seen ts
      → All IsPlain ts
      → All (All (λ c. c ≢ b';')) (map print_tag ts)
  tags-HaveNoSemicolon seen [] h p = tt
  tags-HaveNoSemicolon seen (t ∷ ts) h p =
      (tag-HasNoSemicolon t h.0 p.0, tags-HaveNoSemicolon (t.name ∷ seen) ts h.2 p.1)

  -- Tags with valid and distinct names, and values that hold no semicolon and no space at their ends,
  -- are read back from their text.
  pub parse_tags-print :
      (t : Tag) (ts : List Tag)
      → AreTags fold [] (t ∷ ts)
      → All IsPlain (t ∷ ts)
      → parse_tags fold (print_tags t ts) ≡ ok (t ∷ ts)
  unfolding parse_tags
  parse_tags-print t ts h p =
      let pieces =
        split_on-join b';' (print_tag t) (map print_tag ts) (tag-HasNoSemicolon t h.0 p.0)
          (tags-HaveNoSemicolon (t.name ∷ []) ts h.2 p.1) in
      ap (parse_parts fold []) pieces ∙ parse_parts-print [] (t ∷ ts) h p
