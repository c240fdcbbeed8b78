-- ===== src/Email/Tags/Read.antt =====
-- The tags of `Parse` of checks/email/internal/tags/tags.go.
use seta.Prelude.{
  ℕ, ◌≡◌, ◌≢◌, refl, subst, bind-eq-ok, Bool, true, false, List, [], ◌∷◌, arith, if◌then◌else◌,
  ◌==◌, Bytes, is_upper, is_lower, is_digit, lower, lower_ascii, trim_space, is_empty, split_on,
  cut, any, all, ok, err, Bool-cases, inl, inr,
}
use seta.Email.Tags.{
  Tag, empty_tag, is_alpha, is_name_byte, is_valid_name, parse_tag, parse_parts, parse_tags,
}

abbrev Distinct : Tag → Tag → Type 0
Distinct a b = a.name ≢ b.name

abbrev pub IsTag : Bool → Tag → Type 0
IsTag fold t = (is_valid_name t.name ≡ true) × ((fold ≡ true) → lower_ascii t.name ≡ t.name)

abbrev pub IsUnseen : List Bytes → Bytes → Type 0
IsUnseen seen name = any (λ (s : Bytes). s == name) seen ≡ false

lower_idem : (c : ℕ) → lower (lower c) ≡ lower c
unfolding lower is_upper
lower_idem c = ground arith

lower_ascii_idem : (s : Bytes) → lower_ascii (lower_ascii s) ≡ lower_ascii s
unfolding lower_ascii
lower_ascii_idem [] = refl
lower_ascii_idem (c ∷ s) = ground (arith, lower_idem c, lower_ascii_idem s)

all-lower : (s : Bytes) → all is_name_byte s ≡ true → all is_name_byte (lower_ascii s) ≡ true
unfolding lower_ascii is_name_byte is_alpha is_lower is_upper is_digit lower
all-lower [] h = refl
all-lower (c ∷ s) h = ground (arith, h, all-lower s)

lower-IsValidName : (s : Bytes) → is_valid_name s ≡ true → is_valid_name (lower_ascii s) ≡ true
unfolding is_valid_name lower_ascii is_alpha is_lower is_upper lower
lower-IsValidName (c ∷ s) h = ground (arith, h, all-lower s)
lower-IsValidName [] h = cc h

parse_tag_lem :
    (fold : Bool) (seen : List Bytes) (part : Bytes) (t : Tag)
    → parse_tag fold seen part ≡ ok t
    → IsTag fold t × IsUnseen seen t.name
unfolding parse_tag
parse_tag_lem fold seen part t h =
    let spelled = trim_space (cut b'=' part).0 in
    let valid = lower-IsValidName spelled in
    let name : t.name ≡ (if fold then lower_ascii spelled else spelled) = ground (arith, h) in
    (
      (ground (arith, h, valid), λ folds. ground (arith, h, lower_ascii_idem spelled, folds)),
      ground (arith, h),
    )

-- The names of the tags are distinct, and none is among those that have been seen.
abbrev pub AreTags : Bool → List Bytes → List Tag → Type 0
AreTags fold seen [] = Unit
AreTags fold seen (t ∷ ts) = IsTag fold t × IsUnseen seen t.name × AreTags fold (t.name ∷ seen) ts

parse_parts_lem :
    (fold : Bool) (seen : List Bytes) (parts : List Bytes) (ts : List Tag)
    → parse_parts fold seen parts ≡ ok ts
    → AreTags fold seen ts
unfolding parse_parts
parse_parts_lem fold seen [] ts h =
    let none_read : [] ≡ ts = cc h in subst (AreTags fold seen) none_read tt
parse_parts_lem fold seen (raw ∷ rest) ts h = elim (Bool-cases (is_empty (trim_space raw))) [
  | inl blank ↦ last rest (rw blank at h)
  | inr part ↦
      let (tag, read, more) = bind-eq-ok (parse_tag fold seen (trim_space raw)) _ (rw part at h) in
      let (tags, later, made) = bind-eq-ok (parse_parts fold (tag.name ∷ seen) rest) _ more in
      let here = parse_tag_lem fold seen (trim_space raw) tag read in
      let made_tags : tag ∷ tags ≡ ts = cc made in
      subst (AreTags fold seen) made_tags
        (here.0, here.1, parse_parts_lem fold (tag.name ∷ seen) rest tags later)
]
  where
    last :
        (rest : List Bytes)
        → (elim rest [ [] ↦ ok [] | _ ∷ _ ↦ err empty_tag ]) ≡ ok ts
        → AreTags fold seen ts
    last [] e = let none_read : [] ≡ ts = cc e in subst (AreTags fold seen) none_read tt
    last (_ ∷ _) e = absurd (cc e)

-- What `Parse` returns are tags with valid names, in lower case where names are folded, no two alike.
pub parse_tags-AreTags :
    (fold : Bool) (s : Bytes) (ts : List Tag) → parse_tags fold s ≡ ok ts → AreTags fold [] ts
unfolding parse_tags
parse_tags-AreTags fold s ts h = parse_parts_lem fold [] (split_on b';' s) ts h
