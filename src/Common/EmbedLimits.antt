-- ===== src/Common/EmbedLimits.antt =====
-- What the truncation of an embed (internal/common/embed.go) promises.
use chremoas_ng.Base.{
  ℕ, ◌≡◌, refl, ap, ◌∙◌, ◌≤◌, arith, Option, none, some, List, [], ◌∷◌, ltb, ltb→le, ltb→lt, length,
  length-take, map, All, inl, inr, Bool-cases,
}
use chremoas_ng.Common.Embed.{
  EmbedField, EmbedFooter, Embed, cut, cut_field, cut_footer, truncate, truncate_fields,
  truncate_description, truncate_title, truncate_footer, embed_limit_title, embed_limit_description,
  embed_limit_field_value, embed_limit_field_name, embed_limit_field, embed_limit_footer,
}

pub cut-le {ℓ} : {A : Type ℓ} (n : ℕ) (s : List A) → length (cut n s) ≤ n
cut-le n s = elim (Bool-cases (ltb n (length s))) [
  | inl long ↦ rw (cut, long, length-take n s) (ground arith)
  | inr short ↦ rw (cut, short) (ltb→le n (length s) short)
]

cut-short {ℓ} : {A : Type ℓ} (n : ℕ) (s : List A) → length s ≤ n → cut n s ≡ s
cut-short n s h = elim (Bool-cases (ltb n (length s))) [
  | inl long ↦ let less = ltb→lt n (length s) long in let never : ⊥ = omega arith in absurd never
  | inr short ↦ rw (cut, short) refl
]

pub record FieldFits (v : EmbedField) : Type 0 where
  pub name : length v.name ≤ embed_limit_field_name
  pub value : length v.value ≤ embed_limit_field_value

abbrev pub FooterFits : Option EmbedFooter → Type 0
FooterFits none = Unit
FooterFits (some f) = length f.text ≤ embed_limit_footer

-- What Discord accepts, by the constants of the file.
pub record FitsLimits (e : Embed) : Type 0 where
  pub title : length e.title ≤ embed_limit_title
  pub description : length e.description ≤ embed_limit_description
  pub field_count : length e.fields ≤ embed_limit_field
  pub fields : All FieldFits e.fields
  pub footer : FooterFits e.footer

map_cut-fits : (vs : List EmbedField) → All FieldFits (map cut_field vs)
unfolding cut_field
map_cut-fits [] = tt
map_cut-fits (v ∷ vs) = (
  record {
    name = cut-le embed_limit_field_name v.name;
    value = cut-le embed_limit_field_value v.value;
  },
  map_cut-fits vs,
)

length-map_cut : (vs : List EmbedField) → length (map cut_field vs) ≡ length vs
length-map_cut [] = refl
length-map_cut (v ∷ vs) = rw (length-map_cut vs) refl

cut_footer-fits : (f : Option EmbedFooter) → FooterFits (cut_footer f)
unfolding cut_footer
cut_footer-fits none = tt
cut_footer-fits (some f) = cut-le embed_limit_footer f.text

truncate-FitsLimits : (e : Embed) → FitsLimits (truncate e)
unfolding truncate truncate_fields truncate_description truncate_title truncate_footer
truncate-FitsLimits e = record {
  title = cut-le embed_limit_title e.title;
  description = cut-le embed_limit_description e.description;
  field_count =
      rw (length-map_cut (cut embed_limit_field e.fields)) (cut-le embed_limit_field e.fields);
  fields = map_cut-fits (cut embed_limit_field e.fields);
  footer = cut_footer-fits e.footer;
}

cut_field-fit : (v : EmbedField) → FieldFits v → cut_field v ≡ v
unfolding cut_field
cut_field-fit v h =
    rw
      (
        cut_field,
        cut-short embed_limit_field_name v.name h.name,
        cut-short embed_limit_field_value v.value h.value,
      )
      refl

map_cut-fit : (vs : List EmbedField) → All FieldFits vs → map cut_field vs ≡ vs
map_cut-fit [] h = refl
map_cut-fit (v ∷ vs) h = rw (cut_field-fit v h.0, map_cut-fit vs h.1) refl

cut_footer-fit : (f : Option EmbedFooter) → FooterFits f → cut_footer f ≡ f
unfolding cut_footer
cut_footer-fit none h = refl
cut_footer-fit (some f) h =
    ap (λ t. some (record f { text = t })) (cut-short embed_limit_footer f.text h)

truncate-fit : (e : Embed) → FitsLimits e → truncate e ≡ e
unfolding truncate truncate_fields truncate_description truncate_title truncate_footer
truncate-fit e h =
    let title : cut embed_limit_title e.title ≡ e.title =
      cut-short embed_limit_title e.title h.title in
    let description : cut embed_limit_description e.description ≡ e.description =
      cut-short embed_limit_description e.description h.description in
    let fields : map cut_field (cut embed_limit_field e.fields) ≡ e.fields =
      ap (map cut_field) (cut-short embed_limit_field e.fields h.field_count)
      ∙ map_cut-fit e.fields h.fields in
    let footer : cut_footer e.footer ≡ e.footer = cut_footer-fit e.footer h.footer in
    λ i. record e {
      title = title i;
      description = description i;
      fields = fields i;
      footer = footer i;
    }

-- A truncated embed has at most 256 bytes of title, 2048 of description and of footer, 25 fields
-- of at most 256 and 1024 bytes; and truncating it again changes nothing.
pub truncate_lem : (e : Embed) → FitsLimits (truncate e) × (truncate (truncate e) ≡ truncate e)
truncate_lem e = (truncate-FitsLimits e, truncate-fit (truncate e) (truncate-FitsLimits e))
