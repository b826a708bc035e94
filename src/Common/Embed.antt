-- ===== src/Common/Embed.antt =====
-- internal/common/embed.go: the wrapper around Discord embeds. Optional strings of variadic
-- setters come as a list. `Type`, `Timestamp`, `Video` and `Provider` are never set.
use chremoas_ng.Base.{ℕ, Bool, true, false, Option, none, some, List, [], ◌∷◌, ◌++◌, map}
use chremoas_ng.Base.{ltb, if◌then◌else◌, length, take}
use chremoas_ng.Base.Text.{Str}

pub record EmbedField : Type 0 where
  pub name : Str
  pub value : Str
  pub inline : Bool

pub record EmbedFooter : Type 0 where
  pub icon_url : Str
  pub text : Str
  pub proxy_icon_url : Str

pub record EmbedImage : Type 0 where
  pub url : Str
  pub proxy_url : Str

pub record EmbedAuthor : Type 0 where
  pub name : Str
  pub icon_url : Str
  pub url : Str
  pub proxy_icon_url : Str

pub record Embed : Type 0 where
  pub url : Str
  pub title : Str
  pub description : Str
  pub color : ℕ
  pub footer : Option EmbedFooter
  pub image : Option EmbedImage
  pub thumbnail : Option EmbedImage
  pub author : Option EmbedAuthor
  pub fields : List EmbedField

abbrev pub embed_limit_title : ℕ
embed_limit_title = 256

abbrev pub embed_limit_description : ℕ
embed_limit_description = 2048

abbrev pub embed_limit_field_value : ℕ
embed_limit_field_value = 1024

abbrev pub embed_limit_field_name : ℕ
embed_limit_field_name = 256

abbrev pub embed_limit_field : ℕ
embed_limit_field = 25

abbrev pub embed_limit_footer : ℕ
embed_limit_footer = 2048

-- `if len(s) > n { s = s[:n] }`
abbrev pub cut {ℓ} : {A : Type ℓ} → ℕ → List A → List A
cut n s = if ltb n (length s) then take n s else s

abbrev pub new_embed : Embed
new_embed = record {
  url = [];
  title = [];
  description = [];
  color = 0;
  footer = none;
  image = none;
  thumbnail = none;
  author = none;
  fields = [];
}

unfoldable pub set_title : Str → Embed → Embed
set_title name e = record e { title = name }

unfoldable pub set_description : Str → Embed → Embed
set_description description e = record e { description = cut 2048 description }

unfoldable pub add_field : Str → Str → Embed → Embed
add_field name value e =
    let field : EmbedField = record {
      name = cut 1024 name;
      value = cut 1024 value;
      inline = false;
    } in
    record e { fields = e.fields ++ field ∷ [] }

unfoldable pub set_footer : List Str → Embed → Embed
set_footer [] e = e
set_footer (text ∷ []) e = record e {
  footer = some (record { icon_url = []; text = text; proxy_icon_url = [] });
}
set_footer (text ∷ icon_url ∷ []) e = record e {
  footer = some (record { icon_url = icon_url; text = text; proxy_icon_url = [] });
}
set_footer (text ∷ icon_url ∷ proxy_url ∷ more) e = record e {
  footer = some (record { icon_url = icon_url; text = text; proxy_icon_url = proxy_url });
}

-- The image that the arguments of `SetImage` and `SetThumbnail` stand for.
image_of : List Str → Option EmbedImage → Option EmbedImage
image_of [] old = old
image_of (url ∷ []) old = some (record { url = url; proxy_url = [] })
image_of (url ∷ proxy_url ∷ more) old = some (record { url = url; proxy_url = proxy_url })

unfoldable pub set_image : List Str → Embed → Embed
unfolding image_of
set_image args e = record e { image = image_of args e.image }

unfoldable pub set_thumbnail : List Str → Embed → Embed
unfolding image_of
set_thumbnail args e = record e { thumbnail = image_of args e.thumbnail }

-- The argument at a place, or the empty string.
arg : ℕ → List Str → Str
arg n [] = []
arg ℕ.zero (s ∷ args) = s
arg (ℕ.suc n) (s ∷ args) = arg n args

unfoldable pub set_author : List Str → Embed → Embed
unfolding arg
set_author [] e = e
set_author (name ∷ args) e = record e {
  author = some (record {
    name = name;
    icon_url = arg 0 args;
    url = arg 1 args;
    proxy_icon_url = arg 2 args;
  });
}

unfoldable pub set_url : Str → Embed → Embed
set_url url e = record e { url = url }

unfoldable pub set_color : ℕ → Embed → Embed
set_color clr e = record e { color = clr }

unfoldable pub inline_all_fields : Embed → Embed
inline_all_fields e = record e {
  fields = map {A = EmbedField} (λ v. record v { inline = true }) e.fields;
}

unfoldable pub cut_field : EmbedField → EmbedField
cut_field v = record v {
  name = cut embed_limit_field_name v.name;
  value = cut embed_limit_field_value v.value;
}

unfoldable pub truncate_fields : Embed → Embed
unfolding cut_field
truncate_fields e = record e { fields = map cut_field (cut embed_limit_field e.fields) }

unfoldable pub truncate_description : Embed → Embed
truncate_description e = record e { description = cut embed_limit_description e.description }

unfoldable pub truncate_title : Embed → Embed
truncate_title e = record e { title = cut embed_limit_title e.title }

unfoldable pub cut_footer : Option EmbedFooter → Option EmbedFooter
cut_footer none = none
cut_footer (some f) = some (record f { text = cut embed_limit_footer f.text })

unfoldable pub truncate_footer : Embed → Embed
unfolding cut_footer
truncate_footer e = record e { footer = cut_footer e.footer }

unfoldable pub truncate : Embed → Embed
unfolding truncate_description truncate_fields truncate_footer truncate_title
truncate e = truncate_title (truncate_footer (truncate_fields (truncate_description e)))
