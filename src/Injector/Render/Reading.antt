-- ===== src/Injector/Render/Reading.antt =====
-- About renderProperties and escapeProperty (internal/injector/injector.go): what java.util.Properties
-- reads in the text, by the documentation of its `load`.
use apm2go.Base.{[], ◌∷◌, ◌++◌, Bool, false, ◌||◌, ◌==◌, ◌≡◌}
use apm2go.Base.Eq.{Bytes, text_eq}
use apm2go.Base.Dict.{Dict}
use apm2go.Base.Text.{has_byte}
use apm2go.Injector.Render.{valid_utf8, escape_property}

-- Whether a value begins with white space that is not escaped.
abbrev pub begins_blank : Bytes → Bool
begins_blank [] = false
begins_blank (c ∷ s) = c == 32 || c == 12

-- A key and a value that can be written: both are UTF-8, no blank and no form feed is in the key, and
-- none begins the value.
pub record IsWritable (k v : Bytes) : Type 0 where
  pub key_utf8 : valid_utf8 k ≡ k
  pub value_utf8 : valid_utf8 v ≡ v
  pub no_blank : has_byte 32 k ≡ false
  pub no_form_feed : has_byte 12 k ≡ false
  pub begins : begins_blank v ≡ false

-- A key and a value as the line that is written for them.
abbrev line_of : Bytes → Bytes → Bytes
line_of k v = escape_property k ++ (b'=' ∷ escape_property v)
