-- ===== src/Uploads/Filename.antt =====
-- The names that uploaded files are given.
use Prim.Native.Char.{code}
use claude_code_portal.Prelude.{
  ◌≡◌, refl, ap, ◌∙◌, String, Bool, false, ◌||◌, arith, Bool-cases, inl, inr,
}
use text.Mathlib.Text.{◌==◌ as str_eq}
use claude_code_portal.Uploads.{is_separator, has_slash, base_name, keep_clean, sanitize_filename}

-- A separator or a NUL stands in the name.
abbrev pub has_separator : String → Bool
has_separator String.[] = false
has_separator (String.◌∷◌ c s) = is_separator (code c) || has_separator s

abbrev pub is_special : String → Bool
is_special name = str_eq name "" || (str_eq name "." || str_eq name "..")

keep_clean-clean : (s : String) → has_separator (keep_clean s) ≡ false
unfolding keep_clean
keep_clean-clean String.[] = refl
keep_clean-clean (String.◌∷◌ c s) = ground (arith, keep_clean-clean s)

keep_clean_same : (s : String) → has_separator s ≡ false → keep_clean s ≡ s
unfolding keep_clean
keep_clean_same String.[] h = refl
keep_clean_same (String.◌∷◌ c s) h = ground (arith, keep_clean_same s)

has_slash_none : (s : String) → has_separator s ≡ false → has_slash s ≡ false
unfolding has_slash
has_slash_none String.[] h = refl
has_slash_none (String.◌∷◌ c s) h = ground (arith, has_slash_none s)

base_name_same : (s : String) → has_separator s ≡ false → base_name s ≡ s
unfolding base_name
base_name_same String.[] h = refl
base_name_same (String.◌∷◌ c s) h = ground (arith, has_slash_none s)

abbrev pub IsSafe : String → Type 0
IsSafe name = (has_separator name ≡ false) × (is_special name ≡ false)

sanitize_filename_plain : (name : String) → IsSafe (sanitize_filename name)
unfolding sanitize_filename
sanitize_filename_plain name = elim (Bool-cases (is_special (keep_clean (base_name name)))) [
  | inl special ↦ rw special (refl, refl)
  | inr plain ↦ rw plain (keep_clean-clean (base_name name), plain)
]

sanitize_filename_same : (name : String) → IsSafe name → sanitize_filename name ≡ name
unfolding sanitize_filename
sanitize_filename_same name (clean, plain) =
    let e : keep_clean (base_name name) ≡ name =
      ap keep_clean (base_name_same name clean) ∙ keep_clean_same name clean in
    rw (e, plain)

-- Whatever name a client gives, the file's name has no separator and no NUL, and is neither empty nor
-- `.` nor `..`. A second cleaning, by the proxy after
-- the backend, changes nothing.
pub sanitize_filename-IsSafe :
    (name : String)
    → IsSafe (sanitize_filename name)
      × (sanitize_filename (sanitize_filename name) ≡ sanitize_filename name)
sanitize_filename-IsSafe name =
    let safe = sanitize_filename_plain name in (safe, sanitize_filename_same _ safe)
