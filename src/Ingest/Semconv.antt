-- ===== src/Ingest/Semconv.antt =====
-- internal/receiver/semconv.go: detectRuntime, firstNonEmpty and firstNonZero. A missing key of a
-- resource reads as the empty string.
use apm2go.Base.{
  ℕ, List, [], ◌∷◌, Bool, true, false, ◌||◌, if◌then◌else◌, ◌==◌, is_empty, none, some, All, ◌≡◌,
  refl, inl, inr, Bool-cases,
}
use apm2go.Base.Eq.{Bytes, codes, bytes_eq, text_eq}
use apm2go.Base.Dict.{Dict, lookup, contains}
use apm2go.Base.Text.{to_lower, trim_space, has_substring}

abbrev pub uninformative_runtimes : List Bytes
uninformative_runtimes =
    codes "generic" ∷ codes "unknown" ∷ codes "c" ∷ codes "cpp" ∷ codes "c++" ∷ codes "native" ∷ []

abbrev pub runtime_aliases : Dict Bytes Bytes
runtime_aliases =
    (codes "node", codes "nodejs")
    ∷ (codes "js", codes "nodejs")
    ∷ (codes "dotnet", codes "dotnet")
    ∷ (codes "py", codes "python")
    ∷ []

abbrev pub attribute : Bytes → Dict Bytes Bytes → Bytes
attribute k resource = elim (lookup k resource) [ none ↦ [] | some v ↦ v ]

-- The answer for a language that was named.
unfoldable pub of_language : Bytes → Bytes
of_language language =
    if contains language uninformative_runtimes
    then []
    else elim (lookup language runtime_aliases) [ some alias ↦ alias | none ↦ language ]

-- The answer for a product name, lowered.
unfoldable pub of_product : Bytes → Bytes
of_product name =
    if is_empty name
    then []
    else if has_substring name (codes "jdk")
        || (has_substring name (codes "jvm")
            || (has_substring name (codes "java") || has_substring name (codes "openj9")))
    then codes "java"
    else if has_substring name (codes "node")
    then codes "nodejs"
    else if has_substring name (codes "python") || has_substring name (codes "cpython")
    then codes "python"
    else if has_substring name (codes "go")
    then codes "go"
    else []

unfoldable pub detect_runtime : Dict Bytes Bytes → Bytes
detect_runtime resource =
    let language = to_lower (trim_space (attribute (codes "telemetry.sdk.language") resource)) in
    if is_empty language
    then of_product (to_lower (attribute (codes "process.runtime.name") resource))
    else of_language language

unfoldable pub first_non_empty : List Bytes → Bytes
first_non_empty [] = []
first_non_empty (v ∷ values) = let rest = first_non_empty values in if is_empty v then rest else v

unfoldable pub first_non_zero : List ℕ → ℕ
first_non_zero [] = 0
first_non_zero (v ∷ values) = let rest = first_non_zero values in if v == 0 then rest else v

abbrev pub Informative : Bytes → Type 0
Informative name = contains name uninformative_runtimes ≡ false

Informative-if :
    (b : Bool) (x y : Bytes) → Informative x → Informative y → Informative (if b then x else y)
Informative-if true x y hx hy = hx
Informative-if false x y hx hy = hy

-- The answers for the products.
answers-Informative :
    All Informative ([] ∷ codes "java" ∷ codes "nodejs" ∷ codes "python" ∷ codes "go" ∷ [])
unfolding contains bytes_eq
answers-Informative = (refl, (refl, (refl, (refl, (refl, tt)))))

Informative-of_product : (name : Bytes) → Informative (of_product name)
unfolding of_product
Informative-of_product name =
    let (nothing, (java, (nodejs, (python, (go, _))))) = answers-Informative in
    Informative-if _ _ _ nothing (
      Informative-if _ _ _ java (
        Informative-if _ _ _ nodejs
          (Informative-if _ _ _ python (Informative-if _ _ _ go nothing))))

Informative-lookup :
    (k d : Bytes) (m : Dict Bytes Bytes)
    → All (λ kv. Informative kv.1) m
    → Informative d
    → Informative (elim (lookup k m) [ none ↦ d | some alias ↦ alias ])
unfolding lookup
Informative-lookup k d [] h hd = hd
Informative-lookup k d ((j, v) ∷ m) h hd = elim (Bool-cases (bytes_eq j k)) [
  | inl here ↦ rw here h.0
  | inr there ↦ rw there (Informative-lookup k d m h.1 hd)
]

aliases-Informative : All (λ kv. Informative kv.1) runtime_aliases
unfolding contains bytes_eq
aliases-Informative = (refl, (refl, (refl, (refl, tt))))

Informative-of_language : (language : Bytes) → Informative (of_language language)
unfolding of_language
Informative-of_language language = elim (Bool-cases (contains language uninformative_runtimes)) [
  | inl vague ↦ rw (vague, of_language) (unfold contains bytes_eq in refl)
  | inr clear ↦
      rw (clear, of_language)
        (Informative-lookup language language runtime_aliases aliases-Informative clear)
]

-- Whatever the attributes of a resource say, the runtime that is made of them is never one of the
-- words that stand for not knowing.
pub detect_runtime-Informative :
    (resource : Dict Bytes Bytes) → Informative (detect_runtime resource)
unfolding detect_runtime
detect_runtime-Informative resource =
    Informative-if _ _ _ (Informative-of_product _) (Informative-of_language _)
