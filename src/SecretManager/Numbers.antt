-- ===== src/SecretManager/Numbers.antt =====
-- internal/secretmanager/store.go: the search for a version by its number.
use blitzy_localgcp.Base.{
  format_int32, ℕ, zero, suc, ◌+◌, ◌<◌, ◌≤◌, ◌^◌, ◌%◌, ◌≡◌, refl, sym, ap, subst, ap₂, ◌∙◌, List,
  [], ◌∷◌, ◌++◌, length, some, arith, Str, bytes, str_eq, str_eq_iff, lookup, ok, append_cancel,
  Bool-cases, inl, inr, false, get_elem?, lt→ltb, format_decimal, format_decimal_injective,
  AllDigits, format_decimal-AllDigits,
}
use mathlib.Core.Option.{some-injective}
use blitzy_localgcp.SecretManager.Data.{VersionData, SecretData, Store}
use blitzy_localgcp.SecretManager.Versions.{version_name, resolve_in, find_version, or_not_found}
use blitzy_localgcp.SecretManager.Invariant.{Numbered, IsWellFormed}
use blitzy_localgcp.SecretManager.{resolve_version}

format_int32_injective :
    (m n : ℕ) → m < 2 ^ 31 → n < 2 ^ 31 → format_int32 m ≡ format_int32 n → m ≡ n
unfolding format_int32
format_int32_injective m n hm hn h =
    format_decimal_injective m n (rw (lt→ltb m (2 ^ 31) hm, lt→ltb n (2 ^ 31) hn) at h)

latest-not-AllDigits : ¬ AllDigits (bytes "latest")
unfolding bytes
latest-not-AllDigits d = omega arith

-- A number is not `latest`.
format_int32_not_latest : (n : ℕ) → n < 2 ^ 31 → str_eq (format_int32 n) (bytes "latest") ≡ false
unfolding format_int32
format_int32_not_latest n h = elim (Bool-cases (str_eq (format_int32 n) (bytes "latest"))) [
  | inl e ↦
      let digits_of : format_decimal n ≡ bytes "latest" =
        rw (lt→ltb n (2 ^ 31) h) at ((str_eq_iff _ _).0 e) in
      absurd (latest-not-AllDigits (subst AllDigits digits_of (format_decimal-AllDigits n)))
  | inr e ↦ e
]

version_name_injective :
    (name : Str) (m n : ℕ)
    → m < 2 ^ 31
    → n < 2 ^ 31
    → version_name name (format_int32 m) ≡ version_name name (format_int32 n)
    → m ≡ n
unfolding version_name
version_name_injective name m n hm hn h =
    format_int32_injective m n hm hn (append_cancel (name ++ bytes "/versions/") _ _ h)

get-lt :
    (vds : List VersionData) (k : ℕ) {vd : VersionData} → get_elem? vds k ≡ some vd → k < length vds
get-lt [] k h = cc
get-lt (x ∷ xs) zero h = omega arith
get-lt (x ∷ xs) (suc k) {vd} h = omega (arith, get-lt xs k {vd = vd} h)

-- The versions before the one that is looked for have other names.
find_version-number :
    (name : Str) (n i k : ℕ) (vds : List VersionData) (vd : VersionData)
    → n + length vds ≤ 2 ^ 31
    → Numbered name n vds
    → get_elem? vds k ≡ some vd
    → find_version (version_name name (format_int32 (n + k))) i vds ≡ some (i + k, vd)
unfolding find_version
find_version-number name n i k [] vd b h g = cc
find_version-number name n i zero (x ∷ xs) vd b h g =
    rw ((str_eq_iff _ _).1 (h.0 ∙ ap (λ k. version_name name (format_int32 k)) (here n)))
      (ap₂ (λ j v. some (j, v)) (here i) (some-injective _ _ g))
  where
    here : (j : ℕ) → j ≡ j + 0
    here j = omega arith
find_version-number name n i (suc k) (x ∷ xs) vd b h g =
    elim (Bool-cases (str_eq x.version.name (version_name name (format_int32 (n + suc k))))) [
      | inl e ↦ absurd (
          not_here (
            version_name_injective name n (n + suc k) (omega arith) (omega (arith, get-lt xs k g))
              (sym h.0 ∙ (str_eq_iff _ _).0 e)))
      | inr e ↦ rw e (
          subst
            (λ j.
              find_version (version_name name (format_int32 j)) (suc i) xs ≡ some (suc i + k, vd))
            next_number
            (find_version-number name ((n + 1) % 2 ^ 32) (suc i) k xs vd (omega arith) h.2 g)
          ∙ ap (λ j. some (j, vd)) next_place)
    ]
  where
    not_here : n ≡ n + suc k → ⊥
    not_here q = omega arith

    next_number : (n + 1) % 2 ^ 32 + k ≡ n + suc k
    next_number = omega arith

    next_place : suc i + k ≡ i + suc k
    next_place = omega arith

resolve_in-number :
    (name : Str) (vds : List VersionData) (i : ℕ) (vd : VersionData)
    → get_elem? vds i ≡ some vd
    → Numbered name 1 vds
    → length vds < 2 ^ 31
    → resolve_in name (format_int32 (i + 1)) vds ≡ ok (i, vd)
unfolding resolve_in
resolve_in-number name [] i vd at h b = cc
resolve_in-number name (x ∷ xs) i vd at h b =
    rw (format_int32_not_latest (i + 1) (omega (arith, get-lt (x ∷ xs) i {vd = vd} at))) (
      ap (or_not_found _) (
        subst (λ j. find_version (version_name name (format_int32 j)) 0 (x ∷ xs) ≡ some (0 + i, vd))
          number (find_version-number name 1 0 i (x ∷ xs) vd (omega arith) h at)
        ∙ ap (λ j. some (j, vd)) place)
      ∙ unfold or_not_found in refl)
  where
    number : 1 + i ≡ i + 1
    number = omega arith

    place : 0 + i ≡ i
    place = omega arith

-- The version at place `i` of a secret has the number i + 1, and is what that number resolves to,
-- while there are fewer than 2 ^ 31 versions.
pub resolve_version-number :
    (s : Store) (name : Str) (sd : SecretData) (i : ℕ) (vd : VersionData)
    → IsWellFormed s
    → lookup name s.secrets ≡ some sd
    → get_elem? sd.versions i ≡ some vd
    → length sd.versions < 2 ^ 31
    → resolve_version s name (format_int32 (i + 1)) ≡ ok (i, vd)
unfolding resolve_version
resolve_version-number s name sd i vd w found at b =
    rw (found, resolve_version)
      (resolve_in-number name sd.versions i vd at (w.at_key name sd found).numbered b)
