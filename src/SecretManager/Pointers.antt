-- ===== src/SecretManager/Pointers.antt =====
-- internal/secretmanager/store.go: the pointer that `resolveVersion` returns.
use blitzy_localgcp.Base.{
  ℕ, suc, ◌+◌, ◌≡◌, refl, subst, List, [], ◌∷◌, Option, none, some, arith, Str, bytes, str_eq,
  get_elem?, lookup, ok, Bool-cases, Option-cases, inl, inr,
}
use blitzy_localgcp.SecretManager.Data.{VersionData, SecretData, Store}
use blitzy_localgcp.SecretManager.Versions.{resolve_in, find_version, last_version, or_not_found}
use blitzy_localgcp.SecretManager.{resolve_version}

-- What `find_version` and `last_version` return stands in the slice.
pub find_version-get :
    (name : Str) (i : ℕ) (vds : List VersionData) {j : ℕ} {vd : VersionData}
    → find_version name i vds ≡ some (j, vd)
    → (d : ℕ) × (j ≡ i + d) × (get_elem? vds d ≡ some vd)
unfolding find_version
find_version-get name i [] h = cc
find_version-get name i (x ∷ xs) {j} {vd} h = elim (Bool-cases (str_eq x.version.name name)) [
  | inl e ↦ (0, ground arith, ground arith)
  | inr e ↦
      let (d, p, g) = find_version-get name (suc i) xs {j = j} {vd = vd} (rw e at h) in
      (suc d, omega arith, g)
]

pub last_version-get :
    (i : ℕ) (vd : VersionData) (rest : List VersionData)
    → (d : ℕ) × ((last_version i vd rest).0 ≡ i + d)
      × (get_elem? (vd ∷ rest) d ≡ some (last_version i vd rest).1)
unfolding last_version
last_version-get i vd [] = (0, omega arith, refl)
last_version-get i vd (x ∷ rest) =
    let (d, p, g) = last_version-get (suc i) x rest in (suc d, omega arith, g)

or_not_found-ok :
    (name : Str) (o : Option (ℕ × VersionData)) {r : ℕ × VersionData}
    → or_not_found name o ≡ ok r
    → o ≡ some r
unfolding or_not_found
or_not_found-ok name none h = cc
or_not_found-ok name (some r) h = cc

resolve_in-get :
    (name id : Str) (vds : List VersionData) (i : ℕ) (vd : VersionData)
    → resolve_in name id vds ≡ ok (i, vd)
    → get_elem? vds i ≡ some vd
unfolding resolve_in
resolve_in-get name id [] i vd h = cc
resolve_in-get name id (x ∷ rest) i vd h = elim (Bool-cases (str_eq id (bytes "latest"))) [
  | inl e ↦
      let (d, p, g) = last_version-get 0 x rest in ground (arith, p, g, rw (e, resolve_in) at h)
  | inr e ↦
      let (d, p, g) =
        find_version-get _ 0 (x ∷ rest) {j = i} {vd = vd}
          (or_not_found-ok _ _ (rw (e, resolve_in) at h)) in
      let q : d ≡ i = omega (arith, p) in subst (λ k. get_elem? (x ∷ rest) k ≡ some vd) q g
]

-- A pointer that `resolve_version` returns is into a secret that is there.
pub resolve_version-get :
    (s : Store) (name id : Str) (i : ℕ) (vd : VersionData)
    → resolve_version s name id ≡ ok (i, vd)
    → (sd : SecretData) × (lookup name s.secrets ≡ some sd) × (get_elem? sd.versions i ≡ some vd)
unfolding resolve_version
resolve_version-get s name id i vd h = elim (Option-cases (lookup name s.secrets)) [
  | inl gone ↦ absurd (cc h)
  | inr (sd, found) ↦
      (sd, found, resolve_in-get name id sd.versions i vd (rw (found, resolve_version) at h))
]
